-- ===== src/Auth/Refresh.antt =====
-- The in-memory refresh-token store of internal/infrastructure/auth/jwt.go. The clock's reading is
-- an argument of each call. Issue holds the mutex throughout. Validate reads under it, lets it go, and
-- takes it again to delete an entry that it found expired: `validate` is a call that nothing comes
-- between, and `drop_entry` that late deletion on its own, which a sequence of steps may place
-- anywhere, since the reading before it changes nothing. The laws are in the children.
pub mod Evict
pub mod Laws
pub mod Lifetime
use Prim.Native.String.{◌++◌}
use wealthfolio_connect_self.Prelude.{
  ℕ, ◌+◌, String, Bool, true, false, not, ◌&&◌, Option, none, some, [], ◌∷◌, ltb, leb, str_eq,
  length, if◌then◌else◌,
}
use wealthfolio_connect_self.Prelude.Map.{Map, lookup, insert, erase}
use wealthfolio_connect_self.Prelude.Time.{hour, is_zero, after, unix_nano, decimal}
use wealthfolio_connect_self.Prelude.{◌*◌}
use wealthfolio_connect_self.Auth.Defs.{Result, ok, err, invalid_refresh_token, at_capacity}

abbrev pub refresh_ttl : ℕ
refresh_ttl = 30 * 24 * hour

abbrev pub max_refresh_tokens : ℕ
max_refresh_tokens = 10000

pub record RefreshEntry : Type 0 where
  pub subject : String
  pub expires_at : ℕ

pub record RefreshStore : Type 0 where
  pub static_mode : Bool
  pub subject : String
  pub ttl : ℕ
  pub cap : ℕ
  pub tokens : Map RefreshEntry

-- `NewRefreshTokens`
unfoldable pub new_refresh_tokens : Bool → RefreshStore
new_refresh_tokens static_token_mode = record {
  static_mode = static_token_mode;
  subject = "self-hosted-user";
  ttl = refresh_ttl;
  cap = max_refresh_tokens;
  tokens = [];
}

-- `!e.expiresAt.IsZero() && now.After(e.expiresAt)`
unfoldable pub is_expired : ℕ → RefreshEntry → Bool
is_expired now e = not (is_zero e.expires_at) && after now e.expires_at

-- `delete(s.tokens, token)`
unfoldable pub drop_entry : String → RefreshStore → RefreshStore
drop_entry token s = record s { tokens = erase token s.tokens }

-- What `Validate` does with the entry that it found, or did not find.
unfoldable pub check_entry :
    RefreshStore → ℕ → String → Option RefreshEntry → Result String × RefreshStore
check_entry s now token none = (err invalid_refresh_token, s)
check_entry s now token (some entry) =
    if is_expired now entry
    then (err invalid_refresh_token, drop_entry token s)
    else (ok entry.subject, s)

unfoldable pub validate : RefreshStore → ℕ → String → Result String × RefreshStore
unfolding check_entry drop_entry
validate s now token =
    if str_eq token ""
    then (err invalid_refresh_token, s)
    else if s.static_mode
    then (ok s.subject, s)
    else check_entry s now token (lookup token s.tokens)

-- `evictExpiredLocked`, on the map.
unfoldable pub evict_expired : ℕ → Map RefreshEntry → Map RefreshEntry
evict_expired now [] = []
evict_expired now ((k, v) ∷ m) =
    let rest = evict_expired now m in if is_expired now v then rest else (k, v) ∷ rest

-- `fmt.Sprintf("rt-%s-%d", subject, now.UnixNano())`
unfoldable pub token_of : String → ℕ → String
token_of subject now = "rt-" ++ subject ++ "-" ++ decimal (unix_nano now)

unfoldable pub issue : RefreshStore → ℕ → String → Result String × RefreshStore
issue s now subject =
    if s.static_mode
    then (ok "static-refresh-token", s)
    else let tokens = evict_expired now s.tokens in
      let token = token_of subject now in
      if ltb 0 s.cap && leb s.cap (length tokens)
      then (err at_capacity, record s { tokens = tokens })
      else (
        ok token,
        record s {
          tokens = insert token (record { subject = subject; expires_at = now + s.ttl }) tokens;
        },
      )
