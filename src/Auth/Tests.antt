-- ===== src/Auth/Tests.antt =====
-- Concrete inputs of the authentication theorems, and runs that can be followed in the source.
use wealthfolio_connect_self.Prelude.{
  ℕ, ◌+◌, ◌*◌, ◌≤◌, ◌<◌, String, ◌≡◌, refl, Bool, true, false, ◌&&◌, none, some, List, [], ◌∷◌,
  arith, eq_iff, str_eq, ◌==◌, length, if◌then◌else◌,
}
use wealthfolio_connect_self.Prelude.Int.{ℤ, pos, negsuc}
use wealthfolio_connect_self.Prelude.Map.{lookup, insert, IsMap}
use wealthfolio_connect_self.Prelude.Text.{trim_space, strip_prefix, map_text, take_text, drop_text}
use wealthfolio_connect_self.Prelude.Time.{second, decimal}
use wealthfolio_connect_self.Auth.Defs.{ok, err, Claims, TokenPair, invalid_refresh_token, foreign}
use wealthfolio_connect_self.Auth.Refresh.{
  RefreshStore, is_expired, validate, issue, evict_expired, token_of, new_refresh_tokens,
  refresh_ttl,
}
use wealthfolio_connect_self.Auth.Refresh.Lifetime.{reached, validate-issue}
use wealthfolio_connect_self.Auth.Refresh.Laws.{Call, validates, issues, drops, run, run-IsBounded}
use wealthfolio_connect_self.Auth.Signer.{
  Jwt, IsJwt, JwtSigner, Payload, failed, token, sign, verify, verify-sign,
}
use wealthfolio_connect_self.Auth.Service.{
  Service, AuthState, Readings, TokenMetadata, refresh, issue_session, issue_pair, issue_refresh,
  record_pair, verify_access_token, is_allowed_email, subject_from_email, normalise_email,
  is_listed,
}
use wealthfolio_connect_self.Auth.Service.Sessions.{IsGoodFor, refresh-IsGoodFor}
use wealthfolio_connect_self.Auth.Gate.{Request, pass, bearer, bearer_pass}

-- 2025-11-29 08:00:00 UTC.
abbrev now : ℕ
now = 63900000000 * second

abbrev store : RefreshStore
store = record {
  static_mode = false;
  subject = "self-hosted-user";
  ttl = 100;
  cap = 2;
  tokens = ("rt-old", record { subject = "u1"; expires_at = now + 50 }) ∷ [];
}

run-IsBounded_example :
    IsMap (run (new_refresh_tokens false) (issues 5 "u1" ∷ validates 9 "rt" ∷ [])).tokens
    × (length (run (new_refresh_tokens false) (issues 5 "u1" ∷ validates 9 "rt" ∷ [])).tokens
        ≤ 10000)
run-IsBounded_example = run-IsBounded false (issues 5 "u1" ∷ validates 9 "rt" ∷ [])

abbrev minted : String
minted = "rt-u2-1764403200000000000"

issue_runs : (issue (reached (issues 5 "u1" ∷ [])) now "u2").0 ≡ ok minted
unfolding issue evict_expired is_expired token_of decimal new_refresh_tokens run insert
issue_runs = refl

abbrev quiet_calls : List Call
quiet_calls = validates (now + 3) "rt" ∷ drops (now + 4) "rt" ∷ []

validate-issue_example :
    let t = run (issue (reached (issues 5 "u1" ∷ [])) now "u2").1 quiet_calls in
    (now + 7 ≤ now + refresh_ttl → validate t (now + 7) minted ≡ (ok "u2", t))
    × (now + refresh_ttl < now + 7
        → ((validate t (now + 7) minted).0 ≡ err invalid_refresh_token)
          × (lookup minted (validate t (now + 7) minted).1.tokens ≡ none))
validate-issue_example =
    validate-issue (issues 5 "u1" ∷ []) quiet_calls now (now + 7) "u2" issue_runs
      (omega arith, ((omega arith, λ same. ground (arith, same, eq_iff minted "rt")), tt))

-- A library that signs one payload.
abbrev signed : String → Payload
signed who = record { sub = who; iat = pos 1764403200; exp = pos 1764406800; jti = "t1" }

abbrev int_eq : ℤ → ℤ → Bool
int_eq (pos a) (pos b) = a == b
int_eq (negsuc a) (negsuc b) = a == b
int_eq _ _ = false

abbrev is_signed : String → Payload → Bool
is_signed who p =
    str_eq p.sub who
    && str_eq p.jti "t1"
    && int_eq p.iat (signed who).iat
    && int_eq p.exp (signed who).exp

abbrev lib : String → Jwt
lib who = record {
  signed_string = λ secret p. if is_signed who p then ok "h.p.s" else err (foreign "no");
  parse = λ secret at raw.
      if str_eq raw "h.p.s"
      then token true (
          some (record {
            sub = some who;
            jti = some (signed who).jti;
            iat = some (signed who).iat;
            exp = some (signed who).exp;
          }))
      else failed false;
}

eq-int_eq : (a b : ℤ) → int_eq a b ≡ true → a ≡ b
eq-int_eq (pos a) (pos b) h = ground arith
eq-int_eq (negsuc a) (negsuc b) h = ground arith
eq-int_eq (pos a) (negsuc b) h = cc
eq-int_eq (negsuc a) (pos b) h = cc

lib-signs :
    (who : String) (p : Payload) (raw secret : String)
    → (lib who).signed_string secret p ≡ ok raw
    → (raw ≡ "h.p.s")
      × (p.sub ≡ who)
      × (p.jti ≡ "t1")
      × (p.iat ≡ (signed who).iat)
      × (p.exp ≡ (signed who).exp)
lib-signs who p raw secret h = ground (
  arith,
  eq_iff p.sub who,
  eq_iff p.jti "t1",
  eq-int_eq p.iat (signed who).iat,
  eq-int_eq p.exp (signed who).exp,
)

lib-IsJwt : (who : String) → IsJwt (lib who)
lib-IsJwt who = record {
  signed_string-ne =
      λ secret raw p h e. ground (arith, lib-signs who p raw secret h, eq_iff "h.p.s" "");
  parse-signed_string =
      λ secret raw p at h before. ground (arith, lib-signs who p raw secret h, eq_iff raw "h.p.s");
}

abbrev signer : JwtSigner
signer = record { secret = "k"; ttl = 3600 * second }

abbrev claims : Claims
claims = record { subject = "u1"; issued_at = 0; expires_at = 0; token_id = "t1" }

verify-sign_example :
    verify (lib "u1") signer (now + 9) "h.p.s"
    ≡ ok (record claims { issued_at = now; expires_at = now + 3600 * second })
verify-sign_example =
    verify-sign (lib "u1") signer now (now + 9) claims "h.p.s" (lib-IsJwt "u1")
      (unfold sign in refl) (omega arith)

abbrev service : String → Service (List TokenMetadata)
service who = record {
  config = record {
    static_token_mode = false;
    publishable_key = "pk";
    user_emails = "u@x.io" ∷ [];
    static_otp = "letmein";
    token_ttl = pos 0;
  };
  jwt = lib who;
  signer = signer;
  insert = λ t audit. (ok tt, t ∷ audit);
  unicode = record { lower = λ c. c; upper = λ c. c };
  sha256_hex = λ s. "u1";
}

abbrev readings : Readings
readings = record { at_validate = now; now = now; at_sign = now; at_issue = now + 1 }

abbrev state : AuthState (List TokenMetadata)
state = record { store = store; audit = [] }

abbrev pair : TokenPair
pair = record {
  access_token = "h.p.s";
  refresh_token = "rt-u1-1764403200000000001";
  expires_in = 3600;
}

refresh_runs : (refresh (service "u1") readings "t1" "rt-old" state).0 ≡ ok pair
unfolding refresh validate is_expired lookup issue_pair sign issue_refresh record_pair issue
    evict_expired token_of decimal
refresh_runs = refl

refresh-IsGoodFor_example :
    (subject : String) × ((validate state.store readings.at_validate "rt-old").0 ≡ ok subject)
    × IsGoodFor
        (service "u1")
        readings
        subject
        (refresh (service "u1") readings "t1" "rt-old" state).1
        pair
refresh-IsGoodFor_example =
    refresh-IsGoodFor (service "u1") readings "t1" "rt-old" state {pair = pair} (lib-IsJwt "u1")
      (omega arith) (omega arith) refl refresh_runs

abbrev login_pair : TokenPair
login_pair = record {
  access_token = "h.p.s";
  refresh_token = "rt-u1-----1764403200000000001";
  expires_in = 3600;
}

login_runs : (issue_session (service "u1----") readings "t1" " u@x.io" state).0 ≡ ok login_pair
unfolding issue_session is_allowed_email normalise_email is_listed subject_from_email trim_space
    map_text take_text drop_text is_expired issue_pair sign issue_refresh record_pair issue
    evict_expired token_of decimal
login_runs = refl

abbrev request : Request
request = record { method = "GET"; api_key = ""; authorization = "Bearer h.p.s" }

bearer_passes :
    bearer (service "u1") (now + 9) (now + 9) request
    ≡ pass (some (record claims { issued_at = now; expires_at = now + 3600 * second }))
unfolding bearer strip_prefix verify_access_token verify
bearer_passes = refl

bearer_pass_example :
    (raw : String) × (c : Claims) × (strip_prefix "Bearer " request.authorization ≡ some raw)
    × (verify_access_token (service "u1") (now + 9) (now + 9) raw ≡ ok c)
    × (some (record claims { issued_at = now; expires_at = now + 3600 * second }) ≡ some c)
bearer_pass_example =
    bearer_pass (service "u1") (now + 9) (now + 9) request
      {seen = some (record claims { issued_at = now; expires_at = now + 3600 * second })}
      (λ e. ground (arith, eq_iff "GET" "OPTIONS")) refl bearer_passes
