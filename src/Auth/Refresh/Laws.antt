-- ===== src/Auth/Refresh/Laws.antt =====
-- The store keeps its bound, and a token is good from its issue to its expiry.
use wealthfolio_connect_self.Prelude.{
  ℕ, ◌+◌, ◌≤◌, ◌<◌, String, ◌≡◌, ◌≢◌, refl, Bool, false, none, some, List, [], ◌∷◌, arith, eq_iff,
  length,
}
use Prim.Native.String.{len, ◌++◌}
use text.Mathlib.TextPositions.{len-append}
use wealthfolio_connect_self.Prelude.Time.{decimal, unix_nano}
use wealthfolio_connect_self.Prelude.{ap, sym, eq_refl, ◌∙◌, str_eq_ne}
use wealthfolio_connect_self.Prelude.Map.{
  lookup, IsMap, insert-IsMap, erase-IsMap, lookup-insert, lookup-erase, length-insert,
  length-erase,
}
use wealthfolio_connect_self.Auth.Defs.{ok, err, invalid_refresh_token}
use wealthfolio_connect_self.Auth.Refresh.{
  RefreshEntry, RefreshStore, is_expired, drop_entry, validate, evict_expired, token_of, issue,
  new_refresh_tokens,
}
use wealthfolio_connect_self.Auth.Refresh.Evict.{
  live, lookup-evict_expired, evict_expired-IsMap, length-evict_expired,
}

-- The map has no key twice, and never more entries than the cap.
pub record IsBounded (s : RefreshStore) : Type 0 where
  pub unique : IsMap s.tokens
  pub within : 0 < s.cap → length s.tokens ≤ s.cap

pub new-IsBounded : (static : Bool) → IsBounded (new_refresh_tokens static)
unfolding new_refresh_tokens
new-IsBounded static = record { unique = tt; within = λ _. omega arith }

pub validate-IsBounded :
    (s : RefreshStore) (now : ℕ) (token : String) → IsBounded s → IsBounded (validate s now token).1
unfolding validate
validate-IsBounded s now token v =
    ground (arith, erase-IsMap token s.tokens v.unique, length-erase token s.tokens)

pub issue-IsBounded :
    (s : RefreshStore) (now : ℕ) (subject : String)
    → IsBounded s
    → IsBounded (issue s now subject).1
unfolding issue
issue-IsBounded s now subject v =
    let live = evict_expired now s.tokens in
    let entry : RefreshEntry = record { subject = subject; expires_at = now + s.ttl } in
    ground (
      arith,
      evict_expired-IsMap now s.tokens v.unique,
      length-evict_expired now s.tokens,
      insert-IsMap (token_of subject now) entry live,
      length-insert (token_of subject now) entry live,
    )

pub drop_entry-IsBounded :
    (token : String) (s : RefreshStore) → IsBounded s → IsBounded (drop_entry token s)
unfolding drop_entry
drop_entry-IsBounded token s v = record {
  unique = erase-IsMap token s.tokens v.unique;
  within = λ h. omega (arith, v.within h, length-erase token s.tokens);
}

-- A step of the store, at a reading of the clock: a call, or the deletion of an overlapped Validate.
pub data Call : Type 0 where
  validates issues drops : ℕ → String → Call

abbrev pub step : RefreshStore → Call → RefreshStore
step s (validates now token) = (validate s now token).1
step s (issues now subject) = (issue s now subject).1
step s (drops now token) = drop_entry token s

unfoldable pub run : RefreshStore → List Call → RefreshStore
run s [] = s
run s (c ∷ cs) = run (step s c) cs

pub run-IsBounded_from : (s : RefreshStore) (cs : List Call) → IsBounded s → IsBounded (run s cs)
unfolding run
run-IsBounded_from s [] v = v
run-IsBounded_from s (validates now token ∷ cs) v =
    run-IsBounded_from (step s (validates now token)) cs (validate-IsBounded s now token v)
run-IsBounded_from s (issues now subject ∷ cs) v =
    run-IsBounded_from (step s (issues now subject)) cs (issue-IsBounded s now subject v)
run-IsBounded_from s (drops now token ∷ cs) v =
    run-IsBounded_from (step s (drops now token)) cs (drop_entry-IsBounded token s v)

pub ttl-issue :
    (s : RefreshStore) (now : ℕ) (subject : String) → (issue s now subject).1.ttl ≡ s.ttl
unfolding issue
ttl-issue s now subject = ground arith

pub static_mode-validate :
    (s : RefreshStore) (now : ℕ) (token : String)
    → (validate s now token).1.static_mode ≡ s.static_mode
unfolding validate
static_mode-validate s now token = ground arith

pub static_mode-issue :
    (s : RefreshStore) (now : ℕ) (subject : String)
    → (issue s now subject).1.static_mode ≡ s.static_mode
unfolding issue
static_mode-issue s now subject = ground arith

cap-step : (s : RefreshStore) (c : Call) → (step s c).cap ≡ s.cap
unfolding validate issue drop_entry
cap-step s (validates now token) = ground arith
cap-step s (issues now subject) = ground arith
cap-step s (drops now token) = refl

cap-run : (s : RefreshStore) (cs : List Call) → (run s cs).cap ≡ s.cap
unfolding run
cap-run s [] = refl
cap-run s (c ∷ cs) = cap-run (step s c) cs ∙ cap-step s c

-- After any sequence of Validate and Issue calls on a new store, overlapped or not, the
-- refresh-token map has no key twice and at most 10000 entries.
pub run-IsBounded :
    (static : Bool) (cs : List Call)
    → IsMap (run (new_refresh_tokens static) cs).tokens
      × (length (run (new_refresh_tokens static) cs).tokens ≤ 10000)
unfolding new_refresh_tokens
run-IsBounded static cs =
    let v = run-IsBounded_from (new_refresh_tokens static) cs (new-IsBounded static) in
    (v.unique, omega (arith, v.within, cap-run (new_refresh_tokens static) cs))

pub token_of-ne : (subject : String) (now : ℕ) → token_of subject now ≢ ""
unfolding token_of
token_of-ne subject now e =
    absurd (omega (arith, ap len e, len-append "rt-" (subject ++ "-" ++ decimal (unix_nano now))))

module _ (s : RefreshStore) (now later : ℕ) (subject : String) where
  abbrev pub issued : RefreshEntry
  issued = record { subject = subject; expires_at = now + s.ttl }

  -- What the store holds under the token that a successful `issue` returned.
  pub lookup-issue :
      {token : String}
      → s.static_mode ≡ false
      → (issue s now subject).0 ≡ ok token
      → (token ≡ token_of subject now)
        × (lookup token (issue s now subject).1.tokens ≡ some issued)
        × ((issue s now subject).1.static_mode ≡ false)
  unfolding issue
  lookup-issue mode h =
      let key = token_of subject now in
      ground (arith, lookup-insert key key issued (evict_expired now s.tokens), eq_refl key)

-- The same for the call right after `issue`, of any store outside static-token mode.
pub validate-issue_next :
    (s : RefreshStore) (now later : ℕ) (subject : String) {token : String}
    → s.static_mode ≡ false
    → 0 < now
    → (issue s now subject).0 ≡ ok token
    → let t = (issue s now subject).1 in
      (later ≤ now + s.ttl → validate t later token ≡ (ok subject, t))
      × (now + s.ttl < later
          → ((validate t later token).0 ≡ err invalid_refresh_token)
            × (lookup token (validate t later token).1.tokens ≡ none))
unfolding validate is_expired
validate-issue_next s now later subject {token} mode pos h =
    let (is, found, dynamic) = lookup-issue s now later subject mode h in
    let nonempty = str_eq_ne token "" (λ e. token_of-ne subject now (sym is ∙ e)) in
    let held = (issue s now subject).1.tokens in
    (
      λ le. ground (arith, nonempty, found, dynamic),
      λ lt. ground (arith, nonempty, found, dynamic, lookup-erase token token held, eq_refl token),
    )

-- What `issue` leaves under the other tokens: what eviction leaves.
pub lookup-issue_other :
    (s : RefreshStore) (now : ℕ) (subject other : String)
    → IsMap s.tokens
    → s.static_mode ≡ false
    → other ≢ token_of subject now
    → lookup other (issue s now subject).1.tokens ≡ live now (lookup other s.tokens)
unfolding issue
lookup-issue_other s now subject other unique mode ne =
    let key = token_of subject now in
    ground (
      arith,
      lookup-evict_expired now other s.tokens unique,
      eq_iff key other,
      lookup-insert key other (issued s now 0 subject) (evict_expired now s.tokens),
    )
