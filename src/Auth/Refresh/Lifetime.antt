-- ===== src/Auth/Refresh/Lifetime.antt =====
-- The life of a refresh token in the store of internal/infrastructure/auth/jwt.go.
use wealthfolio_connect_self.Prelude.{
  ℕ, ◌+◌, ◌≤◌, ◌<◌, String, ◌≡◌, ◌≢◌, refl, sym, ◌∙◌, ◌⊎◌, inl, inr, false, none, some, List, [],
  ◌∷◌, All, arith, eq_iff, eq_refl, str_eq_ne,
}
use wealthfolio_connect_self.Prelude.Map.{lookup, lookup-erase}
use wealthfolio_connect_self.Auth.Defs.{ok, err, invalid_refresh_token}
use wealthfolio_connect_self.Auth.Refresh.{
  RefreshEntry, RefreshStore, is_expired, drop_entry, validate, token_of, issue, new_refresh_tokens,
  refresh_ttl,
}
use wealthfolio_connect_self.Auth.Refresh.Laws.{
  IsBounded, Call, validates, issues, drops, run, run-IsBounded_from, new-IsBounded,
  static_mode-validate, static_mode-issue, validate-IsBounded, issue-IsBounded,
  drop_entry-IsBounded, lookup-issue, lookup-issue_other, token_of-ne,
}

-- A step between the issue of a token that expires at `expiry` and its use at `later`: the clock does
-- not go back, no other token is equal, and only what has expired is deleted late.
abbrev pub IsBetween : String → ℕ → ℕ → Call → Type 0
IsBetween token expiry later (validates at other) = at ≤ later
IsBetween token expiry later (issues at who) = (at ≤ later) × (token ≢ token_of who at)
IsBetween token expiry later (drops at other) = (at ≤ later) × (token ≡ other → expiry < at)

module _ (token : String) (e : RefreshEntry) (later : ℕ) (dated : 0 < e.expires_at) where
  -- The entry is there, or has expired before `later` and was dropped.
  record IsHeld (s : RefreshStore) : Type 0 where
    dynamic : s.static_mode ≡ false
    bounded : IsBounded s
    entry :
        (lookup token s.tokens ≡ some e) ⊎ ((lookup token s.tokens ≡ none) × (e.expires_at < later))

  validate-IsHeld :
      (s : RefreshStore) (at : ℕ) (other : String)
      → at ≤ later
      → IsHeld s
      → IsHeld (validate s at other).1
  unfolding validate is_expired
  validate-IsHeld s at other within h = record {
    dynamic = static_mode-validate s at other ∙ h.dynamic;
    bounded = validate-IsBounded s at other h.bounded;
    entry = elim h.entry [
      | inl there ↦
          ground
            (arith, there, within, h.dynamic, lookup-erase other token s.tokens, eq_iff other token)
      | inr (gone, past) ↦ ground (arith, gone, past, h.dynamic, lookup-erase other token s.tokens)
    ];
  }

  issue-IsHeld :
      (s : RefreshStore) (at : ℕ) (who : String)
      → at ≤ later
      → token ≢ token_of who at
      → IsHeld s
      → IsHeld (issue s at who).1
  unfolding is_expired
  issue-IsHeld s at who within apart h =
      let kept = lookup-issue_other s at who token h.bounded.unique h.dynamic apart in
      record {
        dynamic = static_mode-issue s at who ∙ h.dynamic;
        bounded = issue-IsBounded s at who h.bounded;
        entry = elim h.entry [
          | inl there ↦ ground (arith, there, kept, within)
          | inr (gone, past) ↦ ground (arith, gone, past, kept)
        ];
      }

  drop_entry-IsHeld :
      (s : RefreshStore) (at : ℕ) (other : String)
      → at ≤ later
      → (token ≡ other → e.expires_at < at)
      → IsHeld s
      → IsHeld (drop_entry other s)
  unfolding drop_entry
  drop_entry-IsHeld s at other within apart h = record {
    dynamic = h.dynamic;
    bounded = drop_entry-IsBounded other s h.bounded;
    entry = elim h.entry [
      | inl there ↦
          ground
            (arith, there, within, apart, lookup-erase other token s.tokens, eq_iff other token)
      | inr (gone, past) ↦ ground (arith, gone, past, lookup-erase other token s.tokens)
    ];
  }

  run-IsHeld :
      (cs : List Call) (s : RefreshStore)
      → All (IsBetween token e.expires_at later) cs
      → IsHeld s
      → IsHeld (run s cs)
  unfolding run
  run-IsHeld [] s between h = h
  run-IsHeld (validates at other ∷ cs) s between h =
      run-IsHeld cs (validate s at other).1 between.1 (validate-IsHeld s at other between.0 h)
  run-IsHeld (issues at who ∷ cs) s between h =
      run-IsHeld cs (issue s at who).1 between.1 (issue-IsHeld s at who between.0.0 between.0.1 h)
  run-IsHeld (drops at other ∷ cs) s between h =
      run-IsHeld cs (drop_entry other s) between.1
        (drop_entry-IsHeld s at other between.0.0 between.0.1 h)

  validate-held :
      (s : RefreshStore)
      → token ≢ ""
      → IsHeld s
      → (later ≤ e.expires_at → validate s later token ≡ (ok e.subject, s))
        × (e.expires_at < later
            → ((validate s later token).0 ≡ err invalid_refresh_token)
              × (lookup token (validate s later token).1.tokens ≡ none))
  unfolding validate is_expired
  validate-held s ne h =
      let nonempty = str_eq_ne token "" ne in
      elim h.entry [
        | inl there ↦ (
          λ le. ground (arith, nonempty, there, h.dynamic),
          λ lt.
              ground (
                arith,
                nonempty,
                there,
                h.dynamic,
                lookup-erase token token s.tokens,
                eq_refl token,
              ),
        )
        | inr (gone, past) ↦ (
          λ le. absurd (omega (arith, le, past)),
          λ lt. ground (arith, nonempty, gone, h.dynamic),
        )
      ]

-- No step changes the settings of a store.
run-settings :
    (cs : List Call) (s : RefreshStore)
    → ((run s cs).static_mode ≡ s.static_mode) × ((run s cs).ttl ≡ s.ttl)
unfolding run validate issue drop_entry
run-settings [] s = (refl, refl)
run-settings (validates at token ∷ cs) s = ground (arith, run-settings cs (validate s at token).1)
run-settings (issues at who ∷ cs) s = ground (arith, run-settings cs (issue s at who).1)
run-settings (drops at token ∷ cs) s = ground (arith, run-settings cs (drop_entry token s))

-- The stores that the calls of a server lead to.
abbrev pub reached : List Call → RefreshStore
reached cs = run (new_refresh_tokens false) cs

-- Outside static-token mode, and after any calls on a new store, a token that Issue returned is
-- accepted for its subject until 30 days have passed, and is refused and no longer stored after
-- that, whatever calls come between, overlapped or not; their clock must not go past the reading
-- of that Validate, they must not mint an equal token, and a late deletion of it must follow its
-- expiry.
pub validate-issue :
    (before between : List Call) (now later : ℕ) (subject : String) {token : String}
    → (issue (reached before) now subject).0 ≡ ok token
    → All (IsBetween token (now + refresh_ttl) later) between
    → let t = run (issue (reached before) now subject).1 between in
      (later ≤ now + refresh_ttl → validate t later token ≡ (ok subject, t))
      × (now + refresh_ttl < later
          → ((validate t later token).0 ≡ err invalid_refresh_token)
            × (lookup token (validate t later token).1.tokens ≡ none))
unfolding new_refresh_tokens run
validate-issue before between now later subject {token} minted quiet =
    let s = reached before in
    let (mode, life) = run-settings before (new_refresh_tokens false) in
    let sound = run-IsBounded_from (new_refresh_tokens false) before (new-IsBounded false) in
    let (is, found, dynamic) = lookup-issue s now later subject mode minted in
    let e : RefreshEntry = record { subject = subject; expires_at = now + refresh_ttl } in
    let dated : 0 < e.expires_at = omega arith in
    let held : IsHeld token e later dated (issue s now subject).1 = record {
      dynamic = dynamic;
      bounded = issue-IsBounded s now subject sound;
      entry = inl (rw life at found);
    } in
    validate-held token e later dated (run (issue s now subject).1 between)
      (λ empty. token_of-ne subject now (sym is ∙ empty))
      (run-IsHeld token e later dated between (issue s now subject).1 quiet held)
