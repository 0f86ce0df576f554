-- ===== src/Auth/Service/Sessions.antt =====
-- What a session that was minted is good for: its access token verifies and its refresh token
-- validates, both for the subject that it was minted for.
use wealthfolio_connect_self.Prelude.{
  ℕ, ◌+◌, ◌/◌, ◌≤◌, ◌<◌, String, ◌≡◌, ◌≢◌, ◌∙◌, ap, str_eq_ne, refl, true, false, arith, Bool-cases,
  inl, inr,
}
use wealthfolio_connect_self.Prelude.Time.{second}
use wealthfolio_connect_self.Auth.Defs.{ok, Claims, TokenPair, Result-cases}
use wealthfolio_connect_self.Auth.Refresh.{RefreshStore, validate, issue}
use wealthfolio_connect_self.Auth.Refresh.Laws.{
  static_mode-validate, ttl-issue, validate-issue_next,
}
use wealthfolio_connect_self.Auth.Signer.{
  IsJwt, sign, verify, verify-sign, wrap-eq-ok, payload, or_default_pos, or_hour, to_second,
}
use wealthfolio_connect_self.Auth.Service.{
  Service, AuthState, Readings, session_claims, record_pair, issue_refresh, issue_pair, refresh,
  verify_access_token, is_allowed_email, subject_from_email, issue_session,
}

-- The pair is good for the subject: the access token verifies before the configured lifetime has
-- passed since `now` (cut to the second), the refresh token validates for the store's lifetime.
pub record IsGoodFor {T : Type 0} (s : Service T) (r : Readings) (subject : String)
    (st : AuthState T) (pair : TokenPair) : Type 0 where
  pub access :
      (at_parse now : ℕ)
      → at_parse < to_second (r.now + or_hour s.config.token_ttl)
      → now ≤ to_second (r.now + or_hour s.config.token_ttl)
      → (c : Claims) × (verify_access_token s at_parse now pair.access_token ≡ ok c)
        × (c.subject ≡ subject)
  pub refreshes :
      (later : ℕ)
      → later ≤ r.at_issue + st.store.ttl
      → validate st.store later pair.refresh_token ≡ (ok subject, st.store)

module _ {T : Type 0} (s : Service T) (r : Readings) (token_id subject : String) where
  -- The parts of a call that ended well.
  pub issue_pair-eq_ok :
      (context : String) (st : AuthState T) {pair : TokenPair}
      → (issue_pair s context r token_id subject st).0 ≡ ok pair
      → (sign s.jwt s.signer r.at_sign (session_claims s r token_id subject) ≡ ok pair.access_token)
        × ((issue st.store r.at_issue subject).0 ≡ ok pair.refresh_token)
        × (pair.expires_in ≡ or_hour s.config.token_ttl / second)
        × ((issue_pair s context r token_id subject st).1.store
            ≡ (issue st.store r.at_issue subject).1)
  unfolding issue_pair issue_refresh record_pair
  issue_pair-eq_ok context st h = ground arith

  -- The access token verifies to the claims that it was signed for, its times cut to the second.
  verify-session :
      {raw : String} (at_parse : ℕ)
      → IsJwt s.jwt
      → 0 < r.now
      → sign s.jwt s.signer r.at_sign (session_claims s r token_id subject) ≡ ok raw
      → at_parse < to_second (r.now + or_hour s.config.token_ttl)
      → (raw ≢ "")
        × (verify s.jwt s.signer at_parse raw
            ≡ ok (record {
              subject = subject;
              issued_at = to_second r.now;
              expires_at = to_second (r.now + or_hour s.config.token_ttl);
              token_id = token_id;
            }))
  unfolding sign
  verify-session {raw} at_parse laws pos h before =
      let c = session_claims s r token_id subject in
      let late = or_default_pos c.expires_at (r.at_sign + s.signer.ttl) (omega arith) in
      let issued = or_default_pos r.now r.at_sign pos in
      (
        laws.signed_string-ne s.signer.secret raw (payload s.signer r.at_sign c)
            (wrap-eq-ok _ _ raw h),
        verify-sign s.jwt s.signer r.at_sign at_parse c raw laws h (rw late before)
            ∙ rw (late, issued),
      )

  -- A pair that was minted is good for its subject, if the JWT library keeps its promise, the clock
  -- was read after the zero time, and the server is not in static-token mode.
  issue_pair-IsGoodFor :
      (context : String) (st : AuthState T) {pair : TokenPair}
      → IsJwt s.jwt
      → 0 < r.now
      → 0 < r.at_issue
      → st.store.static_mode ≡ false
      → (issue_pair s context r token_id subject st).0 ≡ ok pair
      → IsGoodFor s r subject (issue_pair s context r token_id subject st).1 pair
  unfolding verify_access_token
  issue_pair-IsGoodFor context st {pair} laws pos pos' mode h =
      let (signed, issued, _, store) = issue_pair-eq_ok context st h in
      record {
        access = λ at_parse now before within.
            let (nonempty, verified) = verify-session at_parse laws pos signed before in
            (
              record {
                subject = subject;
                issued_at = to_second r.now;
                expires_at = to_second (r.now + or_hour s.config.token_ttl);
                token_id = token_id;
              },
              ground (arith, str_eq_ne pair.access_token "" nonempty, verified),
              refl,
            );
        refreshes = λ later within. rw store (
            (validate-issue_next st.store r.at_issue later subject mode pos' issued).0 (
              omega (
                arith,
                ap (λ (x : RefreshStore). x.ttl) store,
                ttl-issue st.store r.at_issue subject,
              )));
      }

-- Outside static-token mode, and with a clock after the zero time and a JWT library that keeps its
-- promise, a successful Refresh mints an access token that verifies and a refresh token that
-- validates, both for the subject of the token that was presented, for their lifetimes.
pub refresh-IsGoodFor :
    {T : Type 0} (s : Service T) (r : Readings) (token_id presented : String) (st : AuthState T)
    {pair : TokenPair}
    → IsJwt s.jwt
    → 0 < r.now
    → 0 < r.at_issue
    → st.store.static_mode ≡ false
    → (refresh s r token_id presented st).0 ≡ ok pair
    → (subject : String) × ((validate st.store r.at_validate presented).0 ≡ ok subject)
      × IsGoodFor s r subject (refresh s r token_id presented st).1 pair
unfolding refresh
refresh-IsGoodFor s r token_id presented st laws pos pos' mode h =
    elim (Result-cases (validate st.store r.at_validate presented).0) [
      | inl (subject, e) ↦
          let st' = record st { store = (validate st.store r.at_validate presented).1 } in
          (
            subject,
            e,
            rw (e, refresh)
                (issue_pair-IsGoodFor s r token_id subject "refresh" st' laws pos pos'
                  (static_mode-validate st.store r.at_validate presented ∙ mode)
                  (rw (e, refresh) at h)),
          )
      | inr (x, e) ↦ ground arith
    ]

-- A login that ends well had an allowed email, and mints a pair that is good for the subject that
-- is derived from it.
pub issue_session-IsGoodFor :
    {T : Type 0} (s : Service T) (r : Readings) (token_id email : String) (st : AuthState T)
    {pair : TokenPair}
    → IsJwt s.jwt
    → 0 < r.now
    → 0 < r.at_issue
    → st.store.static_mode ≡ false
    → (issue_session s r token_id email st).0 ≡ ok pair
    → (is_allowed_email s email ≡ true)
      × IsGoodFor s r (subject_from_email s email) (issue_session s r token_id email st).1 pair
unfolding issue_session
issue_session-IsGoodFor s r token_id email st laws pos pos' mode h =
    elim (Bool-cases (is_allowed_email s email)) [
      | inl e ↦ (
        e,
        rw (e, issue_session)
            (issue_pair-IsGoodFor s r token_id (subject_from_email s email) "issue session" st laws
              pos pos' mode (rw (e, issue_session) at h)),
      )
      | inr e ↦ ground arith
    ]
