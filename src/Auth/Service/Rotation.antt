-- ===== src/Auth/Service/Rotation.antt =====
-- The refresh token that was presented to `Refresh` is not revoked by it.
use wealthfolio_connect_self.Prelude.{ℕ, ◌≤◌, String, ◌≡◌, ◌≢◌, ◌∙◌, false, some, arith, str_eq_ne}
use wealthfolio_connect_self.Prelude.Map.{lookup, IsMap}
use wealthfolio_connect_self.Auth.Defs.{ok, TokenPair}
use wealthfolio_connect_self.Auth.Refresh.{
  RefreshEntry, RefreshStore, is_expired, validate, issue, token_of,
}
use wealthfolio_connect_self.Auth.Refresh.Laws.{lookup-issue_other, static_mode-issue}
use wealthfolio_connect_self.Auth.Refresh.Evict.{live}
use wealthfolio_connect_self.Auth.Service.{Service, AuthState, Readings, refresh, issue_pair}
use wealthfolio_connect_self.Auth.Service.Sessions.{issue_pair-eq_ok}

-- A token that the store holds, unexpired, is what `validate` finds, and validating it changes
-- nothing.
pub validate-held :
    (s : RefreshStore) (now : ℕ) (token : String) {entry : RefreshEntry}
    → s.static_mode ≡ false
    → token ≢ ""
    → lookup token s.tokens ≡ some entry
    → now ≤ entry.expires_at
    → validate s now token ≡ (ok entry.subject, s)
unfolding validate is_expired
validate-held s now token mode ne held fresh = ground (arith, str_eq_ne token "" ne)

refresh-validated :
    {T : Type 0} (s : Service T) (r : Readings) (token_id presented : String) (st : AuthState T)
    {subject : String}
    → validate st.store r.at_validate presented ≡ (ok subject, st.store)
    → refresh s r token_id presented st ≡ issue_pair s "refresh" r token_id subject st
unfolding refresh
refresh-validated s r token_id presented st v = ground arith

live-unexpired :
    (now : ℕ) (entry : RefreshEntry) → now ≤ entry.expires_at → live now (some entry) ≡ some entry
unfolding is_expired
live-unexpired now entry h = ground arith

-- After a refresh that ended well the token that was presented is still accepted, until its own
-- expiry, beside the new one.
pub validate-refresh_presented :
    {T : Type 0} (s : Service T) (r : Readings) (token_id presented : String) (st : AuthState T)
    (later : ℕ) {entry : RefreshEntry} {pair : TokenPair}
    → IsMap st.store.tokens
    → st.store.static_mode ≡ false
    → presented ≢ ""
    → lookup presented st.store.tokens ≡ some entry
    → presented ≢ token_of entry.subject r.at_issue
    → r.at_validate ≤ entry.expires_at
    → r.at_issue ≤ later
    → later ≤ entry.expires_at
    → (refresh s r token_id presented st).0 ≡ ok pair
    → let store = (refresh s r token_id presented st).1.store in
      validate store later presented ≡ (ok entry.subject, store)
validate-refresh_presented s r token_id presented st later {entry} unique mode ne held other
      unexpired_1 unexpired_2 unexpired_3 h =
    let v = validate-held st.store r.at_validate presented mode ne held unexpired_1 in
    let same = refresh-validated s r token_id presented st v in
    let issued = issue st.store r.at_issue entry.subject in
    let store = (issue_pair-eq_ok s r token_id entry.subject "refresh" st (rw same at h)).3 in
    let found = lookup-issue_other st.store r.at_issue entry.subject presented unique mode other in
    rw (same, store)
      (validate-held issued.1 later presented
        (static_mode-issue st.store r.at_issue entry.subject ∙ mode) ne
        (found ∙ rw held (live-unexpired r.at_issue entry (omega arith))) unexpired_3)
