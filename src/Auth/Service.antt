-- ===== src/Auth/Service.antt =====
-- internal/application/auth/service.go: refresh, login by one-time password, and the checks of the
-- access token, the API key and the email. The clock is read at several points of a call; each
-- reading is a field of `Readings`. `subtle.ConstantTimeCompare` is equality; its timing is not
-- modelled.
pub mod Access
pub mod Sessions
pub mod Rotation
use Prim.Native.String.{◌++◌}
use wealthfolio_connect_self.Prelude.{
  ℕ, ◌+◌, ◌/◌, String, Bool, true, false, not, ◌&&◌, ◌||◌, Option, none, some, List, [], ◌∷◌,
  str_eq, is_empty, if◌then◌else◌,
}
use wealthfolio_connect_self.Prelude.Int.{ℤ}
use wealthfolio_connect_self.Prelude.Time.{second, is_zero, before}
use wealthfolio_connect_self.Prelude.Text.{
  Unicode, trim_space, map_text, take_text, drop_text, is_digits,
}
use wealthfolio_connect_self.Auth.Defs.{
  Result, ok, err, Claims, TokenPair, invalid_token, token_expired, invalid_apikey,
  email_not_allowed, invalid_otp,
}
use wealthfolio_connect_self.Auth.Refresh.{RefreshStore, validate, issue}
use wealthfolio_connect_self.Auth.Signer.{Jwt, JwtSigner, sign, verify, wrap, or_hour}

-- The fields of `config.Config` that the service reads.
pub record AuthConfig : Type 0 where
  pub static_token_mode : Bool
  pub publishable_key : String
  pub user_emails : List String
  pub static_otp : String
  pub token_ttl : ℤ

pub record TokenMetadata : Type 0 where
  pub token_id : String
  pub subject : String
  pub issued_at : ℕ
  pub expires_at : ℕ

-- The service's collaborators. `T` is the state behind `repository.TokenRepository`, and
-- `sha256_hex` gives the first 32 hexadecimal digits of a SHA-256 sum.
pub record Service (T : Type 0) : Type 0 where
  pub config : AuthConfig
  pub jwt : Jwt
  pub signer : JwtSigner
  pub insert : TokenMetadata → T → Result (Unit {0}) × T
  pub unicode : Unicode
  pub sha256_hex : String → String

pub record AuthState (T : Type 0) : Type 0 where
  pub store : RefreshStore
  pub audit : T

pub record Readings : Type 0 where
  pub at_validate : ℕ
  pub now : ℕ
  pub at_sign : ℕ
  pub at_issue : ℕ

-- The loop of `IsAllowedEmail` over the allow-list.
unfoldable pub is_listed : String → List String → Bool
is_listed email [] = false
is_listed email (allowed ∷ rest) = if str_eq email allowed then true else is_listed email rest

module _ {T : Type 0} (s : Service T) where
  abbrev pub session_claims : Readings → String → String → Claims
  session_claims r token_id subject = record {
    subject = subject;
    issued_at = r.now;
    expires_at = r.now + or_hour s.config.token_ttl;
    token_id = token_id;
  }

  -- From `tokens.Insert` to the end.
  unfoldable pub record_pair :
      String → Claims → String → String → AuthState T → Result TokenPair × AuthState T
  record_pair context c access refresh st =
      let (inserted, audit) =
        s.insert
          (record {
            token_id = c.token_id;
            subject = c.subject;
            issued_at = c.issued_at;
            expires_at = c.expires_at;
          })
          st.audit in
      let st' = record st { audit = audit } in
      elim (wrap (context ++ ": persist") inserted) [
        | err e ↦ (err e, st')
        | ok _ ↦ (
          ok (record {
            access_token = access;
            refresh_token = refresh;
            expires_in = or_hour s.config.token_ttl / second;
          }),
          st',
        )
      ]

  -- From `refreshes.Issue` to the end.
  unfoldable pub issue_refresh :
      String → Readings → Claims → String → AuthState T → Result TokenPair × AuthState T
  issue_refresh context r c access st =
      let (issued, store) = issue st.store r.at_issue c.subject in
      let st' = record st { store = store } in
      elim (wrap (context ++ ": issue") issued) [
        | err e ↦ (err e, st')
        | ok refresh ↦ record_pair context c access refresh st'
      ]

  -- The tail that `Refresh` and `IssueSession` have in common: sign, issue, persist.
  unfoldable pub issue_pair :
      String → Readings → String → String → AuthState T → Result TokenPair × AuthState T
  issue_pair context r token_id subject st =
      let c = session_claims r token_id subject in
      elim (wrap (context ++ ": sign") (sign s.jwt s.signer r.at_sign c)) [
        | err e ↦ (err e, st)
        | ok access ↦ issue_refresh context r c access st
      ]

  -- `Refresh`
  unfoldable pub refresh : Readings → String → String → AuthState T → Result TokenPair × AuthState T
  refresh r token_id refresh_token st =
      let (subject, store) = validate st.store r.at_validate refresh_token in
      let st' = record st { store = store } in
      elim subject [
        | err e ↦ (err e, st')
        | ok subject ↦ issue_pair "refresh" r token_id subject st'
      ]

  -- The check of `exp` that `VerifyAccessToken` makes again.
  unfoldable pub check_expiry : ℕ → Result Claims → Result Claims
  check_expiry now (err e) = err e
  check_expiry now (ok c) =
      if not (is_zero c.expires_at) && before c.expires_at now then err token_expired else ok c

  -- `VerifyAccessToken`, where the library and the service each read the clock.
  unfoldable pub verify_access_token : ℕ → ℕ → String → Result Claims
  unfolding check_expiry
  verify_access_token at_parse now raw =
      if str_eq raw ""
      then err invalid_token
      else check_expiry now (verify s.jwt s.signer at_parse raw)

  unfoldable pub verify_api_key : String → Result (Unit {0})
  verify_api_key value =
      if str_eq value "" || str_eq s.config.publishable_key ""
      then err invalid_apikey
      else if str_eq value s.config.publishable_key
      then ok tt
      else err invalid_apikey

  -- `strings.ToLower(strings.TrimSpace(email))`
  unfoldable pub normalise_email : String → String
  normalise_email email = map_text s.unicode.lower (trim_space email)

  unfoldable pub is_allowed_email : String → Bool
  is_allowed_email email =
      if is_empty s.config.user_emails
      then false
      else let normalised = normalise_email email in
        if str_eq normalised "" then false else is_listed normalised s.config.user_emails

  unfoldable pub verify_otp : String → Result (Unit {0})
  verify_otp token =
      let otp = trim_space token in
      if str_eq otp ""
      then err invalid_otp
      else if is_digits 6 otp
      then ok tt
      else if not (str_eq s.config.static_otp "") && str_eq otp s.config.static_otp
      then ok tt
      else err invalid_otp

  -- `SubjectFromEmail`: 32 hexadecimal digits in the layout 8-4-4-4-12.
  unfoldable pub subject_from_email : String → String
  subject_from_email email =
      let hex32 = s.sha256_hex (normalise_email email) in
      take_text 8 hex32
      ++ "-"
      ++ take_text 4 (drop_text 8 hex32)
      ++ "-"
      ++ take_text 4 (drop_text 12 hex32)
      ++ "-"
      ++ take_text 4 (drop_text 16 hex32)
      ++ "-"
      ++ take_text 12 (drop_text 20 hex32)

  -- `IssueSession`
  unfoldable pub issue_session :
      Readings → String → String → AuthState T → Result TokenPair × AuthState T
  issue_session r token_id email st =
      if is_allowed_email email
      then issue_pair "issue session" r token_id (subject_from_email email) st
      else (err email_not_allowed, st)
