-- ===== src/Auth/Gate.antt =====
-- The `APIKey` and `Bearer` middleware of internal/interfaces/http/middleware/middleware.go: which
-- requests reach the next handler, and what the others are answered.
use wealthfolio_connect_self.Prelude.{
  ℕ, String, ◌≡◌, ◌≢◌, ◌⊎◌, inl, inr, false, Option, none, some, arith, eq_iff, str_eq,
  if◌then◌else◌, Option-cases,
}
use wealthfolio_connect_self.Prelude.Text.{strip_prefix}
use wealthfolio_connect_self.Auth.Defs.{
  ok, err, AuthError, Claims, Result-cases, is_token_expired, is_invalid_token,
}
use wealthfolio_connect_self.Auth.Service.{Service, verify_access_token, verify_api_key}

-- What the gates read of a request; an absent header is the empty text.
pub record Request : Type 0 where
  pub method : String
  pub api_key : String
  pub authorization : String

-- `next.ServeHTTP`, with the claims that the context then holds, or an error response.
pub data Verdict : Type 0 where
  pass : Option Claims → Verdict
  reject : ℕ → String → String → String → Verdict

-- The `switch` on the error of `VerifyAccessToken`.
unfoldable pub reject_token : AuthError → Verdict
reject_token e =
    if is_token_expired e
    then reject 401 "token_expired" "TOKEN_EXPIRED" "Access token has expired"
    else if is_invalid_token e
    then reject 401 "unauthorized" "UNAUTHORIZED" "Invalid token"
    else reject 401 "unauthorized" "UNAUTHORIZED" "Authentication failed"

-- The part of `Bearer` from the test of the prefix on.
unfoldable pub check_bearer : {T : Type 0} → Service T → ℕ → ℕ → Option String → Verdict
check_bearer s at_parse now none = reject 401 "unauthorized" "UNAUTHORIZED" "Missing bearer token"
check_bearer s at_parse now (some raw) = elim (verify_access_token s at_parse now raw) [
  | err e ↦ reject_token e
  | ok claims ↦ pass (some claims)
]

unfoldable pub bearer : {T : Type 0} → Service T → ℕ → ℕ → Request → Verdict
unfolding check_bearer reject_token
bearer s at_parse now r =
    if str_eq r.method "OPTIONS"
    then pass none
    else if s.config.static_token_mode
    then pass none
    else check_bearer s at_parse now (strip_prefix "Bearer " r.authorization)

-- `APIKey`; `WriteAuthError` has no third text.
unfoldable pub api_key : {T : Type 0} → Service T → Request → Verdict
api_key s r =
    if str_eq r.method "OPTIONS"
    then pass none
    else if s.config.static_token_mode
    then pass none
    else elim (verify_api_key s r.api_key) [
      | err e ↦ reject 401 "unauthorized" "" "Invalid apikey"
      | ok _ ↦ pass none
    ]

-- A request that reaches the API outside static-token mode, and is no OPTIONS request, carried a
-- bearer token that verified, and the handler sees that token's claims.
pub bearer_pass :
    {T : Type 0} (s : Service T) (at_parse now : ℕ) (r : Request) {seen : Option Claims}
    → r.method ≢ "OPTIONS"
    → s.config.static_token_mode ≡ false
    → bearer s at_parse now r ≡ pass seen
    → (raw : String) × (c : Claims) × (strip_prefix "Bearer " r.authorization ≡ some raw)
      × (verify_access_token s at_parse now raw ≡ ok c)
      × (seen ≡ some c)
unfolding bearer
bearer_pass s at_parse now r method mode h = ground (arith, eq_iff r.method "OPTIONS")

-- Every other such request is answered 401: for want of a bearer token, or because the token did
-- not verify. The code is TOKEN_EXPIRED exactly if the error is `ErrTokenExpired`.
pub bearer_reject :
    {T : Type 0} (s : Service T) (at_parse now : ℕ) (r : Request) {status : ℕ}
    {key code text : String}
    → bearer s at_parse now r ≡ reject status key code text
    → (status ≡ 401)
      × (s.config.static_token_mode ≡ false)
      × (((strip_prefix "Bearer " r.authorization ≡ none) × (code ≡ "UNAUTHORIZED"))
          ⊎ ((raw : String) × (e : AuthError) × (strip_prefix "Bearer " r.authorization ≡ some raw)
              × (verify_access_token s at_parse now raw ≡ err e)
              × (code ≡ (if is_token_expired e then "TOKEN_EXPIRED" else "UNAUTHORIZED"))))
unfolding bearer
bearer_reject s at_parse now r h = elim (Option-cases (strip_prefix "Bearer " r.authorization)) [
  | inl e ↦ ground arith
  | inr (raw, e) ↦ elim (Result-cases (verify_access_token s at_parse now raw)) [
    | inl (c, v) ↦ ground arith
    | inr (x, v) ↦ (ground arith, ground arith, inr (raw, x, e, v, ground arith))
  ]
]
