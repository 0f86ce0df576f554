-- ===== src/Auth/Defs.antt =====
-- internal/domain/auth/auth.go: the claims, the token pair and the errors that callers tell apart.
use wealthfolio_connect_self.Prelude.{ℕ, String, Bool, true, false, ◌≡◌, refl, ◌⊎◌, inl, inr}

-- The sentinel errors. `wrapped` is `fmt.Errorf("…: %w", err)`, which `errors.Is` looks through;
-- `foreign` is an error of a library or of the database.
pub data AuthError : Type 0 where
  invalid_token token_expired invalid_refresh_token : AuthError
  at_capacity invalid_apikey email_not_allowed invalid_otp : AuthError
  foreign : String → AuthError
  wrapped : String → AuthError → AuthError

pub data Result (A : Type 0) : Type 0 where
  ok : A → Result A
  err : AuthError → Result A

pub Result-cases :
    {A : Type 0} (r : Result A) → ((a : A) × (r ≡ ok a)) ⊎ ((e : AuthError) × (r ≡ err e))
Result-cases (ok a) = inl (a, refl)
Result-cases (err e) = inr (e, refl)

infixl 5 ◌>>=◌
abbrev pub ◌>>=◌ : {A B : Type 0} → Result A → (A → Result B) → Result B
ok a >>= f = f a
err e >>= f = err e

-- `errors.Is(err, ErrTokenExpired)`
unfoldable pub is_token_expired : AuthError → Bool
is_token_expired token_expired = true
is_token_expired (wrapped _ e) = is_token_expired e
is_token_expired _ = false

-- `errors.Is(err, ErrInvalidToken)`
unfoldable pub is_invalid_token : AuthError → Bool
is_invalid_token invalid_token = true
is_invalid_token (wrapped _ e) = is_invalid_token e
is_invalid_token _ = false

pub record Claims : Type 0 where
  pub subject : String
  pub issued_at : ℕ
  pub expires_at : ℕ
  pub token_id : String

pub record TokenPair : Type 0 where
  pub access_token : String
  pub refresh_token : String
  pub expires_in : ℕ
