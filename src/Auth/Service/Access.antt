-- ===== src/Auth/Service/Access.antt =====
-- What the checks of the service accept.
use wealthfolio_connect_self.Prelude.{ℕ, ◌≤◌, String, ◌≡◌, ◌≢◌, ◌↔◌, ◌⊎◌, true, ap, arith, eq_iff}
use wealthfolio_connect_self.Prelude.Text.{trim_space, is_digits}
use wealthfolio_connect_self.Auth.Defs.{ok, Claims}
use wealthfolio_connect_self.Auth.Signer.{verify}
use wealthfolio_connect_self.Auth.Service.{Service, verify_access_token, verify_api_key, verify_otp}

digits-ne : (t : String) → is_digits 6 t ≡ true → t ≢ ""
unfolding is_digits
digits-ne t h e = cc (ap (is_digits 6) e)

module _ {T : Type 0} (s : Service T) where
  -- Whatever the JWT library accepts, the service accepts only tokens that it verifies and whose
  -- expiry, if they carry one, is not before the clock.
  pub verify_access_token_unexpired :
      (at_parse now : ℕ) (raw : String) (c : Claims)
      → verify_access_token s at_parse now raw ≡ ok c
      → (raw ≢ "")
        × (verify s.jwt s.signer at_parse raw ≡ ok c)
        × ((c.expires_at ≡ 0) ⊎ (now ≤ c.expires_at))
  unfolding verify_access_token
  verify_access_token_unexpired at_parse now raw c h =
      let r = verify s.jwt s.signer at_parse raw in
      (
        λ e. ground (arith, eq_iff raw ""),
        ground (arith, eq_iff raw ""),
        ground (arith, eq_iff raw ""),
      )

  -- The key that passes is the configured one, which is not empty; no other passes.
  pub verify_api_key_iff :
      (value : String)
      → (verify_api_key s value ≡ ok tt) ↔ ((value ≡ s.config.publishable_key) × (value ≢ ""))
  unfolding verify_api_key
  verify_api_key_iff value = (
    λ h. (
      ground (
        arith,
        eq_iff value "",
        eq_iff s.config.publishable_key "",
        eq_iff value s.config.publishable_key,
      ),
      λ e. ground (
        arith,
        eq_iff value "",
        eq_iff s.config.publishable_key "",
        eq_iff value s.config.publishable_key,
      ),
    ),
    λ h. ground (
      arith,
      eq_iff value "",
      eq_iff s.config.publishable_key "",
      eq_iff value s.config.publishable_key,
    ),
  )

  -- A one-time password passes exactly if, trimmed, it is six digits or the configured static one,
  -- which is not empty.
  pub verify_otp_iff :
      (token : String)
      → (verify_otp s token ≡ ok tt) ↔ (
          (is_digits 6 (trim_space token) ≡ true)
          ⊎ ((trim_space token ≡ s.config.static_otp) × (s.config.static_otp ≢ "")))
  unfolding verify_otp
  verify_otp_iff token = (
    λ h. ground (
      arith,
      eq_iff (trim_space token) "",
      eq_iff s.config.static_otp "",
      eq_iff (trim_space token) s.config.static_otp,
    ),
    λ h. ground (
      arith,
      eq_iff (trim_space token) "",
      eq_iff s.config.static_otp "",
      eq_iff (trim_space token) s.config.static_otp,
      digits-ne (trim_space token),
    ),
  )
