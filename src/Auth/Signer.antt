-- ===== src/Auth/Signer.antt =====
-- The HS256 signer of internal/infrastructure/auth/jwt.go, over the JWT library as an argument.
use wealthfolio_connect_self.Prelude.{
  ℕ, ◌+◌, ◌*◌, ◌/◌, ◌<◌, String, ◌≡◌, ◌≢◌, Bool, true, false, Option, none, some, arith,
  if◌then◌else◌,
}
use wealthfolio_connect_self.Prelude.Int.{ℤ, pos_part, is_positive}
use wealthfolio_connect_self.Prelude.Time.{second, hour, is_zero, unix, from_unix}
use wealthfolio_connect_self.Auth.Defs.{
  Result, ok, err, Claims, invalid_token, token_expired, wrapped,
}

-- `jwt.MapClaims` as `Sign` writes it.
pub record Payload : Type 0 where
  pub sub : String
  pub iat : ℤ
  pub exp : ℤ
  pub jti : String

-- The parsed claims: a key that is missing, or of another JSON type, is `none`. A JSON number is
-- read as the integer that Go's conversion from `float64` gives.
pub record ParsedClaims : Type 0 where
  pub sub : Option String
  pub jti : Option String
  pub iat : Option ℤ
  pub exp : Option ℤ

-- The result of `jwt.Parse`: an error, which is `ErrTokenExpired` or another, or a token with its
-- `Valid` flag and its claims, `none` where these are no `MapClaims`.
pub data Parsed : Type 0 where
  failed : Bool → Parsed
  token : Bool → Option ParsedClaims → Parsed

-- github.com/golang-jwt/jwt/v5: `SignedString`, and `Parse` restricted to HS256 at a time.
pub record Jwt : Type 0 where
  pub signed_string : String → Payload → Result String
  pub parse : String → ℕ → String → Parsed

-- What is used of it: a signed token is not the empty text, and it parses under the secret that it
-- was signed under, before its `exp`, to the claims that were signed.
pub record IsJwt (lib : Jwt) : Type 0 where
  pub signed_string-ne :
      (secret raw : String) (p : Payload) → lib.signed_string secret p ≡ ok raw → raw ≢ ""
  pub parse-signed_string :
      (secret raw : String) (p : Payload) (now : ℕ)
      → lib.signed_string secret p ≡ ok raw
      → now < from_unix p.exp
      → lib.parse secret now raw
        ≡ token true (
            some
              (record { sub = some p.sub; jti = some p.jti; iat = some p.iat; exp = some p.exp }))

pub record JwtSigner : Type 0 where
  pub secret : String
  pub ttl : ℕ

-- A configured lifetime, with the default of one hour where it is not positive.
abbrev pub or_hour : ℤ → ℕ
or_hour ttl = if is_positive ttl then pos_part ttl else hour

unfoldable pub new_jwt_signer : String → ℤ → JwtSigner
new_jwt_signer jwt_secret token_ttl = record { secret = jwt_secret; ttl = or_hour token_ttl }

abbrev pub or_default : ℕ → ℕ → ℕ
or_default t default = if is_zero t then default else t

abbrev pub wrap : {A : Type 0} → String → Result A → Result A
wrap text (ok a) = ok a
wrap text (err e) = err (wrapped text e)

-- What `Sign` puts into the token.
abbrev pub payload : JwtSigner → ℕ → Claims → Payload
payload s now claims = record {
  sub = claims.subject;
  iat = unix (or_default claims.issued_at now);
  exp = unix (or_default claims.expires_at (now + s.ttl));
  jti = claims.token_id;
}

pub wrap-eq-ok : {A : Type 0} (text : String) (r : Result A) (a : A) → wrap text r ≡ ok a → r ≡ ok a
wrap-eq-ok text (ok b) a h = h
wrap-eq-ok text (err e) a h = cc

unfoldable pub sign : Jwt → JwtSigner → ℕ → Claims → Result String
sign lib s now claims = wrap "auth: signing JWT" (lib.signed_string s.secret (payload s now claims))

abbrev text_or_empty : Option String → String
text_or_empty none = ""
text_or_empty (some v) = v

abbrev time_or_zero : Option ℤ → ℕ
time_or_zero none = 0
time_or_zero (some v) = from_unix v

-- The claims that `Verify` reads off a parsed token.
unfoldable pub claims_of : Parsed → Result Claims
claims_of (failed true) = err token_expired
claims_of (failed false) = err invalid_token
claims_of (token false c) = err invalid_token
claims_of (token true none) = err invalid_token
claims_of (token true (some c)) = ok (record {
  subject = text_or_empty c.sub;
  issued_at = time_or_zero c.iat;
  expires_at = time_or_zero c.exp;
  token_id = text_or_empty c.jti;
})

unfoldable pub verify : Jwt → JwtSigner → ℕ → String → Result Claims
unfolding claims_of
verify lib s now raw = claims_of (lib.parse s.secret now raw)

pub or_default_pos : (t d : ℕ) → 0 < t → or_default t d ≡ t
or_default_pos t d h = ground arith

-- A time as a token carries it: cut to the second.
abbrev pub to_second : ℕ → ℕ
to_second t = t / second * second

pub from_unix-unix : (t : ℕ) → from_unix (unix t) ≡ to_second t
from_unix-unix t = ground arith

-- A token verifies, before its expiry cut to the second, to the claims that were signed: missing
-- times filled in from the signer's clock and lifetime, and both times cut to the second.
pub verify-sign :
    (lib : Jwt) (s : JwtSigner) (now later : ℕ) (c : Claims) (raw : String)
    → IsJwt lib
    → sign lib s now c ≡ ok raw
    → later < to_second (or_default c.expires_at (now + s.ttl))
    → verify lib s later raw
      ≡ ok (record c {
        issued_at = to_second (or_default c.issued_at now);
        expires_at = to_second (or_default c.expires_at (now + s.ttl));
      })
unfolding sign verify
verify-sign lib s now later c raw laws h before =
    let p = payload s now c in
    let parsed =
      laws.parse-signed_string s.secret raw p later (wrap-eq-ok _ _ raw h)
        (rw from_unix-unix before) in
    rw parsed (
      ground (
        arith,
        from_unix-unix (or_default c.issued_at now),
        from_unix-unix (or_default c.expires_at (now + s.ttl)),
      ))
