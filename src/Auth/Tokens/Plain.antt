-- ===== src/Auth/Tokens/Plain.antt =====
-- A token service that writes the claims into the token as plain text. It meets the laws of
-- `NestJwtService`, so that what is proved of every service is proved of something.
use Prim.Native.Char.{code}
use Prim.Native.String.{String}
use photer_api.Base.{
  ℕ, zero, suc, ◌+◌, ◌<◌, ◌≡◌, refl, ap, ◌∙◌, Option, none, some, arith, ◌==◌, ltb, if◌then◌else◌,
}
use photer_api.Auth.Tokens.{Claims, access, refresh, TokenPayload, JwtTokenService}

abbrev unary : ℕ → String → String
unary zero s = String.◌∷◌ "." s
unary (suc n) s = String.◌∷◌ "x" (unary n s)

abbrev bump : ℕ × String → ℕ × String
bump (n, s) = (suc n, s)

abbrev read : String → ℕ × String
read String.[] = (0, String.[])
read (String.◌∷◌ c s) = let rest = read s in if code c == b'x' then bump rest else (0, s)

read-unary : (n : ℕ) (s : String) → read (unary n s) ≡ (n, s)
read-unary zero s = refl
read-unary (suc n) s = ap bump (read-unary n s)

-- The kind, the user, the two times, and the device.
abbrev write : Claims → ℕ → ℕ → String
write (access user_id) iat exp = unary 0 (unary user_id (unary iat (unary exp "")))
write (refresh user_id device_id) iat exp =
    unary 1 (unary user_id (unary iat (unary exp device_id)))

abbrev claims_of : ℕ → ℕ → String → Claims
claims_of zero user_id device_id = access user_id
claims_of (suc n) user_id device_id = refresh user_id device_id

abbrev decode : String → Option TokenPayload
decode token =
    let kind = read token in
    let user = read kind.1 in
    let iat = read user.1 in
    let exp = read iat.1 in
    some (record { claims = claims_of kind.0 user.0 exp.1; iat = iat.0; exp = exp.0 })

decode-write :
    (c : Claims) (iat exp : ℕ)
    → decode (write c iat exp) ≡ some (record { claims = c; iat = iat; exp = exp })
decode-write (access u) iat exp = simp read-unary
decode-write (refresh u d) iat exp = simp read-unary

abbrev unexpired : ℕ → Option TokenPayload → Option TokenPayload
unexpired now none = none
unexpired now (some p) = if ltb now p.exp then some p else none

pub decode-sign_plain :
    (c : Claims) (e n : ℕ)
    → decode (write c n (n + e)) ≡ some (record { claims = c; iat = n; exp = n + e })
decode-sign_plain c e n = decode-write c n (n + e)

pub verify-sign_plain :
    (c : Claims) (e n now : ℕ)
    → now < n + e
    → unexpired now (decode (write c n (n + e)))
      ≡ some (record { claims = c; iat = n; exp = n + e })
verify-sign_plain c e n now h = ap (unexpired now) (decode-write c n (n + e)) ∙ ground arith

abbrev pub plain_tokens : JwtTokenService
plain_tokens = record {
  nest_jwt_service = record {
    sign = λ c e n. write c n (n + e);
    verify = λ token now. unexpired now (decode token);
    decode = decode;
    decode-sign = decode-sign_plain;
    verify-sign = verify-sign_plain;
  };
  jwt_access_expiration_time = 2;
  jwt_refresh_expiration_time = 4;
}
