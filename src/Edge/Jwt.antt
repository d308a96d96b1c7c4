-- ===== src/Edge/Jwt.antt =====
-- packages/vestibulum/src/lambda/shared-distribution/edge/verify-jwt.ts: the checks around the
-- library that verifies a token (aws-jwt-verify), which is an argument.
use saas_foundation.Prelude.{
  ℕ, ◌≡◌, refl, ◌⊎◌, inl, inr, Bool, true, false, not, Option, none, some, List, [], ◌∷◌, ◌++◌,
  arith, if◌then◌else◌, Option-cases, JsMap, get as map_get, same_numbers,
}
use saas_foundation.Text.{Text, text_of}
use saas_foundation.Edge.Tenant.{is_empty}

-- A value of a decoded token: a text, or any other with what `String` makes of it.
pub data Json : Type 0 where
  text number other : Text → Json

pub record Header : Type 0 where
  pub alg : Option Json
  pub kid : Option Json

pub record Jwk : Type 0 where
  pub kid : Option Json
  pub material : Text

abbrev pub Claims : Type 0
Claims = JsMap Json

-- A call returns a value or throws an error with a message.
pub data Outcome (A : Type 0) : Type 0 where
  ok : A → Outcome A
  threw : Text → Outcome A

pub Outcome-cases :
    {A : Type 0} (o : Outcome A) → ((a : A) × (o ≡ ok a)) ⊎ ((m : Text) × (o ≡ threw m))
Outcome-cases (ok a) = inl (a, refl)
Outcome-cases (threw m) = inr (m, refl)

-- `String(value)`
unfoldable pub shown : Option Json → Text
shown none = text_of "undefined"
shown (some (text t)) = t
shown (some (number t)) = t
shown (some (other t)) = t

-- `typeof value === "string" && value === wanted`
unfoldable pub is_same_text : Option Json → Text → Bool
is_same_text (some (text t)) wanted = same_numbers t wanted
is_same_text _ wanted = false

-- `typeof value === "string"`, and not empty
unfoldable pub non_empty_text : Option Json → Option Text
unfolding is_empty
non_empty_text (some (text t)) = if is_empty t then none else some t
non_empty_text _ = none

unfoldable pub is_number : Option Json → Bool
is_number (some (number t)) = true
is_number _ = false

abbrev pub rs256 : Text
rs256 = text_of "RS256"

unfoldable pub find_jwk : Text → List Jwk → Option Jwk
unfolding is_same_text
find_jwk kid [] = none
find_jwk kid (k ∷ more) =
    let rest = find_jwk kid more in if is_same_text k.kid kid then some k else rest

-- `customJwtCheck`: the message of the error, if there is one.
unfoldable pub custom_jwt_check : Text → Jwk → Header → Option Text
unfolding is_same_text
custom_jwt_check kid jwk h =
    if not (is_same_text h.alg rs256)
    then some (text_of "alg-drift")
    else if not (is_same_text jwk.kid kid)
    then some (text_of "kid-drift")
    else none

-- `decompose` is `decomposeUnverifiedJwt`, and `verify_sync` is `verifyJwtSync` with one key, the
-- issuer, no audience, the seconds of grace, and the check.
module _ (decompose : Text → Outcome Header)
    (verify_sync : Text → Jwk → Text → ℕ → (Jwk → Header → Option Text) → Outcome Claims) where
  -- The payload that the library accepts must have an expiry.
  unfoldable pub with_expiry : Outcome Claims → Outcome Claims
  unfolding is_number
  with_expiry (threw m) = threw (text_of "verifyJwt: " ++ m)
  with_expiry (ok claims) =
      if not (is_number (map_get claims "exp"))
      then threw (text_of "verifyJwt: exp missing")
      else ok claims

  -- Once the header is read: the algorithm, the key's name, and the key.
  unfoldable pub verify_with : Text → Text → List Jwk → ℕ → Header → Outcome Claims
  unfolding is_same_text non_empty_text
  verify_with token issuer jwks skew header =
      if not (is_same_text header.alg rs256)
      then threw (text_of "verifyJwt: unsupported alg " ++ 34 ∷ shown header.alg ++ 34 ∷ [])
      else elim (non_empty_text header.kid) [
        | none ↦ threw (text_of "verifyJwt: header.kid missing")
        | some kid ↦ elim (find_jwk kid jwks) [
          | none ↦ threw (text_of "verifyJwt: kid " ++ 34 ∷ kid ++ 34 ∷ text_of " not in JWKS")
          | some jwk ↦ with_expiry (verify_sync token jwk issuer skew (custom_jwt_check kid))
        ]
      ]

  unfoldable pub verify_jwt : Text → Text → List Jwk → ℕ → Outcome Claims
  unfolding is_empty
  verify_jwt token issuer jwks skew =
      if is_empty token
      then threw (text_of "verifyJwt: token must be a non-empty string")
      else elim (decompose token) [
        | threw m ↦ threw m
        | ok header ↦ verify_with token issuer jwks skew header
      ]

  -- What an accepted token rests on: its header names RS256 and one of the keys, the library
  -- accepts it under that key, and it has an expiry.
  pub record Verified (token issuer : Text) (jwks : List Jwk) (skew : ℕ) (claims : Claims)
      : Type 0 where
    pub header : Header
    pub kid : Text
    pub jwk : Jwk
    pub decoded : decompose token ≡ ok header
    pub algorithm : is_same_text header.alg rs256 ≡ true
    pub named : non_empty_text header.kid ≡ some kid
    pub found : find_jwk kid jwks ≡ some jwk
    pub accepted : verify_sync token jwk issuer skew (custom_jwt_check kid) ≡ ok claims
    pub expires : is_number (map_get claims "exp") ≡ true

  with_expiry_sound :
      (o : Outcome Claims) (claims : Claims)
      → with_expiry o ≡ ok claims
      → (o ≡ ok claims) × (is_number (map_get claims "exp") ≡ true)
  unfolding with_expiry
  with_expiry_sound (threw m) claims h = cc
  with_expiry_sound (ok c) claims h = ground arith

  verify_with_sound :
      (token issuer : Text) (jwks : List Jwk) (skew : ℕ) (claims : Claims) (header : Header)
      → verify_with token issuer jwks skew header ≡ ok claims
      → decompose token ≡ ok header
      → Verified token issuer jwks skew claims
  unfolding verify_with
  verify_with_sound token issuer jwks skew claims header h decoded =
      elim (Option-cases (non_empty_text header.kid)) [
        | inl missing ↦ absurd (ground arith)
        | inr (kid, named) ↦ elim (Option-cases (find_jwk kid jwks)) [
          | inl missing ↦ absurd (ground arith)
          | inr (jwk, found) ↦
              let checked : with_expiry (verify_sync token jwk issuer skew (custom_jwt_check kid))
                  ≡ ok claims =
                ground arith in
              let (accepted, expires) =
                with_expiry_sound (verify_sync token jwk issuer skew (custom_jwt_check kid)) claims
                  checked in
              record {
                header = header;
                kid = kid;
                jwk = jwk;
                decoded = decoded;
                algorithm = ground arith;
                named = named;
                found = found;
                accepted = accepted;
                expires = expires;
              }
        ]
      ]

  pub verify_jwt_sound :
      (token issuer : Text) (jwks : List Jwk) (skew : ℕ) (claims : Claims)
      → verify_jwt token issuer jwks skew ≡ ok claims
      → Verified token issuer jwks skew claims
  unfolding verify_jwt
  verify_jwt_sound token issuer jwks skew claims h = elim (Outcome-cases (decompose token)) [
    | inl (header, decoded) ↦
        verify_with_sound token issuer jwks skew claims header (ground arith) decoded
    | inr (m, failed) ↦ absurd (ground arith)
  ]
