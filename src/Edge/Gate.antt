-- ===== src/Edge/Gate.antt =====
-- packages/vestibulum/src/lambda/shared-distribution/edge/check-auth.ts and the responses of
-- responses.ts: which requests pass to the origin.
pub mod Laws
use saas_foundation.Prelude.{
  ℕ, not, ◌||◌, Option, none, some, List, [], ◌∷◌, ◌++◌, if◌then◌else◌, or_else, get as map_get,
  same_numbers,
}
use saas_foundation.Text.{Text, text_of, includes}
use saas_foundation.Edge.Tenant.{is_empty, is_tenant_label, extract_tenant_subdomain}
use saas_foundation.Edge.Cookies.{extract_token_from_cookies}
use saas_foundation.Edge.Jwt.{
  Json, text, Header, Jwk, Claims, Outcome, ok, threw, is_same_text, non_empty_text, verify_jwt,
}

-- The two headers that the gate reads: the values of the host's entries, and the texts of the
-- cookie's.
pub record Request : Type 0 where
  pub host : Option (List Text)
  pub cookie : Option (List (Option Text))

pub data RefuseReason : Type 0 where
  no_host host_not_tenant_shape tenant_mismatch no_tenant_claim wrong_iss : RefuseReason
  wrong_token_use bad_signature expired no_aud : RefuseReason

-- The request goes on, or is answered: a 403 with its reason in the log, a redirect to a location,
-- a 400.
pub data Response : Type 0 where
  pass_through : Request → Response
  refused : RefuseReason → Response
  redirected : Text → Response
  bad_request : Response

-- `hostEntries && hostEntries[0] !== undefined ? hostEntries[0].value : undefined`
unfoldable pub first_host : Request → Option Text
first_host r = elim r.host [ none ↦ none | some [] ↦ none | some (h ∷ more) ↦ some h ]

unfoldable pub login_redirect : Request → Text → Response
unfolding first_host
login_redirect r subdomain = redirected (
    text_of "https://"
    ++ or_else (first_host r) (subdomain ++ text_of ".unknown")
    ++ text_of "/login")

-- The kind of an error by the words of its message.
unfoldable pub map_verify_error_to_response : Request → Text → Text → Response
map_verify_error_to_response r subdomain m =
    if includes (text_of "Issuer not allowed") m || includes (text_of "iss") m
    then refused wrong_iss
    else if includes (text_of "expired") m
        || includes (text_of "Token expired") m
        || includes (text_of "exp") m
    then refused expired
    else if includes (text_of "Invalid signature") m
        || includes (text_of "signature") m
        || includes (text_of "kid") m
        || includes (text_of "alg") m
    then refused bad_signature
    else login_redirect r subdomain

-- `typeof claimTenantId !== "string"`
unfoldable pub text_claim : Option Json → Option Text
text_claim (some (text t)) = some t
text_claim _ = none

-- The checks on the claims of a verified token: its use, its tenant, its audience.
unfoldable pub check_claims : Request → Text → Claims → Response
check_claims r subdomain claims =
    if not (is_same_text (map_get claims "token_use") (text_of "id"))
    then refused wrong_token_use
    else elim (text_claim (map_get claims "custom:tenant_id")) [
      | none ↦ refused no_tenant_claim
      | some tenant ↦
          if not (same_numbers tenant subdomain)
          then refused tenant_mismatch
          else elim (non_empty_text (map_get claims "aud")) [
            | none ↦ refused no_aud
            | some aud ↦ pass_through r
          ]
    ]

-- The configuration that is baked in, and what the gate calls: the language's `toLowerCase` and the
-- token library. The keys are `none` where they cannot be fetched.
module _ (to_lower : Text → Text) (decompose : Text → Outcome Header)
    (verify_sync : Text → Jwk → Text → ℕ → (Jwk → Header → Option Text) → Outcome Claims)
    (tenant_parent : Text) (pool_issuer : Text) where
  unfoldable pub check_token : Request → Text → Option (List Jwk) → Text → Response
  check_token r subdomain none token = login_redirect r subdomain
  check_token r subdomain (some jwks) token =
      elim (verify_jwt decompose verify_sync token pool_issuer jwks 60) [
        | threw m ↦ map_verify_error_to_response r subdomain m
        | ok claims ↦ check_claims r subdomain claims
      ]

  unfoldable pub check_tenant : Request → Option (List Jwk) → Text → Response
  unfolding is_empty
  check_tenant r jwks host =
      if is_empty host
      then refused no_host
      else elim (extract_tenant_subdomain to_lower (some host) tenant_parent is_tenant_label) [
        | none ↦ refused host_not_tenant_shape
        | some subdomain ↦ elim (extract_token_from_cookies r.cookie) [
          | none ↦ login_redirect r subdomain
          | some token ↦
              if is_empty token
              then login_redirect r subdomain
              else check_token r subdomain jwks token
        ]
      ]

  -- The handler: the first record of the event, if there is one.
  unfoldable pub handler : List Request → Option (List Jwk) → Response
  unfolding first_host
  handler [] jwks = bad_request
  handler (r ∷ more) jwks = elim (first_host r) [
    | none ↦ refused no_host
    | some host ↦ check_tenant r jwks host
  ]
