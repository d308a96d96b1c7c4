-- ===== src/Edge/Gate/Laws.antt =====
-- What a request that passes the gate rests on, and that no token passes for two tenants.
use saas_foundation.Prelude.{
  ℕ, ◌≡◌, refl, ap, ◌≢◌, inl, inr, true, false, Option, none, some, List, [], ◌∷◌, arith,
  Option-cases, is_some, get as map_get, same_numbers_sound,
}
use mathlib.Core.Path.{ap₂}
use saas_foundation.Text.{Text, text_of, includes, starts_with}
use saas_foundation.Edge.Tenant.{is_empty, is_tenant_label, extract_tenant_subdomain}
use saas_foundation.Edge.Cookies.{extract_token_from_cookies}
use saas_foundation.Edge.Jwt.{
  Header, Jwk, Claims, Outcome, ok, threw, is_same_text, non_empty_text, verify_jwt, verify_with,
  Verified, verify_jwt_sound, Outcome-cases,
}
use saas_foundation.Edge.Gate.{
  Request, pass_through, refused, first_host, login_redirect, map_verify_error_to_response,
  text_claim, check_claims, check_token, check_tenant, handler, wrong_iss,
}

check_claims-eq-pass_through :
    (r : Request) (subdomain : Text) (claims : Claims) (q : Request)
    → check_claims r subdomain claims ≡ pass_through q
    → (is_same_text (map_get claims "token_use") (text_of "id") ≡ true)
      × (text_claim (map_get claims "custom:tenant_id") ≡ some subdomain)
      × (is_some (non_empty_text (map_get claims "aud")) ≡ true)
      × (r ≡ q)
unfolding check_claims
check_claims-eq-pass_through r subdomain claims q h =
    elim (Option-cases (text_claim (map_get claims "custom:tenant_id"))) [
      | inl missing ↦ absurd (ground arith)
      | inr (tenant, claimed) ↦ elim (Option-cases (non_empty_text (map_get claims "aud"))) [
        | inl missing ↦ absurd (ground arith)
        | inr (aud, present) ↦ (
          ground arith,
          ground (arith, same_numbers_sound tenant subdomain),
          ground arith,
          ground arith,
        )
      ]
    ]

map_verify_error-ne-pass_through :
    (r : Request) (subdomain m : Text) (q : Request)
    → map_verify_error_to_response r subdomain m ≢ pass_through q
unfolding map_verify_error_to_response login_redirect
map_verify_error-ne-pass_through r subdomain m q h = ground arith

module _ (to_lower : Text → Text) (decompose : Text → Outcome Header)
    (verify_sync : Text → Jwk → Text → ℕ → (Jwk → Header → Option Text) → Outcome Claims)
    (tenant_parent : Text) (pool_issuer : Text) where
  -- All that a request rests on that passes: the host belongs to a tenant, the token of its cookie
  -- is accepted under one of the pool's keys, and is an id token of that very tenant with an
  -- audience.
  pub record Admitted (r : Request) (jwks : Option (List Jwk)) (subdomain token : Text)
      (claims : Claims) : Type 0 where
    pub host : Text
    pub keys : List Jwk
    pub named : first_host r ≡ some host
    pub tenant :
        extract_tenant_subdomain to_lower (some host) tenant_parent is_tenant_label ≡ some subdomain
    pub carried : extract_token_from_cookies r.cookie ≡ some token
    pub fetched : jwks ≡ some keys
    pub verified : verify_jwt decompose verify_sync token pool_issuer keys 60 ≡ ok claims
    pub rests_on : Verified decompose verify_sync token pool_issuer keys 60 claims
    pub identity : is_same_text (map_get claims "token_use") (text_of "id") ≡ true
    pub bound : text_claim (map_get claims "custom:tenant_id") ≡ some subdomain
    pub audience : is_some (non_empty_text (map_get claims "aud")) ≡ true

  check_token-eq-pass_through :
      (r q : Request) (jwks : Option (List Jwk)) (subdomain token : Text)
      → check_token to_lower decompose verify_sync tenant_parent pool_issuer r subdomain jwks token
        ≡ pass_through q
      → (keys : List Jwk) × (claims : Claims) × (jwks ≡ some keys)
        × (verify_jwt decompose verify_sync token pool_issuer keys 60 ≡ ok claims)
        × (check_claims r subdomain claims ≡ pass_through q)
  unfolding check_token login_redirect
  check_token-eq-pass_through r q none subdomain token h = absurd (ground arith)
  check_token-eq-pass_through r q (some keys) subdomain token h =
      elim (Outcome-cases (verify_jwt decompose verify_sync token pool_issuer keys 60)) [
        | inl (claims, accepted) ↦ (keys, claims, refl, accepted, ground arith)
        | inr (m, failed) ↦
            absurd (ground (arith, map_verify_error-ne-pass_through r subdomain m q))
      ]

  check_tenant-eq-pass_through :
      (r q : Request) (jwks : Option (List Jwk)) (host : Text)
      → check_tenant to_lower decompose verify_sync tenant_parent pool_issuer r jwks host
        ≡ pass_through q
      → (subdomain : Text) × (token : Text) × (extract_tenant_subdomain to_lower
            (some host)
            tenant_parent
            is_tenant_label
          ≡ some subdomain)
        × (extract_token_from_cookies r.cookie ≡ some token)
        × (check_token to_lower decompose verify_sync tenant_parent pool_issuer r subdomain jwks
              token
            ≡ pass_through q)
  unfolding check_tenant login_redirect
  check_tenant-eq-pass_through r q jwks host h =
      elim (Option-cases
        (extract_tenant_subdomain to_lower (some host) tenant_parent is_tenant_label)) [
          | inl missing ↦ absurd (ground arith)
          | inr (subdomain, tenant) ↦ elim (Option-cases (extract_token_from_cookies r.cookie)) [
            | inl missing ↦ absurd (ground arith)
            | inr (token, carried) ↦ (subdomain, token, tenant, carried, ground arith)
          ]
        ]

  -- A request that passes is the first of its event, unchanged, and rests on all of the checks: a
  -- host of a tenant, keys that could be fetched, a token that verifies under one of them, that is
  -- an id token, names that tenant, and has an audience.
  pub handler-Admitted :
      (event : List Request) (jwks : Option (List Jwk)) (q : Request)
      → handler to_lower decompose verify_sync tenant_parent pool_issuer event jwks ≡ pass_through q
      → (more : List Request) × (subdomain : Text) × (token : Text) × (claims : Claims) × (event
          ≡ q ∷ more)
        × Admitted q jwks subdomain token claims
  unfolding handler
  handler-Admitted [] jwks q h = absurd (ground arith)
  handler-Admitted (r ∷ more) jwks q h = elim (Option-cases (first_host r)) [
    | inl missing ↦ absurd (ground arith)
    | inr (host, named) ↦
        let (subdomain, token, tenant, carried, checked) =
          check_tenant-eq-pass_through r q jwks host (ground arith) in
        let (keys, claims, fetched, verified, claimed) =
          check_token-eq-pass_through r q jwks subdomain token checked in
        let (identity, bound, audience, same) =
          check_claims-eq-pass_through r subdomain claims q claimed in
        (
          more,
          subdomain,
          token,
          claims,
          ap (λ (x : Request). x ∷ more) same,
          rw (← same) (record {
            host = host;
            keys = keys;
            named = named;
            tenant = tenant;
            carried = carried;
            fetched = fetched;
            verified = verified;
            rests_on =
                verify_jwt_sound decompose verify_sync token pool_issuer keys 60 claims verified;
            identity = identity;
            bound = bound;
            audience = audience;
          }),
        )
  ]

  -- One token passes for one tenant only: of two requests that carry the same token and both pass,
  -- under the same keys, the hosts belong to the same tenant.
  pub one_tenant_per_token :
      (event event2 : List Request) (jwks : Option (List Jwk)) (q q2 : Request)
      → handler to_lower decompose verify_sync tenant_parent pool_issuer event jwks ≡ pass_through q
      → handler to_lower decompose verify_sync tenant_parent pool_issuer event2 jwks
        ≡ pass_through q2
      → extract_token_from_cookies q.cookie ≡ extract_token_from_cookies q2.cookie
      → (subdomain : Text) × (host : Text) × (host2 : Text) × (first_host q ≡ some host)
        × (first_host q2 ≡ some host2)
        × (extract_tenant_subdomain to_lower (some host) tenant_parent is_tenant_label
            ≡ some subdomain)
        × (extract_tenant_subdomain to_lower (some host2) tenant_parent is_tenant_label
            ≡ some subdomain)
  one_tenant_per_token event event2 jwks q q2 passed passed2 shared =
      let (more, subdomain, token, claims, at, a) = handler-Admitted event jwks q passed in
      let (more2, subdomain2, token2, claims2, at2, a2) = handler-Admitted event2 jwks q2 passed2 in
      let same_token : token ≡ token2 = ground (arith, a.carried, a2.carried, shared) in
      let same_keys : a.keys ≡ a2.keys = ground (arith, a.fetched, a2.fetched) in
      let check : Text → List Jwk → Outcome Claims =
        λ t k. verify_jwt decompose verify_sync t pool_issuer k 60 in
      let same_claims : claims ≡ claims2 =
        ground (arith, a.verified, a2.verified, ap₂ check same_token same_keys) in
      let same : subdomain ≡ subdomain2 = ground (
        arith,
        a.bound,
        a2.bound,
        ap (λ (c : Claims). text_claim (map_get c "custom:tenant_id")) same_claims,
      ) in
      (subdomain, a.host, a2.host, a.named, a2.named, a.tenant, rw same a2.tenant)

  missing_kid_throws :
      (token : Text) (jwks : List Jwk) (header : Header)
      → is_empty token ≡ false
      → decompose token ≡ ok header
      → is_same_text header.alg (text_of "RS256") ≡ true
      → non_empty_text header.kid ≡ none
      → verify_jwt decompose verify_sync token pool_issuer jwks 60
        ≡ threw (text_of "verifyJwt: header.kid missing")
  unfolding verify_jwt verify_with
  missing_kid_throws token jwks header full decoded algorithm unnamed =
      rw (full, decoded, algorithm, unnamed)

  -- A token without a key's name is refused as one of another issuer, since the word for what is
  -- missing has the three letters of the issuer's claim in it.
  pub missing_kid_is_wrong_iss :
      (r : Request) (subdomain token : Text) (jwks : List Jwk) (header : Header)
      → is_empty token ≡ false
      → decompose token ≡ ok header
      → is_same_text header.alg (text_of "RS256") ≡ true
      → non_empty_text header.kid ≡ none
      → check_token to_lower decompose verify_sync tenant_parent pool_issuer r subdomain
          (some jwks)
          token
        ≡ refused wrong_iss
  unfolding map_verify_error_to_response includes starts_with check_token
  missing_kid_is_wrong_iss r subdomain token jwks header full decoded algorithm unnamed =
      let message : verify_jwt decompose verify_sync token pool_issuer jwks 60
          ≡ threw (text_of "verifyJwt: header.kid missing") =
        missing_kid_throws token jwks header full decoded algorithm unnamed in
      rw (message, check_token)
