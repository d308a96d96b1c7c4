-- ===== src/Edge/Tests.antt =====
-- The gate on a request of a tenant, and the theorems at concrete inputs.
use saas_foundation.Prelude.{
  ℕ, ◌+◌, String, ◌≡◌, refl, inr, arith, ◌↔◌, false, ◌&&◌, Option, none, some, List, [], ◌∷◌, leb,
  if◌then◌else◌, get as map_get, is_lower, same_numbers,
}
use saas_foundation.Text.{
  Text, text_of, first_part, strip_last, before_suffix, has, split, split_parts, cut, trim,
  trim_start, trim_end, is_space,
}
use saas_foundation.Edge.Tenant.Hosts.{HostOf, extract_tenant_subdomain-HostOf}
use saas_foundation.Edge.Tenant.{
  is_empty, is_tenant_label, is_label_char, is_label_end, ends_well, normalize_host, check_label,
  extract_shared, extract_tenant_subdomain,
}
use saas_foundation.Edge.Cookies.{
  extract_token_from_cookies, first_entry, first_value, segment_value, ends_with, unquote,
}
use saas_foundation.Edge.Jwks.{
  Fetched, parsed, http_error, object_body, nothing, key_object, Call, create, after, get_jwks,
  refresh, delivered, objects, keep,
}
use saas_foundation.Edge.Jwks.Sources.{FromFetch, get_jwks-FromFetch}
use saas_foundation.Edge.Jwt.{
  Json, text, number, Header, Jwk, Claims, Outcome, ok, is_same_text, non_empty_text, is_number,
  find_jwk, verify_jwt, verify_with, with_expiry,
}
use saas_foundation.Edge.Gate.{
  Request, pass_through, first_host, check_claims, check_token, check_tenant, handler, text_claim,
}
use saas_foundation.Edge.Gate.Laws.{Admitted, handler-Admitted, one_tenant_per_token}

-- Lower case on the letters of ASCII.
abbrev to_lower : Text → Text
to_lower [] = []
to_lower (c ∷ s) = (if leb 65 c && leb c 90 then c + 32 else c) ∷ to_lower s

abbrev parent : Text
parent = text_of "t.eu"

abbrev token : Text
token = text_of "abc.def"

abbrev kid : Option Json
kid = some (text (text_of "k1"))

abbrev decompose : Text → Outcome Header
decompose t = ok (record { alg = some (text (text_of "RS256")); kid = kid })

abbrev unnamed : Text → Outcome Header
unnamed t = ok (record { alg = some (text (text_of "RS256")); kid = none })

abbrev claims : Claims
claims =
    ("token_use", text (text_of "id"))
    ∷ ("custom:tenant_id", text (text_of "acme"))
    ∷ ("aud", text (text_of "app"))
    ∷ ("exp", number (text_of "1"))
    ∷ []

abbrev verify_sync : Text → Jwk → Text → ℕ → (Jwk → Header → Option Text) → Outcome Claims
verify_sync t jwk issuer grace check = ok claims

abbrev keys : List Jwk
keys = record { kid = kid; material = [] } ∷ []

abbrev request : Request
request = record {
  host = some (text_of "ACME.t.eu.:443" ∷ []);
  cookie = some (some (text_of "a=b; vestibulum_id_token=abc.def") ∷ []);
}

passes :
    handler to_lower decompose verify_sync parent (text_of "pool") (request ∷ []) (some keys)
    ≡ pass_through request
unfolding handler first_host check_tenant extract_tenant_subdomain extract_shared normalize_host
    check_label strip_last first_part before_suffix has is_empty is_tenant_label is_label_char
    is_label_end ends_well extract_token_from_cookies first_entry first_value segment_value split
    split_parts trim trim_start trim_end is_space cut unquote ends_with check_token verify_jwt
    verify_with with_expiry find_jwk is_same_text non_empty_text is_number same_numbers check_claims
    text_claim map_get is_lower
passes = refl

handler-Admitted_example :
    (more : List Request) × (subdomain : Text) × (token : Text) × (claims : Claims) × (request ∷ []
      ≡ request ∷ more)
    × Admitted to_lower decompose verify_sync parent
        (text_of "pool")
        request
        (some keys)
        subdomain
        token
        claims
handler-Admitted_example =
    handler-Admitted to_lower decompose verify_sync parent (text_of "pool") (request ∷ [])
      (some keys) request passes

one_tenant_per_token_example :
    (subdomain : Text) × (host : Text) × (host2 : Text) × (first_host request ≡ some host)
    × (first_host request ≡ some host2)
    × (extract_tenant_subdomain to_lower (some host) parent is_tenant_label ≡ some subdomain)
    × (extract_tenant_subdomain to_lower (some host2) parent is_tenant_label ≡ some subdomain)
one_tenant_per_token_example =
    one_tenant_per_token to_lower decompose verify_sync parent (text_of "pool") (request ∷ [])
      (request ∷ []) (some keys) request request passes passes refl

lower_colon : (s : Text) → has 58 s ≡ false → has 58 (to_lower s) ≡ false
unfolding has
lower_colon [] h = refl
lower_colon (c ∷ s) h = ground (arith, lower_colon s)

lower_idem : (s : Text) → to_lower (to_lower s) ≡ to_lower s
lower_idem [] = refl
lower_idem (c ∷ s) = ground (arith, lower_idem s)

lower_again : (s : Text) → to_lower (strip_last 46 (to_lower s)) ≡ strip_last 46 (to_lower s)
unfolding strip_last
lower_again [] = refl
lower_again (c ∷ []) = ground arith
lower_again (c ∷ d ∷ s) = ground (arith, lower_again (d ∷ s))

extract_tenant_subdomain-HostOf_example :
    (extract_tenant_subdomain to_lower
        (some (text_of "Acme.t.eu..:443"))
        (text_of "t.eu.")
        is_tenant_label
      ≡ some (text_of "acme"))
    ↔ HostOf to_lower refl lower_colon lower_again
        (text_of "t.eu")
        (text_of "acme")
        (text_of "Acme.t.eu..:443")
unfolding strip_last
extract_tenant_subdomain-HostOf_example =
    extract_tenant_subdomain-HostOf to_lower refl lower_colon lower_again
      (text_of "Acme.t.eu..:443") (text_of "t.eu") (text_of ".") (text_of "acme") refl (inr refl)

-- Two calls a second apart; the second is answered with what the first one fetched.
abbrev served_one : String → Fetched ℕ
served_one url = parsed (object_body (some (nothing ∷ key_object 7 ∷ [])))

abbrev served_none : String → Fetched ℕ
served_none url = http_error 503

abbrev first_call : Call ℕ
first_call = record { now = 5000; fetcher = served_one }

abbrev second_call : Call ℕ
second_call = record { now = 6000; fetcher = served_none }

get_jwks-FromFetch_example :
    FromFetch "https://idp/jwks" 900000 (second_call ∷ first_call ∷ []) (7 ∷ [])
unfolding create after get_jwks refresh delivered objects keep
get_jwks-FromFetch_example =
    get_jwks-FromFetch "https://idp/jwks" 900000
      (record { jwks_url = "https://idp/jwks"; ttl_ms = 900000; cached_keys = none; cached_at = 0 })
      refl (first_call ∷ []) second_call (7 ∷ []) refl
