-- ===== src/Region/Tests.antt =====
-- The theorems on regions at concrete inputs.
use saas_foundation.Prelude.{
  ℕ, ◌≡◌, ◌<◌, ◌⊎◌, refl, true, Option, none, some, [], ◌∷◌, same_numbers, if◌then◌else◌, is_letter,
  is_digit, get, set,
}
use saas_foundation.Text.{Text, text_of, is_space}
use saas_foundation.Region.Registry.{
  RegionRegistryOptions, RegionRegistry, contains, create, parse_or_null, is_region,
}
use saas_foundation.Region.Detect.{Headers, detect_sync}
use saas_foundation.Region.Detect.Chosen.{detect_sync-Allowed}
use saas_foundation.Region.Residency.{get_residency_region}
use saas_foundation.Region.Residency.Fresh.{Call, Answered, get_residency_region-Answered}

-- Germany is mapped to the first region, France to one that is not allowed.
abbrev mapping : Text → Option Text
mapping country =
    if same_numbers country (text_of "DE")
    then some (text_of "eu-central-1")
    else if same_numbers country (text_of "FR")
    then some (text_of "eu-west-3")
    else none

abbrev options : RegionRegistryOptions
options = record {
  allowed = text_of "us-east-1" ∷ text_of "eu-central-1" ∷ [];
  default_region = text_of "us-east-1";
  country_mapping = some mapping;
}

abbrev registry : RegionRegistry
registry = record {
  allowed_list = text_of "us-east-1" ∷ text_of "eu-central-1" ∷ [];
  default_region = text_of "us-east-1";
  country_map = mapping;
}

abbrev same_case : Text → Text
same_case s = s

-- A visitor from France who prefers German.
abbrev headers : Headers
headers name =
    if same_numbers name (text_of "CF-IPCountry")
    then some (text_of "FR")
    else if same_numbers name (text_of "Accept-Language")
    then some (text_of "fr,de;q=0.8")
    else none

detects_german : detect_sync same_case registry same_case none headers ≡ text_of "eu-central-1"
unfolding detect_sync parse_or_null contains is_region same_numbers is_letter is_digit is_space
detects_german = refl

detect_sync-Allowed_example :
    (contains options.allowed (detect_sync same_case registry same_case none headers) ≡ true)
    × (is_region (detect_sync same_case registry same_case none headers) ≡ true)
unfolding create is_letter is_digit same_numbers
detect_sync-Allowed_example =
    detect_sync-Allowed same_case same_case options registry none headers refl

abbrev asked : Call ℕ
asked = record { tenant = "acme"; now = 1000; done = 1010; answer = some (some 7) }

abbrev again : Call ℕ
again = record { tenant = "acme"; now = 2000; done = 2010; answer = none }

get_residency_region-Answered_example :
    (again.answer ≡ some (some 7))
    ⊎ ((expires : ℕ) × (2000 < expires) × Answered 60000 (asked ∷ []) "acme" (some 7) expires)
unfolding get_residency_region get set
get_residency_region-Answered_example =
    get_residency_region-Answered 60000 (asked ∷ []) again (some 7) refl
