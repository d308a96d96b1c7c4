-- ===== src/Region/Registry.antt =====
-- packages/foundation/src/region/registry.ts, with the form of a region of schemas.ts and types.ts.
pub mod Allowed
use saas_foundation.Prelude.{
  ℕ, Bool, ◌&&◌, ◌||◌, not, Option, none, some, List, [], ◌∷◌, leb, ◌==◌, if◌then◌else◌, any, all,
  length, same_numbers, is_letter, is_digit, or_else,
}
use saas_foundation.Text.{Text}

-- [A-Za-z0-9-]
unfoldable pub is_region_char : ℕ → Bool
is_region_char c = is_letter c || is_digit c || c == b'-'

-- The schema of a region: 2 to 32 characters.
unfoldable pub is_region : Text → Bool
unfolding is_region_char
is_region s = leb 2 (length s) && leb (length s) 32 && all is_region_char s

unfoldable pub region_or_null : Text → Option Text
unfolding is_region
region_or_null value = if is_region value then some value else none

-- Why the source throws.
pub data InvalidRegionError : Type 0 where
  empty_allowed : InvalidRegionError
  invalid_allowed : Text → InvalidRegionError
  invalid_default : Text → InvalidRegionError
  default_not_allowed : Text → InvalidRegionError
  invalid_format : Text → InvalidRegionError
  not_allowed : Text → InvalidRegionError

pub data RegionResult (A : Type 0) : Type 0 where
  invalid : InvalidRegionError → RegionResult A
  accepted : A → RegionResult A

unfoldable pub region : Text → RegionResult Text
unfolding is_region
region value = if is_region value then accepted value else invalid (invalid_format value)

-- `default_region` is the option `default`. The keys of the country mapping are in upper case.
pub record RegionRegistryOptions : Type 0 where
  pub allowed : List Text
  pub default_region : Text
  pub country_mapping : Option (Text → Option Text)

pub record RegionRegistry : Type 0 where
  pub allowed_list : List Text
  pub default_region : Text
  pub country_map : Text → Option Text

unfoldable pub contains : List Text → Text → Bool
contains regions value = any (same_numbers value) regions

-- The first entry that has not the form of a region.
unfoldable pub first_invalid : List Text → Option Text
unfolding is_region
first_invalid [] = none
first_invalid (r ∷ allowed) =
    let rest = first_invalid allowed in if is_region r then rest else some r

-- The constructor, from the check of the default on.
unfoldable pub create_default : RegionRegistryOptions → RegionResult RegionRegistry
unfolding is_region contains
create_default o =
    if not (is_region o.default_region)
    then invalid (invalid_default o.default_region)
    else if not (contains o.allowed o.default_region)
    then invalid (default_not_allowed o.default_region)
    else accepted (record {
      allowed_list = o.allowed;
      default_region = o.default_region;
      country_map = or_else o.country_mapping (λ _. none);
    })

unfoldable pub create_allowed : RegionRegistryOptions → RegionResult RegionRegistry
unfolding first_invalid create_default
create_allowed o = elim (first_invalid o.allowed) [
  | some r ↦ invalid (invalid_allowed r)
  | none ↦ create_default o
]

unfoldable pub create : RegionRegistryOptions → RegionResult RegionRegistry
unfolding create_allowed
create o = elim o.allowed [ [] ↦ invalid empty_allowed | r ∷ rest ↦ create_allowed o ]

unfoldable pub parse : RegionRegistry → Text → RegionResult Text
unfolding is_region contains
parse reg value =
    if not (is_region value)
    then invalid (invalid_format value)
    else if not (contains reg.allowed_list value)
    then invalid (not_allowed value)
    else accepted value

unfoldable pub parse_or_null : RegionRegistry → Text → Option Text
unfolding region_or_null contains
parse_or_null reg value = elim (region_or_null value) [
  | none ↦ none
  | some fmt ↦ if not (contains reg.allowed_list value) then none else some value
]

-- `to_upper` is the language's `toUpperCase`.
unfoldable pub country_to_region : (Text → Text) → RegionRegistry → Text → Option Text
unfolding parse_or_null
country_to_region to_upper reg country = elim (reg.country_map (to_upper country)) [
  | none ↦ none
  | some mapped ↦ parse_or_null reg mapped
]
