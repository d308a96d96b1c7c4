-- ===== src/Region/Detect.antt =====
-- packages/foundation/src/region/detect.ts: the region that a request is for.
pub mod Chosen
use saas_foundation.Prelude.{
  Bool, ◌||◌, Option, none, some, List, [], ◌∷◌, ◌==◌, ltb, if◌then◌else◌, any, map, length,
  same_numbers, or_else,
}
use saas_foundation.Text.{Text, text_of, split, first_part, trim, starts_with}
use saas_foundation.Region.Registry.{RegionRegistry, country_to_region}

pub data Source : Type 0 where
  cdn_geo_header accept_language default_source : Source

abbrev pub default_order : List Source
default_order = cdn_geo_header ∷ accept_language ∷ default_source ∷ []

abbrev pub cdn_geo_headers : List Text
cdn_geo_headers = text_of "CloudFront-Viewer-Country" ∷ text_of "CF-IPCountry" ∷ []

abbrev pub unknown_country_codes : List Text
unknown_country_codes = text_of "XX" ∷ text_of "T1" ∷ text_of "ZZ" ∷ text_of "" ∷ []

-- The header of a name, whatever its letters' case.
abbrev pub Headers : Type 0
Headers = Text → Option Text

unfoldable pub is_unknown : Text → Bool
is_unknown value = any (same_numbers value) unknown_country_codes

-- `lang.slice(0, 2)`
unfoldable pub two_letter : Text → Text
two_letter [] = []
two_letter (x ∷ []) = x ∷ []
two_letter (x ∷ y ∷ s) = x ∷ y ∷ []

abbrev pub lang_to_country : List (Text × Text)
lang_to_country =
    (text_of "de", text_of "DE")
    ∷ (text_of "fr", text_of "FR")
    ∷ (text_of "es", text_of "ES")
    ∷ (text_of "it", text_of "IT")
    ∷ (text_of "pt", text_of "PT")
    ∷ (text_of "nl", text_of "NL")
    ∷ (text_of "ja", text_of "JP")
    ∷ (text_of "ko", text_of "KR")
    ∷ []

unfoldable pub country_of_lang : List (Text × Text) → Text → Option Text
country_of_lang [] lang = none
country_of_lang (entry ∷ entries) lang =
    let rest = country_of_lang entries lang in
    if same_numbers entry.0 lang then some entry.1 else rest

-- A tag of the language Chinese
unfoldable pub is_chinese : Text → Bool
unfolding starts_with
is_chinese lang =
    starts_with (text_of "zh-cn") lang
    || starts_with (text_of "zh-hans") lang
    || starts_with (text_of "zh") lang

-- The tags, each without its weight.
unfoldable pub langs_of : (Text → Text) → Text → List Text
unfolding split first_part trim
langs_of to_lower tags = map (λ part. to_lower (trim (first_part b';' part))) (split b',' tags)

-- `to_upper` and `to_lower` are the language's `toUpperCase` and `toLowerCase`.
module _ (to_upper : Text → Text) (reg : RegionRegistry) where
  -- The region of one tag: that of China, or else that of the tag's language.
  unfoldable pub region_of_lang : Text → Option Text
  unfolding is_chinese country_to_region country_of_lang two_letter
  region_of_lang lang =
      let by_language : Option Text = elim (country_of_lang lang_to_country (two_letter lang)) [
        | none ↦ none
        | some country ↦ country_to_region to_upper reg country
      ] in
      if is_chinese lang
      then elim (country_to_region to_upper reg (text_of "CN")) [
        | none ↦ by_language
        | some r ↦ some r
      ]
      else by_language

  unfoldable pub region_of_langs : List Text → Option Text
  unfolding region_of_lang
  region_of_langs [] = none
  region_of_langs (lang ∷ langs) =
      let rest = region_of_langs langs in
      if ltb 0 (length lang)
      then elim (region_of_lang lang) [ none ↦ rest | some r ↦ some r ]
      else rest

  unfoldable pub region_from_accept_language : (Text → Text) → Text → Option Text
  unfolding region_of_langs langs_of
  region_from_accept_language to_lower tags = region_of_langs (langs_of to_lower tags)

  unfoldable pub region_of_headers : Headers → List Text → Option Text
  unfolding is_unknown country_to_region
  region_of_headers headers [] = none
  region_of_headers headers (name ∷ names) =
      let rest = region_of_headers headers names in
      elim (headers name) [
        | none ↦ rest
        | some value ↦
            if is_unknown value
            then rest
            else elim (country_to_region to_upper reg value) [ none ↦ rest | some r ↦ some r ]
      ]

  module _ (to_lower : Text → Text) where
    unfoldable pub try_source : Source → Headers → Option Text
    unfolding region_of_headers region_from_accept_language
    try_source cdn_geo_header headers = region_of_headers headers cdn_geo_headers
    try_source accept_language headers = elim (headers (text_of "Accept-Language")) [
      | none ↦ none
      | some al ↦ if length al == 0 then none else region_from_accept_language to_lower al
    ]
    try_source default_source headers = some reg.default_region

    unfoldable pub detect_from : List Source → Headers → Text
    unfolding try_source
    detect_from [] headers = reg.default_region
    detect_from (source ∷ sources) headers =
        let rest = detect_from sources headers in
        elim (try_source source headers) [ none ↦ rest | some r ↦ r ]

    -- `fallback_order` in place of the default, if it is given
    unfoldable pub detect_sync : Option (List Source) → Headers → Text
    unfolding detect_from
    detect_sync fallback_order headers = detect_from (or_else fallback_order default_order) headers

    -- `policy` is what the residency policy answers for the tenant, with both given: `none` outside
    -- for no tenant or no policy, and inside for no requirement.
    unfoldable pub detect : Option (List Source) → Headers → Option (Option Text) → Text
    unfolding detect_sync
    detect fallback_order headers policy =
        let sync_region = detect_sync fallback_order headers in
        elim policy [
          | none ↦ sync_region
          | some none ↦ sync_region
          | some (some residency) ↦ residency
        ]

unfoldable pub detect_region : (Text → Text) → (Text → Text) → Headers → RegionRegistry → Text
unfolding detect_sync
detect_region to_upper to_lower headers reg = detect_sync to_upper reg to_lower none headers
