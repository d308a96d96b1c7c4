-- ===== src/Region/Detect/Chosen.antt =====
-- The regions that packages/foundation/src/region/detect.ts chooses.
use saas_foundation.Prelude.{
  ◌≡◌, true, ltb, ◌==◌, Option, none, some, List, [], ◌∷◌, if◌then◌else◌, length, Bool-cases,
  Option-cases, inl, inr, or_else,
}
use saas_foundation.Text.{Text, text_of}
use saas_foundation.Region.Registry.{
  accepted, RegionRegistryOptions, RegionRegistry, contains, create, country_to_region, is_region,
}
use saas_foundation.Region.Registry.Allowed.{
  create-IsRegistry, country_to_region_sound, contains_region,
}
use saas_foundation.Region.Detect.{
  Source, cdn_geo_header, accept_language, default_source, default_order, Headers, is_unknown,
  two_letter, lang_to_country, country_of_lang, is_chinese, region_of_lang, region_of_langs,
  langs_of, region_from_accept_language, region_of_headers, cdn_geo_headers, try_source,
  detect_from, detect_sync,
}

module _ (to_upper : Text → Text) (reg : RegionRegistry) where
  -- Only allowed regions are found.
  abbrev Sound : Option Text → Type 0
  Sound found = (r : Text) → found ≡ some r → contains reg.allowed_list r ≡ true

  -- The first of two results.
  first-Sound :
      (found rest : Option Text)
      → Sound found
      → Sound rest
      → Sound (elim found [ none ↦ rest | some r ↦ some r ])
  first-Sound none rest h hr = hr
  first-Sound (some x) rest h hr = h

  none-Sound : Sound none
  none-Sound r h = absurd (cc h)

  country-Sound :
      (country : Option Text)
      → Sound (elim country [ none ↦ none | some c ↦ country_to_region to_upper reg c ])
  country-Sound none = none-Sound
  country-Sound (some c) = country_to_region_sound to_upper reg c

  region_of_lang-Sound : (lang : Text) → Sound (region_of_lang to_upper reg lang)
  unfolding region_of_lang
  region_of_lang-Sound lang = elim (Bool-cases (is_chinese lang)) [
    | inl zh ↦ rw zh (
        first-Sound (country_to_region to_upper reg (text_of "CN")) _
          (country_to_region_sound to_upper reg (text_of "CN"))
          (country-Sound (country_of_lang lang_to_country (two_letter lang))))
    | inr other ↦ rw other (country-Sound (country_of_lang lang_to_country (two_letter lang)))
  ]

  region_of_langs-Sound : (langs : List Text) → Sound (region_of_langs to_upper reg langs)
  unfolding region_of_langs
  region_of_langs-Sound [] = none-Sound
  region_of_langs-Sound (lang ∷ langs) = elim (Bool-cases (ltb 0 (length lang))) [
    | inl full ↦ rw full (
        first-Sound (region_of_lang to_upper reg lang) _ (region_of_lang-Sound lang)
          (region_of_langs-Sound langs))
    | inr empty ↦ rw empty (region_of_langs-Sound langs)
  ]

  region_of_headers-Sound :
      (headers : Headers) (names : List Text) → Sound (region_of_headers to_upper reg headers names)
  unfolding region_of_headers
  region_of_headers-Sound headers [] = none-Sound
  region_of_headers-Sound headers (name ∷ names) = elim (Option-cases (headers name)) [
    | inl e ↦ rw (e, region_of_headers) (region_of_headers-Sound headers names)
    | inr (value, e) ↦ elim (Bool-cases (is_unknown value)) [
      | inl unknown ↦ rw (e, unknown, region_of_headers) (region_of_headers-Sound headers names)
      | inr known ↦
          rw (e, known, region_of_headers)
            (first-Sound (country_to_region to_upper reg value) _
              (country_to_region_sound to_upper reg value) (region_of_headers-Sound headers names))
    ]
  ]

  module _ (to_lower : Text → Text) where
    accept_language-Sound :
        (value : Option Text)
        → Sound (elim value [
          | none ↦ none
          | some al ↦
              if length al == 0 then none else region_from_accept_language to_upper reg to_lower al
        ])
    unfolding region_from_accept_language
    accept_language-Sound none = none-Sound
    accept_language-Sound (some al) = elim (Bool-cases (length al == 0)) [
      | inl empty ↦ rw empty none-Sound
      | inr full ↦ rw full (region_of_langs-Sound (langs_of to_lower al))
    ]

    try_source-Sound :
        (source : Source) (headers : Headers)
        → contains reg.allowed_list reg.default_region ≡ true
        → Sound (try_source to_upper reg to_lower source headers)
    unfolding try_source
    try_source-Sound cdn_geo_header headers h = region_of_headers-Sound headers cdn_geo_headers
    try_source-Sound accept_language headers h =
        accept_language-Sound (headers (text_of "Accept-Language"))
    try_source-Sound default_source headers h =
        λ r e. let one : reg.default_region ≡ r = cc e in rw (← one) h

    detect_from-Allowed :
        (sources : List Source) (headers : Headers)
        → contains reg.allowed_list reg.default_region ≡ true
        → contains reg.allowed_list (detect_from to_upper reg to_lower sources headers) ≡ true
    unfolding detect_from
    detect_from-Allowed [] headers h = h
    detect_from-Allowed (source ∷ sources) headers h =
        elim (Option-cases (try_source to_upper reg to_lower source headers)) [
          | inl e ↦ rw (e, detect_from) (detect_from-Allowed sources headers h)
          | inr (r, e) ↦ rw (e, detect_from) (try_source-Sound source headers h r e)
        ]

-- Whatever the headers, the mapping of the countries and the order of the sources, the region that
-- `detectSync` gives with a registry that the constructor makes is one of the allowed regions, and
-- has the form of a region.
pub detect_sync-Allowed :
    (to_upper to_lower : Text → Text) (o : RegionRegistryOptions) (reg : RegionRegistry)
    (fallback_order : Option (List Source)) (headers : Headers)
    → create o ≡ accepted reg
    → (contains o.allowed (detect_sync to_upper reg to_lower fallback_order headers) ≡ true)
      × (is_region (detect_sync to_upper reg to_lower fallback_order headers) ≡ true)
unfolding detect_sync
detect_sync-Allowed to_upper to_lower o reg fallback_order headers h =
    let made = create-IsRegistry o reg h in
    let inside =
      detect_from-Allowed to_upper reg to_lower (or_else fallback_order default_order) headers
        made.1.1 in
    (rw (← made.0) inside, contains_region reg.allowed_list _ made.1.0 inside)
