-- ===== src/Region/Registry/Allowed.antt =====
-- The registries that packages/foundation/src/region/registry.ts makes, and what they accept.
use saas_foundation.Prelude.{
  ◌≡◌, ◌↔◌, refl, true, none, some, List, [], ◌∷◌, all, same_numbers, same_numbers_sound,
  Bool-cases, Option-cases, inl, inr,
}
use saas_foundation.Text.{Text}
use saas_foundation.Region.Registry.{
  is_region, region_or_null, accepted, RegionRegistryOptions, RegionRegistry, contains,
  first_invalid, create_default, create_allowed, create, parse, parse_or_null, country_to_region,
}

-- Every region that is allowed has the form of one, and the default is allowed.
abbrev pub IsRegistry : RegionRegistry → Type 0
IsRegistry reg =
    (all is_region reg.allowed_list ≡ true) × (contains reg.allowed_list reg.default_region ≡ true)

all_valid : (allowed : List Text) → first_invalid allowed ≡ none → all is_region allowed ≡ true
unfolding first_invalid
all_valid [] h = refl
all_valid (r ∷ allowed) h = elim (Bool-cases (is_region r)) [
  | inl good ↦ rw good (all_valid allowed (rw (good, first_invalid) at h))
  | inr bad ↦ absurd (cc (rw (bad, first_invalid) at h))
]

pub contains_region :
    (regions : List Text) (v : Text)
    → all is_region regions ≡ true
    → contains regions v ≡ true
    → is_region v ≡ true
unfolding contains
contains_region [] v good h = absurd (cc h)
contains_region (r ∷ regions) v good h = elim (Bool-cases (is_region r)) [
  | inr bad ↦ absurd (cc (rw bad at good))
  | inl fine ↦ elim (Bool-cases (same_numbers v r)) [
    | inl same ↦ rw (same_numbers_sound v r same) fine
    | inr other ↦ contains_region regions v (rw fine at good) (rw other at h)
  ]
]

create_default-IsRegistry :
    (o : RegionRegistryOptions) (reg : RegionRegistry)
    → create_default o ≡ accepted reg
    → (reg.allowed_list ≡ o.allowed)
      × (reg.default_region ≡ o.default_region)
      × (contains o.allowed o.default_region ≡ true)
unfolding create_default
create_default-IsRegistry o reg h = elim (Bool-cases (is_region o.default_region)) [
  | inr bad ↦ absurd (cc (rw (bad, create_default) at h))
  | inl good ↦ elim (Bool-cases (contains o.allowed o.default_region)) [
    | inr bad ↦ absurd (cc (rw (good, bad, create_default) at h))
    | inl there ↦ let same = rw (good, there, create_default) at h in (cc same, cc same, there)
  ]
]

create_allowed-IsRegistry :
    (o : RegionRegistryOptions) (reg : RegionRegistry)
    → create_allowed o ≡ accepted reg
    → (reg.allowed_list ≡ o.allowed) × IsRegistry reg
unfolding create_allowed
create_allowed-IsRegistry o reg h = elim (Option-cases (first_invalid o.allowed)) [
  | inr (r, bad) ↦ absurd (cc (rw (bad, create_allowed) at h))
  | inl good ↦
      let parts = create_default-IsRegistry o reg (rw (good, create_allowed) at h) in
      (parts.0, rw (parts.0, parts.1) (all_valid o.allowed good, parts.2))
]

create_by :
    (o : RegionRegistryOptions) (reg : RegionRegistry) (allowed : List Text)
    → o.allowed ≡ allowed
    → create o ≡ accepted reg
    → create_allowed o ≡ accepted reg
unfolding create
create_by o reg [] e h = absurd (cc (rw (e, create) at h))
create_by o reg (r ∷ allowed) e h = rw (e, create) at h

-- A registry that the constructor makes has the allowed regions that were given, each of them has
-- the form of a region, and the default is one of them.
pub create-IsRegistry :
    (o : RegionRegistryOptions) (reg : RegionRegistry)
    → create o ≡ accepted reg
    → (reg.allowed_list ≡ o.allowed) × IsRegistry reg
create-IsRegistry o reg h = create_allowed-IsRegistry o reg (create_by o reg o.allowed refl h)

-- With a registry that the constructor makes, `parse` accepts exactly the allowed regions, as they
-- are, and `parseOrNull` gives a region exactly where `parse` does.
pub parse_iff :
    (o : RegionRegistryOptions) (reg : RegionRegistry) (value : Text)
    → create o ≡ accepted reg
    → ((parse reg value ≡ accepted value) ↔ (contains o.allowed value ≡ true))
      × ((parse_or_null reg value ≡ some value) ↔ (contains o.allowed value ≡ true))
unfolding parse parse_or_null region_or_null
parse_iff o reg value h =
    let made = create-IsRegistry o reg h in
    elim (Bool-cases (contains reg.allowed_list value)) [
      | inl there ↦
          let form = contains_region reg.allowed_list value made.1.0 there in
          rw (← made.0, form, parse_or_null, region_or_null, there)
            ((λ _. refl, λ _. refl), (λ _. refl, λ _. refl))
      | inr absent ↦ elim (Bool-cases (is_region value)) [
        | inl form ↦
            rw (← made.0, absent, form)
              ((λ e. absurd (cc e), λ e. absurd (cc e)), (λ e. absurd (cc e), λ e. absurd (cc e)))
        | inr bad ↦
            rw (← made.0, absent, bad)
              ((λ e. absurd (cc e), λ e. absurd (cc e)), (λ e. absurd (cc e), λ e. absurd (cc e)))
      ]
    ]

parse_or_null_sound :
    (reg : RegionRegistry) (value r : Text)
    → parse_or_null reg value ≡ some r
    → contains reg.allowed_list r ≡ true
unfolding parse_or_null region_or_null
parse_or_null_sound reg value r h = elim (Bool-cases (is_region value)) [
  | inr bad ↦ absurd (cc (rw (bad, parse_or_null, region_or_null) at h))
  | inl form ↦ elim (Bool-cases (contains reg.allowed_list value)) [
    | inr absent ↦ absurd (cc (rw (form, absent, parse_or_null, region_or_null) at h))
    | inl there ↦
        let same : some value ≡ some r = rw (form, there, parse_or_null, region_or_null) at h in
        let one : value ≡ r = cc same in rw (← one) there
  ]
]

pub country_to_region_sound :
    (to_upper : Text → Text) (reg : RegionRegistry) (country r : Text)
    → country_to_region to_upper reg country ≡ some r
    → contains reg.allowed_list r ≡ true
unfolding country_to_region
country_to_region_sound to_upper reg country r h =
    elim (Option-cases (reg.country_map (to_upper country))) [
      | inl e ↦ absurd (cc (rw (e, country_to_region) at h))
      | inr (mapped, e) ↦ parse_or_null_sound reg mapped r (rw (e, country_to_region) at h)
    ]
