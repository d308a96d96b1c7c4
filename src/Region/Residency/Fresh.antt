-- ===== src/Region/Residency/Fresh.antt =====
-- What the cache of packages/foundation/src/region/residency.ts answers with.
use saas_foundation.Prelude.{
  ℕ, ◌+◌, ◌<◌, ◌≡◌, refl, sym, ◌∙◌, ◌⊎◌, inl, inr, String, Option, none, some, List, [], ◌∷◌, ltb,
  ltb→lt, str_eq, eq_iff, JsMap, get, get-set, Bool-cases, Option-cases,
}
use saas_foundation.Region.Residency.{Cached, fetch, get_residency_region}

-- One call: the tenant, the time, and what the policy answers, and when, if it is asked.
pub record Call (R : Type 0) : Type 0 where
  pub tenant : String
  pub now : ℕ
  pub done : ℕ
  pub answer : Option (Option R)

-- The cache after the calls, the latest first.
abbrev pub after : {R : Type 0} → ℕ → List (Call R) → JsMap (Cached R)
after ttl_ms [] = []
after ttl_ms (c ∷ calls) =
    (get_residency_region ttl_ms c.now c.done c.answer c.tenant (after ttl_ms calls)).0

-- One of the calls was for the tenant, the policy answered it with `r`, and `expires` is a lifetime
-- after the answer.
abbrev pub Answered : {R : Type 0} → ℕ → List (Call R) → String → Option R → ℕ → Type 0
Answered ttl_ms [] tenant r expires = ⊥
Answered ttl_ms (c ∷ calls) tenant r expires =
    ((c.tenant ≡ tenant) × (c.answer ≡ some r) × (expires ≡ c.done + ttl_ms))
    ⊎ Answered ttl_ms calls tenant r expires

-- Every entry of the cache is an answer, with its lifetime.
Backed : {R : Type 0} → ℕ → List (Call R) → JsMap (Cached R) → Type 0
Backed {R = R} ttl_ms calls cache =
    (tenant : String) (e : Cached R)
    → get cache tenant ≡ some e
    → Answered ttl_ms calls tenant e.region e.expires

later-Backed :
    {R : Type 0}
    → (ttl_ms : ℕ) (c : Call R) (calls : List (Call R)) (cache : JsMap (Cached R))
    → Backed ttl_ms calls cache
    → Backed ttl_ms (c ∷ calls) cache
unfolding Backed
later-Backed ttl_ms c calls cache back = λ tenant e h. inr (back tenant e h)

fetch-Backed :
    {R : Type 0}
    → (ttl_ms : ℕ) (c : Call R) (calls : List (Call R)) (answer : Option (Option R))
      (cache : JsMap (Cached R))
    → c.answer ≡ answer
    → Backed ttl_ms calls cache
    → Backed ttl_ms (c ∷ calls) (fetch ttl_ms c.done answer c.tenant cache).0
unfolding fetch Backed
fetch-Backed ttl_ms c calls none cache a back = later-Backed ttl_ms c calls cache back
fetch-Backed ttl_ms c calls (some r) cache a back = λ tenant e h.
    elim (Bool-cases (str_eq c.tenant tenant)) [
      | inl same ↦
          let stored : some (record { region = r; expires = c.done + ttl_ms }) ≡ some e =
            rw (get-set cache c.tenant tenant, same) at h in
          let one : record { region = r; expires = c.done + ttl_ms } ≡ e = cc stored in
          rw (← one) (inl ((eq_iff c.tenant tenant).0 same, a, refl))
      | inr other ↦
          let before : get cache tenant ≡ some e = rw (get-set cache c.tenant tenant, other) at h in
          inr (back tenant e before)
    ]

fetch_answer :
    {R : Type 0}
    → (ttl_ms done : ℕ) (answer : Option (Option R)) (tenant : String) (cache : JsMap (Cached R))
    → (fetch ttl_ms done answer tenant cache).1 ≡ answer
unfolding fetch
fetch_answer ttl_ms done none tenant cache = refl
fetch_answer ttl_ms done (some r) tenant cache = refl

call-Backed :
    {R : Type 0}
    → (ttl_ms : ℕ) (c : Call R) (calls : List (Call R)) (cache : JsMap (Cached R))
    → Backed ttl_ms calls cache
    → Backed ttl_ms (c ∷ calls) (get_residency_region ttl_ms c.now c.done c.answer c.tenant cache).0
unfolding get_residency_region
call-Backed ttl_ms c calls cache back = elim (Option-cases (get cache c.tenant)) [
  | inl e ↦ rw (e, get_residency_region) (fetch-Backed ttl_ms c calls c.answer cache refl back)
  | inr (cached, e) ↦ elim (Bool-cases (ltb c.now cached.expires)) [
    | inl live ↦ rw (e, live, get_residency_region) (later-Backed ttl_ms c calls cache back)
    | inr late ↦
        rw (e, late, get_residency_region) (fetch-Backed ttl_ms c calls c.answer cache refl back)
  ]
]

after-Backed :
    {R : Type 0} → (ttl_ms : ℕ) (calls : List (Call R)) → Backed ttl_ms calls (after ttl_ms calls)
unfolding Backed get
after-Backed ttl_ms [] = λ tenant e h. absurd (cc h)
after-Backed ttl_ms (c ∷ calls) =
    call-Backed ttl_ms c calls (after ttl_ms calls) (after-Backed ttl_ms calls)

-- After any calls, what the cache answers for a tenant is what the policy answered for that tenant,
-- either to this call or to an earlier one whose answer is not older than the lifetime.
pub get_residency_region-Answered :
    {R : Type 0}
    → (ttl_ms : ℕ) (calls : List (Call R)) (c : Call R) (r : Option R)
    → (get_residency_region ttl_ms c.now c.done c.answer c.tenant (after ttl_ms calls)).1 ≡ some r
    → (c.answer ≡ some r)
      ⊎ ((expires : ℕ) × (c.now < expires) × Answered ttl_ms calls c.tenant r expires)
unfolding get_residency_region
get_residency_region-Answered ttl_ms calls c r h =
    let cache = after ttl_ms calls in
    let fetched = fetch_answer ttl_ms c.done c.answer c.tenant cache in
    elim (Option-cases (get cache c.tenant)) [
      | inl e ↦ inl (sym fetched ∙ rw (e, get_residency_region) at h)
      | inr (cached, e) ↦ elim (Bool-cases (ltb c.now cached.expires)) [
        | inr late ↦ inl (sym fetched ∙ rw (e, late, get_residency_region) at h)
        | inl live ↦
            let served : some cached.region ≡ some r = rw (e, live, get_residency_region) at h in
            let one : cached.region ≡ r = cc served in
            let back : Answered ttl_ms calls c.tenant cached.region cached.expires =
              unfold Backed in after-Backed ttl_ms calls c.tenant cached e in
            inr (cached.expires, ltb→lt _ _ live, rw (← one) back)
      ]
    ]
