-- ===== src/Tenant/Composite/Trust.antt =====
-- What a composite of packages/foundation/src/tenant/strategies/composite.ts relies on.
use saas_foundation.Prelude.{
  ◌≡◌, ◌≢◌, refl, sym, ap, ◌∙◌, ◌⊎◌, inl, inr, Bool, true, false, ◌&&◌, ◌||◌, List, [], ◌∷◌, ◌++◌,
  ◌==◌, length, Bool-cases, All,
}
use saas_foundation.Tenant.{
  TrustClass, server_trust_anchored, untrusted, Resolved, tenant, nobody, rejected, TenantResolver,
}
use saas_foundation.Tenant.Composite.{composed, declares, has_class, create, resolve}

Resolved-cases : {R : Type 0} → (x : Resolved R) → (x ≡ nobody) ⊎ (x ≢ nobody)
Resolved-cases (tenant t) = inr (λ h. absurd (cc h))
Resolved-cases nobody = inl refl
Resolved-cases (rejected e) = inr (λ h. absurd (cc h))

or_right : (a b : Bool) → b ≡ true → a || b ≡ true
or_right true b h = refl
or_right false b h = h

-- The first of two results.
first_given :
    {R : Type 0}
    → (x rest : Resolved R) → x ≢ nobody
    → (elim x as (λ _. Resolved R) [
      | tenant t ↦ tenant t
      | nobody ↦ rest
      | rejected e ↦ rejected e
    ])
      ≡ x
first_given (tenant t) rest h = refl
first_given nobody rest h = absurd (h refl)
first_given (rejected e) rest h = refl

module _ {I R : Type 0} where
  -- The resolver `r` gave the result, and those in front of it gave null.
  pub record GivenBy (resolvers : List (TenantResolver I R)) (input : I) (result : Resolved R)
      : Type 0 where
    pub before : List (TenantResolver I R)
    pub giver : TenantResolver I R
    pub behind : List (TenantResolver I R)
    pub place : resolvers ≡ before ++ (giver ∷ behind)
    pub silent : All (λ r. r.resolve input ≡ nobody) before
    pub gives : giver.resolve input ≡ result

  resolve-GivenBy :
      (resolvers : List (TenantResolver I R)) (input : I) (result : Resolved R)
      → resolve resolvers input ≡ result
      → result ≢ nobody
      → GivenBy resolvers input result
  unfolding resolve
  resolve-GivenBy [] input result h some_result = absurd (some_result (sym h))
  resolve-GivenBy (r ∷ resolvers) input result h some_result =
      elim (Resolved-cases (r.resolve input)) [
        | inl quiet ↦
            let g = resolve-GivenBy resolvers input result (rw (quiet, resolve) at h) some_result in
            record {
              before = r ∷ g.before;
              giver = g.giver;
              behind = g.behind;
              place = ap (λ l. r ∷ l) g.place;
              silent = (quiet, g.silent);
              gives = g.gives;
            }
        | inr loud ↦ record {
          before = [];
          giver = r;
          behind = resolvers;
          place = refl;
          silent = tt;
          gives = sym (first_given (r.resolve input) (resolve resolvers input) loud) ∙ h;
        }
      ]

  has_class-append :
      (c : TrustClass) (before : List (TenantResolver I R)) (r : TenantResolver I R)
      (behind : List (TenantResolver I R))
      → declares r.trust_class c ≡ true
      → has_class c (before ++ (r ∷ behind)) ≡ true
  unfolding has_class
  has_class-append c [] r behind h = rw h refl
  has_class-append c (b ∷ before) r behind h =
      or_right (declares b.trust_class c) (has_class c (before ++ (r ∷ behind)))
        (has_class-append c before r behind h)

  create_unmixed :
      (resolvers made : List (TenantResolver I R))
      → create resolvers ≡ composed made
      → (resolvers ≡ made)
        × (has_class server_trust_anchored made && has_class untrusted made ≡ false)
  unfolding create
  create_unmixed resolvers made h = elim (Bool-cases (length resolvers == 0)) [
    | inl empty ↦ absurd (cc (rw (empty, create) at h))
    | inr full ↦
        elim (Bool-cases
          (has_class server_trust_anchored resolvers && has_class untrusted resolvers)) [
            | inl mixed ↦ absurd (cc (rw (full, mixed, create) at h))
            | inr pure ↦
                let same : composed resolvers ≡ composed made = rw (full, pure, create) at h in
                let one : resolvers ≡ made = cc same in (one, rw (← one) pure)
          ]
  ]

  -- Where the constructor makes a composite that has a resolver that declares itself anchored, then
  -- an answer of the composite other than null, or what it throws, is that of the first of its
  -- resolvers that does not give null, and this resolver does not declare itself untrusted.
  pub resolve-Trusted :
      (resolvers made : List (TenantResolver I R)) (input : I) (result : Resolved R)
      → create resolvers ≡ composed made
      → has_class server_trust_anchored made ≡ true
      → resolve made input ≡ result
      → result ≢ nobody
      → (g : GivenBy made input result) × (declares g.giver.trust_class untrusted ≡ false)
  resolve-Trusted resolvers made input result hc anchored h some_result =
      let g = resolve-GivenBy made input result h some_result in
      let unmixed = (create_unmixed resolvers made hc).1 in
      (
        g,
        elim (Bool-cases (declares g.giver.trust_class untrusted)) [
          | inr fine ↦ fine
          | inl bad ↦
              let there : has_class untrusted made ≡ true =
                rw g.place (has_class-append untrusted g.before g.giver g.behind bad) in
              absurd (cc (unmixed, anchored, there))
        ],
      )
