-- ===== src/Audit/Log/Persisted.antt =====
-- The events that packages/foundation/src/audit/audit-log.ts persists.
use saas_foundation.Prelude.{
  ℕ, ◌≡◌, ◌⊎◌, refl, sym, ap, String, Bool, true, false, Option, none, some, List, [], ◌∷◌, ◌++◌,
  str_eq, or_else, Bool-cases, Option-cases, inl, inr, eq_iff,
}
use saas_foundation.Audit.Pii.{Json, number, Fields, end, field, PiiFilter, scrub, is_denied}
use saas_foundation.Audit.Pii.Clean.{Clean, CleanValue, scrub-Clean}
use saas_foundation.Audit.Size.{reject, SizeCheck, too_large, checked}
use saas_foundation.Audit.Size.Kept.{enforce_metadata_size-Clean}
use saas_foundation.Audit.Ulid.{ulid}
use saas_foundation.Audit.Retention.{retention_seconds_for}
use saas_foundation.Audit.Multi.{AuditStore}
use saas_foundation.Audit.Log.{
  AuditEvent, EmitInput, AuditLogOptions, default_metadata_max_bytes, Validated, issues, valid,
  Built, refused, built, EmitResult, not_built, write_failed, persisted, EmitLine, set_field,
  flag_truncated, sized, compose, build_validated, build_event, emit_await, emit,
  store_write_failed, validation_failed, BuildError,
}

module _ {A : Type 0} (to_lower : String → String) (f : PiiFilter) where
  -- Metadata that the filter leaves, if there are any.
  abbrev pub CleanMetadata : Option (Fields A) → Type 0
  CleanMetadata none = Unit
  CleanMetadata (some fields) = Clean to_lower f fields

  set_field-Clean :
      (key : String) (v : Json A) (fields : Fields A)
      → is_denied to_lower f key ≡ false
      → CleanValue to_lower f v
      → Clean to_lower f fields
      → Clean to_lower f (set_field key v fields)
  unfolding set_field
  set_field-Clean key v end free hv h = ((λ denied. absurd (cc (free, denied))), hv, tt)
  set_field-Clean key v (field k w fields) free hv h = elim (Bool-cases (str_eq k key)) [
    | inl same ↦ rw same ((λ denied. absurd (cc (free, denied, (eq_iff k key).0 same))), hv, h.2)
    | inr other ↦ rw other (h.0, h.1, set_field-Clean key v fields free hv h.2)
  ]

  flag-Clean :
      (flag : A) (fields : Fields A) (truncated : Bool)
      → is_denied to_lower f "metadata_truncated" ≡ false
      → Clean to_lower f fields
      → Clean to_lower f (flag_truncated flag fields truncated)
  unfolding flag_truncated
  flag-Clean flag fields true free h =
      set_field-Clean "metadata_truncated" (number flag) fields free tt h
  flag-Clean flag fields false free h = h

pair_eq : {X Y : Type 0} → (p : X × Y) (x : X) (y : Y) → p.0 ≡ x → p.1 ≡ y → p ≡ (x, y)
pair_eq p x y hx hy = rw (← hx, ← hy) refl

append_nil : {X : Type 0} → (xs : List X) → xs ++ [] ≡ xs
append_nil [] = refl
append_nil (x ∷ xs) = ap (λ t. x ∷ t) (append_nil xs)

SizeCheck-cases :
    {A : Type 0}
    → (c : SizeCheck A)
    → ((size : ℕ) × (c ≡ too_large size)) ⊎ ((kept : Fields A) × (t : Bool) × (c ≡ checked kept t))
SizeCheck-cases (too_large size) = inl (size, refl)
SizeCheck-cases (checked kept t) = inr (kept, t, refl)

Built-cases :
    {A : Type 0}
    → (b : Built A) → ((e : BuildError) × (b ≡ refused e)) ⊎ ((ev : AuditEvent A) × (b ≡ built ev))
Built-cases (refused e) = inl (e, refl)
Built-cases (built ev) = inr (ev, refl)

Validated-cases :
    {A : Type 0}
    → (v : Validated A) → ((e : List String) × (v ≡ issues e)) ⊎ ((i : EmitInput A) × (v ≡ valid i))
Validated-cases (issues e) = inl (e, refl)
Validated-cases (valid i) = inr (i, refl)

compose_result :
    {A : Type 0}
    → (now_ms : ℕ) (bytes : List ℕ) (v : EmitInput A) (fields : Option (Fields A))
      (ev : AuditEvent A)
    → compose now_ms bytes v fields ≡ built ev
    → (ev.metadata ≡ fields) × (ev.timestamp ≡ now_ms) × (ulid now_ms bytes ≡ some ev.id)
unfolding compose
compose_result now_ms bytes v fields ev h = elim (Option-cases (ulid now_ms bytes)) [
  | inl e ↦ absurd (cc (rw (e, compose) at h))
  | inr (id, e) ↦ let same = rw (e, compose) at h in (cc same, cc same, cc (same, e))
]

module _ {A : Type 0} (to_lower : String → String) (number_size : A → ℕ) (flag : A) where
  sized-Clean :
      (o : AuditLogOptions) (given kept : Fields A) (t : Bool)
      → sized to_lower number_size o given ≡ checked kept t
      → Clean to_lower o.pii_filter kept
  unfolding sized
  sized-Clean o given kept t h =
      enforce_metadata_size-Clean to_lower o.pii_filter number_size
        (or_else o.metadata_oversize_policy reject)
        (or_else o.metadata_max_bytes default_metadata_max_bytes)
        (scrub to_lower o.pii_filter given) kept t (scrub-Clean to_lower o.pii_filter given).0 h

  -- What every event that is built has.
  abbrev pub WellBuilt : AuditLogOptions → ℕ → List ℕ → AuditEvent A → Type 0
  WellBuilt o now_ms bytes ev =
      CleanMetadata to_lower o.pii_filter ev.metadata
      × (ev.timestamp ≡ now_ms)
      × (ulid now_ms bytes ≡ some ev.id)

  composed :
      (o : AuditLogOptions) (now_ms : ℕ) (bytes : List ℕ) (v : EmitInput A)
      (fields : Option (Fields A)) (ev : AuditEvent A)
      → CleanMetadata to_lower o.pii_filter fields
      → compose now_ms bytes v fields ≡ built ev
      → WellBuilt o now_ms bytes ev
  composed o now_ms bytes v fields ev h e =
      let parts = compose_result now_ms bytes v fields ev e in (rw parts.0 h, parts.1, parts.2)

  build_validated-Clean :
      (o : AuditLogOptions) (now_ms : ℕ) (bytes : List ℕ) (v : EmitInput A) (ev : AuditEvent A)
      → is_denied to_lower o.pii_filter "metadata_truncated" ≡ false
      → build_validated to_lower number_size flag o now_ms bytes v ≡ built ev
      → WellBuilt o now_ms bytes ev
  unfolding build_validated
  build_validated-Clean o now_ms bytes v ev free h = elim (Option-cases v.metadata) [
    | inl e ↦ composed o now_ms bytes v none ev tt (rw (e, build_validated) at h)
    | inr (given, e) ↦ elim (SizeCheck-cases (sized to_lower number_size o given)) [
      | inl (size, c) ↦ absurd (cc (rw (e, c, build_validated) at h))
      | inr (kept, t, c) ↦
          composed o now_ms bytes v (some (flag_truncated flag kept t)) ev
            (flag-Clean to_lower o.pii_filter flag kept t free (sized-Clean o given kept t c))
            (rw (e, c, build_validated) at h)
    ]
  ]

  module _ {In : Type 0} (safe_parse : In → Validated A) where
    build_event-Clean :
        (o : AuditLogOptions) (now_ms : ℕ) (bytes : List ℕ) (input : In) (ev : AuditEvent A)
        → is_denied to_lower o.pii_filter "metadata_truncated" ≡ false
        → build_event to_lower number_size flag safe_parse o now_ms bytes input ≡ built ev
        → WellBuilt o now_ms bytes ev
    unfolding build_event
    build_event-Clean o now_ms bytes input ev free h = elim (Validated-cases (safe_parse input)) [
      | inl (found, e) ↦ absurd (cc (rw (e, build_event) at h))
      | inr (v, e) ↦ build_validated-Clean o now_ms bytes v ev free (rw (e, build_event) at h)
    ]

    module _ {S R : Type 0} (store : AuditStore (AuditEvent A) S R) where
      -- An event that `emitAwait` returns was written, by the call that resolved, for the retention of
      -- its severity; its time is the clock's, its identifier the one of that time, and its metadata
      -- have nothing under a denied key but the sentinel, unless the flag's own key is denied.
      pub emit_await-Clean :
          (o : AuditLogOptions) (now_ms : ℕ) (bytes : List ℕ) (input : In) (s after : S)
          (ev : AuditEvent A)
          → is_denied to_lower o.pii_filter "metadata_truncated" ≡ false
          → emit_await to_lower number_size flag safe_parse store o now_ms bytes input s
            ≡ (after, persisted ev)
          → (store.put ev (retention_seconds_for ev.severity o.retention_days) s ≡ (after, none))
            × CleanMetadata to_lower o.pii_filter ev.metadata
            × (ev.timestamp ≡ now_ms)
            × (ulid now_ms bytes ≡ some ev.id)
      unfolding emit_await
      emit_await-Clean o now_ms bytes input s after ev free h =
          elim (Built-cases
            (build_event to_lower number_size flag safe_parse o now_ms bytes input)) [
              | inl (e, b) ↦ absurd (cc (rw (b, emit_await) at h))
              | inr (made, b) ↦
                  elim (Option-cases
                    (store.put made (retention_seconds_for made.severity o.retention_days) s).1) [
                      | inr (r, f) ↦ absurd (cc (rw (b, f, emit_await) at h))
                      | inl f ↦
                          let same : (
                            (store.put made (retention_seconds_for made.severity o.retention_days)
                                s).0,
                            persisted made,
                          )
                              ≡ (after, persisted ev) =
                            rw (b, f, emit_await) at h in
                          let one : made ≡ ev = cc same in
                          let well : WellBuilt o now_ms bytes made =
                            build_event-Clean o now_ms bytes input made free b in
                          rw (← one) (
                            pair_eq
                                (store.put made
                                  (retention_seconds_for made.severity o.retention_days) s)
                                after none (cc same) f,
                            well.0,
                            well.1,
                            well.2,
                          )
                    ]
            ]

      -- The lines of the logger for what `emit_await` gives.
      abbrev pub lines_of : EmitResult A R → List (EmitLine R)
      lines_of (not_built e) = validation_failed e ∷ []
      lines_of (write_failed ev reason) = store_write_failed reason ev.id ev.action ∷ []
      lines_of (persisted ev) = []

      -- `emit` leaves the store as `emitAwait` does, throws nothing, and logs every failure that
      -- `emitAwait` throws and nothing else.
      pub emit-emit_await :
          (o : AuditLogOptions) (now_ms : ℕ) (bytes : List ℕ) (input : In) (s : S)
          (lines : List (EmitLine R))
          → emit to_lower number_size flag safe_parse store o now_ms bytes input (s, lines) ≡ (
            (emit_await to_lower number_size flag safe_parse store o now_ms bytes input s).0,
            lines
                ++ lines_of
                    (emit_await to_lower number_size flag safe_parse store o now_ms bytes input
                      s).1,
          )
      unfolding emit emit_await
      emit-emit_await o now_ms bytes input s lines =
          elim (Built-cases
            (build_event to_lower number_size flag safe_parse o now_ms bytes input)) [
              | inl (e, b) ↦ rw (b, emit, emit_await) refl
              | inr (made, b) ↦
                  elim (Option-cases
                    (store.put made (retention_seconds_for made.severity o.retention_days) s).1) [
                      | inr (r, f) ↦ rw (b, f, emit, emit_await) refl
                      | inl f ↦
                          rw (b, f, emit, emit_await)
                            (ap
                              (λ l. (
                                (store.put made
                                    (retention_seconds_for made.severity o.retention_days) s).0,
                                l,
                              ))
                              (sym (append_nil lines)))
                    ]
            ]
