-- ===== src/Audit/Log.antt =====
-- packages/foundation/src/audit/audit-log.ts: the log that builds the events and writes them to a store.
pub mod Persisted
pub mod Several
use saas_foundation.Prelude.{
  ℕ, String, Bool, true, false, Option, none, some, List, [], ◌∷◌, ◌++◌, if◌then◌else◌, str_eq,
  or_else,
}
use saas_foundation.Text.{Text}
use saas_foundation.Audit.Pii.{Json, number, Fields, end, field, PiiFilter, scrub}
use saas_foundation.Audit.Size.{
  OversizePolicy, reject, SizeCheck, too_large, checked, enforce_metadata_size,
}
use saas_foundation.Audit.Ulid.{ulid}
use saas_foundation.Audit.Retention.{AuditSeverity, Days, retention_seconds_for}
use saas_foundation.Audit.Multi.{AuditStore}

pub data ProviderType : Type 0 where
  oidc saml : ProviderType

pub record Idp : Type 0 where
  pub provider_name : String
  pub provider_type : ProviderType

pub data AuditActor : Type 0 where
  user : String → Option Idp → AuditActor
  service system : String → AuditActor
  anonymous : AuditActor

pub record AuditResource : Type 0 where
  pub kind : String
  pub id : String

pub data AuditOutcome : Type 0 where
  success failure : AuditOutcome

-- What the caller gives, validated.
pub record EmitInput (A : Type 0) : Type 0 where
  pub tenant_id : Option String
  pub actor : AuditActor
  pub action : String
  pub resource : Option AuditResource
  pub outcome : AuditOutcome
  pub failure_reason : Option String
  pub severity : AuditSeverity
  pub request_id : Option String
  pub trace_id : Option String
  pub ip_address : Option String
  pub user_agent : Option String
  pub metadata : Option (Fields A)

-- `timestamp` is the time in milliseconds whose ISO text the source stores.
pub record AuditEvent (A : Type 0) : Type 0 where
  pub id : Text
  pub timestamp : ℕ
  pub tenant_id : Option String
  pub actor : AuditActor
  pub action : String
  pub resource : Option AuditResource
  pub outcome : AuditOutcome
  pub failure_reason : Option String
  pub severity : AuditSeverity
  pub request_id : Option String
  pub trace_id : Option String
  pub ip_address : Option String
  pub user_agent : Option String
  pub metadata : Option (Fields A)

pub record AuditLogOptions : Type 0 where
  pub pii_filter : PiiFilter
  pub metadata_max_bytes : Option ℕ
  pub metadata_oversize_policy : Option OversizePolicy
  pub retention_days : AuditSeverity → Option Days

abbrev pub default_metadata_max_bytes : ℕ
default_metadata_max_bytes = 32768

-- Why no event is built: the schema's issues, the metadata's size and its limit, or a time that
-- no identifier can hold.
pub data BuildError : Type 0 where
  validation : List String → BuildError
  metadata_size : ℕ → ℕ → BuildError
  time_out_of_range : BuildError

pub data Validated (A : Type 0) : Type 0 where
  issues : List String → Validated A
  valid : EmitInput A → Validated A

pub data Built (A : Type 0) : Type 0 where
  refused : BuildError → Built A
  built : AuditEvent A → Built A

-- What `emit_await` returns, or throws.
pub data EmitResult (A R : Type 0) : Type 0 where
  not_built : BuildError → EmitResult A R
  write_failed : AuditEvent A → R → EmitResult A R
  persisted : AuditEvent A → EmitResult A R

-- The lines that `emit` writes to the logger.
pub data EmitLine (R : Type 0) : Type 0 where
  validation_failed : BuildError → EmitLine R
  store_write_failed : R → Text → String → EmitLine R

unfoldable pub narrow_actor : AuditActor → AuditActor
narrow_actor (user sub none) = user sub none
narrow_actor (user sub (some idp)) =
    user sub
      (some (record { provider_name = idp.provider_name; provider_type = idp.provider_type }))
narrow_actor (service name) = service name
narrow_actor (system component) = system component
narrow_actor anonymous = anonymous

-- `{ ...fields, [key]: value }`
unfoldable pub set_field : {A : Type 0} → String → Json A → Fields A → Fields A
set_field key value end = field key value end
set_field key value (field k v fields) =
    let rest = set_field key value fields in
    if str_eq k key then field k value fields else field k v rest

-- The metadata of the event, from those that the size check leaves; `flag` is the value `true`.
unfoldable pub flag_truncated : {A : Type 0} → A → Fields A → Bool → Fields A
unfolding set_field
flag_truncated flag metadata true = set_field "metadata_truncated" (number flag) metadata
flag_truncated flag metadata false = metadata

-- The event, with the metadata given, once an identifier can be made.
unfoldable pub compose : {A : Type 0} → ℕ → List ℕ → EmitInput A → Option (Fields A) → Built A
unfolding ulid narrow_actor
compose now_ms bytes validated fields = elim (ulid now_ms bytes) [
  | none ↦ refused time_out_of_range
  | some id ↦ built (record {
    id = id;
    timestamp = now_ms;
    tenant_id = validated.tenant_id;
    actor = narrow_actor validated.actor;
    action = validated.action;
    resource = validated.resource;
    outcome = validated.outcome;
    failure_reason = validated.failure_reason;
    severity = validated.severity;
    request_id = validated.request_id;
    trace_id = validated.trace_id;
    ip_address = validated.ip_address;
    user_agent = validated.user_agent;
    metadata = fields;
  })
]

-- `to_lower` is the language's `toLowerCase`, `number_size` the length of the text of a number or a
-- Boolean value, `flag` the value `true`, and `safe_parse` the schema of the library zod.
module _ {A : Type 0} (to_lower : String → String) (number_size : A → ℕ) where
  unfoldable pub sized : AuditLogOptions → Fields A → SizeCheck A
  unfolding scrub enforce_metadata_size
  sized o metadata =
      enforce_metadata_size number_size (or_else o.metadata_oversize_policy reject)
        (or_else o.metadata_max_bytes default_metadata_max_bytes)
        (scrub to_lower o.pii_filter metadata)

  module _ (flag : A) where
    unfoldable pub build_validated : AuditLogOptions → ℕ → List ℕ → EmitInput A → Built A
    unfolding sized compose flag_truncated
    build_validated o now_ms bytes validated = elim validated.metadata [
      | none ↦ compose now_ms bytes validated none
      | some given ↦ elim (sized o given) [
        | too_large size ↦
            refused (metadata_size size (or_else o.metadata_max_bytes default_metadata_max_bytes))
        | checked kept truncated ↦
            compose now_ms bytes validated (some (flag_truncated flag kept truncated))
      ]
    ]

    module _ {In : Type 0} (safe_parse : In → Validated A) where
      unfoldable pub build_event : AuditLogOptions → ℕ → List ℕ → In → Built A
      unfolding build_validated
      build_event o now_ms bytes input = elim (safe_parse input) [
        | issues found ↦ refused (validation found)
        | valid validated ↦ build_validated o now_ms bytes validated
      ]

      module _ {S R : Type 0} (store : AuditStore (AuditEvent A) S R) where
        unfoldable pub emit_await : AuditLogOptions → ℕ → List ℕ → In → S → S × EmitResult A R
        unfolding build_event retention_seconds_for
        emit_await o now_ms bytes input s = elim (build_event o now_ms bytes input) [
          | refused e ↦ (s, not_built e)
          | built event ↦
              let (after, failed) =
                store.put event (retention_seconds_for event.severity o.retention_days) s in
              elim failed [
                | none ↦ (after, persisted event)
                | some reason ↦ (after, write_failed event reason)
              ]
        ]

        -- The store and the logger's lines once the write has been settled.
        unfoldable pub emit :
            AuditLogOptions → ℕ → List ℕ → In → S × List (EmitLine R) → S × List (EmitLine R)
        unfolding build_event retention_seconds_for
        emit o now_ms bytes input (s, lines) = elim (build_event o now_ms bytes input) [
          | refused e ↦ (s, lines ++ validation_failed e ∷ [])
          | built event ↦
              let (after, failed) =
                store.put event (retention_seconds_for event.severity o.retention_days) s in
              elim failed [
                | none ↦ (after, lines)
                | some reason ↦
                    (after, lines ++ store_write_failed reason event.id event.action ∷ [])
              ]
        ]
