-- ===== src/Audit/Tests.antt =====
-- The theorems on the audit log at concrete inputs.
use saas_foundation.Prelude.{
  ℕ, ◌≡◌, ◌≤◌, ◌<◌, ◌↔◌, refl, arith, String, true, false, Option, none, some, List, [], ◌∷◌, ◌++◌,
  map, any,
}
use saas_foundation.Text.{text_of}
use saas_foundation.Audit.Pii.{
  number, text, array, object, nil, item, Fields, end, field, PiiFilter, redact, is_denied,
  scrub_object, put_denied, default_pii_keys,
}
use saas_foundation.Audit.Ulid.{ulid}
use saas_foundation.Audit.Ulid.Order.{text_lt, ulid_ordered}
use saas_foundation.Audit.Retention.{info, retention_seconds_for}
use saas_foundation.Audit.Multi.{
  AuditStore, MultiState, put, failures, settle, all_or_any, multi_store,
}
use saas_foundation.Audit.Multi.Accepts.{put_accepts_iff, enough, resolved}
use saas_foundation.Audit.Size.{
  Entry, truncate, reject, checked, too_large, encoded_size, entries_of, enforce_metadata_size,
}
use mathlib.Core.List.{Perm}
use saas_foundation.Audit.Size.Order.{Descending}
use saas_foundation.Audit.Size.Shed.{fields_of, shed, enforce_metadata_size-shed}
use saas_foundation.Audit.Log.{
  AuditEvent, AuditLogOptions, EmitInput, valid, persisted, success, anonymous, emit_await,
  build_event,
}
use saas_foundation.Audit.Log.Persisted.{CleanMetadata, emit_await-Clean}
use saas_foundation.Audit.Log.Several.{emit_await-multi_store_iff}

abbrev same_case : String → String
same_case s = s

abbrev filter : PiiFilter
filter = record { denylist = default_pii_keys; strategy = redact }

-- { a: 1, nested: [{ token: "x" }] }
abbrev given : Fields ℕ
given =
    field "a" (number 1)
      (field "nested" (array (item (object (field "token" (text "x") end)) nil)) end)

abbrev random : List ℕ
random = 1 ∷ 2 ∷ 3 ∷ 4 ∷ 5 ∷ 6 ∷ 7 ∷ 8 ∷ 9 ∷ 10 ∷ 11 ∷ 12 ∷ 13 ∷ 14 ∷ 15 ∷ 255 ∷ []

ulid_ordered_example :
    text_lt (text_of "00000000Z8123456789ABCDEFZ") (text_of "0000000100123456789ABCDEFZ") ≡ true
unfolding ulid
ulid_ordered_example =
    ulid_ordered 1000 1024 random random (text_of "00000000Z8123456789ABCDEFZ")
      (text_of "0000000100123456789ABCDEFZ") refl refl (omega arith)

-- A store of one event, which refuses a second one.
abbrev one_event : AuditStore (AuditEvent ℕ) (List (AuditEvent ℕ)) ℕ
one_event = record { put = keep }
  where
    keep : AuditEvent ℕ → ℕ → List (AuditEvent ℕ) → List (AuditEvent ℕ) × Option ℕ
    keep ev seconds [] = (ev ∷ [], none)
    keep ev seconds (old ∷ s) = (old ∷ s, some 7)

abbrev options : AuditLogOptions
options = record {
  pii_filter = filter;
  metadata_max_bytes = none;
  metadata_oversize_policy = none;
  retention_days = λ _. none;
}

abbrev input : EmitInput ℕ
input = record {
  tenant_id = none;
  actor = anonymous;
  action = "auth.login";
  resource = none;
  outcome = success;
  failure_reason = none;
  severity = info;
  request_id = none;
  trace_id = none;
  ip_address = none;
  user_agent = none;
  metadata = some given;
}

abbrev event : AuditEvent ℕ
event = record {
  id = text_of "00000000Z8123456789ABCDEFZ";
  timestamp = 1000;
  tenant_id = none;
  actor = anonymous;
  action = "auth.login";
  resource = none;
  outcome = success;
  failure_reason = none;
  severity = info;
  request_id = none;
  trace_id = none;
  ip_address = none;
  user_agent = none;
  metadata = some (
      field "a" (number 1)
        (field "nested" (array (item (object (field "token" (text "[REDACTED]") end)) nil)) end));
}

abbrev two_stores : MultiState (List (AuditEvent ℕ)) ℕ
two_stores = record { stores = (event ∷ []) ∷ [] ∷ []; logged = [] }

put_accepts_iff_example :
    ((put one_event all_or_any event 60 two_stores).0.stores
      ≡ map (λ s. (one_event.put event 60 s).0) two_stores.stores)
    × ((put one_event all_or_any event 60 two_stores).0.logged
        ≡ two_stores.logged ++ failures 0 (settle one_event event 60 two_stores.stores))
    × (((put one_event all_or_any event 60 two_stores).1 ≡ none)
        ↔ (enough all_or_any (map resolved (settle one_event event 60 two_stores.stores)) ≡ true))
put_accepts_iff_example = put_accepts_iff one_event all_or_any event 60 two_stores

abbrev one_byte : ℕ → ℕ
one_byte n = 1

enforce_metadata_size-shed_example :
    (encoded_size one_byte given ≤ 10
      → enforce_metadata_size one_byte truncate 10 given ≡ checked given false)
    × (10 < encoded_size one_byte given
        → enforce_metadata_size one_byte reject 10 given ≡ too_large (encoded_size one_byte given))
    × (10 < encoded_size one_byte given
        → (ordered : List (Entry ℕ)) × Perm ordered (entries_of one_byte given)
          × Descending one_byte ordered
          × (enforce_metadata_size one_byte truncate 10 given
              ≡ checked (fields_of (shed one_byte 10 ordered)) true)
          × (2 ≤ 10 → encoded_size one_byte (fields_of (shed one_byte 10 ordered)) ≤ 10))
unfolding entries_of
enforce_metadata_size-shed_example =
    enforce_metadata_size-shed one_byte 10 truncate given (refl, (refl, tt))

emit_await-Clean_example :
    (one_event.put event (retention_seconds_for info options.retention_days) []
      ≡ (event ∷ [], none))
    × CleanMetadata same_case filter event.metadata
    × (event.timestamp ≡ 1000)
    × (ulid 1000 random ≡ some event.id)
unfolding emit_await is_denied scrub_object put_denied
emit_await-Clean_example =
    emit_await-Clean same_case one_byte 1 valid one_event options 1000 random input [] (event ∷ [])
      event refl refl

emit_await-multi_store_iff_example :
    ((emit_await same_case one_byte 1 valid
        (multi_store one_event all_or_any)
        options
        1000
        random
        input
        two_stores).1
      ≡ persisted event)
    ↔ (any
          (λ ok. ok)
          (map resolved (
            settle one_event event
              (retention_seconds_for info options.retention_days)
              two_stores.stores))
        ≡ true)
unfolding build_event scrub_object is_denied put_denied
emit_await-multi_store_iff_example =
    emit_await-multi_store_iff same_case one_byte 1 valid one_event options 1000 random input
      two_stores event refl
