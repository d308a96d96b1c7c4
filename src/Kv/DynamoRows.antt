-- ===== src/Kv/DynamoRows.antt =====
-- The rows of the store over DynamoDB, packages/foundation/src/kv/dynamo-kv-store.ts, and the conditions on them.
use saas_foundation.Prelude.{
  ℕ, String, Bool, true, false, not, ◌&&◌, ◌||◌, Option, none, some, List, [], ◌∷◌, ◌++◌, ltb, ◌==◌,
  str_eq, any, if◌then◌else◌, all_chars, is_some,
}
use saas_foundation.Prelude.{JsMap}
use saas_foundation.Kv.MemoryStore.{Value, object, other, KvRecord, past}

pub record DynamoIndex : Type 0 where
  pub pk_attr : String
  pub sk_attr : Option String

pub record DynamoKvLayout : Type 0 where
  pub pk_separator : ℕ
  pub allow_separator_in_key : Bool
  pub sk_name : Option String
  pub ttl_attr : String
  pub version_attr : String
  pub index : Option DynamoIndex

-- A row: the fields of the value beside the version, the expiry and the index, where it has them.
pub record Item (A : Type 0) : Type 0 where
  pub fields : JsMap A
  pub version_number : Option ℕ
  pub ttl : Option ℕ
  pub index_value : Option String

abbrev pub if_named : Option String → List String
if_named none = []
if_named (some name) = name ∷ []

abbrev pub index_names : Option DynamoIndex → List String
index_names none = []
index_names (some i) = i.pk_attr ∷ if_named i.sk_attr

unfoldable pub reserved : DynamoKvLayout → List String
reserved l = "pk" ∷ l.ttl_attr ∷ l.version_attr ∷ (if_named l.sk_name ++ index_names l.index)

-- `buildPk` does not throw.
unfoldable pub is_key : DynamoKvLayout → String → Bool
is_key l key = l.allow_separator_in_key || all_chars (λ c. not (c == l.pk_separator)) key

-- A write without a condition, and the conditions on a row that the methods use.
abbrev pub absent : {A : Type 0} → Option (Item A) → Bool
absent row = not (is_some row)

abbrev pub has_version : {A : Type 0} → ℕ → Option (Item A) → Bool
has_version v none = false
has_version v (some i) = elim i.version_number [ none ↦ false | some n ↦ n == v ]

abbrev pub less_fresh : {A : Type 0} → ℕ → Option (Item A) → Bool
less_fresh incoming none = true
less_fresh incoming (some i) = elim i.ttl [ none ↦ true | some at ↦ ltb at incoming ]

-- `Number(item[versionAttr] ?? 0)`
abbrev pub number_of : Option ℕ → ℕ
number_of none = 0
number_of (some n) = n

module _ {A : Type 0} where
  abbrev pub object_fields : Value A → JsMap A
  object_fields (object m) = m
  object_fields (other a) = []

  unfoldable pub build_item :
      DynamoKvLayout → String → Value A → ℕ → Option ℕ → Option String → Option (Item A)
  unfolding reserved is_key
  build_item l key value version expires_at indexed_key =
      if any (λ f. any (str_eq f.0) (reserved l)) (object_fields value)
      then none
      else if not (is_key l key)
      then none
      else some (record {
        fields = object_fields value;
        version_number = some version;
        ttl = expires_at;
        index_value = if is_some l.index then indexed_key else none;
      })

  unfoldable pub to_record : Item A → KvRecord A
  to_record i = record {
    value = object i.fields;
    version = number_of i.version_number;
    expires_at = i.ttl;
  }

  unfoldable pub is_expired_item : ℕ → Item A → Bool
  unfolding past
  is_expired_item now i = past now i.ttl

  -- `current !== null && !this.isExpiredItem(current) ? this.toRecord(current) : null`
  unfoldable pub live_record : ℕ → Option (Item A) → Option (KvRecord A)
  unfolding is_expired_item to_record
  live_record now none = none
  live_record now (some i) = if is_expired_item now i then none else some (to_record i)

  -- `seen` is the row that the read gives.
  unfoldable pub get :
      DynamoKvLayout → ℕ → Bool → Option (Item A) → String → Option (Option (KvRecord A))
  unfolding is_key is_expired_item to_record
  get l now include_expired seen key = if not (is_key l key) then none else elim seen [
    | none ↦ some none
    | some i ↦
        if not include_expired && is_expired_item now i
        then some none
        else some (some (to_record i))
  ]
