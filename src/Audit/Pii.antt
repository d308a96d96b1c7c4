-- ===== src/Audit/Pii.antt =====
-- packages/foundation/src/audit/pii-filter.ts: the keys whose values are taken out of the metadata.
pub mod Clean
use saas_foundation.Prelude.{
  String, Bool, List, [], ◌∷◌, ◌++◌, map, any, str_eq, if◌then◌else◌, Option, or_else,
}

-- A JSON value. `number` stands for the numbers and the Boolean values, which are passed on.
mutual
  pub data Json (A : Type 0) : Type 0 where
    null : Json A
    number : A → Json A
    text : String → Json A
    array : Items A → Json A
    object : Fields A → Json A

  pub data Items (A : Type 0) : Type 0 where
    nil : Items A
    item : Json A → Items A → Items A

  pub data Fields (A : Type 0) : Type 0 where
    end : Fields A
    field : String → Json A → Fields A → Fields A

pub data PiiFilterStrategy : Type 0 where
  redact drop : PiiFilterStrategy

abbrev pub redacted_sentinel : String
redacted_sentinel = "[REDACTED]"

abbrev pub default_pii_keys : List String
default_pii_keys =
    "password" ∷ "pwd" ∷ "passwd" ∷ "token" ∷ "access_token" ∷ "refresh_token" ∷ "id_token"
    ∷ "secret" ∷ "api_key" ∷ "apikey" ∷ "authorization" ∷ "cookie" ∷ "session" ∷ "session_id"
    ∷ "set_cookie" ∷ "email_raw" ∷ "ssn" ∷ "credit_card" ∷ "card_number" ∷ []

pub record PiiFilter : Type 0 where
  pub denylist : List String
  pub strategy : PiiFilterStrategy

-- `to_lower` is the language's `toLowerCase`.
unfoldable pub is_denied : (String → String) → PiiFilter → String → Bool
is_denied to_lower f key = any (str_eq (to_lower key)) f.denylist

-- What is left of a field that is denied, before the fields behind it.
unfoldable pub put_denied : {A : Type 0} → PiiFilterStrategy → String → Fields A → Fields A
put_denied redact key rest = field key (text redacted_sentinel) rest
put_denied drop key rest = rest

module _ {A : Type 0} (to_lower : String → String) where
  unfoldable mutual
    pub scrub_value : PiiFilter → Json A → Json A
    scrub_value f null = null
    scrub_value f (number n) = number n
    scrub_value f (text s) = text s
    scrub_value f (array items) = array (scrub_items f items)
    scrub_value f (object fields) = object (scrub_object f fields)

    pub scrub_items : PiiFilter → Items A → Items A
    scrub_items f nil = nil
    scrub_items f (item v items) = item (scrub_value f v) (scrub_items f items)

    pub scrub_object : PiiFilter → Fields A → Fields A
    scrub_object f end = end
    scrub_object f (field key v fields) =
        let rest = scrub_object f fields in
        let scrubbed = scrub_value f v in
        if is_denied to_lower f key then put_denied f.strategy key rest else field key scrubbed rest

-- The constructor: `keys` in place of the defaults, and `additional_keys`, in lower case.
unfoldable pub create :
    (String → String)
    → Option (List String)
    → Option (List String)
    → Option PiiFilterStrategy
    → PiiFilter
create to_lower keys additional_keys strategy = record {
  denylist = map to_lower (or_else keys default_pii_keys ++ or_else additional_keys []);
  strategy = or_else strategy redact;
}

-- `apply`
unfoldable pub scrub : {A : Type 0} → (String → String) → PiiFilter → Fields A → Fields A
scrub to_lower f metadata = scrub_object to_lower f metadata
