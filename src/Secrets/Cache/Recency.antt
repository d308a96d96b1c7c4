-- ===== src/Secrets/Cache/Recency.antt =====
-- A secret that was just stored is there, with its bytes, until it expires.
use saas_foundation.Prelude.{
  ℕ, String, ◌≢◌, All, JsMap, get as map_get, set as map_set, delete as map_delete,
}
use saas_foundation.Secrets.Cache.{Entry, get, set}

-- No entry holds the buffer.
abbrev pub Fresh : ℕ → JsMap Entry → Type 0
Fresh b = All (λ (p : String × Entry). p.1.value ≢ b)
