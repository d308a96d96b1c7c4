-- ===== src/RateLimit/Tests.antt =====
-- The limiters on a bucket of ten tokens that refills one in a second, and the theorems at concrete
-- inputs.
use saas_foundation.Prelude.{
  ℕ, String, ◌≡◌, refl, true, none, some, List, [], ◌∷◌, JsMap, get as map_get,
}
use saas_foundation.Table.{Table, map_table}
use saas_foundation.RateLimit.Bucket.{TokenBucketConfig, BucketState}
use saas_foundation.RateLimit.Bucket.Bounds.{serve}
use saas_foundation.RateLimit.Memory.{Limiter, shared_bucket, resolve_key, is_unknown, ends_in}
use saas_foundation.RateLimit.Memory.Laws.{Call, serve_all, limiter_refines_bucket}
use saas_foundation.RateLimit.Dynamo.{Row, Turn}

abbrev ten : TokenBucketConfig
ten = record { capacity = 10000; refill = 1; unit = 1000 }

-- Five tokens at second 1.
abbrev half : BucketState
half = record { tokens = 5000; last_refill_ms = 1000 }

abbrev limiter : Limiter
limiter = record { default_config = ten; unknown_key_strategy = shared_bucket }

abbrev calls : List Call
calls =
    record { key = "ip:1"; cost = 6000; now = 1000 }
    ∷ record { key = "ip:2"; cost = 6000; now = 1000 }
    ∷ record { key = "ip:1"; cost = 6000; now = 1500 }
    ∷ []

limiter_refines_bucket_example :
    (map_get (serve_all limiter "ip:1" calls []).0 "ip:1"
      ≡ (serve ten none ((1000, 6000) ∷ (1500, 6000) ∷ [])).0)
    × ((serve_all limiter "ip:1" calls []).1
        ≡ (serve ten none ((1000, 6000) ∷ (1500, 6000) ∷ [])).1)
unfolding resolve_key is_unknown ends_in map_get
limiter_refines_bucket_example = limiter_refines_bucket limiter "ip:1" calls [] refl

abbrev rows : Table Row
rows = map_table Row

abbrev as_is : String → String
as_is key = key

abbrev stored : JsMap Row
stored = ("k", record { bucket = some half; ttl = 100 }) ∷ []

abbrev turn_at : ℕ → Turn (JsMap Row)
turn_at now = record { now = now; wrote = now; write_up = true; seen = stored; others = λ s. s }
