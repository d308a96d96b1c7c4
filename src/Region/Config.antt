-- ===== src/Region/Config.antt =====
-- packages/foundation/src/region/config.ts: the settings of each region.
use saas_foundation.Prelude.{ℕ, String, Option, List, [], ◌∷◌, JsMap, get, set}

pub record RegionEndpoints : Type 0 where
  pub api : String
  pub frontend : Option String
  pub cdn : Option String

pub record RegionTimeouts : Type 0 where
  pub api_ms : Option ℕ
  pub database_ms : Option ℕ
  pub storage_ms : Option ℕ

pub record RegionConfig : Type 0 where
  pub region : String
  pub endpoints : RegionEndpoints
  pub timeouts : Option RegionTimeouts

-- The entries one after the other, so that the last one of a region stays.
unfoldable pub add_all : List RegionConfig → JsMap RegionConfig → JsMap RegionConfig
add_all [] m = m
add_all (c ∷ configs) m = add_all configs (set m c.region c)

unfoldable pub create : List RegionConfig → JsMap RegionConfig
unfolding add_all
create configs = add_all configs []

unfoldable pub get_config : JsMap RegionConfig → String → Option RegionConfig
get_config m r = get m r
