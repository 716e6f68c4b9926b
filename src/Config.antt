-- ===== src/Config.antt =====
-- core/config.go and server/config.go: the checks of a configuration that has been read. Parsing a URL
-- and the checks of the authentication and TLS parts are libraries': they are parameters, which tell
-- whether there is an error. A loop over a map takes the entries in the order of its visit. `none`
-- stands for no error.
pub mod Checks
use Prim.Native.Char.{code}
use nodemux.Common.{
  ℕ, String, Bool, true, false, not, ◌&&◌, ◌||◌, ◌==◌, Option, none, some, List, [], ◌∷◌,
  if◌then◌else◌, ℤ, pos, ltb_ℤ, leb_ℤ, is_empty,
}
use nodemux.Endpoint.{EndpointConfig}
use nodemux.Ratelimit.{RatelimitConfig}

pub data ConfigError : Type 0 where
  store_url empty_chain empty_url endpoint_url streaming_url empty_skip_method : ConfigError
  tls auth account_name ip_limit user_limit empty_account empty_bind : ConfigError

-- The first error of two checks in a row.
unfoldable pub and_then : Option ConfigError → Option ConfigError → Option ConfigError
and_then none next = next
and_then (some err) next = some err

-- An error if the test holds.
unfoldable pub fails : Bool → ConfigError → Option ConfigError
fails b err = if b then some err else none

-- The first error of a loop.
unfoldable pub check_all {ℓ} : {A : Type ℓ} → (A → Option ConfigError) → List A → Option ConfigError
unfolding and_then
check_all check [] = none
check_all check (x ∷ xs) = and_then (check x) (check_all check xs)

pub record NodemuxConfig : Type 0 where
  pub version : String
  pub extra_chains : Option (List (String × List String))
  pub endpoints : List (String × EndpointConfig)
  pub stores : List (String × String)

module _ (url_fails : String → Bool) where
  unfoldable pub check_skip_methods : Option (List String) → Option ConfigError
  unfolding check_all fails
  check_skip_methods none = none
  check_skip_methods (some methods) =
      check_all (λ skipmtd. fails (is_empty skipmtd) empty_skip_method) methods

  -- The body of the loop over the endpoints. What it sets at its end, the defaults of Options and
  -- FetchInterval, it sets in its copy of the entry.
  unfoldable pub check_endpoint : EndpointConfig → Option ConfigError
  unfolding check_skip_methods and_then fails
  check_endpoint epcfg = and_then (fails (is_empty epcfg.chain) empty_chain) (
      and_then (fails (is_empty epcfg.url) empty_url) (
        and_then (fails (url_fails epcfg.url) endpoint_url) (
          and_then
            (fails (not (is_empty epcfg.streaming_url) && url_fails epcfg.streaming_url)
              streaming_url)
            (check_skip_methods epcfg.skip_methods))))

  -- `NodemuxConfig.validateValues`: the configuration afterwards, and the error.
  unfoldable pub validate_values : NodemuxConfig → NodemuxConfig × Option ConfigError
  unfolding check_endpoint check_all
  validate_values cfg = (
    record cfg { version = if is_empty cfg.version then "1.0" else cfg.version },
    and_then (check_all (λ store. fails (url_fails store.1) store_url) cfg.stores)
        (check_all (λ entry. check_endpoint entry.1) cfg.endpoints),
  )

-- server/config.go
pub record MetricsConfig (A T : Type 0) : Type 0 where
  pub bind : String
  pub auth_config : Option A
  pub tls_config : Option T

pub record EntrypointConfig (A T : Type 0) : Type 0 where
  pub account : String
  pub chain : String
  pub bind : String
  pub auth_config : Option A
  pub tls_config : Option T

pub record AccountConfig : Type 0 where
  pub username : String
  pub ratelimit : RatelimitConfig

pub record ServerConfig (A T : Type 0) : Type 0 where
  pub bind : String
  pub tls_config : Option T
  pub admin : Option (Option A)
  pub metrics : Option (MetricsConfig A T)
  pub auth_config : Option A
  pub entrypoints : List (EntrypointConfig A T)
  pub ratelimit : RatelimitConfig
  pub accounts : List (String × AccountConfig)

-- `strings.Contains` for a "/" or a " ".
unfoldable pub has_break : String → Bool
has_break String.[] = false
has_break (String.◌∷◌ c s) = code c == b'/' || code c == b' ' || has_break s

unfoldable pub check_account : String × AccountConfig → Option ConfigError
unfolding has_break and_then fails
check_account entry = and_then (fails (has_break entry.0) account_name) (
    and_then (fails (ltb_ℤ entry.1.ratelimit.ip (pos 0)) ip_limit)
      (fails (ltb_ℤ entry.1.ratelimit.user (pos 0)) user_limit))

module _ {A T : Type 0} (auth_fails : A → Bool) (tls_fails : T → Bool) where
  unfoldable pub check_tls : Option T → Option ConfigError
  unfolding fails
  check_tls none = none
  check_tls (some config) = fails (tls_fails config) tls

  unfoldable pub check_auth : Option A → Option ConfigError
  unfolding fails
  check_auth none = none
  check_auth (some config) = fails (auth_fails config) auth

  -- `EntrypointConfig.validateValues`
  unfoldable pub check_entrypoint : EntrypointConfig A T → Option ConfigError
  unfolding check_tls check_auth and_then fails
  check_entrypoint cfg = and_then (fails (is_empty cfg.account) empty_account) (
      and_then (fails (is_empty cfg.chain) empty_chain) (
        and_then (fails (is_empty cfg.bind) empty_bind)
          (and_then (check_tls cfg.tls_config) (check_auth cfg.auth_config))))

  -- `MetricsConfig.validateValues`
  unfoldable pub check_metrics : Option (MetricsConfig A T) → Option ConfigError
  unfolding check_tls check_auth and_then
  check_metrics none = none
  check_metrics (some cfg) = and_then (check_tls cfg.tls_config) (check_auth cfg.auth_config)

  -- The empty metrics where there are none.
  unfoldable pub set_metrics : ServerConfig A T → ServerConfig A T
  set_metrics cfg = record cfg {
    metrics = some (elim cfg.metrics [
      | some metrics ↦ metrics
      | none ↦ record { bind = ""; auth_config = none; tls_config = none }
    ]);
  }

  -- `ServerConfig.validateValues`
  unfoldable pub validate_server : ServerConfig A T → ServerConfig A T × Option ConfigError
  unfolding check_metrics check_tls check_auth check_account check_entrypoint check_all and_then
      set_metrics
  validate_server cfg =
      let cfg' = set_metrics cfg in
      (
        cfg',
        and_then (check_tls cfg'.tls_config) (
            and_then (check_auth cfg'.auth_config) (
              and_then (check_metrics cfg'.metrics) (
                and_then (check_all check_account cfg'.accounts)
                  (check_all check_entrypoint cfg'.entrypoints)))),
      )
