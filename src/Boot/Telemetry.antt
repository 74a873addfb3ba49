-- ===== src/Boot/Telemetry.antt =====
-- Setup and sampleRatio of internal/otelinit/otelinit.go. The SDK's resource detection and exporter are
-- parameters.
use projet_etude_app_demo.Prelude.{
  ℕ, ◌*◌, Bytes, str, str_eq, is_empty, List, [], ◌∷◌, ◌||◌, if◌then◌else◌,
}
use projet_etude_app_demo.Store.Exec.{wrapped, Result, ok, err}
use projet_etude_app_demo.Auth.{or_default}
use projet_etude_app_demo.Boot.Open.{second}

pub record TelemetryConfig : Type 0 where
  pub service_name : Bytes
  pub service_version : Bytes
  pub environment : Bytes

-- os.Getenv, resource.New on the attributes that it is given, and otlptracegrpc.New.
pub record Sdk : Type 0 where
  pub getenv : Bytes → Bytes
  pub new_resource : List (Bytes × Bytes) → Result (Unit {0})
  pub new_exporter : Result (Unit {0})

-- A tracer provider with no exporter, or one that batches to it, with its timeout, its queue's size
-- and the ratio of the traces that it samples, which is 0 or 1.
pub data Provider : Type 0 where
  local : List (Bytes × Bytes) → Provider
  exporting : (attributes : List (Bytes × Bytes)) → (batch_timeout max_queue ratio : ℕ) → Provider

unfoldable pub sample_ratio : (Bytes → Bytes) → ℕ
sample_ratio getenv =
    let sampler = getenv (str "OTEL_TRACES_SAMPLER") in
    if str_eq sampler (str "always_on") || is_empty sampler
    then 1
    else if str_eq sampler (str "always_off")
    then 0
    else 1

-- The attributes of the resource, after the defaults of the configuration.
unfoldable pub attributes : Sdk → TelemetryConfig → List (Bytes × Bytes)
attributes sdk cfg =
    (str "service.name", cfg.service_name)
    ∷ (str "service.version", or_default cfg.service_version (sdk.getenv (str "APP_VERSION")))
    ∷ (str "deployment.environment.name", or_default cfg.environment (str "dev"))
    ∷ []

abbrev pub exporter_provider : Sdk → List (Bytes × Bytes) → Result (Unit {0}) → Result Provider
exporter_provider sdk attrs (err e) = err (wrapped (str "otlp exporter: ") e)
exporter_provider sdk attrs (ok u) =
    ok (exporting attrs (5 * second) 2048 (sample_ratio sdk.getenv))

abbrev pub resource_provider : Sdk → List (Bytes × Bytes) → Result (Unit {0}) → Result Provider
resource_provider sdk attrs (err e) = err (wrapped (str "resource: ") e)
resource_provider sdk attrs (ok u) =
    if is_empty (sdk.getenv (str "OTEL_EXPORTER_OTLP_ENDPOINT"))
    then ok (local attrs)
    else exporter_provider sdk attrs sdk.new_exporter

-- The provider that is installed, whose Shutdown is returned.
unfoldable pub setup : Sdk → TelemetryConfig → Result Provider
unfolding attributes sample_ratio
setup sdk cfg =
    let attrs = attributes sdk cfg in resource_provider sdk attrs (sdk.new_resource attrs)
