-- ===== src/Config.antt =====
-- internal/config/config.go, with the options of internal/telemetry/telemetry.go: what a server's configuration must be.
-- Every refusal is one error; its text is not modelled.
pub mod Valid
use hairpin.Base.{
  ℕ, ◌<◌, ◌*◌, Bool, true, false, not, ◌&&◌, ◌||◌, Option, none, some, List, [], ◌∷◌, Bytes, text,
  bytes_eq, is_empty, Result, ok, err, invalid_argument, ltb, ◌==◌, if◌then◌else◌, ◌>>=◌, ◌>>◌,
}
use hairpin.Service.Executor.{ExecutorDefaults, refuse_if, valid_k8s_runtime}

-- A number that the code compares with 0, as its sign: a duration, an int or an int32.
pub data Signed : Type 0 where
  below_zero : Signed
  at_least_zero : ℕ → Signed

abbrev pub is_negative : Signed → Bool
is_negative below_zero = true
is_negative (at_least_zero n) = false

abbrev pub is_positive : Signed → Bool
is_positive below_zero = false
is_positive (at_least_zero n) = ltb 0 n

-- telemetry.Options; of the ratio, a float64, only whether it is below 0 or above 1.
pub record TelemetryOptions : Type 0 where
  pub exporter : Bytes
  pub protocol : Bytes
  pub ratio_below_zero : Bool
  pub ratio_above_one : Bool
  pub metric_interval : Signed

pub record SandboxTokenConfig : Type 0 where
  pub key_path : Bytes
  pub issuer : Bytes
  pub audience : Bytes
  pub ttl : Signed

-- Config, as far as Validate reads it.
pub record Config : Type 0 where
  pub listen_addr : Bytes
  pub advertise_addr : Bytes
  pub redis_db : Signed
  pub billet_addr : Bytes
  pub launcher : Bytes
  pub harness_namespace : Bytes
  pub harness_image : Bytes
  pub ttl_seconds_after_finished : Signed
  pub active_deadline_slack : Signed
  pub sandbox : ExecutorDefaults
  pub telemetry : TelemetryOptions
  pub harness_telemetry_endpoint : Bytes
  pub sandbox_token : SandboxTokenConfig

-- Options.Enabled.
unfoldable pub telemetry_enabled : TelemetryOptions → Bool
telemetry_enabled o = not (is_empty o.exporter) && not (bytes_eq o.exporter (text "none"))

-- Options.Validate.
unfoldable pub validate_telemetry : TelemetryOptions → Result (Unit {0})
validate_telemetry o =
    refuse_if (
      not (
        is_empty o.exporter
        || bytes_eq o.exporter (text "none")
        || bytes_eq o.exporter (text "otlp")
        || bytes_eq o.exporter (text "stdout")))
    >> (refuse_if (
          not (
            is_empty o.protocol
            || bytes_eq o.protocol (text "grpc")
            || bytes_eq o.protocol (text "http/protobuf")))
        >> (refuse_if (o.ratio_below_zero || o.ratio_above_one)
            >> refuse_if (is_negative o.metric_interval)))

-- net.SplitHostPort, and strconv.Atoi where it gives a number from 0 on; a negative number is refused like an error.
pub record NetLibrary : Type 0 where
  pub split_host_port : Bytes → Option (Bytes × Bytes)
  pub atoi : Bytes → Option ℕ

module _ (lib : NetLibrary) where
  unfoldable pub validate_port : Bytes → Result (Unit {0})
  validate_port port = elim (lib.atoi port) [
    | none ↦ err invalid_argument
    | some n ↦ refuse_if (ltb n 1 || ltb 65535 n)
  ]

  unfoldable pub validate_host_port : Bytes → Result (Unit {0})
  unfolding validate_port
  validate_host_port addr = if is_empty addr then ok tt else elim (lib.split_host_port addr) [
    | none ↦ err invalid_argument
    | some (host, port) ↦ refuse_if (is_empty host || is_empty port) >> validate_port port
  ]

  unfoldable pub validate_launcher : Config → Result (Unit {0})
  validate_launcher c =
      if bytes_eq c.launcher (text "kubernetes")
      then refuse_if (is_empty c.harness_namespace) >> refuse_if (is_empty c.harness_image)
      else refuse_if (not (bytes_eq c.launcher (text "none")))

  unfoldable pub validate_sandbox_token : SandboxTokenConfig → Result (Unit {0})
  validate_sandbox_token t =
      refuse_if (is_empty t.key_path && (not (is_empty t.issuer) || not (is_empty t.audience)))
      >> (if not (is_empty t.key_path)
          then refuse_if (is_empty t.issuer)
            >> (refuse_if (is_empty t.audience) >> refuse_if (not (is_positive t.ttl)))
          else ok tt)

  -- `c.Sandbox.Namespace = c.Harness.Namespace`, if it is empty.
  unfoldable pub with_sandbox_namespace : Config → Config
  with_sandbox_namespace c =
      if is_empty c.sandbox.namespace
      then record c { sandbox = record c.sandbox { namespace = c.harness_namespace } }
      else c

  -- The checks before the sandbox's namespace is filled in.
  unfoldable pub validate_before : Config → Result (Unit {0})
  unfolding validate_host_port validate_telemetry validate_launcher valid_k8s_runtime
  validate_before c = do
    refuse_if (is_empty c.listen_addr)
    refuse_if (is_empty c.advertise_addr)
    validate_host_port c.billet_addr
    validate_host_port c.harness_telemetry_endpoint
    refuse_if (is_negative c.redis_db)
    refuse_if (is_negative c.ttl_seconds_after_finished)
    refuse_if (is_negative c.active_deadline_slack)
    validate_telemetry c.telemetry
    refuse_if (not (is_empty c.sandbox.runtime || valid_k8s_runtime c.sandbox.runtime))
    validate_launcher c

  -- Validate: the configuration that the server goes on with, or the refusal.
  unfoldable pub validate : Config → Result Config
  unfolding validate_before with_sandbox_namespace validate_sandbox_token
  validate c = do
    validate_before c
    validate_sandbox_token c.sandbox_token
    ok (with_sandbox_namespace c)
