-- ===== src/Service/Executor.antt =====
-- internal/service/executor.go, tools.go and traceemitter.go: what the server fills into a submitted run
-- configuration, and what it refuses. Every refusal is ErrInvalidArgument; its text is not modelled.
pub mod Accepted
use hairpin.Base.{
  ℕ, ◌*◌, Bool, true, false, not, ◌&&◌, ◌||◌, Option, none, some, List, [], ◌∷◌, Bytes, text,
  bytes_eq, is_empty, Result, ok, err, invalid_argument, ltb, ◌==◌, if◌then◌else◌, ◌>>◌,
}
use hairpin.Proto.{RunConfig, ExecutorConfig, NetworkConfig, ToolConfig, TraceEmitterConfig}
use hairpin.Memory.{is_memory_tool, call_timeout_seconds}

-- config.ExecutorDefaults.
pub record ExecutorDefaults : Type 0 where
  pub image : Bytes
  pub namespace : Bytes
  pub service_account : Bytes
  pub runtime : Bytes

-- A check that refuses the argument if its condition holds.
abbrev pub refuse_if : Bool → Result (Unit {0})
refuse_if true = err invalid_argument
refuse_if false = ok tt

unfoldable pub is_k8s_executor : Bytes → Bool
is_k8s_executor t = bytes_eq t (text "k8s") || bytes_eq t (text "k8s-sandbox")

unfoldable pub valid_k8s_runtime : Bytes → Bool
valid_k8s_runtime r =
    bytes_eq r (text "runc")
    || bytes_eq r (text "gvisor")
    || bytes_eq r (text "kata-qemu")
    || bytes_eq r (text "kata-fc")
    || bytes_eq r (text "kata-clh")

abbrev pub or_default : Bytes → Bytes → Bytes
or_default own default = if is_empty own then default else own

unfoldable pub with_defaults : ExecutorDefaults → ExecutorConfig → ExecutorConfig
with_defaults d ex = record ex {
  image = or_default ex.image d.image;
  k8s_namespace = or_default ex.k8s_namespace d.namespace;
  k8s_service_account = or_default ex.k8s_service_account d.service_account;
  runtime = or_default ex.runtime d.runtime;
}

unfoldable pub apply_executor_defaults : ExecutorDefaults → RunConfig → RunConfig
unfolding with_defaults
apply_executor_defaults d cfg = elim cfg.executor [
  | none ↦ cfg
  | some ex ↦
      if is_k8s_executor ex.kind then record cfg { executor = some (with_defaults d ex) } else cfg
]

unfoldable pub apply_trace_emitter_default : Bytes → RunConfig → RunConfig
apply_trace_emitter_default endpoint cfg =
    if is_empty endpoint then cfg else elim cfg.trace_emitter [
      | some t ↦ cfg
      | none ↦ record cfg {
        trace_emitter = some (record { kind = text "otel"; endpoint = endpoint });
      }
    ]

-- The runtimes that a kind of sandbox executor takes; an empty one leaves the choice to the cluster.
unfoldable pub bad_runtime : Bytes → Bytes → Bool
unfolding valid_k8s_runtime
bad_runtime kind r =
    if bytes_eq kind (text "k8s-sandbox")
    then not (is_empty r) && not (bytes_eq r (text "gvisor"))
    else not (is_empty r) && not (valid_k8s_runtime r)

unfoldable pub validate_network : ExecutorConfig → Result (Unit {0})
validate_network ex = elim ex.network [
  | none ↦ err invalid_argument
  | some n ↦
      if bytes_eq n.mode (text "allowlist")
      then refuse_if (is_empty ex.k8s_egress_proxy_url)
      else if bytes_eq n.mode (text "none")
      then refuse_if (not (is_empty ex.k8s_egress_proxy_url))
      else err invalid_argument
]

unfoldable pub validate_sandbox : ExecutorConfig → Result (Unit {0})
unfolding bad_runtime validate_network
validate_sandbox ex =
    refuse_if (is_empty ex.image)
    >> (refuse_if (is_empty ex.k8s_namespace)
        >> (refuse_if (not (is_empty ex.workspace))
            >> (refuse_if (bad_runtime ex.kind ex.runtime) >> validate_network ex)))

unfoldable pub validate_executor : ExecutorConfig → Result (Unit {0})
unfolding is_k8s_executor validate_sandbox
validate_executor ex = if not (is_k8s_executor ex.kind) then ok tt else validate_sandbox ex

-- A negative number of turns or seconds, which is refused like 0, is given as 0.
unfoldable pub validate_run_config : RunConfig → Result (Unit {0})
unfolding validate_executor
validate_run_config cfg =
    refuse_if (is_empty cfg.prompt)
    >> (refuse_if (is_empty cfg.mode)
        >> (refuse_if (is_empty cfg.provider_type && cfg.providers == 0)
            >> (refuse_if (ltb cfg.max_turns 1 || ltb 100 cfg.max_turns) >> elim cfg.timeout [
              | none ↦ err invalid_argument
              | some t ↦ refuse_if (ltb t 1 || ltb 3600 t) >> elim cfg.executor [
                | none ↦ err invalid_argument
                | some ex ↦ refuse_if (is_empty ex.kind) >> validate_executor ex
              ]
            ])))

-- A tool that sets a wait of its own sets it in seconds; 0 keeps the harness's. A negative one is not modelled.
unfoldable pub validate_control_plane_tools : List ToolConfig → Bool → Result (Unit {0})
unfolding is_memory_tool
validate_control_plane_tools [] memory_enabled = ok tt
validate_control_plane_tools (t ∷ ts) memory_enabled =
    let rest = validate_control_plane_tools ts memory_enabled in
    refuse_if (not (is_memory_tool t.name))
    >> (refuse_if (not memory_enabled)
        >> (refuse_if (not (t.timeout_seconds == 0) && ltb t.timeout_seconds call_timeout_seconds)
            >> rest))
