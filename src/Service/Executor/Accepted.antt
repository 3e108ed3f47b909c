-- ===== src/Service/Executor/Accepted.antt =====
-- internal/service/executor.go and submit.go: what a configuration that passes the checks is like.
use hairpin.Base.{
  ℕ, ◌≤◌, ◌≡◌, refl, ◌≢◌, ◌↔◌, ◌⊎◌, inl, inr, Bool, true, false, not, ◌&&◌, ◌||◌, some, [], Bytes,
  text, bytes_eq, bytes_eq_iff, is_empty, is_empty_iff, Result, ok, ltb, ◌==◌, ◌>>◌, Option-cases,
  Bool-cases, arith,
}
use hairpin.Proto.{RunConfig, ExecutorConfig, NetworkConfig}
use hairpin.Service.Executor.{
  refuse_if, is_k8s_executor, bad_runtime, valid_k8s_runtime, validate_network, validate_executor,
  validate_sandbox, validate_run_config,
}

-- The rules for a sandbox's network: an allowlist needs the egress proxy, and no network excludes it.
unfoldable pub HasNetwork : ExecutorConfig → Type 0
HasNetwork ex =
    (n : NetworkConfig) × (ex.network ≡ some n)
    × (((n.mode ≡ text "allowlist") × (ex.k8s_egress_proxy_url ≢ []))
        ⊎ ((n.mode ≡ text "none") × (ex.k8s_egress_proxy_url ≡ [])))

-- The runtimes of a kind: the cluster's own choice; gVisor, for every kind; and for "k8s" alone also runc and Kata.
unfoldable pub HasRuntime : Bytes → Bytes → Type 0
HasRuntime kind r =
    (r ≡ [])
    ⊎ ((r ≡ text "gvisor")
        ⊎ ((kind ≢ text "k8s-sandbox")
            × ((r ≡ text "runc")
                ⊎ ((r ≡ text "kata-qemu") ⊎ ((r ≡ text "kata-fc") ⊎ (r ≡ text "kata-clh"))))))

bad_runtime_iff : (kind r : Bytes) → (bad_runtime kind r ≡ false) ↔ HasRuntime kind r
unfolding bad_runtime valid_k8s_runtime HasRuntime
bad_runtime_iff kind r = ground (
  arith,
  is_empty_iff r,
  bytes_eq_iff kind (text "k8s-sandbox"),
  bytes_eq_iff r (text "gvisor"),
  bytes_eq_iff r (text "runc"),
  bytes_eq_iff r (text "kata-qemu"),
  bytes_eq_iff r (text "kata-fc"),
  bytes_eq_iff r (text "kata-clh"),
)

-- The kinds of executor that run in Pods of their own.
abbrev pub IsK8s : Bytes → Type 0
IsK8s kind = (kind ≡ text "k8s") ⊎ (kind ≡ text "k8s-sandbox")

IsK8s-is_k8s_executor : (kind : Bytes) → IsK8s kind → is_k8s_executor kind ≡ true
unfolding is_k8s_executor
IsK8s-is_k8s_executor kind h =
    ground (arith, bytes_eq_iff kind (text "k8s"), bytes_eq_iff kind (text "k8s-sandbox"))

pub record IsSandbox (ex : ExecutorConfig) : Type 0 where
  pub has_image : ex.image ≢ []
  pub has_namespace : ex.k8s_namespace ≢ []
  pub no_workspace : ex.workspace ≡ []
  pub has_runtime : HasRuntime ex.kind ex.runtime
  pub has_network : HasNetwork ex

pub refuse_if-passes :
    (b : Bool) (k : Result (Unit {0})) → (refuse_if b >> k ≡ ok tt) ↔ ((b ≡ false) × (k ≡ ok tt))
refuse_if-passes true k = ground arith
refuse_if-passes false k = ground arith

refuse_if_iff : (b : Bool) → (refuse_if b ≡ ok tt) ↔ (b ≡ false)
refuse_if_iff true = ground arith
refuse_if_iff false = ground arith

mode_allowlist : (m : Bytes) → bytes_eq m (text "allowlist") ≡ true → m ≡ text "allowlist"
mode_allowlist m = (bytes_eq_iff m (text "allowlist")).0

mode_none : (m : Bytes) → bytes_eq m (text "none") ≡ true → m ≡ text "none"
mode_none m = (bytes_eq_iff m (text "none")).0

validate_network-passes : (ex : ExecutorConfig) → validate_network ex ≡ ok tt → HasNetwork ex
unfolding validate_network HasNetwork
validate_network-passes ex h = elim (Option-cases ex.network) [
  | inl e ↦ absurd (ground (arith, (rw e at h)))
  | inr (n, e) ↦ (
    n,
    e,
    elim (Bool-cases (bytes_eq n.mode (text "allowlist"))) [
      | inl a ↦ inl (
        mode_allowlist n.mode a,
        ground (arith, rw (e, a) at h, is_empty_iff ex.k8s_egress_proxy_url),
      )
      | inr b ↦ elim (Bool-cases (bytes_eq n.mode (text "none"))) [
        | inl c ↦ inr (
          mode_none n.mode c,
          ground (arith, rw (e, b, c) at h, is_empty_iff ex.k8s_egress_proxy_url),
        )
        | inr d ↦ absurd (ground (arith, rw (e, b, d) at h))
      ]
    ],
  )
]

validate_network-accepts : (ex : ExecutorConfig) → HasNetwork ex → validate_network ex ≡ ok tt
unfolding validate_network HasNetwork bytes_eq text is_empty
validate_network-accepts ex (n, e, inl (m, u)) =
    let filled : is_empty ex.k8s_egress_proxy_url ≡ false =
      ground (arith, is_empty_iff ex.k8s_egress_proxy_url) in
    rw e (rw m (rw filled refl))
validate_network-accepts ex (n, e, inr (m, u)) = rw e (rw m (rw u refl))

passes : (ex : ExecutorConfig) → validate_sandbox ex ≡ ok tt → IsSandbox ex
unfolding validate_sandbox
passes ex h =
    let (a, h1) = (refuse_if-passes (is_empty ex.image) _).0 h in
    let (b, h2) = (refuse_if-passes (is_empty ex.k8s_namespace) _).0 h1 in
    let (c, h3) = (refuse_if-passes (not (is_empty ex.workspace)) _).0 h2 in
    let (d, h4) = (refuse_if-passes (bad_runtime ex.kind ex.runtime) _).0 h3 in
    record {
      has_image = ground (arith, a, is_empty_iff ex.image);
      has_namespace = ground (arith, b, is_empty_iff ex.k8s_namespace);
      no_workspace = ground (arith, c, is_empty_iff ex.workspace);
      has_runtime = (bad_runtime_iff ex.kind ex.runtime).0 d;
      has_network = validate_network-passes ex h4;
    }

accepts : (ex : ExecutorConfig) → IsSandbox ex → validate_sandbox ex ≡ ok tt
unfolding validate_sandbox is_empty
accepts ex s = (refuse_if-passes (is_empty ex.image) _).1 (
  ground (arith, s.has_image, is_empty_iff ex.image),
  (refuse_if-passes (is_empty ex.k8s_namespace) _).1 (
    ground (arith, s.has_namespace, is_empty_iff ex.k8s_namespace),
    (refuse_if-passes (not (is_empty ex.workspace)) _).1 (
      ground (arith, s.no_workspace, is_empty_iff ex.workspace),
      (refuse_if-passes (bad_runtime ex.kind ex.runtime) _).1 (
        (bad_runtime_iff ex.kind ex.runtime).1 s.has_runtime,
        validate_network-accepts ex s.has_network,
      ),
    ),
  ),
)

-- A sandbox executor passes exactly if it names its image and namespace, leaves its workspace to the Pod,
-- names no runtime or gVisor, or for "k8s" also runc or one of three Kata ones, and has a network with the egress proxy that it needs and no other.
pub validate_executor_iff :
    (ex : ExecutorConfig) → IsK8s ex.kind → (validate_executor ex ≡ ok tt) ↔ IsSandbox ex
unfolding validate_executor
validate_executor_iff ex k = rw (IsK8s-is_k8s_executor ex.kind k) (passes ex, accepts ex)

-- What every accepted configuration has.
pub record IsRunnable (cfg : RunConfig) : Type 0 where
  pub seconds : ℕ
  pub executor : ExecutorConfig
  pub has_prompt : cfg.prompt ≢ []
  pub has_mode : cfg.mode ≢ []
  pub has_provider : (cfg.provider_type ≢ []) ⊎ (1 ≤ cfg.providers)
  pub some_turns : 1 ≤ cfg.max_turns
  pub few_turns : cfg.max_turns ≤ 100
  pub has_timeout : cfg.timeout ≡ some seconds
  pub some_seconds : 1 ≤ seconds
  pub few_seconds : seconds ≤ 3600
  pub has_executor : cfg.executor ≡ some executor
  pub chosen : executor.kind ≢ []
  pub sound : IsK8s executor.kind → IsSandbox executor

provider_of :
    (cfg : RunConfig)
    → (is_empty cfg.provider_type && cfg.providers == 0) ≡ false
    → (cfg.provider_type ≢ []) ⊎ (1 ≤ cfg.providers)
provider_of cfg h = ground (arith, is_empty_iff cfg.provider_type)

-- A configuration that passes names a prompt, a mode, a provider, its executor's type, 1 to 100 turns and 1 to 3600
-- seconds, and its sandbox executor, if that is what it is, keeps the rules of one.
pub validate_run_config-IsRunnable :
    (cfg : RunConfig) → validate_run_config cfg ≡ ok tt → IsRunnable cfg
unfolding validate_run_config
validate_run_config-IsRunnable cfg h =
    let (a, h1) = (refuse_if-passes (is_empty cfg.prompt) _).0 h in
    let (b, h2) = (refuse_if-passes (is_empty cfg.mode) _).0 h1 in
    let (c, h3) = (refuse_if-passes (is_empty cfg.provider_type && cfg.providers == 0) _).0 h2 in
    let (d, h4) = (refuse_if-passes (ltb cfg.max_turns 1 || ltb 100 cfg.max_turns) _).0 h3 in
    elim (Option-cases cfg.timeout) [
      | inl e ↦ absurd (ground (arith, rw e at h4))
      | inr (t, e) ↦
          let (f, h5) = (refuse_if-passes (ltb t 1 || ltb 3600 t) _).0 (rw e at h4) in
          elim (Option-cases cfg.executor) [
            | inl g ↦ absurd (ground (arith, rw g at h5))
            | inr (ex, g) ↦
                let (i, h6) = (refuse_if-passes (is_empty ex.kind) _).0 (rw g at h5) in
                record {
                  seconds = t;
                  executor = ex;
                  has_prompt = ground (arith, a, is_empty_iff cfg.prompt);
                  has_mode = ground (arith, b, is_empty_iff cfg.mode);
                  has_provider = provider_of cfg c;
                  some_turns = ground (arith, d);
                  few_turns = ground (arith, d);
                  has_timeout = e;
                  some_seconds = ground (arith, f);
                  few_seconds = ground (arith, f);
                  has_executor = g;
                  chosen = ground (arith, i, is_empty_iff ex.kind);
                  sound = λ k. (validate_executor_iff ex k).0 h6;
                }
          ]
    ]
