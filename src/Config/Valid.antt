-- ===== src/Config/Valid.antt =====
-- internal/config/config.go: what a validated configuration is.
use hairpin.Base.{
  ℕ, ◌≤◌, ◌≡◌, refl, ◌≢◌, ◌⊎◌, inl, inr, true, false, not, ◌||◌, some, [], Bytes, text,
  bytes_eq_iff, is_empty, is_empty_iff, ok, arith, ◌↔◌, Bool-cases, Option-cases, Result-cases,
}
use hairpin.Service.Executor.{valid_k8s_runtime}
use hairpin.Config.{
  is_negative, is_positive, TelemetryOptions, SandboxTokenConfig, Config, NetLibrary,
  validate_telemetry, validate_port, validate_host_port, validate_launcher, validate_sandbox_token,
  with_sandbox_namespace, validate_before, validate,
}

kinds_differ : text "kubernetes" ≢ text "none"
unfolding text
kinds_differ h = cc

module _ (lib : NetLibrary) where
  -- No address, or a host with a port from 1 to 65535.
  abbrev pub IsDialable : Bytes → Type 0
  IsDialable addr =
      (addr ≡ [])
      ⊎ ((host : Bytes) × (port : Bytes) × (n : ℕ) × (lib.split_host_port addr ≡ some (host, port))
          × (host ≢ [])
          × (port ≢ [])
          × (lib.atoi port ≡ some n)
          × (1 ≤ n)
          × (n ≤ 65535))

  -- A launcher that can start harnesses, or none.
  abbrev pub CanLaunch : Config → Type 0
  CanLaunch c =
      ((c.launcher ≡ text "kubernetes") × (c.harness_namespace ≢ []) × (c.harness_image ≢ []))
      ⊎ (c.launcher ≡ text "none")

  -- No token settings at all, or all of them.
  abbrev pub CanIssue : SandboxTokenConfig → Type 0
  CanIssue t =
      ((t.key_path ≡ []) × (t.issuer ≡ []) × (t.audience ≡ []))
      ⊎ ((t.key_path ≢ []) × (t.issuer ≢ []) × (t.audience ≢ []) × (is_positive t.ttl ≡ true))

  -- A known exporter and protocol or the default, a ratio from 0 to 1, and an interval that is not negative.
  abbrev pub CanExport : TelemetryOptions → Type 0
  CanExport o =
      ((o.exporter ≡ [])
        ⊎ ((o.exporter ≡ text "none")
            ⊎ ((o.exporter ≡ text "otlp") ⊎ (o.exporter ≡ text "stdout"))))
      × ((o.protocol ≡ []) ⊎ ((o.protocol ≡ text "grpc") ⊎ (o.protocol ≡ text "http/protobuf")))
      × (o.ratio_below_zero ≡ false)
      × (o.ratio_above_one ≡ false)
      × (is_negative o.metric_interval ≡ false)

  pub record IsServable (c : Config) : Type 0 where
    pub listens : c.listen_addr ≢ []
    pub advertises : c.advertise_addr ≢ []
    pub billet : IsDialable c.billet_addr
    pub harness_telemetry : IsDialable c.harness_telemetry_endpoint
    pub redis : is_negative c.redis_db ≡ false
    pub ttl : is_negative c.ttl_seconds_after_finished ≡ false
    pub slack : is_negative c.active_deadline_slack ≡ false
    pub telemetry : CanExport c.telemetry
    pub runtime : (c.sandbox.runtime ≡ []) ⊎ (valid_k8s_runtime c.sandbox.runtime ≡ true)
    pub launches : CanLaunch c
    pub issues : CanIssue c.sandbox_token

  host_port_of_ok : (addr : Bytes) → validate_host_port lib addr ≡ ok tt → IsDialable addr
  unfolding validate_host_port validate_port
  host_port_of_ok addr h = elim (Bool-cases (is_empty addr)) [
    | inl e ↦ inl ((is_empty_iff addr).0 e)
    | inr f ↦ elim (Option-cases (lib.split_host_port addr)) [
      | inl e ↦ absurd (ground arith)
      | inr ((host, port), e) ↦ elim (Option-cases (lib.atoi port)) [
        | inl a ↦ absurd (ground arith)
        | inr (n, a) ↦ inr (
          host,
          port,
          n,
          e,
          λ z. ground (arith, is_empty_iff host),
          λ z. ground (arith, is_empty_iff port),
          a,
          ground arith,
          ground arith,
        )
      ]
    ]
  ]

  host_port_ok : (addr : Bytes) → IsDialable addr → validate_host_port lib addr ≡ ok tt
  unfolding validate_host_port validate_port
  host_port_ok addr (inl e) = rw ((is_empty_iff addr).1 e) refl
  host_port_ok addr (inr (host, port, n, e, p, q, a, lo, hi)) =
      ground (arith, is_empty_iff addr, is_empty_iff host, is_empty_iff port)

  launcher_iff : (c : Config) → (validate_launcher lib c ≡ ok tt) ↔ CanLaunch c
  unfolding validate_launcher
  launcher_iff c = ground (
    arith,
    is_empty_iff c.harness_namespace,
    is_empty_iff c.harness_image,
    bytes_eq_iff c.launcher (text "kubernetes"),
    bytes_eq_iff c.launcher (text "none"),
    kinds_differ,
  )

  token_iff : (t : SandboxTokenConfig) → (validate_sandbox_token lib t ≡ ok tt) ↔ CanIssue t
  unfolding validate_sandbox_token
  token_iff t =
      ground (arith, is_empty_iff t.key_path, is_empty_iff t.issuer, is_empty_iff t.audience)

  telemetry_iff : (o : TelemetryOptions) → (validate_telemetry o ≡ ok tt) ↔ CanExport o
  unfolding validate_telemetry
  telemetry_iff o = ground (
    arith,
    is_empty_iff o.exporter,
    bytes_eq_iff o.exporter (text "none"),
    bytes_eq_iff o.exporter (text "otlp"),
    bytes_eq_iff o.exporter (text "stdout"),
    is_empty_iff o.protocol,
    bytes_eq_iff o.protocol (text "grpc"),
    bytes_eq_iff o.protocol (text "http/protobuf"),
  )

  runtime_iff :
      (r : Bytes)
      → (not (is_empty r || valid_k8s_runtime r) ≡ false)
        ↔ ((r ≡ []) ⊎ (valid_k8s_runtime r ≡ true))
  runtime_iff r = ground (arith, is_empty_iff r)

  before-IsServable :
      (c : Config)
      → validate_before lib c ≡ ok tt
      → validate_sandbox_token lib c.sandbox_token ≡ ok tt
      → IsServable c
  unfolding validate_before
  before-IsServable c h t = record {
    listens = λ e. ground (arith, is_empty_iff c.listen_addr);
    advertises = λ e. ground (arith, is_empty_iff c.advertise_addr);
    billet = host_port_of_ok c.billet_addr (ground arith);
    harness_telemetry = host_port_of_ok c.harness_telemetry_endpoint (ground arith);
    redis = ground arith;
    ttl = ground arith;
    slack = ground arith;
    telemetry = (telemetry_iff c.telemetry).0 (ground arith);
    runtime = (runtime_iff c.sandbox.runtime).0 (ground arith);
    launches = (launcher_iff c).0 (ground arith);
    issues = (token_iff c.sandbox_token).0 t;
  }

  IsServable-before : (c : Config) → IsServable c → validate_before lib c ≡ ok tt
  unfolding validate_before
  IsServable-before c v = ground (
    arith,
    is_empty_iff c.listen_addr,
    is_empty_iff c.advertise_addr,
    host_port_ok c.billet_addr v.billet,
    host_port_ok c.harness_telemetry_endpoint v.harness_telemetry,
    (runtime_iff c.sandbox.runtime).1 v.runtime,
    (launcher_iff c).1 v.launches,
    (telemetry_iff c.telemetry).1 v.telemetry,
  )

  -- A configuration passes exactly when it is servable: it names where to listen and where harnesses dial back, every
  -- address that is set is a host with a port from 1 to 65535, the Redis database, the time to keep finished Jobs,
  -- the deadline slack and the metric interval are not negative, telemetry's exporter, protocol and ratio are valid, the
  -- runtime is a known one, the launcher is complete, and token issuance has a key, an issuer, an audience and a
  -- positive lifetime, or none of the first three, the lifetime then being anything. It then goes on with the harness's namespace for sandboxes if it has none of its own.
  pub validate_iff :
      (c : Config) → (validate lib c ≡ ok (with_sandbox_namespace lib c)) ↔ IsServable c
  unfolding validate
  validate_iff c = (
    λ h. elim (Result-cases (validate_before lib c)) [
      | inr (e, b) ↦ absurd (ground arith)
      | inl (u, b) ↦ elim (Result-cases (validate_sandbox_token lib c.sandbox_token)) [
        | inr (e, t) ↦ absurd (ground arith)
        | inl (w, t) ↦ before-IsServable c b t
      ]
    ],
    λ v. rw (IsServable-before c v) (rw ((token_iff c.sandbox_token).1 v.issues) refl),
  )
