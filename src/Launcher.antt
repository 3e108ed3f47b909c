-- ===== src/Launcher.antt =====
-- internal/launcher/launcher.go and k8s.go: the workload that runs a job's harness. The Kubernetes API is a parameter.
pub mod Workload
use hairpin.Base.{
  ℕ, ◌+◌, ◌*◌, ◌/◌, Bool, true, false, not, Option, none, some, List, [], ◌∷◌, Bytes, text,
  is_empty, Assoc, lookup, insert, Result, ok, err, external, if◌then◌else◌,
}
use hairpin.Job.{Job, second, session_string}
use hairpin.Proto.{RunConfig}
use hairpin.World.{World, Env}

-- config.HarnessConfig, as far as a launch reads it; the slack is in nanoseconds.
pub record HarnessConfig : Type 0 where
  pub namespace : Bytes
  pub image : Bytes
  pub service_account : Bytes
  pub env_from_secrets : List Bytes
  pub ttl_seconds_after_finished : ℕ
  pub active_deadline_slack : ℕ
  pub labels : Assoc Bytes

-- The batch/v1 Job: the fields in which jobs and configurations differ, and those of its one container.
pub record K8sJob : Type 0 where
  pub name : Bytes
  pub namespace : Bytes
  pub labels : Assoc Bytes
  pub backoff_limit : ℕ
  pub ttl_seconds_after_finished : ℕ
  pub active_deadline_seconds : ℕ
  pub pod_labels : Assoc Bytes
  pub service_account_name : Bytes
  pub automount_token : Bool
  pub run_as_non_root : Bool
  pub allow_privilege_escalation : Bool
  pub read_only_root : Bool
  pub image : Bytes
  pub args : List Bytes
  pub env : Assoc Bytes
  pub env_from : List Bytes

-- Why a Job was not created.
pub data CreateError : Type 0 where
  already_exists : CreateError
  refused : Bytes → CreateError

abbrev pub fallback_timeout_seconds : ℕ
fallback_timeout_seconds = 3600

unfoldable pub name_label : Bytes
name_label = text "app.kubernetes.io/name"

unfoldable pub managed_by_label : Bytes
managed_by_label = text "app.kubernetes.io/managed-by"

unfoldable pub job_id_label : Bytes
job_id_label = text "hairpin.rxbynerd.dev/job-id"

-- `for k, v := range l.cfg.Labels { labels[k] = v }`.
unfoldable pub copied : Assoc Bytes → Assoc Bytes
copied [] = []
copied ((k, v) ∷ m) = insert k v (copied m)

unfoldable pub job_labels : HarnessConfig → Bytes → Assoc Bytes
unfolding copied name_label managed_by_label job_id_label
job_labels cfg id = insert job_id_label id (
    insert managed_by_label (text "hairpin")
      (insert name_label (text "stirrup") (copied cfg.labels)))

-- envFromSecrets: each name is a Secret that the container reads its environment from.
unfoldable pub env_from_secrets : List Bytes → List Bytes
env_from_secrets [] = []
env_from_secrets (n ∷ ns) = n ∷ env_from_secrets ns

unfoldable pub control_plane_addr : Bytes
control_plane_addr = text "CONTROL_PLANE_ADDR"

unfoldable pub control_plane_session_id : Bytes
control_plane_session_id = text "CONTROL_PLANE_SESSION_ID"

module _ (env : Env) where
  -- A timeout that is negative is not modelled.
  unfoldable pub run_config_timeout_seconds : Bytes → Result ℕ
  run_config_timeout_seconds json =
      if is_empty json
      then err (external (text "empty run config"))
      else elim (env.decode_config json) [
        | err e ↦ err e
        | ok rc ↦ elim rc.timeout [
          | none ↦ err (external (text "run config has no timeout"))
          | some t ↦ ok t
        ]
      ]

  abbrev pub timeout_or_fallback : Result ℕ → ℕ
  timeout_or_fallback (ok t) = t
  timeout_or_fallback (err e) = fallback_timeout_seconds

  -- `int64(slack.Seconds())` cuts the fraction off.
  unfoldable pub active_deadline_seconds : HarnessConfig → Job → ℕ
  unfolding run_config_timeout_seconds
  active_deadline_seconds cfg j =
      timeout_or_fallback (run_config_timeout_seconds j.run_config_json)
      + cfg.active_deadline_slack / second

  unfoldable pub k8s_job : HarnessConfig → Bytes → Job → K8sJob
  unfolding job_labels active_deadline_seconds env_from_secrets session_string control_plane_addr
      control_plane_session_id
  k8s_job cfg advertise_addr j = record {
    name = j.id;
    namespace = cfg.namespace;
    labels = job_labels cfg j.id;
    backoff_limit = 0;
    ttl_seconds_after_finished = cfg.ttl_seconds_after_finished;
    active_deadline_seconds = active_deadline_seconds cfg j;
    pod_labels = job_labels cfg j.id;
    service_account_name = cfg.service_account;
    automount_token = not (is_empty cfg.service_account);
    run_as_non_root = true;
    allow_privilege_escalation = false;
    read_only_root = true;
    image = cfg.image;
    args = text "job" ∷ [];
    env = (control_plane_addr, advertise_addr) ∷ (control_plane_session_id, session_string j) ∷ [];
    env_from = env_from_secrets cfg.env_from_secrets;
  }

  abbrev pub created : Option CreateError × World → Result (Unit {0}) × World
  created (none, w) = (ok tt, w)
  created (some already_exists, w) = (ok tt, w)
  created (some (refused e), w) = (err (external e), w)

  -- Launch of the Kubernetes launcher; `create` is the call of the API, with what else happens until it returns.
  unfoldable pub launch_k8s :
      HarnessConfig
      → Bytes
      → (K8sJob → World → Option CreateError × World)
      → Job
      → World
      → Result (Unit {0}) × World
  unfolding k8s_job
  launch_k8s cfg advertise_addr create j w = created (create (k8s_job cfg advertise_addr j) w)

-- Launch of None.
unfoldable pub launch_none : Job → World → Result (Unit {0}) × World
launch_none j w = (ok tt, w)
