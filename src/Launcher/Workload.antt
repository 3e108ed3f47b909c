-- ===== src/Launcher/Workload.antt =====
-- internal/launcher/k8s.go: who the launched harness is, and how long it may run.
use hairpin.Base.{
  ℕ, ok, ◌+◌, ◌*◌, ◌≤◌, ◌≡◌, refl, Bool, true, false, some, [], ◌∷◌, Bytes, text, bytes_eq,
  bytes_eq_refl, Assoc, lookup, insert, lookup-insert, err, Error, arith, ◌∙◌, is_empty_iff,
  if◌then◌else◌,
}
use hairpin.Job.{Job, second, valid_id, session_string, parse_session, accepts_token}
use hairpin.Job.Session.{session_roundtrip}
use hairpin.World.{Env}
use hairpin.Reaper.{Reaper, awaiting_harness_deadline, awaiting_harness_margin}
use hairpin.Launcher.{
  HarnessConfig, name_label, managed_by_label, job_id_label, copied, job_labels, control_plane_addr,
  control_plane_session_id, run_config_timeout_seconds, active_deadline_seconds, k8s_job,
}

lookup-copied : (k : Bytes) (m : Assoc Bytes) → lookup k (copied m) ≡ lookup k m
unfolding lookup copied
lookup-copied k [] = refl
lookup-copied k ((j, v) ∷ m) = lookup-insert j k v (copied m) ∙ ground (arith, lookup-copied k m)

own_labels_differ :
    (bytes_eq job_id_label managed_by_label ≡ false)
    × (bytes_eq job_id_label name_label ≡ false)
    × (bytes_eq managed_by_label name_label ≡ false)
unfolding job_id_label managed_by_label name_label bytes_eq text
own_labels_differ = (refl, refl, refl)

-- The labels that an operator may choose freely.
abbrev pub is_own_label : Bytes → Bool
is_own_label k =
    if bytes_eq job_id_label k
    then true
    else if bytes_eq managed_by_label k
    then true
    else bytes_eq name_label k

-- Hairpin's own labels, and the operator's under a key `k` that is none of them.
abbrev pub OwnLabels : HarnessConfig → Bytes → Bytes → Assoc Bytes → Type 0
OwnLabels cfg id k labels =
    (lookup job_id_label labels ≡ some id)
    × (lookup managed_by_label labels ≡ some (text "hairpin"))
    × (lookup name_label labels ≡ some (text "stirrup"))
    × (is_own_label k ≡ false → lookup k labels ≡ lookup k cfg.labels)

job_labels_lem : (cfg : HarnessConfig) (id k : Bytes) → OwnLabels cfg id k (job_labels cfg id)
unfolding job_labels
job_labels_lem cfg id k =
    let base = insert name_label (text "stirrup") (copied cfg.labels) in
    let managed = insert managed_by_label (text "hairpin") base in
    (
      lookup-insert job_id_label job_id_label id managed ∙ rw (bytes_eq_refl job_id_label) refl,
      lookup-insert job_id_label managed_by_label id managed
          ∙ rw own_labels_differ.0 (
              lookup-insert managed_by_label managed_by_label (text "hairpin") base
              ∙ rw (bytes_eq_refl managed_by_label) refl),
      lookup-insert job_id_label name_label id managed
          ∙ rw own_labels_differ.1 (
              lookup-insert managed_by_label name_label (text "hairpin") base
              ∙ rw own_labels_differ.2 (
                  lookup-insert name_label name_label (text "stirrup") (copied cfg.labels)
                  ∙ rw (bytes_eq_refl name_label) refl)),
      λ free.
          lookup-insert job_id_label k id managed
          ∙ ground (
            arith,
            lookup-insert managed_by_label k (text "hairpin") base,
            lookup-insert name_label k (text "stirrup") (copied cfg.labels),
            lookup-copied k cfg.labels,
          ),
    )

module _ (env : Env) (cfg : HarnessConfig) where
  -- The workload that is launched for a job is this job's: the session that its container presents is read by the control
  -- plane as the job's ID and a token that the job accepts, and it dials the advertised address; the Job and its
  -- Pod carry hairpin's three labels, whatever labels the operator configured, and every other label as configured.
  pub k8s_job_identity :
      (addr : Bytes) (j : Job) (k : Bytes)
      → valid_id j.id ≡ true
      → let w = k8s_job env cfg addr j in
        (s : Bytes) × (lookup control_plane_session_id w.env ≡ some s)
        × (parse_session s ≡ (j.id, j.harness_token))
        × (accepts_token j (parse_session s).1 ≡ true)
        × (lookup control_plane_addr w.env ≡ some addr)
        × OwnLabels cfg j.id k w.labels
        × OwnLabels cfg j.id k w.pod_labels
  unfolding k8s_job lookup bytes_eq text
  k8s_job_identity addr j k v =
      let (p, q) = session_roundtrip j v in
      let labels = job_labels_lem cfg j.id k in (session_string j, refl, p, q, refl, labels, labels)

  -- A workload's active deadline is never longer than the time that the reaper lets its job wait for a harness, and at most
  -- the reaper's margin and a second shorter; where the stored configuration has a timeout, it is shorter by at least
  -- the margin. The two have the same slack, and the decoder refuses an empty configuration. The moments from which
  -- the two times are counted, the workload's start and the job's creation, are not compared.
  pub active_deadline_bounds :
      (r : Reaper) (j : Job) (e : Error)
      → r.deadline_slack ≡ cfg.active_deadline_slack
      → env.decode_config [] ≡ err e
      → (active_deadline_seconds env cfg j * second
          ≤ awaiting_harness_deadline env r j.run_config_json)
        × (awaiting_harness_deadline env r j.run_config_json
            ≤ active_deadline_seconds env cfg j * second + awaiting_harness_margin + second)
        × ((t : ℕ)
            → run_config_timeout_seconds env j.run_config_json ≡ ok t
            → active_deadline_seconds env cfg j * second + awaiting_harness_margin
              ≤ awaiting_harness_deadline env r j.run_config_json)
  unfolding active_deadline_seconds awaiting_harness_deadline run_config_timeout_seconds
  active_deadline_bounds r j e slack none_in_empty = (
    ground (arith, is_empty_iff j.run_config_json),
    ground (arith, is_empty_iff j.run_config_json),
    λ t h. ground (arith, is_empty_iff j.run_config_json),
  )
