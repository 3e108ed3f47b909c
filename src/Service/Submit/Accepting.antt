-- ===== src/Service/Submit/Accepting.antt =====
-- internal/service/submit.go: what Submit has stored when it returns.
use mathlib.Core.Path.{subst}
use hairpin.Base.{
  ap, sym, ◌≡◌, refl, ◌∙◌, ◌⊎◌, inl, inr, none, some, Bytes, bytes_eq_refl, lookup, lookup-insert,
  Result, ok, err, Error, conflict, Option-cases, Result-cases, arith, ◌≢◌, ◌≤◌, Bool, true, false,
  not, List, [], ◌∷◌, text, is_empty, is_empty_iff, bytes_eq_iff, length, All, ltb, ◌==◌, ◌&&◌,
  ok_of_bind,
}
use hairpin.Job.{Job, queued}
use hairpin.Proto.{RunConfig, ToolConfig}
use hairpin.Memory.{is_memory_tool, tool_search, tool_save, call_timeout_seconds}
use hairpin.Store.Mem.{create_job}
use hairpin.World.{World, Env, read_clock, append_status, append}
use hairpin.World.Persist.{jobs-append_event}
use hairpin.Service.Executor.{
  ExecutorDefaults, apply_executor_defaults, apply_trace_emitter_default, validate_run_config,
  validate_control_plane_tools,
}
use hairpin.Service.Executor.Accepted.{IsRunnable, refuse_if-passes, validate_run_config-IsRunnable}
use hairpin.Service.Submit.{
  SubmitParams, Settings, Fresh, resolve_config, check_entries, max_repo_scope_entries,
  max_repo_scope_entry_bytes, validate_repo_scope, completed_config, prepare, new_job, submit,
  encoded, create_prepared, with_prompt,
}

run_id-apply_executor_defaults :
    (d : ExecutorDefaults) (cfg : RunConfig) → (apply_executor_defaults d cfg).run_id ≡ cfg.run_id
unfolding apply_executor_defaults
run_id-apply_executor_defaults d cfg = ground arith

run_id-apply_trace_emitter_default :
    (e : Bytes) (cfg : RunConfig) → (apply_trace_emitter_default e cfg).run_id ≡ cfg.run_id
unfolding apply_trace_emitter_default
run_id-apply_trace_emitter_default e cfg = ground arith

-- A tool that the control plane fulfils: one of the two memory tools, on a server that has them, whose own wait
-- is not shorter than a call of Billet may take.
abbrev pub IsFulfillable : Bool → ToolConfig → Type 0
IsFulfillable memory_tools t =
    ((t.name ≡ text "search_memory") ⊎ (t.name ≡ text "save_memory"))
    × (memory_tools ≡ true)
    × ((t.timeout_seconds ≡ 0) ⊎ (10 ≤ t.timeout_seconds))

tools-IsFulfillable :
    (ts : List ToolConfig) (memory_tools : Bool)
    → validate_control_plane_tools ts memory_tools ≡ ok tt
    → All (IsFulfillable memory_tools) ts
unfolding validate_control_plane_tools is_memory_tool tool_search tool_save
tools-IsFulfillable [] b h = tt
tools-IsFulfillable (t ∷ ts) b h =
    let (known, h1) = (refuse_if-passes (not (is_memory_tool t.name)) _).0 h in
    let (enabled, h2) = (refuse_if-passes (not b) _).0 h1 in
    let (long, h3) =
      (refuse_if-passes (not (t.timeout_seconds == 0) && ltb t.timeout_seconds call_timeout_seconds)
          _).0
        h2 in
    (
      (
        ground (
          arith,
          known,
          bytes_eq_iff t.name (text "search_memory"),
          bytes_eq_iff t.name (text "save_memory"),
        ),
        ground (arith, enabled),
        ground (arith, long),
      ),
      tools-IsFulfillable ts b h3,
    )

module _ (env : Env) (s : Settings) where
  -- At most 32 entries, none empty, longer than 256 bytes, or with a space or an unprintable rune.
  abbrev pub IsGrantable : List Bytes → Type 0
  IsGrantable scope =
      (length scope ≤ 32)
      × All (λ e. (e ≢ []) × (length e ≤ 256) × (s.has_unprintable e ≡ false)) scope

  entries_grantable :
      (es : List Bytes)
      → check_entries env s es ≡ ok tt
      → All (λ e. (e ≢ []) × (length e ≤ 256) × (s.has_unprintable e ≡ false)) es
  unfolding check_entries
  entries_grantable [] h = tt
  entries_grantable (e ∷ es) h =
      let (filled, h1) = (refuse_if-passes (is_empty e) _).0 h in
      let (short, h2) = (refuse_if-passes (ltb max_repo_scope_entry_bytes (length e)) _).0 h1 in
      let (printable, h3) = (refuse_if-passes _ _).0 h2 in
      (
        (ground (arith, filled, is_empty_iff e), ground (arith, short), printable),
        entries_grantable es h3,
      )

  scope-IsGrantable :
      (scope : List Bytes) → validate_repo_scope env s scope ≡ ok tt → IsGrantable scope
  unfolding validate_repo_scope
  scope-IsGrantable scope h =
      let (few, rest) = (refuse_if-passes (ltb max_repo_scope_entries (length scope)) _).0 h in
      (ground (arith, few), entries_grantable scope rest)

  run_id-completed_config :
      (id : Bytes) (p : SubmitParams) (cfg : RunConfig)
      → (completed_config env s id p cfg).run_id ≡ id
  unfolding completed_config
  run_id-completed_config id p cfg =
      let given = record cfg { run_id = id } in
      run_id-apply_trace_emitter_default s.trace_endpoint _
      ∙ (run_id-apply_executor_defaults s.executor_defaults (with_prompt env s p.prompt given)
          ∙ ground arith)

  -- What is known of a configuration that Submit stores, and of the repositories that it grants.
  pub record IsPrepared (id : Bytes) (scope : List Bytes) (cfg : RunConfig) (json : Bytes)
      : Type 0 where
    pub runnable : IsRunnable cfg
    pub tools : All (IsFulfillable s.memory_tools) cfg.control_plane_tools
    pub grantable : IsGrantable scope
    pub encodes : s.encode_config cfg ≡ some json
    pub named_after_job : cfg.run_id ≡ id

  encoded-ok :
      (cfg : RunConfig) (json : Bytes)
      → encoded env s cfg ≡ ok json
      → s.encode_config cfg ≡ some json
  encoded-ok cfg json h = elim (Option-cases (s.encode_config cfg)) [
    | inl e ↦ absurd (ground (arith, rw (e, encoded) at h))
    | inr (j, e) ↦ ground (arith, e, rw (e, encoded) at h)
  ]

  prepare-IsPrepared :
      (id : Bytes) (p : SubmitParams) (cfg : RunConfig) (profile json : Bytes)
      → prepare env s id p ≡ ok (cfg, profile, json)
      → IsPrepared id p.repo_scope cfg json
  unfolding prepare
  prepare-IsPrepared id p cfg profile json h =
      let (r, _, h1) = ok_of_bind (resolve_config env s p) _ _ h in
      let (v, scope, h2) = ok_of_bind (validate_repo_scope env s p.repo_scope) _ _ h1 in
      let c = completed_config env s id p r.0 in
      let (u, valid, h3) = ok_of_bind (validate_run_config c) _ _ h2 in
      let (w, known, h4) =
        ok_of_bind (validate_control_plane_tools c.control_plane_tools s.memory_tools) _ _ h3 in
      let (j, e, h5) = ok_of_bind (encoded env s c) _ _ h4 in
      let same : c ≡ cfg = ground (arith, h5) in
      let text : j ≡ json = ground (arith, h5) in
      record {
        runnable = subst IsRunnable same (validate_run_config-IsRunnable c valid);
        tools =
            subst (λ (t : RunConfig). All (IsFulfillable s.memory_tools) t.control_plane_tools) same
              (tools-IsFulfillable c.control_plane_tools s.memory_tools known);
        grantable = scope-IsGrantable p.repo_scope scope;
        encodes = encoded-ok cfg json (ap (encoded env s) (sym same) ∙ e ∙ ap (λ t. ok t) text);
        named_after_job =
            ap (λ (t : RunConfig). t.run_id) (sym same) ∙ run_id-completed_config id p r.0;
      }

  -- A submission that was refused: the store is as it was.
  pub record IsRefused (w : World) (r : Result Job × World) : Type 0 where
    pub why : Error
    pub refused : r.0 ≡ err why
    pub kept : r.1.store ≡ w.store

  -- A submission that was accepted: the stored job, with its configuration.
  pub record IsSubmitted (f : Fresh) (r : Result Job × World) : Type 0 where
    pub job : Job
    pub config : RunConfig
    pub returned : r.0 ≡ ok job
    pub stored : lookup f.job_id r.1.store.jobs ≡ some job
    pub begins : job.status ≡ queued
    pub has_token : job.harness_token ≡ f.harness_token
    pub prepared : IsPrepared f.job_id job.repo_scope config job.run_config_json

  created-IsSubmitted :
      (f : Fresh) (p : SubmitParams) (cfg : RunConfig) (profile json : Bytes) (w : World)
      → IsPrepared f.job_id p.repo_scope cfg json
      → lookup f.job_id w.store.jobs ≡ none
      → IsSubmitted f (create_prepared env s f p w (ok (cfg, profile, json)))
  unfolding new_job create_job read_clock append_status append
  created-IsSubmitted f p cfg profile json w prepared fresh =
      let j = new_job env s f p cfg profile json (env.now w.reads) in
      rw (fresh, create_job)
        (record {
          job = j;
          config = cfg;
          returned = refl;
          stored =
              ap (λ m. lookup f.job_id m) (jobs-append_event _ f.job_id _ _)
              ∙ lookup-insert f.job_id f.job_id j w.store.jobs
              ∙ rw (bytes_eq_refl f.job_id) refl;
          begins = refl;
          has_token = refl;
          prepared = prepared;
        })

  -- Submit either fails and leaves the store as it was, or has stored a queued job under the new ID and with
  -- the new token, whose stored configuration is the encoding of one that carries the job's ID, has what IsRunnable
  -- lists, and declares only memory tools, on a server that has them, with no wait from 1 to 9 seconds; the job grants at
  -- most 32 repository patterns, each printable and of 1 to 256 bytes.
  pub submit-outcome :
      (f : Fresh) (p : SubmitParams) (w : World)
      → IsRefused w (submit env s f p w) ⊎ IsSubmitted f (submit env s f p w)
  unfolding submit read_clock new_job
  submit-outcome f p w = elim (Result-cases (prepare env s f.job_id p)) [
    | inr (e, bad) ↦ inl (rw (bad, submit) (record { why = e; refused = refl; kept = refl }))
    | inl ((cfg, profile, json), good) ↦ elim (Option-cases (lookup f.job_id w.store.jobs)) [
      | inl fresh ↦ inr (
          rw (good, submit)
            (created-IsSubmitted f p cfg profile json w
              (prepare-IsPrepared f.job_id p cfg profile json good) fresh))
      | inr (taken, found) ↦ inl (
          rw (good, submit)
            (rw (found, create_job) (record { why = conflict; refused = refl; kept = refl })))
    ]
  ]
