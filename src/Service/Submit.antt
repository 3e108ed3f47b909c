-- ===== src/Service/Submit.antt =====
-- internal/service/submit.go and profiles.go: Submit, up to the launch that it starts in the background.
pub mod Accepting
use hairpin.Base.{
  ℕ, Bool, true, false, not, ◌||◌, Option, none, some, List, [], ◌∷◌, Bytes, text, is_empty, Assoc,
  lookup, Result, ok, err, Error, invalid_argument, external, ltb, length, if◌then◌else◌, ◌>>=◌,
  ◌>>◌,
}
use hairpin.Job.{Time, Job, queued, zero_time}
use hairpin.Proto.{RunConfig}
use hairpin.Store.Mem.{create_job}
use hairpin.World.{World, Env, read_clock, append_status}
use hairpin.Service.Executor.{
  ExecutorDefaults, refuse_if, apply_executor_defaults, apply_trace_emitter_default,
  validate_run_config, validate_control_plane_tools,
}

pub record SubmitParams : Type 0 where
  pub prompt : Bytes
  pub profile : Bytes
  pub run_config_json : Bytes
  pub repo_scope : List Bytes

-- NewProfiles: an empty set ignores the default name, and a default must be one of the templates.
pub record Profiles : Type 0 where
  pub templates : Assoc RunConfig
  pub default : Bytes

unfoldable pub new_profiles : Assoc RunConfig → Bytes → Result Profiles
new_profiles [] default = ok (record { templates = []; default = [] })
new_profiles (t ∷ ts) default =
    if is_empty default
    then ok (record { templates = t ∷ ts; default = default })
    else elim (lookup default (t ∷ ts)) [
      | none ↦ err (external (text "default profile is not among the loaded profiles"))
      | some _ ↦ ok (record { templates = t ∷ ts; default = default })
    ]

-- A Service's options, and what its callees are: protojson.Marshal, and whether a string has a rune that
-- is a space or not printable (strings.ContainsFunc with package unicode).
pub record Settings : Type 0 where
  pub profiles : Profiles
  pub executor_defaults : ExecutorDefaults
  pub trace_endpoint : Bytes
  pub memory_tools : Bool
  pub encode_config : RunConfig → Option Bytes
  pub has_unprintable : Bytes → Bool

-- The random and ambient values of one submission: job.NewID, job.NewHarnessToken and the trace context.
pub record Fresh : Type 0 where
  pub job_id : Bytes
  pub harness_token : Bytes
  pub trace_parent : Bytes

abbrev pub max_repo_scope_entries : ℕ
max_repo_scope_entries = 32

abbrev pub max_repo_scope_entry_bytes : ℕ
max_repo_scope_entry_bytes = 256

abbrev pub named : Profiles → Bytes → Result (RunConfig × Bytes)
named ps name =
    if is_empty name
    then err invalid_argument
    else elim (lookup name ps.templates) [ none ↦ err invalid_argument | some cfg ↦ ok (cfg, name) ]

abbrev pub with_no_profile : Result RunConfig → Result (RunConfig × Bytes)
with_no_profile (ok cfg) = ok (cfg, [])
with_no_profile (err e) = err invalid_argument

module _ (env : Env) (s : Settings) where
  -- resolveConfig.
  unfoldable pub resolve_config : SubmitParams → Result (RunConfig × Bytes)
  resolve_config p =
      if not (is_empty p.run_config_json)
      then (if not (is_empty p.profile)
          then err invalid_argument
          else with_no_profile (env.decode_config p.run_config_json))
      else named s.profiles (if is_empty p.profile then s.profiles.default else p.profile)

  check_entries : List Bytes → Result (Unit {0})
  check_entries [] = ok tt
  check_entries (e ∷ es) =
      let rest = check_entries es in
      refuse_if (is_empty e)
      >> (refuse_if (ltb max_repo_scope_entry_bytes (length e))
          >> (refuse_if (s.has_unprintable e) >> rest))

  unfoldable pub validate_repo_scope : List Bytes → Result (Unit {0})
  unfolding check_entries
  validate_repo_scope scope =
      refuse_if (ltb max_repo_scope_entries (length scope)) >> check_entries scope

  abbrev pub with_prompt : Bytes → RunConfig → RunConfig
  with_prompt prompt cfg = if is_empty prompt then cfg else record cfg { prompt = prompt }

  -- The configuration as it is checked and stored.
  unfoldable pub completed_config : Bytes → SubmitParams → RunConfig → RunConfig
  unfolding apply_trace_emitter_default apply_executor_defaults
  completed_config id p cfg = apply_trace_emitter_default s.trace_endpoint (
      apply_executor_defaults s.executor_defaults
        (with_prompt p.prompt (record cfg { run_id = id })))

  abbrev pub encoded : RunConfig → Result Bytes
  encoded cfg = elim (s.encode_config cfg) [
    | none ↦ err (external (text "encode run config"))
    | some json ↦ ok json
  ]

  -- Submit up to the new record: the configuration, the profile's name and the encoded configuration.
  unfoldable pub prepare : Bytes → SubmitParams → Result (RunConfig × Bytes × Bytes)
  unfolding resolve_config validate_repo_scope completed_config validate_run_config
      validate_control_plane_tools
  prepare id p = do
    r ← resolve_config p
    u ← validate_repo_scope p.repo_scope
    u ← validate_run_config (completed_config id p r.0)
    u ← validate_control_plane_tools (completed_config id p r.0).control_plane_tools s.memory_tools
    json ← encoded (completed_config id p r.0)
    ok (completed_config id p r.0, r.1, json)

  unfoldable pub new_job : Fresh → SubmitParams → RunConfig → Bytes → Bytes → Time → Job
  new_job f p cfg profile json at = record {
    id = f.job_id;
    status = queued;
    prompt = cfg.prompt;
    profile = profile;
    run_config_json = json;
    stop_reason = [];
    error = [];
    final_text = [];
    created_at = at;
    started_at = zero_time;
    finished_at = zero_time;
    last_event_at = zero_time;
    cancel_requested = false;
    trace_parent = f.trace_parent;
    harness_token = f.harness_token;
    repo_scope = p.repo_scope;
  }

  abbrev pub after_create : Job → World → Result (Unit {0}) → Result Job × World
  after_create j w (err e) = (err e, w)
  after_create j w (ok _) =
      let (at, w1) = read_clock env w in (ok j, append_status env j.id queued [] at w1)

  abbrev pub create_prepared :
      Fresh → SubmitParams → World → Result (RunConfig × Bytes × Bytes) → Result Job × World
  create_prepared f p w (err e) = (err e, w)
  create_prepared f p w (ok (cfg, profile, json)) =
      let (at, w1) = read_clock env w in
      let j = new_job f p cfg profile json at in
      let (r, m) = create_job j w1.store in after_create j (record w1 { store = m }) r

  unfoldable pub submit : Fresh → SubmitParams → World → Result Job × World
  unfolding prepare new_job create_job read_clock append_status
  submit f p w = create_prepared f p w (prepare f.job_id p)
