-- ===== src/Samples/Callers.antt =====
-- Concrete uses of the theorems on the service, the reaper, the registry and the memory tools.
use hairpin.Base.{
  inl, List, Option, none, ◌≢◌, Error, insert, ◌≡◌, refl, ◌≤◌, ◌↔◌, ◌⊎◌, true, false, some, [], ◌∷◌,
  text, is_empty, bytes_eq, Result, ok, length, lookup, arith,
}
use hairpin.Job.{queued, Job, valid_id}
use hairpin.Lifecycle.Outcome.{Evolves, rank}
use hairpin.Store.{pending}
use hairpin.Store.Mem.{create_job, new_mem_store}
use hairpin.Store.Mem.Runs.{Call, call, calls, creates, permits}
use hairpin.Store.Mem.Permissions.{put_permission}
use hairpin.Store.Mem.Permissions.Keyed.{reachable-IsKeyed}
use hairpin.Store.Mem.Listing.Pages.{newest}
use hairpin.World.{World}
use hairpin.World.Persist.{Persists-same}
use hairpin.Service.{cancel, answer_permission, launch}
use hairpin.Service.Cancelling.{IsCancelling, cancel-IsCancelling}
use hairpin.Service.Answering.{IsUndelivered, IsAnswered, answer_permission-outcome}
use hairpin.Service.Launching.{launch_settles}
use hairpin.Service.Executor.{validate_executor, validate_run_config}
use hairpin.Service.Executor.Accepted.{
  IsSandbox, IsRunnable, validate_executor_iff, validate_run_config-IsRunnable,
}
use hairpin.Service.Submit.{SubmitParams, Settings, Fresh, submit}
use hairpin.Service.Submit.Accepting.{IsRefused, IsSubmitted, submit-outcome}
use hairpin.Reaper.{Reaper, list_all_jobs, sweep}
use hairpin.Reaper.Listing.{list_all_jobs_complete}
use hairpin.Reaper.Sweeping.{sweep_spares}
use hairpin.Samples.{an_id, a_job, a_store, a_world, an_env, a_config, a_sandbox}
use hairpin.Samples.Jobs.{a_request, a_store-IsValid}

-- The job's harness is connected.
abbrev a_live_world : World
a_live_world = record a_world { registry = (an_id, 5) ∷ [] }

cancel-IsCancelling_example :
    IsCancelling an_env an_id a_live_world (cancel an_env an_id a_live_world)
unfolding valid_id text lookup bytes_eq
cancel-IsCancelling_example =
    cancel-IsCancelling an_env an_id a_live_world a_job refl refl refl refl

-- A store on which the job was created and its harness has asked.
abbrev some_calls : List Call
some_calls = creates a_job ∷ permits an_id (a_request (text "r") pending) ∷ []

abbrev an_asked_world : World
an_asked_world = record a_live_world { store = calls some_calls (new_mem_store 0) }

answer_permission-outcome_example :
    IsUndelivered an_env an_id
      (text "r")
      true
      []
      an_asked_world
      (answer_permission an_env an_id (text "r") true [] an_asked_world)
    ⊎ IsAnswered an_env an_id
        (text "r")
        true
        []
        an_asked_world
        (answer_permission an_env an_id (text "r") true [] an_asked_world)
unfolding text lookup bytes_eq calls call create_job put_permission insert new_mem_store
answer_permission-outcome_example =
    answer_permission-outcome an_env an_id (text "r") true [] an_asked_world a_job refl
      (reachable-IsKeyed 0 some_calls an_id)

-- A launcher that succeeds at once.
abbrev a_launcher : World → Result (Unit {0}) × World
a_launcher w = (ok tt, w)

abbrev no_fault : Option Error
no_fault = none

launch_settles_example :
    (k : Job) × (lookup an_id (launch an_env a_launcher no_fault no_fault an_id a_world).store.jobs
      ≡ some k)
    × ((2 ≤ rank k.status)
        ⊎ (((no_fault ≢ none) × (k.status ≡ queued)) ⊎ ((no_fault ≢ none) × (1 ≤ rank k.status))))
unfolding text lookup bytes_eq
launch_settles_example =
    launch_settles an_env an_id a_launcher no_fault no_fault a_world a_job
      (λ v. Persists-same v.store.jobs v.store.jobs refl) refl refl

validate_executor_iff_example : (validate_executor a_sandbox ≡ ok tt) ↔ IsSandbox a_sandbox
unfolding text
validate_executor_iff_example = validate_executor_iff a_sandbox (inl refl)

validate_run_config-IsRunnable_example : IsRunnable a_config
unfolding validate_run_config text bytes_eq is_empty
validate_run_config-IsRunnable_example = validate_run_config-IsRunnable a_config refl

abbrev some_settings : Settings
some_settings = record {
  profiles = record { templates = (text "d", a_config) ∷ []; default = text "d" };
  executor_defaults = record { image = []; namespace = []; service_account = []; runtime = [] };
  trace_endpoint = [];
  memory_tools = false;
  encode_config = λ cfg. some cfg.run_id;
  has_unprintable = λ s. false;
}

abbrev some_params : SubmitParams
some_params = record { prompt = text "q"; profile = []; run_config_json = []; repo_scope = [] }

abbrev some_fresh : Fresh
some_fresh = record {
  job_id = text "hp-00000000000000000000000002";
  harness_token = text "u";
  trace_parent = [];
}

submit-outcome_example :
    IsRefused an_env some_settings a_world
      (submit an_env some_settings some_fresh some_params a_world)
    ⊎ IsSubmitted an_env some_settings some_fresh
        (submit an_env some_settings some_fresh some_params a_world)
submit-outcome_example = submit-outcome an_env some_settings some_fresh some_params a_world

abbrev a_reaper : Reaper
a_reaper = record { retention = 1; deadline_slack = 0; page_size = 200 }

list_all_jobs_complete_example :
    list_all_jobs 2 a_reaper a_store ≡ some (ok (newest a_store (length a_store.order)))
list_all_jobs_complete_example =
    list_all_jobs_complete a_reaper a_store 2 a_store-IsValid (omega arith) (omega arith)

sweep_spares_example :
    (k : Job) × (lookup an_id (sweep an_env a_reaper 2 a_world).store.jobs ≡ some k)
    × Evolves a_job k
unfolding text lookup bytes_eq
sweep_spares_example =
    sweep_spares an_env a_reaper 2 a_world an_id a_job a_store-IsValid (omega arith) (omega arith)
      refl refl
