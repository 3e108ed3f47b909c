-- ===== src/Samples/Fronts.antt =====
-- Concrete uses of the theorems on watches, the launcher, the configuration, tokens, the API and the pages.
use hairpin.Base.{
  ℕ, ◌+◌, ◌*◌, ◌≤◌, ◌≡◌, refl, inr, true, false, Option, some, List, [], ◌∷◌, ◌++◌, map, arith,
  Bytes, text, bytes_eq, is_empty, lookup, ok, err, drop, ◌↔◌, external, if◌then◌else◌,
}
use hairpin.Job.{
  Status, valid_id, parse_session, accepts_token, terminal, status_text, queued, launching,
  awaiting_harness, running, succeeded, failed, cancelled, other, second,
}
use hairpin.Store.{Event}
use hairpin.Store.StreamId.{stream_id_less, scan_id}
use hairpin.Store.Mem.{MemStore, Watcher}
use hairpin.Store.Mem.Timeline.{stamped, offer}
use hairpin.Store.Mem.Timeline.Watching.{Turn, appends, takes, turns}
use hairpin.World.{Env, status_event, status_payload, status_change}
use hairpin.Reaper.{Reaper, awaiting_harness_deadline, awaiting_harness_margin}
use hairpin.Controlplane.{EventPump, new_pump}
use hairpin.Controlplane.Answer.{handle_sandbox_token_request}
use hairpin.Service.Watch.{replay, forward, is_terminal_status_event}
use hairpin.Service.Watch.Replay.{replay_lem}
use hairpin.Service.Watch.Live.{forward-turns}
use hairpin.Launcher.{
  HarnessConfig, k8s_job, active_deadline_seconds, run_config_timeout_seconds,
  control_plane_session_id, control_plane_addr,
}
use hairpin.Launcher.Workload.{OwnLabels, k8s_job_identity, active_deadline_bounds}
use hairpin.Config.{Config, NetLibrary, at_least_zero, below_zero, validate, with_sandbox_namespace}
use hairpin.Config.Valid.{IsServable, validate_iff}
use hairpin.TokenIssuer.{Key, Issuer, new_issuer}
use hairpin.TokenIssuer.Claims.{issuing, Answers, SentOne, handle_sandbox_token_request-SentOne}
use hairpin.Web.Sse.Reader.{lines, has_null, read}
use hairpin.Web.Sse.Lines.{message}
use hairpin.Web.Sse.Frames.{written, read-written}
use hairpin.Api.{get_job, list_jobs}
use hairpin.Api.Replies.{with_tokens, read_replies-with_tokens}
use hairpin.Samples.{an_id, a_job, a_store, a_world, an_env, a_handler, an_event}

-- A finished job's timeline.
abbrev an_output : Event
an_output = record {
  id = text "1-1";
  kind = text "text_delta";
  payload_json = text "{\"text\":\"a\"}";
  at = 1;
}

abbrev a_timeline : List Event
a_timeline =
    an_output ∷ record an_output { id = text "1-2" } ∷ record an_output { id = text "1-3" } ∷ []

abbrev a_finished_store : MemStore
a_finished_store = record a_store { events = (an_id, a_timeline) ∷ [] }

replay_lem_example :
    replay 2 (λ n. a_finished_store) 0 an_id (text "1-1")
    ≡ some (record an_output { id = text "1-2" } ∷ record an_output { id = text "1-3" } ∷ [])
unfolding lookup bytes_eq text stream_id_less scan_id
replay_lem_example =
    replay_lem (λ n. a_finished_store) an_id a_timeline (λ n. (a_job, refl)) (λ n. refl)
      ((λ e. cc), ((λ e. cc), ((λ e. cc), tt))) ((refl, (refl, tt)), ((refl, tt), (tt, tt))) 2 0
      (text "1-1")
      (record an_output { id = text "1-2" } ∷ record an_output { id = text "1-3" } ∷ [])
      (inr ([], an_output, refl, refl)) (omega arith)

-- The text between the first quotes behind `{"status":`.
abbrev until_quote : Bytes → Bytes
until_quote [] = []
until_quote (c ∷ cs) = elim (bytes_eq (c ∷ []) (b'"' ∷ [])) [
  | true ↦ []
  | false ↦ c ∷ until_quote cs
]

abbrev status_field : Bytes → Option Bytes
status_field json = some (until_quote (drop 11 json))

status_field-status_payload :
    (s : Status) (error : Bytes)
    → terminal s ≡ true
    → status_field (status_payload s error) ≡ some (status_text s)
unfolding status_payload status_text text bytes_eq
status_field-status_payload succeeded error h = refl
status_field-status_payload failed error h = refl
status_field-status_payload cancelled error h = refl
status_field-status_payload queued error h = cc
status_field-status_payload launching error h = cc
status_field-status_payload awaiting_harness error h = cc
status_field-status_payload running error h = cc
status_field-status_payload (other t) error h = cc

abbrev a_watcher : Watcher
a_watcher = record { ident = 0; buffer = an_output ∷ [] }

abbrev watched_turns : List Turn
watched_turns =
    takes
    ∷ appends (stamped 2000001 2 (status_event succeeded [] 2))
    ∷ takes
    ∷ appends an_output
    ∷ takes
    ∷ []

forward-turns_example :
    forward status_field (turns 10 watched_turns ([], a_watcher)).0
    ≡ an_output ∷ stamped 2000001 2 (status_event succeeded [] 2) ∷ []
unfolding turns is_terminal_status_event bytes_eq text status_change offer
forward-turns_example =
    forward-turns status_field status_field-status_payload 10 watched_turns a_watcher
      (an_output ∷ []) (an_output ∷ []) 2000001 2 2 succeeded [] (omega arith) refl refl (refl, tt)
      refl

abbrev a_harness : HarnessConfig
a_harness = record {
  namespace = text "n";
  image = text "i";
  service_account = [];
  env_from_secrets = text "s" ∷ [];
  ttl_seconds_after_finished = 3600;
  active_deadline_slack = 600 * second;
  labels = (text "app.kubernetes.io/name", text "x") ∷ (text "team", text "y") ∷ [];
}

k8s_job_identity_example :
    let w = k8s_job an_env a_harness (text "a:1") a_job in
    (s : Bytes) × (lookup control_plane_session_id w.env ≡ some s)
    × (parse_session s ≡ (a_job.id, a_job.harness_token))
    × (accepts_token a_job (parse_session s).1 ≡ true)
    × (lookup control_plane_addr w.env ≡ some (text "a:1"))
    × OwnLabels a_harness a_job.id (text "team") w.labels
    × OwnLabels a_harness a_job.id (text "team") w.pod_labels
unfolding valid_id text
k8s_job_identity_example = k8s_job_identity an_env a_harness (text "a:1") a_job (text "team") refl

-- A decoder that refuses an empty configuration.
abbrev a_strict_env : Env
a_strict_env = record an_env {
  decode_config =
      λ json. if is_empty json then err (external (text "empty")) else an_env.decode_config json;
}

abbrev a_reaper : Reaper
a_reaper = record { retention = 0; deadline_slack = 600 * second; page_size = 100 }

active_deadline_bounds_example :
    (active_deadline_seconds a_strict_env a_harness a_job * second
      ≤ awaiting_harness_deadline a_strict_env a_reaper a_job.run_config_json)
    × (awaiting_harness_deadline a_strict_env a_reaper a_job.run_config_json
        ≤ active_deadline_seconds a_strict_env a_harness a_job * second
          + awaiting_harness_margin
          + second)
    × ((t : ℕ)
        → run_config_timeout_seconds a_strict_env a_job.run_config_json ≡ ok t
        → active_deadline_seconds a_strict_env a_harness a_job * second + awaiting_harness_margin
          ≤ awaiting_harness_deadline a_strict_env a_reaper a_job.run_config_json)
unfolding is_empty
active_deadline_bounds_example =
    active_deadline_bounds a_strict_env a_harness a_reaper a_job (external (text "empty")) refl refl

abbrev a_library : NetLibrary
a_library = record { split_host_port = λ a. some (a, text "1"); atoi = λ p. some 1 }

abbrev a_server_config : Config
a_server_config = record {
  listen_addr = text ":1";
  advertise_addr = text "h:1";
  redis_db = at_least_zero 0;
  billet_addr = text "b:1";
  launcher = text "kubernetes";
  harness_namespace = text "n";
  harness_image = text "i";
  ttl_seconds_after_finished = at_least_zero 3600;
  active_deadline_slack = at_least_zero 600;
  sandbox = record {
    image = text "i";
    namespace = [];
    service_account = [];
    runtime = text "gvisor";
  };
  telemetry = record {
    exporter = text "none";
    protocol = [];
    ratio_below_zero = false;
    ratio_above_one = false;
    metric_interval = at_least_zero 0;
  };
  harness_telemetry_endpoint = [];
  sandbox_token = record { key_path = []; issuer = []; audience = []; ttl = below_zero };
}

validate_iff_example :
    (validate a_library a_server_config ≡ ok (with_sandbox_namespace a_library a_server_config))
    ↔ IsServable a_library a_server_config
validate_iff_example = validate_iff a_library a_server_config

-- It passes.
validate_passes :
    validate a_library a_server_config ≡ ok (with_sandbox_namespace a_library a_server_config)
unfolding validate text is_empty bytes_eq
validate_passes = refl

abbrev a_key : Key
a_key = record {
  is_p256 = true;
  key_id = some (text "k");
  jwks_document = some (text "d");
  sign = λ t. some (t.sub ++ t.aud);
}

abbrev an_issuer : Issuer
an_issuer = record {
  priv = a_key;
  kid = text "k";
  jwks = text "d";
  issuer = text "h";
  audience = text "v";
  ttl = 900 * second;
}

abbrev a_token_pump : EventPump
unfolding new_pump
a_token_pump = new_pump 1 an_id 7 (text "r" ∷ []) [] true

abbrev a_token_env : Env
a_token_env = issuing an_issuer (λ n. n) (λ n. some (text "j")) an_env

handle_sandbox_token_request-SentOne_example :
    SentOne
      (Answers a_key (text "h") (text "v") a_token_pump)
      a_token_pump
      a_world
      (handle_sandbox_token_request a_token_env
        (record a_handler { issuer = some (text "v") })
        (record an_event { audience = text "x" })
        a_token_pump
        a_world).1
unfolding new_issuer is_empty text
handle_sandbox_token_request-SentOne_example =
    handle_sandbox_token_request-SentOne an_env a_key (text "h") (text "v") (900 * second) an_issuer
      (λ n. n) (λ n. some (text "j")) refl (record a_handler { issuer = some (text "v") })
      (record an_event { audience = text "x" }) a_token_pump a_world

-- The second event's type would begin a frame of its own.
abbrev some_events : List Event
some_events = an_output ∷ record an_output { id = text "1-2"; kind = text "x\n\nevent: done" } ∷ []

read-written_example :
    read (record { id = []; kind = []; buffer = [] }) (lines false [] (written some_events))
    ≡ map message some_events
unfolding text has_null
read-written_example =
    read-written some_events []
      ((omega arith, refl, omega arith), ((omega arith, refl, omega arith), tt))

abbrev other_tokens : Bytes → Bytes
other_tokens id = text "u"

read_replies-with_tokens_example :
    (get_job an_id (with_tokens other_tokens a_world) ≡ get_job an_id a_world)
    × (list_jobs 0 [] (with_tokens other_tokens a_world) ≡ list_jobs 0 [] a_world)
read_replies-with_tokens_example = read_replies-with_tokens other_tokens an_id 0 [] a_world
