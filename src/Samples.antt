-- ===== src/Samples.antt =====
-- The concrete jobs, worlds and requests on which the theorems are tried.
pub mod Jobs
pub mod Streams
pub mod Answers
pub mod Callers
pub mod Redis
pub mod Feed
pub mod Fronts
use hairpin.Base.{
  ℕ, ◌+◌, Bool, true, false, Option, none, some, List, [], ◌∷◌, Bytes, text, Result, ok, err,
  external,
}
use hairpin.Job.{Time, Job, queued, awaiting_harness}
use hairpin.Proto.{HarnessEvent, RunConfig, ExecutorConfig, NetworkConfig}
use hairpin.Store.Mem.{MemStore}
use hairpin.World.{Env, World}
use hairpin.Controlplane.{Handler}

abbrev pub an_id : Bytes
an_id = text "hp-00000000000000000000000001"

abbrev pub a_token : Bytes
a_token = text "t"

abbrev pub a_job : Job
a_job = record {
  id = an_id;
  status = queued;
  prompt = text "p";
  profile = [];
  run_config_json = text "c";
  stop_reason = [];
  error = [];
  final_text = [];
  created_at = 1;
  started_at = 0;
  finished_at = 0;
  last_event_at = 0;
  cancel_requested = false;
  trace_parent = [];
  harness_token = a_token;
  repo_scope = [];
}

abbrev pub a_store : MemStore
a_store = record {
  jobs = (an_id, a_job) ∷ [];
  order = an_id ∷ [];
  events = [];
  perms = [];
  watchers = [];
  seq = 0;
  max_len = 10;
  next_ident = 0;
}

abbrev pub a_sandbox : ExecutorConfig
a_sandbox = record {
  kind = text "k8s";
  image = text "i";
  workspace = [];
  runtime = text "gvisor";
  k8s_namespace = text "n";
  k8s_service_account = [];
  k8s_egress_proxy_url = [];
  network = some (record { mode = text "none" });
  sandbox_identity = false;
}

abbrev pub a_config : RunConfig
a_config = record {
  run_id = [];
  prompt = text "p";
  mode = text "execution";
  provider_type = text "a";
  providers = 0;
  max_turns = 10;
  timeout = some 60;
  executor = some a_sandbox;
  control_plane_tools = [];
  trace_emitter = none;
}

-- A server whose sends succeed, whose clock ticks at each reading, and which decodes one configuration.
abbrev pub an_env : Env
an_env = record {
  now = λ n. 1 + n;
  send_error = λ n. none;
  encode_event = λ ev. some ev.text;
  encode_control = λ ev. some ev.kind;
  decode_config = λ json. ok a_config;
  decode_known_config = λ json. ok a_config;
  quote = λ s. s;
  mint = λ n s ss. none;
}

abbrev pub a_world : World
a_world = record {
  store = a_store;
  registry = [];
  closed = [];
  sent = [];
  completed = [];
  reads = 0;
  sends = 0;
  mints = 0;
}

abbrev pub a_handler : Handler
a_handler = record {
  last_event_flush = 5;
  delta_flush_every = 5;
  delta_flush_bytes = 4;
  max_final_text = 4;
  max_in_flight = 1;
  max_memory_calls = 2;
  memory = false;
  issuer = none;
}

abbrev pub an_event : HarnessEvent
an_event = record {
  kind = text "text_delta";
  id = [];
  text = text "hello";
  request_id = [];
  tool_name = [];
  input = [];
  message = [];
  stop_reason = [];
  audience = [];
}
