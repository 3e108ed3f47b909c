-- ===== src/Controlplane.antt =====
-- internal/controlplane: the handler's settings, and the state of the event pump of one harness stream
-- (controlplane.go, pump.go). The children model the handling of events and of whole streams.
pub mod Settle
pub mod Answer
pub mod Pump
pub mod Stream
pub mod Quiet
pub mod Progress
pub mod Ending
pub mod Outcome
pub mod Handshake
pub mod Bounds
use hairpin.Base.{ℕ, ◌*◌, ◌/◌, Bool, Option, none, List, [], Bytes, text}
use hairpin.Job.{Time, max_final_text_bytes, second}
use hairpin.Registry.{Session}

-- Handler, less the shared parts that the world holds: whether a memory backend is configured, and the
-- audience of the token issuer, if there is one.
pub record Handler : Type 0 where
  pub last_event_flush : ℕ
  pub delta_flush_every : ℕ
  pub delta_flush_bytes : ℕ
  pub max_final_text : ℕ
  pub max_in_flight : ℕ
  pub max_memory_calls : ℕ
  pub memory : Bool
  pub issuer : Option Bytes

-- New, with its defaults; what the options set is given.
unfoldable pub new_handler : Bool → Option Bytes → Handler
new_handler memory issuer = record {
  last_event_flush = 10 * second;
  delta_flush_every = second / 2;
  delta_flush_bytes = 4096;
  max_final_text = max_final_text_bytes;
  max_in_flight = 4;
  max_memory_calls = 1000;
  memory = memory;
  issuer = issuer;
}

abbrev pub max_sandbox_token_requests : ℕ
max_sandbox_token_requests = 8

abbrev pub max_request_id_bytes : ℕ
max_request_id_bytes = 128

abbrev pub max_permission_requests : ℕ
max_permission_requests = 1000

-- A memory call that runs on a goroutine of its own: its request, tool and input.
pub record MemoryCall : Type 0 where
  pub request_id : Bytes
  pub tool : Bytes
  pub input : Bytes

-- eventPump. `memory_in_flight` is the number of taken slots; `running_calls` are the goroutines.
pub record EventPump : Type 0 where
  pub job_id : Bytes
  pub session : Session
  pub started_at : Time
  pub final_text : Bytes
  pub err_message : Bytes
  pub deltas : Bytes
  pub deltas_from : Time
  pub last_event_at : Time
  pub last_event_flush : Time
  pub permissions_seen : ℕ
  pub repo_scope : List Bytes
  pub sandbox_identity_declared : Bool
  pub sandbox_tokens : ℕ
  pub declared_tools : List Bytes
  pub memory_in_flight : ℕ
  pub memory_requests : List Bytes
  pub memory_calls : ℕ
  pub running_calls : List MemoryCall

-- pump: the state at the assignment.
unfoldable pub new_pump : Time → Bytes → Session → List Bytes → List Bytes → Bool → EventPump
new_pump now job_id session tools scope identity = record {
  job_id = job_id;
  session = session;
  started_at = now;
  final_text = [];
  err_message = [];
  deltas = [];
  deltas_from = 0;
  last_event_at = now;
  last_event_flush = now;
  permissions_seen = 0;
  repo_scope = scope;
  sandbox_identity_declared = identity;
  sandbox_tokens = 0;
  declared_tools = tools;
  memory_in_flight = 0;
  memory_requests = [];
  memory_calls = 0;
  running_calls = [];
}
