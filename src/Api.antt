-- ===== src/Api.antt =====
-- internal/api/api.go and convert.go: the JobService. A reply is a message or an error code; the message of an error is not
-- modelled, and neither is the wire. An index out of range panics in the store, and the call then has no reply.
pub mod Replies
use hairpin.Base.{
  ℕ, suc, Bool, true, false, Option, none, some, List, [], ◌∷◌, map, Bytes, Result, ok, err, Error,
  not_found, invalid_argument, not_connected, index_out_of_range, ltb, ◌==◌, if◌then◌else◌,
}
use hairpin.Job.{
  Time, is_zero, Job, Status, queued, launching, awaiting_harness, running, succeeded, failed,
  cancelled, session_string,
}
use hairpin.Store.{Event, PermissionRequest, PermissionState}
use hairpin.Store.Mem.{MemStore}
use hairpin.Store.Mem.Listing
use hairpin.World.{World, Env}
use hairpin.Service
use hairpin.Service.{get, cancel, list_permissions_of}
use hairpin.Service.Submit.{Settings, Fresh, SubmitParams, submit}

-- The connect codes that the API uses.
pub data Code : Type 0 where
  code_not_found code_invalid_argument code_failed_precondition code_internal : Code

pub data Reply {ℓ} (A : Type ℓ) : Type ℓ where
  reply : A → Reply A
  refused : Code → Reply A
  panicked : Reply A

-- connectError.
unfoldable pub connect_error : Error → Code
connect_error not_found = code_not_found
connect_error invalid_argument = code_invalid_argument
connect_error not_connected = code_failed_precondition
connect_error _ = code_internal

pub data JobStatus : Type 0 where
  status_unspecified status_queued status_launching status_awaiting_harness : JobStatus
  status_running status_succeeded status_failed status_cancelled : JobStatus

unfoldable pub status_to_proto : Status → JobStatus
status_to_proto queued = status_queued
status_to_proto launching = status_launching
status_to_proto awaiting_harness = status_awaiting_harness
status_to_proto running = status_running
status_to_proto succeeded = status_succeeded
status_to_proto failed = status_failed
status_to_proto cancelled = status_cancelled
status_to_proto _ = status_unspecified

unfoldable pub timestamp_or_nil : Time → Option Time
timestamp_or_nil t = if is_zero t then none else some t

pub record ProtoJob : Type 0 where
  pub id : Bytes
  pub status : JobStatus
  pub prompt : Bytes
  pub profile : Bytes
  pub stop_reason : Bytes
  pub error : Bytes
  pub final_text : Bytes
  pub created_at : Option Time
  pub started_at : Option Time
  pub finished_at : Option Time
  pub last_event_at : Option Time

unfoldable pub job_to_proto : Job → ProtoJob
unfolding status_to_proto timestamp_or_nil
job_to_proto j = record {
  id = j.id;
  status = status_to_proto j.status;
  prompt = j.prompt;
  profile = j.profile;
  stop_reason = j.stop_reason;
  error = j.error;
  final_text = j.final_text;
  created_at = timestamp_or_nil j.created_at;
  started_at = timestamp_or_nil j.started_at;
  finished_at = timestamp_or_nil j.finished_at;
  last_event_at = timestamp_or_nil j.last_event_at;
}

pub record ProtoPermission : Type 0 where
  pub request_id : Bytes
  pub tool_name : Bytes
  pub input_json : Bytes
  pub state : PermissionState
  pub reason : Bytes
  pub requested_at : Option Time
  pub answered_at : Option Time

unfoldable pub permission_to_proto : PermissionRequest → ProtoPermission
unfolding timestamp_or_nil
permission_to_proto p = record {
  request_id = p.request_id;
  tool_name = p.tool_name;
  input_json = p.input_json;
  state = p.state;
  reason = p.reason;
  requested_at = timestamp_or_nil p.requested_at;
  answered_at = timestamp_or_nil p.answered_at;
}

pub record ProtoEvent : Type 0 where
  pub id : Bytes
  pub kind : Bytes
  pub payload_json : Bytes
  pub at : Option Time

unfoldable pub event_to_proto : Event → ProtoEvent
unfolding timestamp_or_nil
event_to_proto e = record {
  id = e.id;
  kind = e.kind;
  payload_json = e.payload_json;
  at = timestamp_or_nil e.at;
}

abbrev pub default_list_limit : ℕ
default_list_limit = 50

abbrev pub max_list_limit : ℕ
max_list_limit = 100

-- A limit that is not positive is given as 0.
unfoldable pub page_limit : ℕ → ℕ
page_limit limit =
    let asked = if limit == 0 then default_list_limit else limit in
    if ltb max_list_limit asked then max_list_limit else asked

unfoldable pub failure : {A : Type 0} → Error → Reply A
unfolding connect_error
failure index_out_of_range = panicked
failure e = refused (connect_error e)

module _ {A : Type 0} {B : Type 0} where
  abbrev pub answered : (A → B) → Result A → Reply B
  answered f (err e) = failure e
  answered f (ok a) = reply (f a)

  abbrev pub answered_with : (A → B) → Result A × World → Reply B × World
  answered_with f (r, w) = (answered f r, w)

abbrev pub submitted : Job → ProtoJob × Bytes
submitted j = (job_to_proto j, session_string j)

abbrev pub listed : List Job × Bytes → List ProtoJob × Bytes
listed (jobs, next) = (map job_to_proto jobs, next)

module _ (env : Env) (s : Settings) where
  -- SubmitJob: the one reply that has the session string.
  unfoldable pub submit_job : Fresh → SubmitParams → World → Reply (ProtoJob × Bytes) × World
  unfolding failure job_to_proto submit
  submit_job f p w = answered_with submitted (submit env s f p w)

  -- CancelJob.
  unfoldable pub cancel_job : Bytes → World → Reply ProtoJob × World
  unfolding failure job_to_proto cancel
  cancel_job id w = answered_with job_to_proto (cancel env id w)

  unfoldable pub answer_permission :
      Bytes → Bytes → Bool → Bytes → World → Reply ProtoPermission × World
  unfolding failure permission_to_proto
  answer_permission id request_id allow reason w =
      answered_with permission_to_proto (Service.answer_permission env id request_id allow reason w)

unfoldable pub get_job : Bytes → World → Reply ProtoJob
unfolding failure job_to_proto get
get_job id w = answered job_to_proto (get id w)

unfoldable pub list_jobs : ℕ → Bytes → World → Reply (List ProtoJob × Bytes)
unfolding failure job_to_proto page_limit
list_jobs limit token w = answered listed (Listing.list_jobs (page_limit limit) token w.store)

unfoldable pub list_permission_requests : Bytes → World → Reply (List ProtoPermission)
unfolding failure permission_to_proto list_permissions_of
list_permission_requests id w = answered (map permission_to_proto) (list_permissions_of id w)

-- WatchJob: each event that the watch delivers is sent, until a send fails; `sends n` says whether the n-th does.
unfoldable pub send_events : (ℕ → Bool) → ℕ → List Event → List ProtoEvent
unfolding event_to_proto
send_events sends n [] = []
send_events sends n (e ∷ es) =
    let rest = send_events sends (suc n) es in if sends n then event_to_proto e ∷ rest else []
