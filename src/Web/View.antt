-- ===== src/Web/View.antt =====
-- internal/web/view.go: what the templates are given of a job. Times are printed by a parameter, and so is the age of the last event;
-- a text is cut by its runes, which a parameter finds.
use hairpin.Base.{ℕ, Bool, List, [], ◌∷◌, ◌++◌, map, Bytes, text, leb, length, take, if◌then◌else◌}
use hairpin.Job.{
  Time, is_zero, Job, Status, running, succeeded, failed, cancelled, status_text, status_of_text,
  terminal,
}
use hairpin.Store.{PermissionRequest, PermissionState}

abbrev pub prompt_truncate_len : ℕ
prompt_truncate_len = 140

-- statusClass.
abbrev pub class_of : Status → Bytes
class_of running = text "running"
class_of succeeded = text "succeeded"
class_of failed = text "failed"
class_of cancelled = text "cancelled"
class_of _ = text "pending"

unfoldable pub status_class : Bytes → Bytes
unfolding status_of_text
status_class s = class_of (status_of_text s)

-- The runes of a text, and how a time and an age are printed.
pub record Printing : Type 0 where
  pub runes : Bytes → List Bytes
  pub print_time : Time → Bytes
  pub print_age : Time → Bytes

abbrev pub joined_runes : List Bytes → Bytes
joined_runes [] = []
joined_runes (r ∷ rs) = r ++ joined_runes rs

-- The ellipsis in UTF-8.
abbrev pub ellipsis : Bytes
ellipsis = 226 ∷ 128 ∷ 166 ∷ []

module _ (p : Printing) where
  unfoldable pub truncate : Bytes → ℕ → Bytes
  truncate s n =
      if leb (length (p.runes s)) n then s else joined_runes (take n (p.runes s)) ++ ellipsis

  unfoldable pub format_time : Time → Bytes
  format_time t = if is_zero t then [] else p.print_time t

  unfoldable pub format_age : Time → Bytes
  format_age t = if is_zero t then [] else p.print_age t

pub record JobRow : Type 0 where
  pub id : Bytes
  pub status : Bytes
  pub prompt : Bytes
  pub created_at : Bytes
  pub finished_at : Bytes
  pub stop_reason : Bytes

pub record JobDetail : Type 0 where
  pub id : Bytes
  pub status : Bytes
  pub is_terminal : Bool
  pub prompt : Bytes
  pub profile : Bytes
  pub final_text : Bytes
  pub stop_reason : Bytes
  pub error : Bytes
  pub created_at : Bytes
  pub started_at : Bytes
  pub finished_at : Bytes
  pub last_event_age : Bytes

pub record PermissionRow : Type 0 where
  pub request_id : Bytes
  pub tool_name : Bytes
  pub input_json : Bytes
  pub state : PermissionState
  pub reason : Bytes
  pub requested_at : Bytes
  pub answered_at : Bytes

module _ (p : Printing) where
  unfoldable pub new_job_row : Job → JobRow
  unfolding truncate format_time
  new_job_row j = record {
    id = j.id;
    status = status_text j.status;
    prompt = truncate p j.prompt prompt_truncate_len;
    created_at = format_time p j.created_at;
    finished_at = format_time p j.finished_at;
    stop_reason = j.stop_reason;
  }

  unfoldable pub new_job_detail : Job → JobDetail
  unfolding format_time format_age
  new_job_detail j = record {
    id = j.id;
    status = status_text j.status;
    is_terminal = terminal j.status;
    prompt = j.prompt;
    profile = j.profile;
    final_text = j.final_text;
    stop_reason = j.stop_reason;
    error = j.error;
    created_at = format_time p j.created_at;
    started_at = format_time p j.started_at;
    finished_at = format_time p j.finished_at;
    last_event_age = format_age p j.last_event_at;
  }

  unfoldable pub new_permission_row : PermissionRequest → PermissionRow
  unfolding format_time
  new_permission_row r = record {
    request_id = r.request_id;
    tool_name = r.tool_name;
    input_json = r.input_json;
    state = r.state;
    reason = r.reason;
    requested_at = format_time p r.requested_at;
    answered_at = format_time p r.answered_at;
  }

  unfoldable pub new_permission_rows : List PermissionRequest → List PermissionRow
  unfolding new_permission_row
  new_permission_rows rs = map (new_permission_row) rs
