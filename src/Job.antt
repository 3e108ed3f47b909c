-- ===== src/Job.antt =====
-- internal/job/job.go: the record of one submitted task, its statuses, the session string.
-- A time is its distance in nanoseconds from Go's zero time, so `IsZero` is the test with 0.
pub mod Session
use hairpin.Base.{
  ℕ, ◌*◌, ◌+◌, ◌-◌, ◌^◌, min, Bool, true, false, ◌&&◌, ◌||◌, List, [], ◌∷◌, ◌++◌, Bytes, text,
  bytes_eq, is_empty, leb, length, ◌==◌, if◌then◌else◌,
}

abbrev pub Time : Type 0
Time = ℕ

abbrev pub zero_time : Time
zero_time = 0

abbrev pub is_zero : Time → Bool
is_zero t = t == zero_time

-- `t.Sub(u)`: a duration, cut off at the largest int64. A negative one is 0 here; the code only
-- compares durations with bounds that are not negative.
abbrev pub max_duration : ℕ
max_duration = 9223372036854775807

abbrev pub time_sub : Time → Time → ℕ
time_sub t u = min (t - u) max_duration

abbrev pub second : ℕ
second = 1000000000

-- `type Status string`: the seven constants, and any other text, which a stored record may hold.
pub data Status : Type 0 where
  queued launching awaiting_harness running succeeded failed cancelled : Status
  other : Bytes → Status

unfoldable pub status_text : Status → Bytes
status_text queued = text "queued"
status_text launching = text "launching"
status_text awaiting_harness = text "awaiting_harness"
status_text running = text "running"
status_text succeeded = text "succeeded"
status_text failed = text "failed"
status_text cancelled = text "cancelled"
status_text (other s) = s

-- `job.Status(s)`: the constant that a text spells.
unfoldable pub status_of_text : Bytes → Status
status_of_text s =
    if bytes_eq s (text "queued")
    then queued
    else if bytes_eq s (text "launching")
    then launching
    else if bytes_eq s (text "awaiting_harness")
    then awaiting_harness
    else if bytes_eq s (text "running")
    then running
    else if bytes_eq s (text "succeeded")
    then succeeded
    else if bytes_eq s (text "failed")
    then failed
    else if bytes_eq s (text "cancelled")
    then cancelled
    else other s

-- `==` on statuses.
abbrev pub same_status : Status → Status → Bool
same_status queued queued = true
same_status launching launching = true
same_status awaiting_harness awaiting_harness = true
same_status running running = true
same_status succeeded succeeded = true
same_status failed failed = true
same_status cancelled cancelled = true
same_status (other a) (other b) = bytes_eq a b
same_status _ _ = false

abbrev pub terminal : Status → Bool
terminal succeeded = true
terminal failed = true
terminal cancelled = true
terminal _ = false

pub record Job : Type 0 where
  pub id : Bytes
  pub status : Status
  pub prompt : Bytes
  pub profile : Bytes
  pub run_config_json : Bytes
  pub stop_reason : Bytes
  pub error : Bytes
  pub final_text : Bytes
  pub created_at : Time
  pub started_at : Time
  pub finished_at : Time
  pub last_event_at : Time
  pub cancel_requested : Bool
  pub trace_parent : Bytes
  pub harness_token : Bytes
  pub repo_scope : List Bytes

abbrev pub max_final_text_bytes : ℕ
max_final_text_bytes = 131072

abbrev lower_alnum : ℕ → Bool
lower_alnum c = (leb b'0' c && leb c b'9') || (leb b'a' c && leb c b'z')

all_alnum : Bytes → Bool
all_alnum [] = true
all_alnum (c ∷ cs) = lower_alnum c && all_alnum cs

-- `^hp-[0-9a-z]{26}$`
unfoldable pub valid_id : Bytes → Bool
unfolding all_alnum text
valid_id (h ∷ p ∷ d ∷ rest) =
    h == b'h' && p == b'p' && d == b'-' && length rest == 26 && all_alnum rest
valid_id _ = false

-- `strings.Cut(s, ".")`: what stands before the first dot, and what stands after it.
abbrev consed : ℕ → Bytes × Bytes → Bytes × Bytes
consed c (before, after) = (c ∷ before, after)

unfoldable pub parse_session : Bytes → Bytes × Bytes
parse_session [] = ([], [])
parse_session (c ∷ cs) =
    let rest = consed c (parse_session cs) in if c == b'.' then ([], cs) else rest

unfoldable pub session_string : Job → Bytes
session_string j = if is_empty j.harness_token then j.id else j.id ++ b'.' ∷ j.harness_token

-- The comparison takes constant time in the source; its value is that of `==`.
unfoldable pub accepts_token : Job → Bytes → Bool
accepts_token j token = bytes_eq j.harness_token token

unfoldable pub status_for_stop_reason : Bytes → Status
status_for_stop_reason r =
    if bytes_eq r (text "success")
    then succeeded
    else if bytes_eq r (text "cancelled")
    then cancelled
    else failed
