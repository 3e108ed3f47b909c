-- ===== src/Redis/Fields.antt =====
-- internal/store/redisstore/jobs.go: a job as the fields of a hash.
pub mod Roundtrip
use hairpin.Base.{
  ℕ, Bool, true, false, Option, none, some, List, [], ◌∷◌, Bytes, text, bytes_eq, is_empty, Assoc,
  lookup, Result, ok, err, external, if◌then◌else◌, ◌>>=◌,
}
use hairpin.Job.{Time, zero_time, is_zero, Job, status_text, status_of_text}
use hairpin.Store.Mem.{entries}
use hairpin.Redis.{Client}

unfoldable pub bool_field : Bool → Bytes
bool_field b = if b then text "1" else text "0"

module _ (c : Client) where
  -- repoScopeField.
  unfoldable pub repo_scope_field : List Bytes → Bytes
  repo_scope_field [] = []
  repo_scope_field (p ∷ ps) = c.encode_scope (p ∷ ps)

  -- A field that is set only if the time is not zero, in front of others.
  unfoldable pub time_field : Bytes → Time → Assoc Bytes → Assoc Bytes
  time_field name t rest = if is_zero t then rest else (name, c.format_time t) ∷ rest

  unfoldable pub job_set_fields : Job → Assoc Bytes
  unfolding time_field repo_scope_field bool_field
  job_set_fields j =
      (text "id", j.id)
      ∷ (text "status", status_text j.status)
      ∷ (text "prompt", j.prompt)
      ∷ (text "profile", j.profile)
      ∷ (text "run_config_json", j.run_config_json)
      ∷ (text "stop_reason", j.stop_reason)
      ∷ (text "error", j.error)
      ∷ (text "final_text", j.final_text)
      ∷ (text "cancel_requested", bool_field j.cancel_requested)
      ∷ (text "harness_token", j.harness_token)
      ∷ (text "trace_parent", j.trace_parent)
      ∷ (text "repo_scope", repo_scope_field j.repo_scope)
      ∷ time_field (text "created_at") j.created_at (
          time_field (text "started_at") j.started_at (
            time_field (text "finished_at") j.finished_at
              (time_field (text "last_event_at") j.last_event_at [])))

-- A name in front of others, if the time is zero.
unfoldable pub clear_field : Bytes → Time → List Bytes → List Bytes
clear_field name t rest = if is_zero t then name ∷ rest else rest

unfoldable pub job_clear_fields : Job → List Bytes
unfolding clear_field
job_clear_fields j = clear_field (text "created_at") j.created_at (
    clear_field (text "started_at") j.started_at (
      clear_field (text "finished_at") j.finished_at
        (clear_field (text "last_event_at") j.last_event_at [])))

-- `fields[name]`: a missing field reads as the empty string.
abbrev pub field : Assoc Bytes → Bytes → Bytes
field fs name = entries (lookup name fs)

module _ (c : Client) where
  abbrev pub parsed_time : Option Time → Result Time
  parsed_time none = err (external (text "field is not a time"))
  parsed_time (some t) = ok t

  -- parseTimeField.
  unfoldable pub parse_time_field : Bytes → Result Time
  parse_time_field v = if is_empty v then ok zero_time else parsed_time (c.parse_time v)

  abbrev pub parsed_scope : Option (List Bytes) → Result (List Bytes)
  parsed_scope none = err (external (text "field repo_scope"))
  parsed_scope (some ps) = ok ps

  unfoldable pub parse_scope_field : Bytes → Result (List Bytes)
  parse_scope_field v = if is_empty v then ok [] else parsed_scope (c.decode_scope v)

  -- jobFromFields. The source reads the time fields in no particular order.
  unfoldable pub job_from_fields : Assoc Bytes → Result Job
  unfolding parse_scope_field parse_time_field
  job_from_fields fs = do
    scope ← parse_scope_field (field fs (text "repo_scope"))
    created ← parse_time_field (field fs (text "created_at"))
    started ← parse_time_field (field fs (text "started_at"))
    finished ← parse_time_field (field fs (text "finished_at"))
    seen ← parse_time_field (field fs (text "last_event_at"))
    ok (record {
      id = field fs (text "id");
      status = status_of_text (field fs (text "status"));
      prompt = field fs (text "prompt");
      profile = field fs (text "profile");
      run_config_json = field fs (text "run_config_json");
      stop_reason = field fs (text "stop_reason");
      error = field fs (text "error");
      final_text = field fs (text "final_text");
      created_at = created;
      started_at = started;
      finished_at = finished;
      last_event_at = seen;
      cancel_requested = bytes_eq (field fs (text "cancel_requested")) (text "1");
      trace_parent = field fs (text "trace_parent");
      harness_token = field fs (text "harness_token");
      repo_scope = scope;
    })

-- The writes of one update: HSET, and HDEL if there is a field to remove.
unfoldable pub write_job : (c : Client) → Bytes → Job → c.Server → c.Server
unfolding job_set_fields job_clear_fields
write_job c key j s = elim (job_clear_fields j) [
  | [] ↦ c.hset key (job_set_fields c j) s
  | name ∷ names ↦ c.hdel key (name ∷ names) (c.hset key (job_set_fields c j) s)
]
