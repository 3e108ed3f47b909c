-- ===== src/Redis/Fields/Roundtrip.antt =====
-- internal/store/redisstore/jobs.go: a job that is written over any earlier hash is read back.
use hairpin.Base.{
  ◌≡◌, refl, ◌∙◌, inl, inr, Bool, true, false, ◌||◌, ◌&&◌, none, some, List, [], ◌∷◌, Bytes, text,
  bytes_eq, is_empty, Assoc, lookup, ok, arith, if◌then◌else◌, Bool-cases, bytes_eq_refl,
}
use hairpin.Job.{Time, is_zero, Job, status_text, status_of_text}
use hairpin.Store.Mem.{entries}
use hairpin.Store.Mem.Valid.{contains}
use hairpin.Redis.{Client, Laws, has_fields}
use hairpin.Redis.Keys.{has_fields-some}
use hairpin.Redis.Fields.{
  bool_field, repo_scope_field, time_field, job_set_fields, clear_field, job_clear_fields, field,
  parse_time_field, parse_scope_field, job_from_fields, write_job,
}

module _ (c : Client) (l : Laws c) where
  lookup-time_field :
      (f name : Bytes) (t : Time) (rest : Assoc Bytes)
      → lookup f (time_field c name t rest) ≡ (
          if is_zero t
          then lookup f rest
          else if bytes_eq name f
          then some (c.format_time t)
          else lookup f rest)
  unfolding time_field lookup
  lookup-time_field f name t rest = ground arith

  contains-clear_field :
      (f name : Bytes) (t : Time) (rest : List Bytes)
      → contains f (clear_field name t rest)
        ≡ (if is_zero t then (bytes_eq name f || contains f rest) else contains f rest)
  unfolding clear_field contains
  contains-clear_field f name t rest = ground arith

  -- What a field of another key, or of the same key, holds after the write.
  pub lookup-write_job :
      (key k f : Bytes) (j : Job) (s : c.Server)
      → lookup f (c.hgetall k (write_job c key j s)) ≡ (
          if bytes_eq key k
          then (if contains f (job_clear_fields j)
              then none
              else elim (lookup f (job_set_fields c j)) [
                | some v ↦ some v
                | none ↦ lookup f (c.hgetall k s)
              ])
          else lookup f (c.hgetall k s))
  unfolding write_job contains
  lookup-write_job key k f j s = of (job_clear_fields j)
    where
      of :
          (names : List Bytes)
          → lookup f (
              c.hgetall k (elim names [
                | [] ↦ c.hset key (job_set_fields c j) s
                | name ∷ names ↦ c.hdel key (name ∷ names) (c.hset key (job_set_fields c j) s)
              ]))
            ≡ (if bytes_eq key k
                then (if contains f names then none else elim (lookup f (job_set_fields c j)) [
                  | some v ↦ some v
                  | none ↦ lookup f (c.hgetall k s)
                ])
                else lookup f (c.hgetall k s))
      of [] = l.hgetall_hset key k f (job_set_fields c j) s
      of (name ∷ names) =
          l.hgetall_hdel key k f (name ∷ names) _
          ∙ ground (arith, l.hgetall_hset key k f (job_set_fields c j) s)

  -- A hash that holds what the job's fields say, and else what it held before, or nothing if it is new.
  abbrev pub Holds : Assoc Bytes → Bool → Assoc Bytes → Job → Type 0
  Holds fs kept old j =
      (f : Bytes)
      → field fs f ≡ (
          if kept && contains f (job_clear_fields j)
          then []
          else elim (lookup f (job_set_fields c j)) [
            | some v ↦ v
            | none ↦ if kept then entries (lookup f old) else []
          ])

  Holds-write_job :
      (key : Bytes) (j : Job) (s : c.Server)
      → Holds (c.hgetall key (write_job c key j s)) true (c.hgetall key s) j
  Holds-write_job key j s f = rw (lookup-write_job key key f j s, bytes_eq_refl key) (ground arith)

  module _ (fs : Assoc Bytes) (kept : Bool) (old : Assoc Bytes) (j : Job)
      (holds : Holds fs kept old j) where
    -- The fields that are always set.
    record Scalars : Type 0 where
      same_id : field fs (text "id") ≡ j.id
      same_prompt : field fs (text "prompt") ≡ j.prompt
      same_profile : field fs (text "profile") ≡ j.profile
      same_run_config_json : field fs (text "run_config_json") ≡ j.run_config_json
      same_stop_reason : field fs (text "stop_reason") ≡ j.stop_reason
      same_error : field fs (text "error") ≡ j.error
      same_final_text : field fs (text "final_text") ≡ j.final_text
      same_harness_token : field fs (text "harness_token") ≡ j.harness_token
      same_trace_parent : field fs (text "trace_parent") ≡ j.trace_parent
      same_status : field fs (text "status") ≡ status_text j.status
      same_cancel : field fs (text "cancel_requested") ≡ bool_field j.cancel_requested
      same_scope : field fs (text "repo_scope") ≡ repo_scope_field c j.repo_scope

    scalars : Scalars
    unfolding job_clear_fields clear_field contains text bytes_eq job_set_fields lookup time_field
    scalars = record {
      same_id = holds (text "id") ∙ ground arith;
      same_prompt = holds (text "prompt") ∙ ground arith;
      same_profile = holds (text "profile") ∙ ground arith;
      same_run_config_json = holds (text "run_config_json") ∙ ground arith;
      same_stop_reason = holds (text "stop_reason") ∙ ground arith;
      same_error = holds (text "error") ∙ ground arith;
      same_final_text = holds (text "final_text") ∙ ground arith;
      same_harness_token = holds (text "harness_token") ∙ ground arith;
      same_trace_parent = holds (text "trace_parent") ∙ ground arith;
      same_status = holds (text "status") ∙ ground arith;
      same_cancel = holds (text "cancel_requested") ∙ ground arith;
      same_scope = holds (text "repo_scope") ∙ ground arith;
    }

    time_created_at :
        field fs (text "created_at")
        ≡ (if is_zero j.created_at then [] else c.format_time j.created_at)
    unfolding job_clear_fields clear_field contains text bytes_eq job_set_fields lookup time_field
    time_created_at = holds (text "created_at") ∙ ground arith

    time_started_at :
        field fs (text "started_at")
        ≡ (if is_zero j.started_at then [] else c.format_time j.started_at)
    unfolding job_clear_fields clear_field contains text bytes_eq job_set_fields lookup time_field
    time_started_at = holds (text "started_at") ∙ ground arith

    time_finished_at :
        field fs (text "finished_at")
        ≡ (if is_zero j.finished_at then [] else c.format_time j.finished_at)
    unfolding job_clear_fields clear_field contains text bytes_eq job_set_fields lookup time_field
    time_finished_at = holds (text "finished_at") ∙ ground arith

    time_last_event_at :
        field fs (text "last_event_at")
        ≡ (if is_zero j.last_event_at then [] else c.format_time j.last_event_at)
    unfolding job_clear_fields clear_field contains text bytes_eq job_set_fields lookup time_field
    time_last_event_at = holds (text "last_event_at") ∙ ground arith

  parse_time_field-format :
      (v : Bytes) (t : Time)
      → v ≡ (if is_zero t then [] else c.format_time t)
      → parse_time_field c v ≡ ok t
  unfolding parse_time_field is_empty
  parse_time_field-format v t e = elim (Bool-cases (is_zero t)) [
    | inl z ↦ rw (e, z) (ground (arith, z))
    | inr z ↦ rw (e, z) (rw (l.format-filled t, l.parse-format t z) refl)
  ]

  parse_scope_field-encode : (ps : List Bytes) → parse_scope_field c (repo_scope_field c ps) ≡ ok ps
  unfolding parse_scope_field repo_scope_field is_empty
  parse_scope_field-encode [] = refl
  parse_scope_field-encode (p ∷ ps) = rw (l.encode-filled p ps, l.decode-encode p ps) refl

  cancel_requested-field : (b : Bool) → bytes_eq (bool_field b) (text "1") ≡ b
  unfolding bool_field text bytes_eq
  cancel_requested-field true = refl
  cancel_requested-field false = refl

  parse_field :
      (fs : Assoc Bytes) (name : Bytes) (t : Time)
      → field fs name ≡ (if is_zero t then [] else c.format_time t)
      → parse_time_field c (field fs name) ≡ ok t
  parse_field fs name t e = parse_time_field-format (field fs name) t e

  -- Such a hash is read as the job.
  pub job_from_fields-Holds :
      (fs : Assoc Bytes) (kept : Bool) (old : Assoc Bytes) (j : Job)
      → Holds fs kept old j
      → status_of_text (status_text j.status) ≡ j.status
      → job_from_fields c fs ≡ ok j
  unfolding job_from_fields
  job_from_fields-Holds fs kept old j holds normal =
      let h = scalars fs kept old j holds in
      let scope : parse_scope_field c (field fs (text "repo_scope")) ≡ ok j.repo_scope =
        rw (h.same_scope) (parse_scope_field-encode j.repo_scope) in
      let created =
        parse_field fs (text "created_at") j.created_at (time_created_at fs kept old j holds) in
      let started =
        parse_field fs (text "started_at") j.started_at (time_started_at fs kept old j holds) in
      let finished =
        parse_field fs (text "finished_at") j.finished_at (time_finished_at fs kept old j holds) in
      let seen =
        parse_field fs (text "last_event_at") j.last_event_at
          (time_last_event_at fs kept old j holds) in
      rw (scope, created, started, finished, seen, job_from_fields)
        (rw
          (
            h.same_id, h.same_prompt, h.same_profile, h.same_run_config_json, h.same_stop_reason,
            h.same_error, h.same_final_text, h.same_harness_token, h.same_trace_parent,
            h.same_status, h.same_cancel,
          )
          (rw (normal, cancel_requested-field j.cancel_requested) refl))

  -- A job whose status spells itself, written by HSET and HDEL over whatever the hash held before, is read
  -- back as it was: a time that is zero, which HSET cannot represent, replaces an earlier one too.
  pub job_from_fields-write_job :
      (key : Bytes) (j : Job) (s : c.Server)
      → status_of_text (status_text j.status) ≡ j.status
      → job_from_fields c (c.hgetall key (write_job c key j s)) ≡ ok j
  job_from_fields-write_job key j s normal =
      job_from_fields-Holds (c.hgetall key (write_job c key j s)) true (c.hgetall key s) j
        (Holds-write_job key j s) normal

  pub has_fields-write_job :
      (key : Bytes) (j : Job) (s : c.Server)
      → has_fields (c.hgetall key (write_job c key j s)) ≡ true
  unfolding job_clear_fields clear_field contains text bytes_eq job_set_fields lookup time_field
  has_fields-write_job key j s =
      has_fields-some _ (text "id") j.id
        (lookup-write_job key key (text "id") j s ∙ ground (arith, bytes_eq_refl key))

  -- A new hash that holds just the fields that are set.
  abbrev pub IsNew : Assoc Bytes → Job → Type 0
  IsNew fs j = (f : Bytes) → lookup f fs ≡ lookup f (job_set_fields c j)

  pub has_fields-IsNew : (fs : Assoc Bytes) (j : Job) → IsNew fs j → has_fields fs ≡ true
  unfolding text bytes_eq job_set_fields lookup
  has_fields-IsNew fs j new = has_fields-some fs (text "id") j.id (new (text "id"))

  pub job_from_fields-IsNew :
      (fs : Assoc Bytes) (j : Job)
      → IsNew fs j
      → status_of_text (status_text j.status) ≡ j.status
      → job_from_fields c fs ≡ ok j
  job_from_fields-IsNew fs j new normal =
      job_from_fields-Holds fs false [] j (λ f. rw (new f) (ground arith)) normal
