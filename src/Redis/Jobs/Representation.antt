-- ===== src/Redis/Jobs/Representation.antt =====
-- internal/store/redisstore/jobs.go against internal/store/memstore.go: on a server that no other client writes and
-- whose commands do not fail, the jobs in Redis are the jobs of the in-memory store.
use mathlib.Core.Path.{subst}
use hairpin.Job.Session.{status_text-status_of_text}
use hairpin.Base.{
  ok_of_bind, ok-injective, ℕ, ◌≡◌, refl, ap, sym, ◌∙◌, inl, inr, true, false, Option, none, some,
  List, [], ◌∷◌, Bytes, text, bytes_eq, bytes_eq_iff, bytes_eq_refl, Assoc, lookup, insert, erase,
  lookup-insert, lookup-erase, Result, ok, err, not_found, if◌then◌else◌, Bool-cases, arith,
}
use hairpin.Job.{Job, valid_id, status_text, status_of_text}
use hairpin.Store.Mem.Valid.{is_some}
use hairpin.Redis.{Client, Laws, has_fields, job_key, events_key, perms_key, jobs_index_key}
use hairpin.Redis.Keys.{
  bytes_eq-job_key, contains-job_key, SameFields, has_fields-none, has_fields-SameFields,
}
use hairpin.Redis.Fields.{
  job_from_fields, job_set_fields, write_job, parse_scope_field, parse_time_field, field,
}
use hairpin.Redis.Fields.Roundtrip.{
  job_from_fields-write_job, lookup-write_job, has_fields-write_job, has_fields-IsNew,
  job_from_fields-IsNew,
}
use hairpin.Redis.Jobs.{decoded_job}

-- What a lookup says to a caller of GetJob.
abbrev pub found : Option Job → Result Job
found none = err not_found
found (some j) = ok j

-- The status is one that its text spells.
abbrev pub IsNormal : Job → Type 0
IsNormal j = status_of_text (status_text j.status) ≡ j.status

lookup_absent : (f : Bytes) (fs : Assoc Bytes) → has_fields fs ≡ false → lookup f fs ≡ none
unfolding lookup
lookup_absent f [] h = refl
lookup_absent f (e ∷ fs) h = cc

module _ (c : Client) where
  job_from_fields-IsNormal : (fs : Assoc Bytes) (j : Job) → job_from_fields c fs ≡ ok j → IsNormal j
  unfolding job_from_fields
  job_from_fields-IsNormal fs j h =
      let (_, _, h1) = ok_of_bind (parse_scope_field c (field fs (text "repo_scope"))) _ j h in
      let (_, _, h2) = ok_of_bind (parse_time_field c (field fs (text "created_at"))) _ j h1 in
      let (_, _, h3) = ok_of_bind (parse_time_field c (field fs (text "started_at"))) _ j h2 in
      let (_, _, h4) = ok_of_bind (parse_time_field c (field fs (text "finished_at"))) _ j h3 in
      let (_, _, h5) = ok_of_bind (parse_time_field c (field fs (text "last_event_at"))) _ j h4 in
      let same = ok-injective _ j h5 in
      subst (λ s. status_of_text (status_text s) ≡ s) (ap (λ (x : Job). x.status) same)
        (ap status_of_text (status_text-status_of_text (field fs (text "status"))))

  -- The status of a job that was read is one that its text spells.
  pub decoded_job-IsNormal : (fs : Assoc Bytes) (j : Job) → decoded_job c fs ≡ ok j → IsNormal j
  decoded_job-IsNormal fs j h = elim (Bool-cases (has_fields fs)) [
    | inl e ↦ job_from_fields-IsNormal fs j (rw e at h)
    | inr e ↦ absurd (ground (arith, rw e at h))
  ]

  -- The server's hashes are these jobs.
  pub record Represents (s : c.Server) (jobs : Assoc Job) : Type 0 where
    pub present :
        (id : Bytes)
        → valid_id id ≡ true
        → has_fields (c.hgetall (job_key id) s) ≡ is_some (lookup id jobs)
    pub decodes :
        (id : Bytes)
        → valid_id id ≡ true
        → decoded_job c (c.hgetall (job_key id) s) ≡ found (lookup id jobs)

  -- No other client acts, and no command fails.
  pub record IsQuiet : Type 0 where
    pub alone : (n : ℕ) (s : c.Server) → c.others n s ≡ s
    pub untouched : (n : ℕ) (k : Bytes) → c.touched n k ≡ false
    pub reliable : (n : ℕ) → c.fault n ≡ none

  job_from_fields-SameFields :
      (a b : Assoc Bytes) → SameFields a b → job_from_fields c a ≡ job_from_fields c b
  unfolding job_from_fields
  job_from_fields-SameFields a b h =
      rw
        (
          h (text "repo_scope"),
          h (text "created_at"),
          h (text "started_at"),
          h (text "finished_at"),
          h (text "last_event_at"),
          h (text "id"),
          h (text "status"),
          h (text "prompt"),
          h (text "profile"),
          h (text "run_config_json"),
          h (text "stop_reason"),
          h (text "error"),
          h (text "final_text"),
          h (text "cancel_requested"),
          h (text "harness_token"),
          h (text "trace_parent"),
        )
        refl

  decoded_job-SameFields : (a b : Assoc Bytes) → SameFields a b → decoded_job c a ≡ decoded_job c b
  decoded_job-SameFields a b h =
      rw (has_fields-SameFields a b h, job_from_fields-SameFields a b h) refl

  -- A write that leaves the other jobs' hashes alone and makes this one read as `k`.
  Represents-insert :
      (s t : c.Server) (jobs : Assoc Job) (id : Bytes) (k : Job)
      → Represents s jobs
      → ((x : Bytes)
          → valid_id x ≡ true
          → bytes_eq id x ≡ false
          → SameFields (c.hgetall (job_key x) t) (c.hgetall (job_key x) s))
      → has_fields (c.hgetall (job_key id) t) ≡ true
      → job_from_fields c (c.hgetall (job_key id) t) ≡ ok k
      → Represents t (insert id k jobs)
  Represents-insert s t jobs id k r same filled reads =
      let whole : decoded_job c (c.hgetall (job_key id) t) ≡ ok k = rw filled reads in
      record {
        present = λ x v. elim (Bool-cases (bytes_eq id x)) [
          | inl e ↦
              ap (λ i. has_fields (c.hgetall (job_key i) t)) (sym ((bytes_eq_iff id x).0 e))
              ∙ filled
              ∙ rw (lookup-insert id x k jobs, e) refl
          | inr e ↦
              has_fields-SameFields _ _ (same x v e)
              ∙ r.present x v
              ∙ rw (lookup-insert id x k jobs, e) refl
        ];
        decodes = λ x v. elim (Bool-cases (bytes_eq id x)) [
          | inl e ↦
              ap (λ i. decoded_job c (c.hgetall (job_key i) t)) (sym ((bytes_eq_iff id x).0 e))
              ∙ whole
              ∙ rw (lookup-insert id x k jobs, e) refl
          | inr e ↦
              decoded_job-SameFields _ _ (same x v e)
              ∙ r.decodes x v
              ∙ rw (lookup-insert id x k jobs, e) refl
        ];
      }

  module _ (l : Laws c) where
    pub Represents-write_job :
        (s : c.Server) (jobs : Assoc Job) (id : Bytes) (k : Job)
        → Represents s jobs
        → IsNormal k
        → Represents (write_job c (job_key id) k s) (insert id k jobs)
    Represents-write_job s jobs id k r normal =
        Represents-insert s (write_job c (job_key id) k s) jobs id k r
          (λ x v e f.
            lookup-write_job c l (job_key id) (job_key x) f k s
            ∙ rw (bytes_eq-job_key id x, e) refl)
          (has_fields-write_job c l (job_key id) k s)
          (job_from_fields-write_job c l (job_key id) k s normal)

    -- HSET and ZADD of a new job.
    pub Represents-create :
        (s : c.Server) (jobs : Assoc Job) (k : Job)
        → Represents s jobs
        → valid_id k.id ≡ true
        → lookup k.id jobs ≡ none
        → IsNormal k
        → Represents
            (c.zadd jobs_index_key k.id (c.hset (job_key k.id) (job_set_fields c k) s))
            (insert k.id k jobs)
    Represents-create s jobs k r v gone normal =
        let t = c.hset (job_key k.id) (job_set_fields c k) s in
        let absent : has_fields (c.hgetall (job_key k.id) s) ≡ false =
          r.present k.id v ∙ rw gone refl in
        let new = λ (f : Bytes).
          l.hgetall_zadd jobs_index_key k.id (job_key k.id) f t
          ∙ (l.hgetall_hset (job_key k.id) (job_key k.id) f (job_set_fields c k) s
              ∙ ground (
                arith,
                bytes_eq_refl (job_key k.id),
                lookup_absent f (c.hgetall (job_key k.id) s) absent,
              )) in
        Represents-insert s (c.zadd jobs_index_key k.id t) jobs k.id k r
          (λ x w e f.
            l.hgetall_zadd jobs_index_key k.id (job_key x) f t
            ∙ (l.hgetall_hset (job_key k.id) (job_key x) f (job_set_fields c k) s
                ∙ rw (bytes_eq-job_key k.id x, e) refl))
          (has_fields-IsNew c l _ k new) (job_from_fields-IsNew c l _ k new normal)

    -- DEL and ZREM.
    pub Represents-delete :
        (s : c.Server) (jobs : Assoc Job) (id : Bytes)
        → Represents s jobs
        → valid_id id ≡ true
        → Represents
            (c.zrem jobs_index_key id (c.del (job_key id ∷ events_key id ∷ perms_key id ∷ []) s))
            (erase id jobs)
    Represents-delete s jobs id r v = record {
      present = λ x w. elim (Bool-cases (bytes_eq id x)) [
        | inl e ↦
            has_fields-none _ (λ f. left x w f ∙ rw e refl) ∙ rw (lookup-erase id x jobs, e) refl
        | inr e ↦
            has_fields-SameFields _ _ (λ f. left x w f ∙ rw e refl)
            ∙ r.present x w
            ∙ rw (lookup-erase id x jobs, e) refl
      ];
      decodes = λ x w. elim (Bool-cases (bytes_eq id x)) [
        | inl e ↦
            gone_job _ (has_fields-none _ (λ f. left x w f ∙ rw e refl))
            ∙ rw (lookup-erase id x jobs, e) refl
        | inr e ↦
            decoded_job-SameFields _ _ (λ f. left x w f ∙ rw e refl)
            ∙ r.decodes x w
            ∙ rw (lookup-erase id x jobs, e) refl
      ];
    }
      where
        keys : List Bytes
        keys = job_key id ∷ events_key id ∷ perms_key id ∷ []

        left :
            (x : Bytes)
            → valid_id x ≡ true
            → (f : Bytes)
            → lookup f (c.hgetall (job_key x) (c.zrem jobs_index_key id (c.del keys s)))
              ≡ (if bytes_eq id x then none else lookup f (c.hgetall (job_key x) s))
        left x w f =
            l.hgetall_zrem jobs_index_key id (job_key x) f (c.del keys s)
            ∙ (l.hgetall_del keys (job_key x) f s ∙ rw (contains-job_key id x v w) refl)

        gone_job : (fs : Assoc Bytes) → has_fields fs ≡ false → decoded_job c fs ≡ err not_found
        gone_job fs h = rw h refl
