-- ===== src/Redis/Jobs/Refinement.antt =====
-- internal/store/redisstore/jobs.go against internal/store/memstore.go: callers cannot tell the two stores' jobs apart.
use hairpin.Base.{
  ◌≡◌, refl, ap, ◌∙◌, inl, inr, true, false, List, [], ◌∷◌, Bytes, lookup, Result, ok, err, Error,
  not_found, Option-cases, Result-cases, All,
}
use hairpin.Job.{Job, valid_id}
use hairpin.Store.Mem
use hairpin.Store.Mem.{MemStore}
use hairpin.World.Persist.{update_job_missing, update_job_refused, update_job_written}
use hairpin.Redis.{Client, Laws, Conn, job_key}
use hairpin.Redis.Jobs
use hairpin.Redis.Jobs.{decoded_job, updated_by, is_tx_failed}
use hairpin.Redis.Jobs.Representation.{
  Represents, IsQuiet, IsNormal, found, decoded_job-IsNormal, Represents-write_job,
  Represents-create, Represents-delete,
}
use hairpin.Redis.Jobs.Quiet.{
  get_job_quiet, create_job_new, create_job_taken, delete_job_stored, delete_job_missing,
  update_job_written as redis_written, update_job_refused as redis_refused,
}

-- An operation on jobs, and what its caller is told.
pub data Operation : Type 1 where
  creates : Job → Operation
  gets : Bytes → Operation
  updates : (A : Type 0) → Bytes → (Job → Result (Job × A)) → Operation
  deletes : Bytes → Operation

-- What a caller is told: an error, that it is done, a job, or a job with what the callback left beside it.
pub data Told : Type 1 where
  fails : Error → Told
  is_done : Told
  sees : Job → Told
  updated : (A : Type 0) → Job → A → Told

abbrev pub told_done : Result (Unit {0}) → Told
told_done (err e) = fails e
told_done (ok u) = is_done

abbrev pub told_job : Result Job → Told
told_job (err e) = fails e
told_job (ok j) = sees j

abbrev pub told_updated : {A : Type 0} → Result (Job × A) → Told
told_updated (err e) = fails e
told_updated {A} (ok (j, a)) = updated A j a

unfoldable pub in_memory : Operation → MemStore → Told × MemStore
in_memory (creates j) m = let (r, n) = Mem.create_job j m in (told_done r, n)
in_memory (gets id) m = (told_job (Mem.get_job id m), m)
in_memory (updates A id fn) m = let (r, n) = Mem.update_job id fn m in (told_updated r, n)
in_memory (deletes id) m = let (r, n) = Mem.delete_job id m in (told_done r, n)

unfoldable pub in_redis : (c : Client) → Operation → Conn c → Told × Conn c
in_redis c (creates j) s = let (r, t) = Jobs.create_job c j s in (told_done r, t)
in_redis c (gets id) s = let (r, t) = Jobs.get_job c id s in (told_job r, t)
in_redis c (updates A id fn) s = let (r, t) = Jobs.update_job c id fn s in (told_updated r, t)
in_redis c (deletes id) s = let (r, t) = Jobs.delete_job c id s in (told_done r, t)

-- IDs are job IDs, a created job's status is one that its text spells, and a callback, given such a job, leaves
-- such a status and never returns the transaction error of Redis.
abbrev pub IsAllowed : Operation → Type 0
IsAllowed (creates j) = (valid_id j.id ≡ true) × IsNormal j
IsAllowed (gets id) = valid_id id ≡ true
IsAllowed (updates A id fn) =
    (valid_id id ≡ true)
    × ((j k : Job) (a : A) → IsNormal j → fn j ≡ ok (k, a) → IsNormal k)
    × ((j : Job) (e : Error) → fn j ≡ err e → is_tx_failed e ≡ false)
IsAllowed (deletes id) = valid_id id ≡ true

unfoldable pub run_memory : List Operation → MemStore → List Told × MemStore
unfolding in_memory
run_memory [] m = ([], m)
run_memory (o ∷ os) m = let (r, n) = in_memory o m in let (rs, n') = run_memory os n in (r ∷ rs, n')

unfoldable pub run_redis : (c : Client) → List Operation → Conn c → List Told × Conn c
unfolding in_redis
run_redis c [] s = ([], s)
run_redis c (o ∷ os) s =
    let (r, t) = in_redis c o s in let (rs, t') = run_redis c os t in (r ∷ rs, t')

module _ (c : Client) (l : Laws c) (q : IsQuiet c) where
  -- The two stores told their callers the same and still agree.
  abbrev pub Agree : Told × Conn c → Told × MemStore → Type 1
  Agree (r, s) (p, m) = (r ≡ p) × Represents c s.server m.jobs

  module _ (s : Conn c) (m : MemStore) (r : Represents c s.server m.jobs) where
    Agree-create :
        (j : Job)
        → IsAllowed (creates j)
        → Agree (in_redis c (creates j) s) (in_memory (creates j) m)
    unfolding in_redis in_memory Mem.create_job
    Agree-create j (v, normal) = elim (Option-cases (lookup j.id m.jobs)) [
      | inl e ↦
          rw (create_job_new c l q j s (r.present j.id v ∙ rw e refl))
            (rw (e, Mem.create_job) (refl, Represents-create c l s.server m.jobs j r v e normal))
      | inr (i, e) ↦
          rw (create_job_taken c l q j s (r.present j.id v ∙ rw e refl))
            (rw (e, Mem.create_job) (refl, r))
    ]

    Agree-get :
        (id : Bytes) → valid_id id ≡ true → Agree (in_redis c (gets id) s) (in_memory (gets id) m)
    unfolding in_redis in_memory Mem.get_job
    Agree-get id v = rw (get_job_quiet c l q id s) (rw (r.decodes id v) (refl, r))

    Agree-delete :
        (id : Bytes)
        → valid_id id ≡ true
        → Agree (in_redis c (deletes id) s) (in_memory (deletes id) m)
    unfolding in_redis in_memory Mem.delete_job
    Agree-delete id v = elim (Option-cases (lookup id m.jobs)) [
      | inl e ↦
          rw (delete_job_missing c l q id s (r.present id v ∙ rw e refl))
            (rw (e, Mem.delete_job) (refl, r))
      | inr (i, e) ↦
          rw (delete_job_stored c l q id s (r.present id v ∙ rw e refl))
            (rw (e, Mem.delete_job) (refl, Represents-delete c l s.server m.jobs id r v))
    ]

    Agree-update :
        (A : Type 0) (id : Bytes) (fn : Job → Result (Job × A))
        → IsAllowed (updates A id fn)
        → Agree (in_redis c (updates A id fn) s) (in_memory (updates A id fn) m)
    unfolding in_redis in_memory
    Agree-update A id fn (v, normal, no_race) = elim (Option-cases (lookup id m.jobs)) [
      | inl e ↦
          rw
            (redis_refused c l q id fn s not_found
              (ap (updated_by c fn) (r.decodes id v ∙ ap found e)) refl)
            (rw (update_job_missing id fn m e) (refl, r))
      | inr (j, e) ↦ elim (Result-cases (fn j)) [
        | inr (bad, f) ↦
            rw
              (redis_refused c l q id fn s bad
                (ap (updated_by c fn) (r.decodes id v ∙ ap found e) ∙ f) (no_race j bad f))
              (rw (update_job_refused id fn m j bad e f) (refl, r))
        | inl ((k, u), f) ↦
            rw
              (redis_written c l q id fn s k u
                (ap (updated_by c fn) (r.decodes id v ∙ ap found e) ∙ f))
              (rw (update_job_written id fn m j k u e f) (
                refl,
                Represents-write_job c l s.server m.jobs id k r (
                    normal j k u
                      (decoded_job-IsNormal c (c.hgetall (job_key id) s.server) j
                        (r.decodes id v ∙ ap found e))
                      f),
              ))
      ]
    ]

    Agree-step : (o : Operation) → IsAllowed o → Agree (in_redis c o s) (in_memory o m)
    Agree-step (creates j) a = Agree-create j a
    Agree-step (gets id) a = Agree-get id a
    Agree-step (updates A id fn) a = Agree-update A id fn a
    Agree-step (deletes id) a = Agree-delete id a

  -- Any run of creates, reads, updates and deletes of jobs, on a server that no other client writes and whose
  -- commands do not fail, from a server that holds the jobs of the in-memory store: every caller is told what the
  -- in-memory store tells, and at the end the server holds the jobs of the in-memory store. The IDs are job
  -- IDs, a created job's status is one that its text spells, and the callbacks, whatever they leave beside the job,
  -- keep such a status and do not return the transaction error of Redis.
  pub run_redis-run_memory :
      (os : List Operation) (s : Conn c) (m : MemStore)
      → Represents c s.server m.jobs
      → All IsAllowed os
      → ((run_redis c os s).0 ≡ (run_memory os m).0)
        × Represents c (run_redis c os s).1.server (run_memory os m).1.jobs
  unfolding run_redis run_memory
  run_redis-run_memory [] s m r a = (refl, r)
  run_redis-run_memory (o ∷ os) s m r (a, rest) =
      let (same, t) = Agree-step s m r o a in
      let (more, u) = run_redis-run_memory os (in_redis c o s).1 (in_memory o m).1 t rest in
      (rw same (ap (λ rs. (in_memory o m).0 ∷ rs) more), u)
