-- ===== src/World/Persist.antt =====
-- internal/controlplane, internal/service: what happens to the stored jobs while a handler runs.
use mathlib.Core.Path.{subst}
use hairpin.Base.{
  ap, not_found, ◌≡◌, refl, inl, inr, ◌∙◌, none, some, arith, Bytes, bytes_eq, bytes_eq_iff, Assoc,
  lookup, insert, lookup-insert, Result, ok, err, Error, Option-cases, Result-cases, Bool-cases,
}
use hairpin.Job.{Time, Job}
use hairpin.Store.{Event, PermissionRequest}
use hairpin.Store.Mem.{MemStore, update_job}
use hairpin.Store.Mem.Timeline.{append_event, appended}
use hairpin.Store.Mem.Permissions.{put_permission}
use hairpin.Lifecycle.Outcome.{after, Evolves, Evolves-refl, Evolves-trans}
use hairpin.World.{World, update}

-- Every job that is stored stays stored, and has only gone on as `Evolves` says.
abbrev pub Persists : Assoc Job → Assoc Job → Type 0
Persists m n =
    (id : Bytes) (j : Job) → lookup id m ≡ some j → (k : Job) × (lookup id n ≡ some k) × Evolves j k

pub Persists-same : (m n : Assoc Job) → n ≡ m → Persists m n
Persists-same m n e id j h = (j, ap (lookup id) e ∙ h, Evolves-refl j)

pub Persists-trans : (l m n : Assoc Job) → Persists l m → Persists m n → Persists l n
Persists-trans l m n p q id i h =
    let (j, f, a) = p id i h in let (k, g, b) = q id j f in (k, g, Evolves-trans i j k a b)

pub jobs-append_event :
    (now : Time) (id : Bytes) (ev : Event) (m : MemStore)
    → (append_event now id ev m).1.jobs ≡ m.jobs
unfolding append_event appended
jobs-append_event now id ev m = ground arith

pub jobs-put_permission :
    (id : Bytes) (p : PermissionRequest) (m : MemStore) → (put_permission id p m).1.jobs ≡ m.jobs
unfolding put_permission
jobs-put_permission id p m = ground arith

written-Persists :
    (id : Bytes) (m : MemStore) (i k : Job)
    → lookup id m.jobs ≡ some i
    → Evolves i k
    → Persists m.jobs (insert id k m.jobs)
written-Persists id m i k e v x j h = elim (Bool-cases (bytes_eq id x)) [
  | inl same ↦ (
    k,
    lookup-insert id x k m.jobs ∙ rw same,
    subst (λ l. Evolves l k)
        (ground (arith, bytes_eq_iff id x, ap (λ l. lookup l m.jobs) ((bytes_eq_iff id x).0 same)))
        v,
  )
  | inr other ↦ (j, lookup-insert id x k m.jobs ∙ rw other h, Evolves-refl j)
]

module _ {A : Type 0} where
  -- The callback only lets a job go on.
  abbrev pub Advances : (Job → Result (Job × A)) → Type 0
  Advances fn = (j k : Job) (a : A) → fn j ≡ ok (k, a) → Evolves j k

  -- The three results of UpdateJob.
  pub update_job_missing :
      (id : Bytes) (fn : Job → Result (Job × A)) (m : MemStore)
      → lookup id m.jobs ≡ none
      → update_job id fn m ≡ (err not_found, m)
  unfolding update_job
  update_job_missing id fn m e = rw (e, update_job)

  pub update_job_refused :
      (id : Bytes) (fn : Job → Result (Job × A)) (m : MemStore) (i : Job) (bad : Error)
      → lookup id m.jobs ≡ some i
      → fn i ≡ err bad
      → update_job id fn m ≡ (err bad, m)
  unfolding update_job
  update_job_refused id fn m i bad e f = rw (e, update_job) (rw f)

  pub update_job_written :
      (id : Bytes) (fn : Job → Result (Job × A)) (m : MemStore) (i k : Job) (a : A)
      → lookup id m.jobs ≡ some i
      → fn i ≡ ok (k, a)
      → update_job id fn m ≡ (ok (k, a), record m { jobs = insert id k m.jobs })
  unfolding update_job
  update_job_written id fn m i k a e f = rw (e, update_job) (rw f)

  pub update_job-Persists :
      (id : Bytes) (fn : Job → Result (Job × A)) (m : MemStore)
      → Advances fn
      → Persists m.jobs (update_job id fn m).1.jobs
  update_job-Persists id fn m adv = elim (Option-cases (lookup id m.jobs)) [
    | inl e ↦ rw (update_job_missing id fn m e) (Persists-same m.jobs m.jobs refl)
    | inr (i, e) ↦ elim (Result-cases (fn i)) [
      | inr (bad, f) ↦ rw (update_job_refused id fn m i bad e f) (Persists-same m.jobs m.jobs refl)
      | inl ((k, a), f) ↦
          rw (update_job_written id fn m i k a e f) (written-Persists id m i k e (adv i k a f))
    ]
  ]

  pub Advances-of :
      (fn : Job → Result (Job × A)) → ((j : Job) → Evolves j (after j (fn j))) → Advances fn
  Advances-of fn h j k a e = subst (λ r. Evolves j (after j r)) e (h j)

  pub update-Persists :
      (id : Bytes) (fn : Job → Result (Job × A)) (w : World)
      → Advances fn
      → Persists w.store.jobs (update id fn w).1.store.jobs
  unfolding update
  update-Persists id fn w adv = update_job-Persists id fn w.store adv
