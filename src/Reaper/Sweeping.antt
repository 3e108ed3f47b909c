-- ===== src/Reaper/Sweeping.antt =====
-- internal/reaper/reaper.go: what a sweep does to the stored jobs.
use hairpin.Base.{
  ◌+◌, ℕ, zero, suc, ◌≤◌, ◌<◌, ◌≡◌, refl, ap, ◌∙◌, inl, inr, Bool, true, false, none, some, List,
  [], ◌∷◌, Bytes, bytes_eq, bytes_eq_iff, length, All, lookup, lookup-erase, Result, ok, err,
  Bool-cases, arith, if◌then◌else◌, ◌==◌,
}
use hairpin.Job.{Time, Job, terminal}
use hairpin.Store.Mem.{MemStore, delete_job}
use hairpin.Store.Mem.Valid.{IsValid}
use hairpin.Store.Mem.Listing.{i64_mod}
use hairpin.Store.Mem.Listing.Pages.{newest, job_at}
use hairpin.World.{World, Env, read_clock, update, append_status, append, count_completed}
use hairpin.World.Persist.{
  Persists, Persists-same, Persists-trans, Advances-of, update-Persists, jobs-append_event,
}
use hairpin.Lifecycle.{fail_stuck}
use hairpin.Lifecycle.Outcome.{Evolves, never_connected, change, change-Evolves, after}
use hairpin.Reaper.{
  Reaper, fail_stuck_harness, after_fail, fail_each, reap_awaiting_harness, is_stuck, is_expired,
  delete_each, reap_retention, sweep,
}
use hairpin.Reaper.Listing.{list_all_jobs_complete}

-- A listed job is the one that is stored under its ID.
abbrev Listed : MemStore → Job → Type 0
Listed m j = lookup j.id m.jobs ≡ some j

newest-Listed :
    (m : MemStore) (n : ℕ) → IsValid m → n ≤ length m.order → All (Listed m) (newest m n)
unfolding newest
newest-Listed m zero v h = tt
newest-Listed m (suc i) v h =
    let (id, j, e, found) = job_at m i v h in
    rw (e, newest)
      (rw found (
        ap (λ x. lookup x m.jobs) (v.own_id id j found) ∙ found,
        newest-Listed m i v (omega arith),
      ))

stuck-Evolves : (t : Time) (j : Job) → Evolves j (after j (fail_stuck t j))
unfolding change
stuck-Evolves t j = change-Evolves (never_connected t) j

module _ (env : Env) (r : Reaper) where
  jobs-after_fail :
      (id : Bytes) (a : Result (Job × Bool) × World)
      → (after_fail env r id a).store.jobs ≡ a.1.store.jobs
  unfolding append_status append read_clock count_completed
  jobs-after_fail id (err e, w) = refl
  jobs-after_fail id (ok (j, false), w) = refl
  jobs-after_fail id (ok (j, true), w) = jobs-append_event _ id _ w.store

  fail_stuck_harness-Persists :
      (id : Bytes) (w : World) → Persists w.store.jobs (fail_stuck_harness env r id w).store.jobs
  unfolding fail_stuck_harness read_clock
  fail_stuck_harness-Persists id w =
      let now = env.now w.reads in
      let w1 = record w { reads = w.reads + 1 } in
      let a = update id (fail_stuck now) w1 in
      Persists-trans w.store.jobs a.1.store.jobs _
        (update-Persists id (fail_stuck now) w1 (Advances-of _ (stuck-Evolves now)))
        (Persists-same a.1.store.jobs _ (jobs-after_fail id a))

  fail_each-Persists :
      (now : Time) (js : List Job) (w : World)
      → Persists w.store.jobs (fail_each env r now js w).store.jobs
  unfolding fail_each
  fail_each-Persists now [] w = Persists-same w.store.jobs w.store.jobs refl
  fail_each-Persists now (j ∷ js) w = elim (Bool-cases (is_stuck env r now j)) [
    | inr fails ↦ rw (fails, fail_each) (fail_each-Persists now js w)
    | inl holds ↦
        let v = fail_stuck_harness env r j.id w in
        rw (holds, fail_each)
          (Persists-trans w.store.jobs v.store.jobs _ (fail_stuck_harness-Persists j.id w)
            (fail_each-Persists now js v))
  ]

  jobs-delete_job :
      (id x : Bytes) (m : MemStore)
      → lookup id (delete_job x m).1.jobs ≡ (if bytes_eq x id then none else lookup id m.jobs)
  unfolding delete_job
  jobs-delete_job id x m = ground (arith, lookup-erase x id m.jobs, bytes_eq_iff x id)

  abbrev Spares : Time → Bytes → Job → Type 0
  Spares now id j = bytes_eq j.id id ≡ true → is_expired env r now j ≡ false

  delete_each-Spares :
      (now : Time) (id : Bytes) (js : List Job) (w : World)
      → All (Spares now id) js
      → lookup id (delete_each env r now js w).store.jobs ≡ lookup id w.store.jobs
  unfolding delete_each
  delete_each-Spares now id [] w h = refl
  delete_each-Spares now id (j ∷ js) w (h, hs) = elim (Bool-cases (is_expired env r now j)) [
    | inr fails ↦ rw (fails, delete_each) (delete_each-Spares now id js w hs)
    | inl holds ↦
        let other : bytes_eq j.id id ≡ false = ground (arith, h, holds) in
        rw (holds, delete_each)
          (delete_each-Spares now id js (record w { store = (delete_job j.id w.store).1 }) hs
            ∙ (jobs-delete_job id j.id w.store ∙ rw other refl))
  ]

  is_expired_unfinished :
      (now : Time) (j : Job) → terminal j.status ≡ false → is_expired env r now j ≡ false
  unfolding is_expired
  is_expired_unfinished now j h = rw h refl

  Listed-Spares :
      (now : Time) (id : Bytes) (m : MemStore) (j : Job) (js : List Job)
      → lookup id m.jobs ≡ some j
      → terminal j.status ≡ false
      → All (Listed m) js
      → All (Spares now id) js
  Listed-Spares now id m j [] e t h = tt
  Listed-Spares now id m j (x ∷ xs) e t (h, hs) = (
    λ same.
        let is_j : x ≡ j =
          ground (arith, h, e, ap (λ l. lookup l m.jobs) ((bytes_eq_iff x.id id).0 same)) in
        is_expired_unfinished now x (ap (λ (y : Job). terminal y.status) is_j ∙ t),
    Listed-Spares now id m j xs e t hs,
  )

  -- A sweep over a valid store, which may read a page for each job and one more, never deletes a job that has
  -- not ended: the job is stored afterwards, and has changed only as `Evolves` allows.
  pub sweep_spares :
      (pages : ℕ) (w : World) (id : Bytes) (j : Job)
      → IsValid w.store
      → length w.store.order < i64_mod
      → length w.store.order < pages
      → lookup id w.store.jobs ≡ some j
      → terminal j.status ≡ false
      → (k : Job) × (lookup id (sweep env r pages w).store.jobs ≡ some k) × Evolves j k
  unfolding sweep reap_awaiting_harness reap_retention read_clock
  sweep_spares pages w id j v small enough e t =
      let js = newest w.store (length w.store.order) in
      let now = env.now w.reads in
      let w1 = fail_each env r now js (record w { reads = w.reads + 1 }) in
      let (k, found, goes) = fail_each-Persists now js (record w { reads = w.reads + 1 }) id j e in
      rw (list_all_jobs_complete r w.store pages v small enough, sweep)
        (elim (Bool-cases (r.retention == 0)) [
          | inl off ↦ (k, rw off found, goes)
          | inr on ↦
              let spared =
                Listed-Spares (env.now w1.reads) id w.store j js e t
                  (newest-Listed w.store _ v (omega arith)) in
              (
                k,
                rw on (
                    delete_each-Spares (env.now w1.reads) id js (record w1 { reads = w1.reads + 1 })
                      spared
                    ∙ found),
                goes,
              )
        ])
