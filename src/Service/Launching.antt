-- ===== src/Service/Launching.antt =====
-- internal/service/submit.go: where launch leaves a job.
use hairpin.Base.{
  Option, none, Error, err, ◌⊎◌, ◌≢◌, [], inl, inr, ◌≤◌, ap, ◌≡◌, refl, ◌∙◌, Bool, true, false,
  some, Bytes, bytes_eq_refl, lookup, lookup-insert, Result, ok, Result-cases, Bool-cases, arith,
  if◌then◌else◌, is_empty, error_text,
}
use hairpin.Job.{
  Time, Job, Status, queued, launching, awaiting_harness, running, succeeded, failed, cancelled,
  other, same_status, terminal,
}
use hairpin.World.{World, Env, read_clock, update, append_status, append, count_completed}
use hairpin.World.Persist.{Persists, update_job_written, jobs-append_event}
use hairpin.Lifecycle.{move_status}
use hairpin.Lifecycle.Outcome.{rank}
use hairpin.Service.{transition, launch, after_move, after_launch}

module _ (env : Env) (id : Bytes) where
  jobs-after_move :
      (to : Status) (e : Bytes) (j : Job) (b : Bool) (w : World)
      → (after_move env id to e (ok (j, b), w)).1.store.jobs ≡ w.store.jobs
  unfolding append_status append read_clock count_completed
  jobs-after_move to e j false w = refl
  jobs-after_move to e j true w = elim (Bool-cases (terminal to)) [
    | inl t ↦ rw t (jobs-append_event _ id _ w.store)
    | inr t ↦ rw t (jobs-append_event _ id _ w.store)
  ]

  moved-after_move :
      (to : Status) (e : Bytes) (j : Job) (b : Bool) (w : World)
      → (after_move env id to e (ok (j, b), w)).0 ≡ b
  moved-after_move to e j false w = refl
  moved-after_move to e j true w = refl

  move_status-result :
      (from to : Status) (e : Bytes) (t : Time) (j : Job)
      → (k : Job) × (move_status from to e t j ≡ ok (k, same_status j.status from))
        × (k.status ≡ (if same_status j.status from then to else j.status))
  unfolding move_status
  move_status-result from to e t j = elim (Bool-cases (same_status j.status from)) [
    | inl same ↦ (
      record j {
        status = to;
        error = if is_empty e then j.error else e;
        finished_at = if terminal to then t else j.finished_at;
      },
      rw same refl,
      rw same refl,
    )
    | inr differs ↦ (j, rw differs refl, rw differs refl)
  ]

  -- A transition moves a job that has the expected status, says so, and leaves every other job alone.
  pub transition-result :
      (from to : Status) (e : Bytes) (w : World) (j : Job)
      → lookup id w.store.jobs ≡ some j
      → ((transition env none id from to e w).0 ≡ same_status j.status from)
        × ((k : Job) × (lookup id (transition env none id from to e w).1.store.jobs ≡ some k)
            × (k.status ≡ (if same_status j.status from then to else j.status)))
  unfolding transition read_clock update
  transition-result from to e w j h =
      let (k, written, status) = move_status-result from to e (env.now w.reads) j in
      let m =
        update_job_written id (move_status from to e (env.now w.reads)) w.store j k _ h written in
      (
        rw m (moved-after_move to e k _ _),
        (
          k,
          rw m (
              ap (lookup id) (jobs-after_move to e k _ _)
              ∙ lookup-insert id id k w.store.jobs
              ∙ rw (bytes_eq_refl id) refl),
          status,
        ),
      )

  faulty : (e : Error) (r : Result (Unit {0}) × World) → after_launch env (some e) id r ≡ r.1
  unfolding transition
  faulty e (ok u, w) = refl
  faulty e (err x, w) = refl

  rank_left :
      (j k : Job) (to : Status)
      → 1 ≤ rank j.status
      → 2 ≤ rank to
      → k.status ≡ (if same_status j.status launching then to else j.status)
      → 2 ≤ rank k.status
  rank_left j k to h t e = rw e (left j.status h)
    where
      left : (s : Status) → 1 ≤ rank s → 2 ≤ rank (if same_status s launching then to else s)
      left queued g = absurd (omega arith)
      left launching g = t
      left awaiting_harness g = omega arith
      left running g = omega arith
      left succeeded g = omega arith
      left failed g = omega arith
      left cancelled g = omega arith
      left (other s) g = absurd (omega arith)

  -- The launch of a queued job leaves it stored and no longer queued or launching, whether the launcher succeeds
  -- or fails, unless an update of the store fails: the job then waits for its harness or has gone further. If
  -- the update before the call fails, the job is still queued; if the one after it fails, it may be
  -- launching. What else happens during the call keeps the job stored and does not take it back.
  pub launch_settles :
      (launcher : World → Result (Unit {0}) × World) (before after : Option Error) (w : World)
      (j : Job)
      → ((v : World) → Persists v.store.jobs (launcher v).1.store.jobs)
      → lookup id w.store.jobs ≡ some j
      → j.status ≡ queued
      → (k : Job) × (lookup id (launch env launcher before after id w).store.jobs ≡ some k)
        × ((2 ≤ rank k.status)
            ⊎ (((before ≢ none) × (k.status ≡ queued)) ⊎ ((after ≢ none) × (1 ≤ rank k.status))))
  unfolding launch transition
  launch_settles launcher (some e) after w j keeps h q = (j, h, inr (inl (λ z. cc, q)))
  launch_settles launcher none (some e) w j keeps h q =
      let (moved, (i, at, status)) = transition-result queued launching [] w j h in
      let w1 = (transition env none id queued launching [] w).1 in
      let (l, found, further) = keeps w1 id i at in
      let begun : 1 ≤ rank l.status = ground (arith, further.forward) in
      (
        l,
        rw moved
            (rw q (ap (λ (v : World). lookup id v.store.jobs) (faulty e (launcher w1)) ∙ found)),
        inr (inr (λ z. cc, begun)),
      )
  launch_settles launcher none none w j keeps h q =
      let (moved, (i, at, status)) = transition-result queued launching [] w j h in
      let w1 = (transition env none id queued launching [] w).1 in
      let (l, found, further) = keeps w1 id i at in
      let begun : 1 ≤ rank l.status = ground (arith, further.forward) in
      let v = (launcher w1).1 in
      rw moved (
        rw q (elim (Result-cases (launcher w1).0) [
          | inl (u, e) ↦
              let (_, (k, stored, left)) =
                transition-result launching awaiting_harness [] v l found in
              (k, rw e stored, inl (rank_left l k awaiting_harness begun (omega arith) left))
          | inr (bad, e) ↦
              let (_, (k, stored, left)) =
                transition-result launching failed (error_text bad) v l found in
              (k, rw e stored, inl (rank_left l k failed begun (omega arith) left))
        ]))
