-- ===== src/Controlplane/Progress.antt =====
-- internal/controlplane: what a stream does to the stored jobs, and that its own job ends.
use mathlib.Core.Path.{subst}
use hairpin.Base.{
  ◌+◌, ◌≡◌, refl, ◌≢◌, ◌∙◌, sym, true, Assoc, none, some, Bytes, Result, ok, err, Error, no_update,
  lookup, lookup-insert, bytes_eq_refl, Option-cases, Bool-cases, inl, inr, ◌⊎◌,
}
use hairpin.Job.{Time, Job, Status, terminal, cancelled, failed, status_for_stop_reason}
use hairpin.Proto.{HarnessEvent}
use hairpin.World.{World, Env, read_clock, update}
use hairpin.World.Persist.{
  Persists, Persists-same, Persists-trans, Advances-of, update-Persists, update_job_refused,
  update_job_written,
}
use hairpin.Lifecycle.{settle_cancelled, settle_failed, settle_done, settle_closed}
use hairpin.Lifecycle.Outcome.{
  Evolves, stopped, broke, finished, lost, change, change-Evolves, after,
  terminal-status_for_stop_reason,
}
use hairpin.Controlplane.{EventPump}
use hairpin.Controlplane.Settle.{
  after_settling, after_finish, after_close, finish, close_unfinished, finalise_cancelled, fail_job,
  is_no_update,
}
use hairpin.Controlplane.Quiet.{jobs-settled_as, jobs-append_proto}

-- The job is stored and has ended.
abbrev pub HasEnded : Bytes → Assoc Job → Type 0
HasEnded id m = (j : Job) × (lookup id m ≡ some j) × (terminal j.status ≡ true)

-- An ended job stays ended while jobs only go on.
pub HasEnded-Persists :
    (id : Bytes) (m n : Assoc Job) → Persists m n → HasEnded id m → HasEnded id n
HasEnded-Persists id m n p (j, e, t) = let (k, f, v) = p id j e in (k, f, rw (v.ended_status t) t)

module _ {A : Type 0} where
  -- The callback refuses ended jobs and ends open ones.
  abbrev pub Ends : (Job → Result (Job × A)) → Type 0
  Ends fn =
      (j : Job)
      → ((bad : Error) × (fn j ≡ err bad) × (terminal j.status ≡ true))
        ⊎ ((k : Job) × (a : A) × (fn j ≡ ok (k, a)) × (terminal k.status ≡ true))

  -- An update whose callback ends every open job, and refuses ended ones, leaves the job ended.
  pub update-HasEnded :
      (id : Bytes) (fn : Job → Result (Job × A)) (w : World)
      → Ends fn
      → lookup id w.store.jobs ≢ none
      → HasEnded id (update id fn w).1.store.jobs
  unfolding update
  update-HasEnded id fn w ends there = elim (Option-cases (lookup id w.store.jobs)) [
    | inl e ↦ absurd (there e)
    | inr (j, e) ↦ elim (ends j) [
      | inl (bad, f, t) ↦ rw (update_job_refused id fn w.store j bad e f) (j, e, t)
      | inr (k, a, f, t) ↦
          rw (update_job_written id fn w.store j k a e f)
            (k, rw (lookup-insert id id k w.store.jobs, bytes_eq_refl id), t)
    ]
  ]

done-Evolves :
    (r e f : Bytes) (t : Time) (j : Job)
    → Evolves j (after j (settle_done (status_for_stop_reason r) r e f t j))
unfolding change
done-Evolves r e f t = change-Evolves (finished r e f t)

lost-Evolves : (e f : Bytes) (l t : Time) (j : Job) → Evolves j (after j (settle_closed e f l t j))
unfolding change
lost-Evolves e f l t = change-Evolves (lost e f l t)

failed-Evolves : (e : Bytes) (t : Time) (j : Job) → Evolves j (after j (settle_failed e t j))
unfolding change
failed-Evolves e t = change-Evolves (broke e t)

stopped-Evolves : (t : Time) (j : Job) → Evolves j (after j (settle_cancelled t j))
unfolding change
stopped-Evolves t = change-Evolves (stopped t)

done-Ends : (r e f : Bytes) (t : Time) → Ends (settle_done (status_for_stop_reason r) r e f t)
unfolding settle_done
done-Ends r e f t j = elim (Bool-cases (terminal j.status)) [
  | inl h ↦ inl (no_update, rw h, h)
  | inr h ↦ inr (
    after j (settle_done (status_for_stop_reason r) r e f t j),
    tt,
    rw h,
    rw h (terminal-status_for_stop_reason r),
  )
]

lost-Ends : (e f : Bytes) (l t : Time) → Ends (settle_closed e f l t)
unfolding settle_closed
lost-Ends e f l t j = elim (Bool-cases (terminal j.status)) [
  | inl h ↦ inl (no_update, rw h, h)
  | inr h ↦ elim (Bool-cases j.cancel_requested) [
    | inl c ↦ inr (after j (settle_closed e f l t j), cancelled, rw h (rw c), rw h (rw c))
    | inr c ↦ inr (after j (settle_closed e f l t j), failed, rw h (rw c), rw h (rw c))
  ]
]

failed-Ends : (e : Bytes) (t : Time) → Ends (settle_failed e t)
unfolding settle_failed
failed-Ends e t j = elim (Bool-cases (terminal j.status)) [
  | inl h ↦ inl (no_update, rw h, h)
  | inr h ↦ inr (after j (settle_failed e t j), tt, rw h, rw h)
]

stopped-Ends : (t : Time) → Ends (settle_cancelled t)
unfolding settle_cancelled
stopped-Ends t j = elim (Bool-cases (terminal j.status)) [
  | inl h ↦ inl (no_update, rw h, h)
  | inr h ↦ inr (after j (settle_cancelled t j), tt, rw h, rw h)
]

module _ (env : Env) where
  after_settling-jobs :
      (id : Bytes) (s : Status) (at : Time) (r : Result (Job × Unit {0}) × World)
      → (after_settling env id s at r).store.jobs ≡ r.1.store.jobs
  after_settling-jobs id s at (ok a, w) = jobs-settled_as env id s at w
  after_settling-jobs id s at (err e, w) = refl

  after_finish-jobs :
      (p : EventPump) (ev : HarnessEvent) (at : Time) (r : Result (Job × Unit {0}) × World)
      → (after_finish env p ev at r).store.jobs ≡ r.1.store.jobs
  after_finish-jobs p ev at (ok a, w) =
      jobs-settled_as env p.job_id _ at _ ∙ jobs-append_proto env p.job_id ev at w
  after_finish-jobs p ev at (err e, w) = elim (Bool-cases (is_no_update e)) [
    | inl n ↦ rw n
    | inr n ↦ rw n (jobs-settled_as env p.job_id _ at _ ∙ jobs-append_proto env p.job_id ev at w)
  ]

  after_close-jobs :
      (p : EventPump) (at : Time) (r : Result (Job × Status) × World)
      → (after_close env p at r).store.jobs ≡ r.1.store.jobs
  after_close-jobs p at (ok (j, s), w) = jobs-settled_as env p.job_id s at w
  after_close-jobs p at (err e, w) = refl

  pub finish-Persists :
      (p : EventPump) (ev : HarnessEvent) (at : Time) (w : World)
      → Persists w.store.jobs (finish env p ev at w).store.jobs
  unfolding finish
  finish-Persists p ev at w =
      let fn =
        settle_done (status_for_stop_reason ev.stop_reason) ev.stop_reason p.err_message
          p.final_text at in
      let r = update p.job_id fn w in
      Persists-trans w.store.jobs r.1.store.jobs _
        (update-Persists p.job_id fn w
          (Advances-of fn (done-Evolves ev.stop_reason p.err_message p.final_text at)))
        (Persists-same r.1.store.jobs _ (after_finish-jobs p ev at r))

  pub finish-HasEnded :
      (p : EventPump) (ev : HarnessEvent) (at : Time) (w : World)
      → lookup p.job_id w.store.jobs ≢ none
      → HasEnded p.job_id (finish env p ev at w).store.jobs
  unfolding finish
  finish-HasEnded p ev at w there =
      let fn =
        settle_done (status_for_stop_reason ev.stop_reason) ev.stop_reason p.err_message
          p.final_text at in
      let r = update p.job_id fn w in
      subst (HasEnded p.job_id) (sym (after_finish-jobs p ev at r)) (
        update-HasEnded p.job_id fn w (done-Ends ev.stop_reason p.err_message p.final_text at)
          there)

  pub close_unfinished-Persists :
      (p : EventPump) (w : World) → Persists w.store.jobs (close_unfinished env p w).store.jobs
  unfolding close_unfinished read_clock
  close_unfinished-Persists p w =
      let at = env.now w.reads in
      let fn = settle_closed p.err_message p.final_text p.last_event_at at in
      let w1 = record w { reads = w.reads + 1 } in
      let r = update p.job_id fn w1 in
      Persists-trans w.store.jobs r.1.store.jobs _
        (update-Persists p.job_id fn w1
          (Advances-of fn (lost-Evolves p.err_message p.final_text p.last_event_at at)))
        (Persists-same r.1.store.jobs _ (after_close-jobs p at r))

  pub close_unfinished-HasEnded :
      (p : EventPump) (w : World)
      → lookup p.job_id w.store.jobs ≢ none
      → HasEnded p.job_id (close_unfinished env p w).store.jobs
  unfolding close_unfinished read_clock
  close_unfinished-HasEnded p w there =
      let at = env.now w.reads in
      let fn = settle_closed p.err_message p.final_text p.last_event_at at in
      let w1 = record w { reads = w.reads + 1 } in
      let r = update p.job_id fn w1 in
      subst (HasEnded p.job_id) (sym (after_close-jobs p at r)) (
        update-HasEnded p.job_id fn w1 (lost-Ends p.err_message p.final_text p.last_event_at at)
          there)

  pub fail_job-Persists :
      (id reason : Bytes) (w : World) → Persists w.store.jobs (fail_job env id reason w).store.jobs
  unfolding fail_job read_clock
  fail_job-Persists id reason w =
      let at = env.now w.reads in
      let w1 = record w { reads = w.reads + 1 } in
      let r = update id (settle_failed reason at) w1 in
      Persists-trans w.store.jobs r.1.store.jobs _
        (update-Persists id (settle_failed reason at) w1 (Advances-of _ (failed-Evolves reason at)))
        (Persists-same r.1.store.jobs _ (after_settling-jobs id failed at r))

  pub fail_job-HasEnded :
      (id reason : Bytes) (w : World)
      → lookup id w.store.jobs ≢ none
      → HasEnded id (fail_job env id reason w).store.jobs
  unfolding fail_job read_clock
  fail_job-HasEnded id reason w there =
      let at = env.now w.reads in
      let w1 = record w { reads = w.reads + 1 } in
      let r = update id (settle_failed reason at) w1 in
      subst (HasEnded id) (sym (after_settling-jobs id failed at r))
        (update-HasEnded id (settle_failed reason at) w1 (failed-Ends reason at) there)

  pub finalise_cancelled-Persists :
      (id : Bytes) (w : World) → Persists w.store.jobs (finalise_cancelled env id w).store.jobs
  unfolding finalise_cancelled read_clock
  finalise_cancelled-Persists id w =
      let at = env.now w.reads in
      let w1 = record w { reads = w.reads + 1 } in
      let r = update id (settle_cancelled at) w1 in
      Persists-trans w.store.jobs r.1.store.jobs _
        (update-Persists id (settle_cancelled at) w1 (Advances-of _ (stopped-Evolves at)))
        (Persists-same r.1.store.jobs _ (after_settling-jobs id cancelled at r))

  pub finalise_cancelled-HasEnded :
      (id : Bytes) (w : World)
      → lookup id w.store.jobs ≢ none
      → HasEnded id (finalise_cancelled env id w).store.jobs
  unfolding finalise_cancelled read_clock
  finalise_cancelled-HasEnded id w there =
      let at = env.now w.reads in
      let w1 = record w { reads = w.reads + 1 } in
      let r = update id (settle_cancelled at) w1 in
      subst (HasEnded id) (sym (after_settling-jobs id cancelled at r))
        (update-HasEnded id (settle_cancelled at) w1 (stopped-Ends at) there)
