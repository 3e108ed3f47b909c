-- ===== src/Controlplane/Handshake.antt =====
-- internal/controlplane/controlplane.go, runTask: who is given a task, and how the job of a harness that was ends.
use mathlib.Core.Path.{subst}
use hairpin.Base.{
  insert, lookup-insert, bytes_eq_refl, ◌+◌, ◌≡◌, refl, ◌≢◌, ◌∙◌, sym, ap, true, false, Assoc, none,
  some, List, [], ◌∷◌, arith, Bytes, is_empty, Result, ok, err, Error, lookup, Option-cases,
  Result-cases, Bool-cases, inl, inr,
}
use hairpin.Job.{
  Time, Job, running, valid_id, terminal, parse_session, session_string, accepts_token,
}
use hairpin.Job.Session.{session_unique, session_roundtrip}
use hairpin.Proto.{HarnessEvent, RunConfig}
use hairpin.Registry.{Session, Registry, register}
use hairpin.Store.Mem.{get_job}
use hairpin.World.{World, Env, read_clock, update, session_send, close_session}
use hairpin.World.Persist.{update_job_refused, update_job_written}
use hairpin.Lifecycle.{start_running}
use hairpin.Lifecycle.Outcome.{started, change, change-Evolves, Evolves, after}
use hairpin.Controlplane.{Handler, EventPump}
use hairpin.Controlplane.Settle.{is_no_update}
use hairpin.Controlplane.Pump.{Turn, receives, answers, ends, event_kind, late_answers}
use hairpin.Controlplane.Stream.{
  Leftover, parse_run_config, send_cancel, pumped, after_start, after_assignment, assigned, release,
  admitted, is_ready, run_task, assignment,
}
use hairpin.Controlplane.Quiet.{
  jobs-append_status, jobs-answer_call, store-stream_send, store-session_send,
}
use hairpin.Controlplane.Progress.{HasEnded, fail_job-HasEnded, finalise_cancelled-HasEnded}
use hairpin.Controlplane.Outcome.{IsStored, run-HasEnded}

started-Evolves : (t : Time) (j : Job) → Evolves j (after j (start_running t j))
unfolding change
started-Evolves t = change-Evolves (started t)

-- Only an ended job is refused the running transition.
start_running_refused :
    (t : Time) (j : Job) (e : Error) → start_running t j ≡ err e → terminal j.status ≡ true
unfolding start_running
start_running_refused t j e h = ground arith

register_free :
    (id : Bytes) (s : Session) (r : Registry)
    → lookup id r ≡ none
    → register id s r ≡ (ok tt, insert id s r)
unfolding register
register_free id s r e = rw (e, register)

IsStored-insert : (id : Bytes) (k : Job) (m : Assoc Job) → IsStored id (insert id k m)
IsStored-insert id k m gone = ground (arith, lookup-insert id id k m, bytes_eq_refl id)

valid_id_nonempty : (id : Bytes) → valid_id id ≡ true → is_empty id ≡ false
unfolding valid_id is_empty
valid_id_nonempty [] v = cc
valid_id_nonempty (c ∷ cs) v = refl

module _ (env : Env) (h : Handler) (s : Session) where
  -- A stream whose first event names a stored job that has a token, but is not that job's own session string, is
  -- told to stop, and nothing else happens: no task is sent and nothing is stored.
  pub run_task_unauthorised :
      (first : HarnessEvent) (ts : List Turn) (w : World) (j : Job)
      → get_job (parse_session first.id).0 w.store ≡ ok j
      → j.id ≡ (parse_session first.id).0
      → j.harness_token ≢ []
      → first.id ≢ session_string j
      → run_task env h s (some first) ts w ≡ send_cancel env s w
  unfolding run_task
  run_task_unauthorised first ts w j found same token other =
      ground (arith, session_unique j first.id token (sym same))

  store-send_cancel : (w : World) → (send_cancel env s w).store ≡ w.store
  unfolding send_cancel
  store-send_cancel w = store-stream_send env s _ w

  jobs-late_answers :
      (ts : List Turn) (p : EventPump) (w : World)
      → (late_answers env ts p w).1.store.jobs ≡ w.store.jobs
  unfolding late_answers
  jobs-late_answers [] p w = refl
  jobs-late_answers (answers id a ∷ ts) p w =
      jobs-late_answers ts _ _ ∙ jobs-answer_call env id a p w
  jobs-late_answers (receives ev ∷ ts) p w = jobs-late_answers ts p w
  jobs-late_answers (ends ∷ ts) p w = jobs-late_answers ts p w

  jobs-release :
      (id : Bytes) (r : World × Leftover) → (release env s id r).store.jobs ≡ r.0.store.jobs
  unfolding release close_session
  jobs-release id (w, none) = refl
  jobs-release id (w, some (p, ts)) = jobs-late_answers ts p _

  module _ (id : Bytes) (j : Job) (cfg : RunConfig) (ts : List Turn) where
    pumped-HasEnded :
        (t : Time) (w : World)
        → IsStored id w.store.jobs
        → HasEnded id (pumped env h s id j cfg t ts w).0.store.jobs
    unfolding pumped
    pumped-HasEnded t w there =
        run-HasEnded env h ts _ _
          (λ gone. there (sym (ap (lookup id) (jobs-append_status env id running [] t w)) ∙ gone))

    -- After the running transition: refused, the job had ended; else the pump ends it.
    started-HasEnded :
        (t : Time) (w : World)
        → IsStored id w.store.jobs
        → HasEnded id
            (after_start env h s id j cfg t ts (update id (start_running t) w)).0.store.jobs
    unfolding update
    started-HasEnded t w there = elim (Option-cases (lookup id w.store.jobs)) [
      | inl e ↦ absurd (there e)
      | inr (i, e) ↦ elim (Result-cases (start_running t i)) [
        | inl ((k, tt'), f) ↦ rw (update_job_written id (start_running t) w.store i k tt' e f) (
            pumped-HasEnded t (record w { store = record store { jobs = insert id k jobs } })
              (IsStored-insert id k jobs))
        | inr (bad, f) ↦
            rw (update_job_refused id (start_running t) w.store i bad e f)
              (refused-HasEnded bad (i, e, start_running_refused t i bad f))
      ]
    ]
      where
        open w use {store}
        open store use {jobs}

        refused-HasEnded :
            (bad : Error)
            → HasEnded id w.store.jobs
            → HasEnded id (after_start env h s id j cfg t ts (err bad, w)).0.store.jobs
        refused-HasEnded bad ended = elim (Bool-cases (is_no_update bad)) [
          | inl n ↦ rw n (subst (λ m. HasEnded id m.jobs) (sym (store-send_cancel w)) ended)
          | inr n ↦ rw n (pumped-HasEnded t w there)
        ]

    sent-HasEnded :
        (r : Result (Unit {0})) (w : World)
        → IsStored id w.store.jobs
        → HasEnded id (after_assignment env h s id j cfg ts (r, w)).0.store.jobs
    unfolding read_clock
    sent-HasEnded (err e) w there = fail_job-HasEnded env id _ w there
    sent-HasEnded (ok _) w there =
        started-HasEnded (env.now w.reads) (record w { reads = w.reads + 1 }) there

  IsStored-as :
      (id : Bytes) (v w : World)
      → v.store ≡ w.store
      → IsStored id w.store.jobs
      → IsStored id v.store.jobs
  IsStored-as id v w e there gone = there (ap (λ m. lookup id m.jobs) (sym e) ∙ gone)

  assigned-HasEnded :
      (id : Bytes) (j : Job) (ts : List Turn) (w : World)
      → IsStored id w.store.jobs
      → HasEnded id (assigned env h s id j ts w).0.store.jobs
  unfolding assigned
  assigned-HasEnded id j ts w there = elim (Result-cases (parse_run_config env j.run_config_json)) [
    | inl (cfg, e) ↦
        rw (e, assigned)
          (sent-HasEnded id j cfg ts _ _ (
            IsStored-as id (session_send env s (assignment cfg) w).1 w
              (store-session_send env s (assignment cfg) w) there))
    | inr (bad, e) ↦
        rw (e, assigned)
          (fail_job-HasEnded env id _ (send_cancel env s w)
            (IsStored-as id (send_cancel env s w) w (store-send_cancel w) there))
  ]

  admitted-HasEnded :
      (id : Bytes) (j : Job) (ts : List Turn) (w : World)
      → lookup id w.store.jobs ≡ some j
      → lookup id w.registry ≡ none
      → HasEnded id (admitted env h s id j ts w).store.jobs
  unfolding admitted
  admitted-HasEnded id j ts w found free = elim (Bool-cases (terminal j.status)) [
    | inl over ↦
        rw over (subst (λ m. HasEnded id m.jobs) (sym (store-send_cancel w)) (j, found, over))
    | inr open' ↦ elim (Bool-cases j.cancel_requested) [
      | inl asked ↦ rw open' (
          rw asked (
            finalise_cancelled-HasEnded env id (send_cancel env s w)
              (IsStored-as id (send_cancel env s w) w (store-send_cancel w) there)))
      | inr kept ↦ rw open' (
          rw kept (
            rw (register_free id s w.registry free) (
              subst (HasEnded id) (sym (jobs-release id (assigned env h s id j ts taken)))
                (assigned-HasEnded id j ts taken there))))
    ]
  ]
    where
      taken : World
      taken = record w { registry = insert id s w.registry }

      there : IsStored id w.store.jobs
      there gone = cc (sym found ∙ gone)

  -- With its own session string the harness is let in as its job's.
  run_task_admits :
      (first : HarnessEvent) (ts : List Turn) (w : World) (j : Job)
      → is_ready (event_kind first.kind) ≡ true
      → first.id ≡ session_string j
      → valid_id j.id ≡ true
      → lookup j.id w.store.jobs ≡ some j
      → run_task env h s (some first) ts w ≡ admitted env h s j.id j ts w
  unfolding run_task get_job
  run_task_admits first ts w j is_first own valid found =
      let whole = session_roundtrip j valid in
      ground (
        arith,
        ap parse_session own ∙ whole.0,
        ap (λ pair. accepts_token j pair.1) (sym whole.0) ∙ whole.1,
        valid_id_nonempty j.id valid,
      )

  -- A harness whose ready event presents the session string of a stored job with a well-formed ID, while no
  -- other session holds the job, leaves
  -- that job ended when its stream is over, whatever comes on the stream and whichever sends fail: also
  -- where the run configuration cannot be read or the job was cancelled or had ended before.
  pub run_task-HasEnded :
      (first : HarnessEvent) (ts : List Turn) (w : World) (j : Job)
      → is_ready (event_kind first.kind) ≡ true
      → first.id ≡ session_string j
      → valid_id j.id ≡ true
      → lookup j.id w.store.jobs ≡ some j
      → lookup j.id w.registry ≡ none
      → HasEnded j.id (run_task env h s (some first) ts w).store.jobs
  run_task-HasEnded first ts w j is_first own valid found free =
      subst (λ v. HasEnded j.id v.store.jobs)
        (sym (run_task_admits first ts w j is_first own valid found))
        (admitted-HasEnded j.id j ts w found free)
