-- ===== src/Controlplane/Outcome.antt =====
-- internal/controlplane/pump.go: a pump that returns has ended its job, however its stream went.
use mathlib.Core.Path.{subst}
use hairpin.Base.{
  ◌+◌, ◌≡◌, ◌≢◌, true, Assoc, none, List, [], ◌∷◌, Bytes, lookup, Option-cases, Bool-cases, inl,
  inr,
}
use hairpin.Job.{Time, Job}
use hairpin.Proto.{HarnessEvent}
use hairpin.World.{World, Env, read_clock}
use hairpin.World.Persist.{Persists}
use hairpin.Controlplane.{Handler, EventPump}
use hairpin.Controlplane.Settle.{finish, close_unfinished}
use hairpin.Controlplane.Pump.{
  EventKind, text_delta, done, event_kind, flush_deltas, handle_as, handle, Turn, receives, answers,
  ends, answer_call, run,
}
use hairpin.Controlplane.Progress.{HasEnded, finish-HasEnded, close_unfinished-HasEnded}
use hairpin.Controlplane.Ending.{Steps, flush_deltas-Steps, handle-Steps, answer_call-Steps}

abbrev pub IsStored : Bytes → Assoc Job → Type 0
IsStored id m = lookup id m ≢ none

pub IsStored-Persists :
    (id : Bytes) (m n : Assoc Job) → Persists m n → IsStored id m → IsStored id n
IsStored-Persists id m n p there gone = elim (Option-cases (lookup id m)) [
  | inl e ↦ there e
  | inr (j, e) ↦ let (k, f, v) = p id j e in cc
]

IsStored-Steps :
    (p : EventPump) (w : World) (q : EventPump) (v : World)
    → Steps p w q v
    → IsStored p.job_id w.store.jobs
    → IsStored q.job_id v.store.jobs
IsStored-Steps p w q v s there =
    rw s.same_job (IsStored-Persists p.job_id w.store.jobs v.store.jobs s.goes_on there)

module _ (env : Env) (h : Handler) where
  handle_as-HasEnded :
      (k : EventKind) (ev : HarnessEvent) (now : Time) (p : EventPump) (w : World)
      → IsStored p.job_id w.store.jobs
      → (handle_as env h k ev now p w).2 ≡ true
      → HasEnded p.job_id (handle_as env h k ev now p w).1.store.jobs
  unfolding handle_as
  handle_as-HasEnded text_delta ev now p w there e = cc
  handle_as-HasEnded done ev now p w there e =
      let f = flush_deltas env p w in
      let s = flush_deltas-Steps env p w in
      subst (λ id. HasEnded id (finish env f.0 ev now f.1).store.jobs) s.same_job
        (finish-HasEnded env f.0 ev now f.1 (IsStored-Steps p w f.0 f.1 s there))
  handle_as-HasEnded k ev now p w there e = cc

  handle-HasEnded :
      (ev : HarnessEvent) (p : EventPump) (w : World)
      → IsStored p.job_id w.store.jobs
      → (handle env h ev p w).2 ≡ true
      → HasEnded p.job_id (handle env h ev p w).1.store.jobs
  unfolding handle read_clock
  handle-HasEnded ev p w there e =
      handle_as-HasEnded (event_kind ev.kind) ev (env.now w.reads)
        (record p { last_event_at = env.now w.reads }) (record w { reads = w.reads + 1 }) there e

  closed-HasEnded :
      (p : EventPump) (w : World)
      → IsStored p.job_id w.store.jobs
      → let f = flush_deltas env p w in HasEnded p.job_id (close_unfinished env f.0 f.1).store.jobs
  closed-HasEnded p w there =
      let f = flush_deltas env p w in
      let s = flush_deltas-Steps env p w in
      subst (λ id. HasEnded id (close_unfinished env f.0 f.1).store.jobs) s.same_job
        (close_unfinished-HasEnded env f.0 f.1 (IsStored-Steps p w f.0 f.1 s there))

  -- However a stream goes, by events of any kinds in any order and by an end at any point, the pump
  -- returns with its job ended, if the job was stored when it started.
  pub run-HasEnded :
      (ts : List Turn) (p : EventPump) (w : World)
      → IsStored p.job_id w.store.jobs
      → HasEnded p.job_id (run env h ts p w).1.store.jobs
  unfolding run
  run-HasEnded [] p w there = closed-HasEnded p w there
  run-HasEnded (ends ∷ ts) p w there = closed-HasEnded p w there
  run-HasEnded (answers id a ∷ ts) p w there =
      let r = answer_call env id a p w in
      let s = answer_call-Steps env id a p w in
      subst (λ i. HasEnded i (run env h ts r.0 r.1).1.store.jobs) s.same_job
        (run-HasEnded ts r.0 r.1 (IsStored-Steps p w r.0 r.1 s there))
  run-HasEnded (receives ev ∷ ts) p w there =
      let r = handle env h ev p w in
      let s = handle-Steps env h ev p w in
      let later =
        subst (λ i. HasEnded i (run env h ts r.0 r.1).1.store.jobs) s.same_job
          (run-HasEnded ts r.0 r.1 (IsStored-Steps p w r.0 r.1 s there)) in
      elim (Bool-cases r.2) [ inl e ↦ rw e (handle-HasEnded ev p w there e) | inr e ↦ rw e later ]
