-- ===== src/Controlplane/Ending.antt =====
-- internal/controlplane/pump.go: every turn of a stream lets the stored jobs go on, and a pump that returns
-- leaves its own job ended.
use hairpin.Base.{
  ◌+◌, ◌≡◌, refl, ◌∙◌, Bool, true, false, List, [], ◌∷◌, arith, Bytes, if◌then◌else◌, Bool-cases,
  inl, inr, ltb,
}
use hairpin.Job.{Time, Job, time_sub}
use hairpin.Proto.{HarnessEvent}
use hairpin.Memory.{Answer}
use hairpin.World.{World, Env, read_clock}
use hairpin.World.Persist.{Persists, Persists-same, Persists-trans, Advances-of, update-Persists}
use hairpin.Lifecycle.{touch}
use hairpin.Lifecycle.Outcome.{Evolves, seen, change, change-Evolves, after}
use hairpin.Controlplane.{Handler, EventPump}
use hairpin.Controlplane.Settle.{close_unfinished}
use hairpin.Controlplane.Answer.{
  handle_sandbox_token_request, fulfil_tool_result, admit_memory_call,
}
use hairpin.Controlplane.Pump.{
  EventKind, text_delta, permission_request, done, sandbox_token_request, tool_result_request,
  event_kind, append_final_text, buffer_delta, delta_due, flush_deltas, put_request,
  maybe_flush_last_event_at, handle_delta, record_event, then_flushed, handle_as, handle, Turn,
  receives, answers, ends, answer_call, run,
}
use hairpin.Controlplane.Quiet.{jobs-flush_deltas, jobs-record_event, jobs-answer_call}
use hairpin.Controlplane.Progress.{finish-Persists, close_unfinished-Persists}

seen-Evolves : (t : Time) (j : Job) → Evolves j (after j (touch t j))
unfolding change
seen-Evolves t = change-Evolves (seen t)

module _ (env : Env) where
  maybe_flush-Persists :
      (h : Handler) (now : Time) (p : EventPump) (w : World)
      → Persists w.store.jobs (maybe_flush_last_event_at env h now p w).1.store.jobs
  unfolding maybe_flush_last_event_at
  maybe_flush-Persists h now p w =
      elim (Bool-cases (ltb (time_sub now p.last_event_flush) h.last_event_flush)) [
        | inl e ↦ rw e (Persists-same w.store.jobs w.store.jobs refl)
        | inr e ↦ rw e (
            update-Persists p.job_id (touch p.last_event_at) w
              (Advances-of _ (seen-Evolves p.last_event_at)))
      ]

  job_id-flush_deltas : (p : EventPump) (w : World) → (flush_deltas env p w).0.job_id ≡ p.job_id
  unfolding flush_deltas
  job_id-flush_deltas p w = ground arith

  job_id-maybe_flush :
      (h : Handler) (now : Time) (p : EventPump) (w : World)
      → (maybe_flush_last_event_at env h now p w).0.job_id ≡ p.job_id
  unfolding maybe_flush_last_event_at
  job_id-maybe_flush h now p w = ground arith

  job_id-token :
      (h : Handler) (ev : HarnessEvent) (p : EventPump) (w : World)
      → (handle_sandbox_token_request env h ev p w).0.job_id ≡ p.job_id
  unfolding handle_sandbox_token_request
  job_id-token h ev p w = ground arith

  job_id-fulfil :
      (h : Handler) (ev : HarnessEvent) (p : EventPump) (w : World)
      → (fulfil_tool_result env h ev p w).0.job_id ≡ p.job_id
  unfolding fulfil_tool_result admit_memory_call
  job_id-fulfil h ev p w = ground arith

  job_id-answer_call :
      (id : Bytes) (a : Answer) (p : EventPump) (w : World)
      → (answer_call env id a p w).0.job_id ≡ p.job_id
  unfolding answer_call
  job_id-answer_call id a p w = ground arith

  job_id-put_request :
      (ev : HarnessEvent) (at : Time) (p : EventPump) (w : World)
      → (put_request env ev at p w).0.job_id ≡ p.job_id
  unfolding put_request
  job_id-put_request ev at p w = ground arith

  job_id-record_event :
      (h : Handler) (k : EventKind) (ev : HarnessEvent) (now : Time) (p : EventPump) (w : World)
      → (record_event env h k ev now p w).0.job_id ≡ p.job_id
  unfolding record_event
  job_id-record_event h permission_request ev now p w = job_id-put_request ev now p w
  job_id-record_event h sandbox_token_request ev now p w = job_id-token h ev p _
  job_id-record_event h tool_result_request ev now p w = job_id-fulfil h ev p _
  job_id-record_event h _ ev now p w = refl

-- A step from one pump and world to others: the same job, and the stored jobs only went on.
pub record Steps (p : EventPump) (w : World) (q : EventPump) (v : World) : Type 0 where
  pub same_job : q.job_id ≡ p.job_id
  pub goes_on : Persists w.store.jobs v.store.jobs

Steps-trans :
    (p : EventPump) (w : World) (q : EventPump) (v : World) (r : EventPump) (u : World)
    → Steps p w q v
    → Steps q v r u
    → Steps p w r u
Steps-trans p w q v r u a b = record {
  same_job = b.same_job ∙ a.same_job;
  goes_on = Persists-trans w.store.jobs v.store.jobs u.store.jobs a.goes_on b.goes_on;
}

Steps-quiet :
    (p : EventPump) (w : World) (q : EventPump) (v : World)
    → q.job_id ≡ p.job_id
    → v.store.jobs ≡ w.store.jobs
    → Steps p w q v
Steps-quiet p w q v i e = record {
  same_job = i;
  goes_on = Persists-same w.store.jobs v.store.jobs e;
}

module _ (env : Env) where
  pub flush_deltas-Steps :
      (p : EventPump) (w : World) → Steps p w (flush_deltas env p w).0 (flush_deltas env p w).1
  flush_deltas-Steps p w =
      Steps-quiet p w _ _ (job_id-flush_deltas env p w) (jobs-flush_deltas env p w)

  maybe_flush-Steps :
      (h : Handler) (now : Time) (p : EventPump) (w : World)
      → Steps p w
          (maybe_flush_last_event_at env h now p w).0
          (maybe_flush_last_event_at env h now p w).1
  maybe_flush-Steps h now p w = record {
    same_job = job_id-maybe_flush env h now p w;
    goes_on = maybe_flush-Persists env h now p w;
  }

  flushed_if-Steps :
      (b : Bool) (p : EventPump) (w : World)
      → Steps p w
          (if b then flush_deltas env p w else (p, w)).0
          (if b then flush_deltas env p w else (p, w)).1
  flushed_if-Steps true p w = flush_deltas-Steps p w
  flushed_if-Steps false p w = Steps-quiet p w p w refl refl

  handle_delta-Steps :
      (h : Handler) (ev : HarnessEvent) (now : Time) (p : EventPump) (w : World)
      → Steps p w (handle_delta env h ev now p w).0 (handle_delta env h ev now p w).1
  unfolding handle_delta
  handle_delta-Steps h ev now p w =
      let p1 = buffer_delta ev.text now (append_final_text h ev.text p) in
      let r = if delta_due h now p1 then flush_deltas env p1 w else (p1, w) in
      Steps-trans p w p1 w _ _ (Steps-quiet p w p1 w (ground arith) refl) (
        Steps-trans p1 w r.0 r.1 _ _ (flushed_if-Steps (delta_due h now p1) p1 w)
          (maybe_flush-Steps h now r.0 r.1))

  recorded-Steps :
      (h : Handler) (k : EventKind) (ev : HarnessEvent) (now : Time) (p : EventPump) (w : World)
      → let f = flush_deltas env p w in
        let r = then_flushed env h now (record_event env h k ev now f.0 f.1) in Steps p w r.0 r.1
  recorded-Steps h k ev now p w =
      let f = flush_deltas env p w in
      let r = record_event env h k ev now f.0 f.1 in
      Steps-trans p w f.0 f.1 _ _ (flush_deltas-Steps p w) (
        Steps-trans f.0 f.1 r.0 r.1 _ _
          (Steps-quiet f.0 f.1 r.0 r.1 (job_id-record_event env h k ev now f.0 f.1)
            (jobs-record_event env h k ev now f.0 f.1))
          (maybe_flush-Steps h now r.0 r.1))

  handle_as-Steps :
      (h : Handler) (k : EventKind) (ev : HarnessEvent) (now : Time) (p : EventPump) (w : World)
      → Steps p w (handle_as env h k ev now p w).0 (handle_as env h k ev now p w).1
  unfolding handle_as
  handle_as-Steps h text_delta ev now p w = handle_delta-Steps h ev now p w
  handle_as-Steps h done ev now p w =
      let f = flush_deltas env p w in
      record {
        same_job = job_id-flush_deltas env p w;
        goes_on =
            Persists-trans w.store.jobs f.1.store.jobs _ (flush_deltas-Steps p w).goes_on
              (finish-Persists env f.0 ev now f.1);
      }
  handle_as-Steps h k ev now p w = recorded-Steps h k ev now p w

  pub handle-Steps :
      (h : Handler) (ev : HarnessEvent) (p : EventPump) (w : World)
      → Steps p w (handle env h ev p w).0 (handle env h ev p w).1
  unfolding handle read_clock
  handle-Steps h ev p w =
      let now = env.now w.reads in
      let p1 = record p { last_event_at = now } in
      let w1 = record w { reads = w.reads + 1 } in
      Steps-trans p w p1 w1 _ _ (Steps-quiet p w p1 w1 refl refl)
        (handle_as-Steps h (event_kind ev.kind) ev now p1 w1)

  pub answer_call-Steps :
      (id : Bytes) (a : Answer) (p : EventPump) (w : World)
      → Steps p w (answer_call env id a p w).0 (answer_call env id a p w).1
  answer_call-Steps id a p w =
      Steps-quiet p w _ _ (job_id-answer_call env id a p w) (jobs-answer_call env id a p w)

  closed-Steps :
      (p : EventPump) (w : World)
      → let f = flush_deltas env p w in Steps p w f.0 (close_unfinished env f.0 f.1)
  closed-Steps p w =
      let f = flush_deltas env p w in
      record {
        same_job = job_id-flush_deltas env p w;
        goes_on =
            Persists-trans w.store.jobs f.1.store.jobs _ (flush_deltas-Steps p w).goes_on
              (close_unfinished-Persists env f.0 f.1);
      }

  -- Whatever a stream brings, every stored job only goes on: `Evolves` says what stays, an ended job's
  -- outcome above all.
  pub run-Steps :
      (h : Handler) (ts : List Turn) (p : EventPump) (w : World)
      → Steps p w (run env h ts p w).0 (run env h ts p w).1
  unfolding run
  run-Steps h [] p w = closed-Steps p w
  run-Steps h (ends ∷ ts) p w = closed-Steps p w
  run-Steps h (answers id a ∷ ts) p w =
      let r = answer_call env id a p w in
      Steps-trans p w r.0 r.1 _ _ (answer_call-Steps id a p w) (run-Steps h ts r.0 r.1)
  run-Steps h (receives ev ∷ ts) p w =
      let r = handle env h ev p w in
      Steps-trans p w r.0 r.1 _ _ (handle-Steps h ev p w) (ended_or r.2 (run-Steps h ts r.0 r.1))
    where
      ended_or :
          (b : Bool)
          → Steps
              (handle env h ev p w).0
              (handle env h ev p w).1
              (run env h ts (handle env h ev p w).0 (handle env h ev p w).1).0
              (run env h ts (handle env h ev p w).0 (handle env h ev p w).1).1
          → Steps
              (handle env h ev p w).0
              (handle env h ev p w).1
              (if b
                then ((handle env h ev p w).0, (handle env h ev p w).1, ts)
                else run env h ts (handle env h ev p w).0 (handle env h ev p w).1).0
              (if b
                then ((handle env h ev p w).0, (handle env h ev p w).1, ts)
                else run env h ts (handle env h ev p w).0 (handle env h ev p w).1).1
      ended_or true s = Steps-quiet _ _ _ _ refl refl
      ended_or false s = s
