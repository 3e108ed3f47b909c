-- ===== src/Controlplane/Settle.antt =====
-- internal/controlplane: the writes that end a job, and the timeline writes of the pump
-- (controlplane.go, finaliseCancelled and failJob; pump.go, finish and closeUnfinished).
use hairpin.Base.{
  Bool, true, false, none, some, [], Bytes, Result, ok, err, Error, no_update, if◌then◌else◌,
}
use hairpin.Job.{Time, Job, Status, cancelled, failed, status_for_stop_reason}
use hairpin.Proto.{HarnessEvent, ControlEvent}
use hairpin.World.{World, Env, read_clock, append, append_status, update, count_completed}
use hairpin.Lifecycle.{settle_cancelled, settle_failed, settle_done, settle_closed}
use hairpin.Controlplane.{EventPump}

abbrev pub is_no_update : Error → Bool
is_no_update no_update = true
is_no_update _ = false

module _ (env : Env) where
  -- appendStatus and JobCompleted, after the update that settled the job.
  unfoldable pub settled_as : Bytes → Status → Time → World → World
  unfolding append_status count_completed
  settled_as id s at w = count_completed id s (append_status env id s [] at w)

  -- An update that failed, or found the job settled, leaves it at that.
  abbrev pub after_settling : Bytes → Status → Time → Result (Job × Unit {0}) × World → World
  after_settling id s at (ok a, w) = settled_as id s at w
  after_settling id s at (err e, w) = w

  unfoldable pub finalise_cancelled : Bytes → World → World
  unfolding read_clock update settled_as
  finalise_cancelled id w =
      let (at, w1) = read_clock env w in
      after_settling id cancelled at (update id (settle_cancelled at) w1)

  unfoldable pub fail_job : Bytes → Bytes → World → World
  unfolding read_clock update settled_as
  fail_job id reason w =
      let (at, w1) = read_clock env w in
      after_settling id failed at (update id (settle_failed reason at) w1)

  -- appendProto: an event that cannot be encoded is not recorded.
  unfoldable pub append_proto : Bytes → HarnessEvent → Time → World → World
  append_proto id ev at w = elim (env.encode_event ev) [
    | none ↦ w
    | some payload ↦
        append env id (record { id = []; kind = ev.kind; payload_json = payload; at = at }) w
  ]

  unfoldable pub append_control : Bytes → ControlEvent → Time → World → World
  append_control id ev at w = elim (env.encode_control ev) [
    | none ↦ w
    | some payload ↦
        append env id (record { id = []; kind = ev.kind; payload_json = payload; at = at }) w
  ]

  -- What `finish` does after its update: only a job that had settled before ends it there. Another error
  -- is logged, and the outcome is recorded all the same.
  abbrev pub after_finish :
      EventPump → HarnessEvent → Time → Result (Job × Unit {0}) × World → World
  after_finish p ev at (ok a, w) =
      settled_as p.job_id (status_for_stop_reason ev.stop_reason) at (append_proto p.job_id ev at w)
  after_finish p ev at (err e, w) =
      if is_no_update e
      then w
      else settled_as p.job_id (status_for_stop_reason ev.stop_reason) at
          (append_proto p.job_id ev at w)

  unfoldable pub finish : EventPump → HarnessEvent → Time → World → World
  unfolding update settled_as append_proto append
  finish p ev at w = after_finish p ev at (
      update p.job_id
        (settle_done (status_for_stop_reason ev.stop_reason) ev.stop_reason p.err_message
          p.final_text at)
        w)

  abbrev pub after_close : EventPump → Time → Result (Job × Status) × World → World
  after_close p at (ok (j, status), w) = settled_as p.job_id status at w
  after_close p at (err e, w) = w

  unfoldable pub close_unfinished : EventPump → World → World
  unfolding read_clock update settled_as
  close_unfinished p w =
      let (at, w1) = read_clock env w in
      after_close p at
        (update p.job_id (settle_closed p.err_message p.final_text p.last_event_at at) w1)
