-- ===== src/Lifecycle.antt =====
-- Every change that a part of hairpin makes to a stored job's record: the callbacks that
-- internal/controlplane, internal/service and internal/reaper hand to the store's UpdateJob. The store
-- applies each in one step, so a job's history is a sequence of these changes, whatever the goroutines do.
pub mod Outcome
pub mod Coherence
use hairpin.Base.{
  ℕ, Bool, true, false, List, [], ◌∷◌, ◌++◌, Bytes, text, is_empty, Result, ok, err, no_update,
  if◌then◌else◌,
}
use hairpin.Job.{
  Time, Job, Status, queued, launching, awaiting_harness, running, succeeded, failed, cancelled,
  other, same_status, terminal,
}

-- controlplane.go, runTask: the task was assigned.
unfoldable pub start_running : Time → Job → Result (Job × Unit {0})
start_running started j =
    if terminal j.status
    then err no_update
    else ok (record j { status = running; started_at = started; last_event_at = started }, tt)

-- controlplane.go, finaliseCancelled.
unfoldable pub settle_cancelled : Time → Job → Result (Job × Unit {0})
settle_cancelled at j =
    if terminal j.status
    then err no_update
    else ok (
      record j {
        status = cancelled;
        stop_reason = if is_empty j.stop_reason then text "cancelled" else j.stop_reason;
        finished_at = at;
      },
      tt,
    )

-- controlplane.go, failJob.
unfoldable pub settle_failed : Bytes → Time → Job → Result (Job × Unit {0})
settle_failed reason at j =
    if terminal j.status
    then err no_update
    else ok (record j { status = failed; error = reason; finished_at = at }, tt)

-- pump.go, finish.
unfoldable pub settle_done : Status → Bytes → Bytes → Bytes → Time → Job → Result (Job × Unit {0})
settle_done status stop_reason err_msg final at j =
    if terminal j.status
    then err no_update
    else ok (
      record j {
        status = status;
        stop_reason = stop_reason;
        error = if is_empty err_msg then j.error else err_msg;
        final_text = final;
        finished_at = at;
        last_event_at = at;
      },
      tt,
    )

unfoldable pub msg_stream_closed : Bytes
msg_stream_closed = text "harness stream closed without done"

-- pump.go, closeUnfinished; the status that it settles on is kept for the timeline.
unfoldable pub settle_closed : Bytes → Bytes → Time → Time → Job → Result (Job × Status)
settle_closed err_msg final last_event_at at j =
    if terminal j.status
    then err no_update
    else if j.cancel_requested
    then ok (
      record j {
        status = cancelled;
        stop_reason = if is_empty j.stop_reason then text "cancelled" else j.stop_reason;
        final_text = final;
        finished_at = at;
        last_event_at = last_event_at;
      },
      cancelled,
    )
    else ok (
      record j {
        status = failed;
        error =
            if is_empty err_msg
            then msg_stream_closed
            else msg_stream_closed ++ text "; last error: " ++ err_msg;
        final_text = final;
        finished_at = at;
        last_event_at = last_event_at;
      },
      failed,
    )

-- pump.go, maybeFlushLastEventAt.
unfoldable pub touch : Time → Job → Result (Job × Unit {0})
touch seen j = ok (record j { last_event_at = seen }, tt)

-- submit.go, transition; the flag says whether the job was moved.
unfoldable pub move_status : Status → Status → Bytes → Time → Job → Result (Job × Bool)
move_status from to err_text now j =
    if same_status j.status from
    then ok (
      record j {
        status = to;
        error = if is_empty err_text then j.error else err_text;
        finished_at = if terminal to then now else j.finished_at;
      },
      true,
    )
    else ok (j, false)

-- service.go, Cancel with a live session.
unfoldable pub request_cancel : Job → Result (Job × Unit {0})
request_cancel j = ok (record j { cancel_requested = true }, tt)

-- service.go, cancelUnassigned.
unfoldable pub cancel_now : Time → Job → Result (Job × Bool)
cancel_now now j =
    if terminal j.status
    then ok (j, false)
    else ok (record j { status = cancelled; cancel_requested = true; finished_at = now }, true)

unfoldable pub stuck_harness_error : Bytes
stuck_harness_error = text "harness never connected before deadline"

-- reaper.go, failStuckHarness.
unfoldable pub fail_stuck : Time → Job → Result (Job × Bool)
fail_stuck now j =
    if same_status j.status awaiting_harness
    then ok (record j { status = failed; error = stuck_harness_error; finished_at = now }, true)
    else ok (j, false)
