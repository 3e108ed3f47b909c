-- ===== src/Controlplane/Pump.antt =====
-- internal/controlplane/pump.go: one harness event at a time, and the loop over a stream's events.
use hairpin.Base.{
  ◌+◌, ◌-◌, Bool, true, false, ◌||◌, Option, none, some, List, [], ◌∷◌, ◌++◌, Bytes, text, bytes_eq,
  is_empty, ltb, leb, length, take, if◌then◌else◌, ◌==◌,
}
use hairpin.Job.{Time, time_sub}
use hairpin.Proto.{HarnessEvent}
use hairpin.Store.{PermissionRequest, pending}
use hairpin.Store.Mem.Permissions.{put_permission}
use hairpin.World.{World, Env, read_clock, append, update}
use hairpin.Lifecycle.{touch}
use hairpin.Memory.{Answer}
use hairpin.Controlplane.{Handler, EventPump, MemoryCall, max_permission_requests}
use hairpin.Controlplane.Settle.{append_proto, finish, close_unfinished}
use hairpin.Controlplane.Answer.{handle_sandbox_token_request, fulfil_tool_result, finish_call}

-- HarnessEvent.type, as `handle` tells the values apart.
pub data EventKind : Type 0 where
  ready text_delta tool_call tool_result heartbeat permission_request : EventKind
  error warning done sandbox_token_request batch_submission tool_result_request : EventKind
  unknown : EventKind

unfoldable pub event_kind : Bytes → EventKind
event_kind k =
    if bytes_eq k (text "text_delta")
    then text_delta
    else if bytes_eq k (text "done")
    then done
    else if bytes_eq k (text "heartbeat")
    then heartbeat
    else if bytes_eq k (text "tool_call")
    then tool_call
    else if bytes_eq k (text "tool_result")
    then tool_result
    else if bytes_eq k (text "permission_request")
    then permission_request
    else if bytes_eq k (text "error")
    then error
    else if bytes_eq k (text "warning")
    then warning
    else if bytes_eq k (text "sandbox_token_request")
    then sandbox_token_request
    else if bytes_eq k (text "tool_result_request")
    then tool_result_request
    else if bytes_eq k (text "batch_submission")
    then batch_submission
    else if bytes_eq k (text "ready")
    then ready
    else unknown

-- appendFinalText: what still fits below the cap.
unfoldable pub append_final_text : Handler → Bytes → EventPump → EventPump
append_final_text h t p =
    let room = h.max_final_text - length p.final_text in
    if room == 0
    then p
    else record p { final_text = p.final_text ++ (if ltb room (length t) then take room t else t) }

-- The event that one flush records.
unfoldable pub merged_delta : Bytes → HarnessEvent
merged_delta t = record {
  kind = text "text_delta";
  id = [];
  text = t;
  request_id = [];
  tool_name = [];
  input = [];
  message = [];
  stop_reason = [];
  audience = [];
}

-- The buffered fragment of a text_delta event, and whether the buffer is due.
unfoldable pub buffer_delta : Bytes → Time → EventPump → EventPump
buffer_delta t now p = record p {
  deltas_from = if is_empty p.deltas then now else p.deltas_from;
  deltas = p.deltas ++ t;
}

unfoldable pub delta_due : Handler → Time → EventPump → Bool
delta_due h now p =
    leb h.delta_flush_bytes (length p.deltas)
    || leb h.delta_flush_every (time_sub now p.deltas_from)

module _ (env : Env) where
  -- flushDeltas.
  unfoldable pub flush_deltas : EventPump → World → EventPump × World
  unfolding read_clock append_proto append merged_delta
  flush_deltas p w =
      if is_empty p.deltas
      then (p, w)
      else let (at, w1) = read_clock env w in
        (record p { deltas = [] }, append_proto env p.job_id (merged_delta p.deltas) at w1)

  -- putPermission; a write that fails is logged.
  unfoldable pub put_request : HarnessEvent → Time → EventPump → World → EventPump × World
  put_request ev at p w =
      if leb max_permission_requests p.permissions_seen
      then (p, w)
      else let req : PermissionRequest = record {
        request_id = ev.request_id;
        tool_name = ev.tool_name;
        input_json = ev.input;
        state = pending;
        reason = [];
        requested_at = at;
        answered_at = 0;
      } in
        (
          record p { permissions_seen = p.permissions_seen + 1 },
          record w { store = (put_permission p.job_id req w.store).1 },
        )

  -- maybeFlushLastEventAt.
  unfoldable pub maybe_flush_last_event_at : Handler → Time → EventPump → World → EventPump × World
  unfolding update
  maybe_flush_last_event_at h now p w =
      if ltb (time_sub now p.last_event_flush) h.last_event_flush
      then (p, w)
      else (record p { last_event_flush = now }, (update p.job_id (touch p.last_event_at) w).1)

  unfoldable pub handle_delta :
      Handler → HarnessEvent → Time → EventPump → World → EventPump × World
  unfolding append_final_text buffer_delta delta_due flush_deltas maybe_flush_last_event_at
  handle_delta h ev now p w =
      let p1 = buffer_delta ev.text now (append_final_text h ev.text p) in
      let (p2, w2) = if delta_due h now p1 then flush_deltas p1 w else (p1, w) in
      maybe_flush_last_event_at h now p2 w2

  -- The second switch of `handle`, after the buffered text was flushed.
  unfoldable pub record_event :
      Handler → EventKind → HarnessEvent → Time → EventPump → World → EventPump × World
  unfolding put_request append_proto append
  record_event h heartbeat ev now p w = (
    p,
    append env p.job_id (record { id = []; kind = text "heartbeat"; payload_json = []; at = now })
        w,
  )
  record_event h permission_request ev now p w =
      let (p1, w1) = put_request ev now p w in (p1, append_proto env p.job_id ev now w1)
  record_event h error ev now p w =
      (record p { err_message = ev.message }, append_proto env p.job_id ev now w)
  record_event h sandbox_token_request ev now p w =
      handle_sandbox_token_request env h ev p (append_proto env p.job_id ev now w)
  record_event h tool_result_request ev now p w =
      fulfil_tool_result env h ev p (append_proto env p.job_id ev now w)
  record_event h ready ev now p w = (p, w)
  record_event h _ ev now p w = (p, append_proto env p.job_id ev now w)

  -- handle: the flag says that the run reached its done event.
  abbrev pub then_flushed : Handler → Time → EventPump × World → EventPump × World × Bool
  then_flushed h now (p, w) = let (p1, w1) = maybe_flush_last_event_at h now p w in (p1, w1, false)

  unfoldable pub handle_as :
      Handler → EventKind → HarnessEvent → Time → EventPump → World → EventPump × World × Bool
  unfolding handle_delta flush_deltas finish record_event maybe_flush_last_event_at
  handle_as h text_delta ev now p w = let (p1, w1) = handle_delta h ev now p w in (p1, w1, false)
  handle_as h done ev now p w =
      let (p1, w1) = flush_deltas p w in (p1, finish env p1 ev now w1, true)
  handle_as h k ev now p w =
      let (p1, w1) = flush_deltas p w in then_flushed h now (record_event h k ev now p1 w1)

  unfoldable pub handle : Handler → HarnessEvent → EventPump → World → EventPump × World × Bool
  unfolding read_clock handle_as event_kind
  handle h ev p w =
      let (now, w1) = read_clock env w in
      handle_as h (event_kind ev.kind) ev now (record p { last_event_at = now }) w1

-- What happens on a stream, in order: an event is received, a memory call that runs gets its answer, or the
-- stream ends. Events after the end of the list count as an end.
pub data Turn : Type 0 where
  receives : HarnessEvent → Turn
  answers : Bytes → Answer → Turn
  ends : Turn

unfoldable pub find_call : Bytes → List MemoryCall → Option MemoryCall
find_call request_id [] = none
find_call request_id (c ∷ cs) =
    if bytes_eq c.request_id request_id then some c else find_call request_id cs

module _ (env : Env) where
  -- The goroutine of a running call ends with this answer.
  unfoldable pub answer_call : Bytes → Answer → EventPump → World → EventPump × World
  unfolding finish_call find_call
  answer_call request_id answer p w = elim (find_call request_id p.running_calls) [
    | none ↦ (p, w)
    | some c ↦ finish_call env c answer p w
  ]

  -- run: the pump reads until the stream ends or the run is done; the turns that are left come after it
  -- returned.
  unfoldable pub run : Handler → List Turn → EventPump → World → EventPump × World × List Turn
  unfolding handle flush_deltas close_unfinished answer_call
  run h [] p w = let (p1, w1) = flush_deltas env p w in (p1, close_unfinished env p1 w1, [])
  run h (ends ∷ ts) p w =
      let (p1, w1) = flush_deltas env p w in (p1, close_unfinished env p1 w1, ts)
  run h (answers request_id answer ∷ ts) p w =
      let (p1, w1) = answer_call request_id answer p w in run h ts p1 w1
  run h (receives ev ∷ ts) p w =
      let (p1, w1, ended) = handle env h ev p w in
      let rest = run h ts p1 w1 in if ended then (p1, w1, ts) else rest

  -- The memory calls that outlive the pump: nothing more is received, but their answers are recorded.
  unfoldable pub late_answers : List Turn → EventPump → World → EventPump × World
  unfolding answer_call
  late_answers [] p w = (p, w)
  late_answers (answers request_id answer ∷ ts) p w =
      let (p1, w1) = answer_call request_id answer p w in late_answers ts p1 w1
  late_answers (_ ∷ ts) p w = late_answers ts p w
