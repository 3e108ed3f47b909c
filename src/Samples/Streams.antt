-- ===== src/Samples/Streams.antt =====
-- Concrete uses of the theorems on harness streams, timelines and memory calls.
use hairpin.Base.{
  ℕ, ◌≡◌, refl, false, some, List, [], ◌∷◌, text, bytes_eq, is_empty, ok, lookup, arith,
}
use hairpin.Job.{valid_id, parse_session, session_string}
use hairpin.Proto.{HarnessEvent}
use hairpin.Store.{Event}
use hairpin.Store.StreamId.{format_id, stream_id_less, pair_less, scan_id}
use hairpin.Store.StreamId.Order.{stream_id_less-format_id}
use hairpin.Store.Mem.{MemStore, get_job}
use hairpin.Store.Mem.Timeline.{append_event, read_events, unix_milli, event_time}
use hairpin.Store.Mem.Timeline.Resume.{IsTimely}
use hairpin.Store.Mem.Timeline.Clock.{append_event-IsTimely, late_event_unseen}
use hairpin.Controlplane.{EventPump, Handler, new_pump}
use hairpin.Controlplane.Pump.{receives, ends, ready, event_kind, run}
use hairpin.Controlplane.Stream.{run_task, send_cancel}
use hairpin.Controlplane.Progress.{HasEnded}
use hairpin.Controlplane.Ending.{Steps, run-Steps}
use hairpin.Controlplane.Outcome.{run-HasEnded}
use hairpin.Controlplane.Handshake.{run_task-HasEnded, run_task_unauthorised}
use hairpin.Samples.{an_id, a_job, a_store, a_world, an_env, a_handler, an_event}

abbrev some_turns : List hairpin.Controlplane.Pump.Turn
some_turns =
    receives an_event
    ∷ receives (record an_event { kind = text "done"; stop_reason = text "success" })
    ∷ ends
    ∷ []

abbrev first_event : HarnessEvent
first_event = record an_event { kind = text "ready"; id = text "hp-00000000000000000000000001.t" }

run_task-HasEnded_example :
    HasEnded
      (a_job.id)
      (run_task an_env a_handler 7 (some first_event) some_turns a_world).store.jobs
unfolding event_kind text bytes_eq session_string valid_id lookup is_empty
run_task-HasEnded_example =
    run_task-HasEnded an_env a_handler 7 first_event some_turns a_world a_job refl refl refl refl
      refl

abbrev a_forgery : HarnessEvent
a_forgery = record an_event { kind = text "ready"; id = text "hp-00000000000000000000000001.x" }

run_task_unauthorised_example :
    run_task an_env a_handler 7 (some a_forgery) some_turns a_world ≡ send_cancel an_env 7 a_world
unfolding get_job parse_session text lookup bytes_eq session_string
run_task_unauthorised_example =
    run_task_unauthorised an_env a_handler 7 a_forgery some_turns a_world a_job refl refl
      (ground arith) (ground arith)

abbrev a_pump : EventPump
unfolding new_pump
a_pump = new_pump 1 an_id 7 [] [] false

run-Steps_example :
    Steps a_pump a_world
      (run an_env a_handler some_turns a_pump a_world).0
      (run an_env a_handler some_turns a_pump a_world).1
run-Steps_example = run-Steps an_env a_handler some_turns a_pump a_world

run-HasEnded_example :
    HasEnded (a_pump.job_id) (run an_env a_handler some_turns a_pump a_world).1.store.jobs
unfolding a_pump text lookup bytes_eq
run-HasEnded_example = run-HasEnded an_env a_handler some_turns a_pump a_world (λ h. ground arith)

abbrev event_at : ℕ → ℕ → Event
unfolding format_id
event_at a b = record { id = format_id a b; kind = text "text_delta"; payload_json = []; at = 1 }

abbrev a_timeline : MemStore
a_timeline = record a_store { events = (an_id, event_at 5 1 ∷ event_at 5 2 ∷ []) ∷ []; seq = 2 }

late_event_unseen_example :
    read_events an_id (event_at 5 2).id 0 (append_event 3 an_id (event_at 0 0) a_timeline).1 ≡ ok []
unfolding event_at text lookup bytes_eq stream_id_less unix_milli scan_id
late_event_unseen_example =
    late_event_unseen 3 an_id (event_at 0 0) a_timeline a_job (event_at 5 1 ∷ []) (event_at 5 2) 5 2
      0 refl refl ((refl, tt), (tt, tt)) refl (ground arith) (omega arith) (omega arith)
      (omega arith)

no_events-IsTimely : IsTimely 0 an_id a_store
unfolding lookup
no_events-IsTimely = record { increasing = tt; by_now = tt }

append_event-IsTimely_example :
    IsTimely (event_time 3 (event_at 0 0)) an_id (append_event 3 an_id (event_at 0 0) a_store).1
unfolding event_at text lookup bytes_eq unix_milli
append_event-IsTimely_example =
    append_event-IsTimely 3 0 an_id an_id (event_at 0 0) a_store (λ h. ground arith) (omega arith)
      (omega arith) (omega arith) no_events-IsTimely no_events-IsTimely

stream_id_less-format_id_example :
    stream_id_less (format_id 9 1) (format_id 10 0) ≡ pair_less (9, 1) (10, 0)
stream_id_less-format_id_example =
    stream_id_less-format_id (9, 1) (10, 0) (omega arith) (omega arith) (omega arith) (omega arith)
