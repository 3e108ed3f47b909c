-- ===== src/Controlplane/Stream.antt =====
-- internal/controlplane/controlplane.go, runTask: one harness connection from its first event to its end.
use hairpin.Base.{
  Bool, true, false, ◌||◌, Option, none, some, List, [], ◌++◌, map, Bytes, text, is_empty, Result,
  ok, err, external, error_text, if◌then◌else◌,
}
use hairpin.Job.{Time, Job, running, terminal, parse_session, accepts_token}
use hairpin.Proto.{HarnessEvent, ControlEvent, RunConfig, ToolConfig}
use hairpin.Registry.{Session, Registry, register, unregister}
use hairpin.Store.Mem.{get_job}
use hairpin.World.{
  World, Env, read_clock, append_status, update, stream_send, session_send, close_session,
}
use hairpin.Lifecycle.{start_running}
use hairpin.Controlplane.{Handler, EventPump, new_pump}
use hairpin.Controlplane.Settle.{is_no_update, finalise_cancelled, fail_job}
use hairpin.Controlplane.Pump.{EventKind, ready, event_kind, Turn, run, late_answers}

abbrev pub control : Bytes → Option RunConfig → ControlEvent
control kind task = record {
  kind = kind;
  task = task;
  request_id = [];
  content = [];
  token = [];
  is_error = none;
  allowed = none;
  reason = [];
  expires_at = none;
}

unfoldable pub cancel_event : ControlEvent
cancel_event = control (text "cancel") none

unfoldable pub assignment : RunConfig → ControlEvent
assignment cfg = control (text "task_assignment") (some cfg)

-- declaredControlPlaneTools.
unfoldable pub declared_control_plane_tools : RunConfig → List Bytes
declared_control_plane_tools cfg = map (λ (t : ToolConfig). t.name) cfg.control_plane_tools

abbrev pub declares_identity : RunConfig → Bool
declares_identity cfg = elim cfg.executor [ none ↦ false | some ex ↦ ex.sandbox_identity ]

abbrev pub is_ready : EventKind → Bool
is_ready ready = true
is_ready _ = false

-- What is left of a stream when its handler returns: the pump, if it ran, and the turns after it.
abbrev pub Leftover : Type 0
Leftover = Option (EventPump × List Turn)

module _ (env : Env) where
  -- parseRunConfig.
  unfoldable pub parse_run_config : Bytes → Result RunConfig
  parse_run_config json =
      if is_empty json
      then err (external (text "run config is empty"))
      else env.decode_known_config json

  -- sendCancel; a failed send is logged.
  unfoldable pub send_cancel : Session → World → World
  unfolding stream_send cancel_event
  send_cancel s w = (stream_send env s cancel_event w).1

  -- The end of runTask: the status event and the pump.
  unfoldable pub pumped :
      Handler → Session → Bytes → Job → RunConfig → Time → List Turn → World → World × Leftover
  unfolding append_status read_clock declared_control_plane_tools new_pump run
  pumped h s id j cfg started ts w =
      let w1 = append_status env id running [] started w in
      let (now, w2) = read_clock env w1 in
      let p =
        new_pump now id s (declared_control_plane_tools cfg) j.repo_scope (declares_identity cfg) in
      let (p1, w3, rest) = run env h ts p w2 in (w3, some (p1, rest))

  -- A job that settled since the check keeps its outcome, and the harness is cancelled. Another error
  -- of the update is logged.
  abbrev pub after_start :
      Handler
      → Session
      → Bytes
      → Job
      → RunConfig
      → Time
      → List Turn
      → Result (Job × Unit {0}) × World
      → World × Leftover
  after_start h s id j cfg started ts (ok a, w) = pumped h s id j cfg started ts w
  after_start h s id j cfg started ts (err e, w) =
      if is_no_update e then (send_cancel s w, none) else pumped h s id j cfg started ts w

  abbrev pub after_assignment :
      Handler
      → Session
      → Bytes
      → Job
      → RunConfig
      → List Turn
      → Result (Unit {0}) × World
      → World × Leftover
  after_assignment h s id j cfg ts (err e, w) =
      (fail_job env id (text "failed to send task assignment: " ++ error_text e) w, none)
  after_assignment h s id j cfg ts (ok _, w) =
      let (started, w1) = read_clock env w in
      after_start h s id j cfg started ts (update id (start_running started) w1)

  -- A registered session: its run configuration is sent as the task.
  unfoldable pub assigned : Handler → Session → Bytes → Job → List Turn → World → World × Leftover
  unfolding parse_run_config send_cancel fail_job session_send assignment pumped read_clock update
  assigned h s id j ts w = elim (parse_run_config j.run_config_json) [
    | err e ↦ (
      fail_job env id (text "stored run config is not a valid RunConfig: " ++ error_text e)
          (send_cancel s w),
      none,
    )
    | ok cfg ↦ after_assignment h s id j cfg ts (session_send env s (assignment cfg) w)
  ]

  -- The deferred end of a registered session, and what its memory calls still do.
  abbrev pub late : World → Leftover → World
  late w none = w
  late w (some (p, ts)) = (late_answers env ts p w).1

  unfoldable pub release : Session → Bytes → World × Leftover → World
  unfolding close_session late_answers
  release s id (w, left) =
      let w1 = close_session s w in late (record w1 { registry = unregister id s w1.registry }) left

  abbrev pub after_register :
      Handler → Session → Bytes → Job → List Turn → World → Result (Unit {0}) × Registry → World
  after_register h s id j ts w (err e, r) = send_cancel s w
  after_register h s id j ts w (ok _, r) =
      release s id (assigned h s id j ts (record w { registry = r }))

  -- A harness that presented a job's token.
  unfoldable pub admitted : Handler → Session → Bytes → Job → List Turn → World → World
  unfolding send_cancel finalise_cancelled assigned release
  admitted h s id j ts w =
      if terminal j.status || j.cancel_requested
      then (let w1 = send_cancel s w in
          if terminal j.status then w1 else finalise_cancelled env id w1)
      else after_register h s id j ts w (register id s w.registry)

  abbrev pub claimed : Handler → Session → Bytes → Bytes → List Turn → World → Result Job → World
  claimed h s id token ts w (err e) = send_cancel s w
  claimed h s id token ts w (ok j) =
      if accepts_token j token then admitted h s id j ts w else send_cancel s w

  -- runTask on the stream of session `s`: its first event, or none if it closed before one, and what comes
  -- after it.
  unfoldable pub run_task : Handler → Session → Option HarnessEvent → List Turn → World → World
  unfolding send_cancel admitted
  run_task h s none ts w = w
  run_task h s (some first) ts w =
      let (id, token) = parse_session first.id in
      if is_ready (event_kind first.kind)
      then (if is_empty id then send_cancel s w else claimed h s id token ts w (get_job id w.store))
      else send_cancel s w
