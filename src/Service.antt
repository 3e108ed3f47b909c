-- ===== src/Service.antt =====
-- internal/service/service.go and submit.go: what a caller may ask of a job after it was submitted, and the
-- launch of its harness. A wrapped error is written as the error that it wraps.
pub mod Executor
pub mod Submit
pub mod Profiles
pub mod Cancelling
pub mod Answering
pub mod Launching
pub mod Watch
use hairpin.Base.{
  Bool, true, false, not, Option, none, some, List, [], ◌∷◌, ◌++◌, Bytes, text, Result, ok, err,
  Error, invalid_argument, not_connected, error_text, if◌then◌else◌,
}
use hairpin.Job.{
  Time, Job, Status, queued, launching, awaiting_harness, failed, cancelled, terminal, valid_id,
}
use hairpin.Proto.{ControlEvent}
use hairpin.Registry.{connected}
use hairpin.Store.{PermissionRequest, PermissionState, pending, allowed, denied}
use hairpin.Store.Mem.{get_job}
use hairpin.Store.Mem.Listing.{list_jobs}
use hairpin.Store.Mem.Permissions.{put_permission, get_permission, list_permissions, is_pending}
use hairpin.World.{World, Env, read_clock, append_status, update, registry_send, count_completed}
use hairpin.Lifecycle.{request_cancel, cancel_now, move_status}
use hairpin.Controlplane.Stream.{control, cancel_event}

-- checkID.
unfoldable pub check_id : Bytes → Result (Unit {0})
check_id id = if valid_id id then ok tt else err invalid_argument

unfoldable pub get : Bytes → World → Result Job
unfolding check_id
get id w = elim (check_id id) [ err e ↦ err e | ok _ ↦ get_job id w.store ]

unfoldable pub list_permissions_of : Bytes → World → Result (List PermissionRequest)
unfolding check_id
list_permissions_of id w = elim (check_id id) [
  | err e ↦ err e
  | ok _ ↦ ok (list_permissions id w.store)
]

abbrev pub is_not_connected : Error → Bool
is_not_connected not_connected = true
is_not_connected _ = false

unfoldable pub permission_response : Bytes → Bool → Bytes → ControlEvent
permission_response request_id allow reason = record (control (text "permission_response") none) {
  request_id = request_id;
  allowed = some allow;
  reason = reason;
}

unfoldable pub answered_as : Bool → Bytes → Time → PermissionRequest → PermissionRequest
answered_as allow reason at p = record p {
  state = if allow then allowed else denied;
  reason = reason;
  answered_at = at;
}

module _ (env : Env) where
  abbrev pub after_cancel_now : Bytes → Result (Job × Bool) × World → Result Job × World
  after_cancel_now id (err e, w) = (err e, w)
  after_cancel_now id (ok (j, false), w) = (ok j, w)
  after_cancel_now id (ok (j, true), w) =
      let (at, w1) = read_clock env w in
      (ok j, count_completed id cancelled (append_status env id cancelled [] at w1))

  -- cancelUnassigned.
  unfoldable pub cancel_unassigned : Bytes → World → Result Job × World
  unfolding read_clock update append_status count_completed
  cancel_unassigned id w =
      let (now, w1) = read_clock env w in after_cancel_now id (update id (cancel_now now) w1)

  abbrev pub after_cancel_sent : Bytes → Job → Result (Unit {0}) × World → Result Job × World
  after_cancel_sent id j (ok _, w) = (ok j, w)
  after_cancel_sent id j (err e, w) =
      if is_not_connected e then cancel_unassigned id w else (err e, w)

  abbrev pub after_request : Bytes → Result (Job × Unit {0}) × World → Result Job × World
  after_request id (err e, w) = (err e, w)
  after_request id (ok (j, _), w) = after_cancel_sent id j (registry_send env id cancel_event w)

  abbrev pub cancel_found : Bytes → World → Result Job → Result Job × World
  cancel_found id w (err e) = (err e, w)
  cancel_found id w (ok j) =
      if terminal j.status
      then (ok j, w)
      else if connected id w.registry
      then after_request id (update id request_cancel w)
      else cancel_unassigned id w

  -- Cancel.
  unfoldable pub cancel : Bytes → World → Result Job × World
  unfolding update registry_send cancel_event cancel_unassigned get check_id
  cancel id w = cancel_found id w (get id w)

  -- The outcome of the send: a request that could not be delivered is written back.
  abbrev pub after_response :
      Bytes
      → PermissionRequest
      → PermissionRequest
      → Result (Unit {0}) × World
      → Result PermissionRequest × World
  after_response id p answered (ok _, w) = (ok answered, w)
  after_response id p answered (err e, w) =
      (err e, record w { store = (put_permission id p w.store).1 })

  abbrev pub after_recording :
      Bytes
      → PermissionRequest
      → PermissionRequest
      → ControlEvent
      → World
      → Result (Unit {0})
      → Result PermissionRequest × World
  after_recording id p answered ev w (err e) = (err e, w)
  after_recording id p answered ev w (ok _) =
      after_response id p answered (registry_send env id ev w)

  abbrev pub answer_found :
      Bytes
      → Bytes
      → Bool
      → Bytes
      → World
      → Result PermissionRequest
      → Result PermissionRequest × World
  answer_found id request_id allow reason w (err e) = (err e, w)
  answer_found id request_id allow reason w (ok p) =
      if is_pending p.state
      then (let (at, w1) = read_clock env w in
          let answered = answered_as allow reason at p in
          let (r, m) = put_permission id answered w1.store in
          after_recording id p answered (permission_response request_id allow reason)
            (record w1 { store = m }) r)
      else (err invalid_argument, w)

  -- AnswerPermission.
  unfoldable pub answer_permission :
      Bytes → Bytes → Bool → Bytes → World → Result PermissionRequest × World
  unfolding registry_send read_clock put_permission get_permission answered_as permission_response
      check_id
  answer_permission id request_id allow reason w = elim (check_id id) [
    | err e ↦ (err e, w)
    | ok _ ↦ answer_found id request_id allow reason w (get_permission id request_id w.store)
  ]

  abbrev pub after_move : Bytes → Status → Bytes → Result (Job × Bool) × World → Bool × World
  after_move id to err_text (err e, w) = (false, w)
  after_move id to err_text (ok (j, false), w) = (false, w)
  after_move id to err_text (ok (j, true), w) =
      let (at, w1) = read_clock env w in
      let w2 = append_status env id to err_text at w1 in
      (true, if terminal to then count_completed id to w2 else w2)

  -- transition; `fault` is an error of the store's that keeps UpdateJob from the job, such as the end of the
  -- call's context.
  unfoldable pub transition : Option Error → Bytes → Status → Status → Bytes → World → Bool × World
  unfolding read_clock update append_status count_completed
  transition (some e) id from to err_text w = after_move id to err_text (err e, w)
  transition none id from to err_text w =
      let (now, w1) = read_clock env w in
      after_move id to err_text (update id (move_status from to err_text now) w1)

  abbrev pub after_launch : Option Error → Bytes → Result (Unit {0}) × World → World
  after_launch fault id (ok _, w) = (transition fault id launching awaiting_harness [] w).1
  after_launch fault id (err e, w) = (transition fault id launching failed (error_text e) w).1

  -- launch: `launcher` is the Launch call, with what else happens in the world until it returns. The two faults are
  -- those of the transitions before and after it, which share one context with it.
  unfoldable pub launch :
      (World → Result (Unit {0}) × World) → Option Error → Option Error → Bytes → World → World
  unfolding transition
  launch launcher before after id w =
      let (moved, w1) = transition before id queued launching [] w in
      if moved then after_launch after id (launcher w1) else w1
