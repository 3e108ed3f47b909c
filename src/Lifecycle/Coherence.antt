-- ===== src/Lifecycle/Coherence.antt =====
-- internal/job, internal/controlplane, internal/service and internal/reaper: what the fields of a job's
-- record say together, after any changes.
use hairpin.Base.{
  ◌<◌, ◌≡◌, refl, ◌≢◌, true, false, List, [], ◌∷◌, arith, Bytes, text, is_empty_iff, bytes_eq,
  bytes_eq_iff,
}
use hairpin.Job.{Time, Job, running, succeeded, terminal, status_for_stop_reason}
use hairpin.Lifecycle.{
  start_running, settle_cancelled, settle_failed, settle_done, settle_closed, touch, move_status,
  request_cancel, cancel_now, fail_stuck,
}
use hairpin.Lifecycle.Outcome.{
  Change, started, stopped, broke, finished, lost, seen, launches, launched, launch_failed,
  cancel_asked, cancelled_now, never_connected, change, changes, terminal-status_for_stop_reason,
}

-- A job has a time of finishing exactly if it has ended; only an ended job has a stop reason or a final
-- text; it has succeeded exactly if its stop reason is "success"; and a job that runs has a start.
pub record IsCoherent (j : Job) : Type 0 where
  pub ended_at : terminal j.status ≡ true → 0 < j.finished_at
  pub open_at : terminal j.status ≡ false → j.finished_at ≡ 0
  pub open_reason : terminal j.status ≡ false → j.stop_reason ≡ []
  pub open_text : terminal j.status ≡ false → j.final_text ≡ []
  pub success_reason : j.status ≡ succeeded → j.stop_reason ≡ text "success"
  pub reason_success : j.stop_reason ≡ text "success" → j.status ≡ succeeded
  pub running_start : j.status ≡ running → 0 < j.started_at

-- The clock gave a time after Go's zero time.
abbrev pub HasTime : Change → Type 0
HasTime (started t) = 0 < t
HasTime (stopped t) = 0 < t
HasTime (broke e t) = 0 < t
HasTime (finished r e f t) = 0 < t
HasTime (lost e f l t) = 0 < t
HasTime (launch_failed e t) = 0 < t
HasTime (cancelled_now t) = 0 < t
HasTime (never_connected t) = 0 < t
HasTime _ = Unit

abbrev pub HaveTimes : List Change → Type 0
HaveTimes [] = Unit
HaveTimes (c ∷ cs) = HasTime c × HaveTimes cs

cancelled_text_ne : text "cancelled" ≢ text "success"
unfolding text
cancelled_text_ne e = cc

success_text_ne : text "success" ≢ []
unfolding text
success_text_ne e = cc

status_for_success : status_for_stop_reason (text "success") ≡ succeeded
unfolding status_for_stop_reason text bytes_eq
status_for_success = refl

succeeded_reason : (r : Bytes) → status_for_stop_reason r ≡ succeeded → r ≡ text "success"
unfolding status_for_stop_reason
succeeded_reason r h = ground (arith, bytes_eq_iff r (text "success"))

success_succeeded : (r : Bytes) → r ≡ text "success" → status_for_stop_reason r ≡ succeeded
success_succeeded r h = rw h status_for_success

finished-IsCoherent :
    (r e f : Bytes) (t : Time) (j : Job)
    → 0 < t
    → IsCoherent j
    → IsCoherent (change (finished r e f t) j)
unfolding change settle_done
finished-IsCoherent r e f t j h v =
    ground (arith, terminal-status_for_stop_reason r, succeeded_reason r, success_succeeded r)

pub change-IsCoherent : (c : Change) (j : Job) → HasTime c → IsCoherent j → IsCoherent (change c j)
unfolding change start_running settle_cancelled settle_failed settle_closed touch move_status
    request_cancel cancel_now fail_stuck
change-IsCoherent (started t) j h v = ground (arith, success_text_ne)
change-IsCoherent (stopped t) j h v = ground (arith, cancelled_text_ne, is_empty_iff j.stop_reason)
change-IsCoherent (broke e t) j h v = ground (arith, success_text_ne)
change-IsCoherent (finished r e f t) j h v = finished-IsCoherent r e f t j h v
change-IsCoherent (lost e f l t) j h v =
    ground (arith, cancelled_text_ne, success_text_ne, is_empty_iff j.stop_reason)
change-IsCoherent (seen t) j h v = ground arith
change-IsCoherent (launches t) j h v = ground (arith, success_text_ne)
change-IsCoherent (launched t) j h v = ground (arith, success_text_ne)
change-IsCoherent (launch_failed e t) j h v = ground (arith, success_text_ne)
change-IsCoherent cancel_asked j h v = ground arith
change-IsCoherent (cancelled_now t) j h v = ground (arith, success_text_ne)
change-IsCoherent (never_connected t) j h v = ground (arith, success_text_ne)

-- The fields of a job's record that agreed at first agree after any changes by any parts, if the clock is past
-- Go's zero time: `IsCoherent` says how.
pub changes-IsCoherent :
    (cs : List Change) (j : Job) → HaveTimes cs → IsCoherent j → IsCoherent (changes cs j)
unfolding changes
changes-IsCoherent [] j h v = v
changes-IsCoherent (c ∷ cs) j h v =
    changes-IsCoherent cs (change c j) h.1 (change-IsCoherent c j h.0 v)
