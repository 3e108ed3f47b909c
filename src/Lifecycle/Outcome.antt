-- ===== src/Lifecycle/Outcome.antt =====
-- internal/job, internal/controlplane, internal/service and internal/reaper: how a job's record may
-- change, one change at a time and over any number of them.
use hairpin.Base.{ℕ, ◌≤◌, ◌≡◌, refl, true, List, [], ◌∷◌, arith, Bytes, Result, ok, err}
use hairpin.Job.{
  Time, Job, Status, queued, launching, awaiting_harness, running, succeeded, failed, cancelled,
  other, terminal, status_for_stop_reason,
}
use hairpin.Lifecycle.{
  start_running, settle_cancelled, settle_failed, settle_done, settle_closed, touch, move_status,
  request_cancel, cancel_now, fail_stuck,
}

-- How far a status is along the way from submission to an outcome.
abbrev pub rank : Status → ℕ
rank queued = 0
rank launching = 1
rank awaiting_harness = 2
rank running = 3
rank succeeded = 4
rank failed = 4
rank cancelled = 4
rank (other s) = 0

-- The changes, with the values that the code computes from outside the record; `launches` to
-- `launch_failed` are the moves that `transition` is called for.
pub data Change : Type 0 where
  started : Time → Change
  stopped : Time → Change
  broke : Bytes → Time → Change
  finished : Bytes → Bytes → Bytes → Time → Change
  lost : Bytes → Bytes → Time → Time → Change
  seen : Time → Change
  launches : Time → Change
  launched : Time → Change
  launch_failed : Bytes → Time → Change
  cancel_asked : Change
  cancelled_now : Time → Change
  never_connected : Time → Change

module _ {A : Type 0} where
  -- The record after an update: a callback that gives up leaves it as it was.
  abbrev pub after : Job → Result (Job × A) → Job
  after j (ok (k, a)) = k
  after j (err e) = j

unfoldable pub change : Change → Job → Job
change (started t) j = after j (start_running t j)
change (stopped t) j = after j (settle_cancelled t j)
change (broke e t) j = after j (settle_failed e t j)
change (finished r e f t) j = after j (settle_done (status_for_stop_reason r) r e f t j)
change (lost e f l t) j = after j (settle_closed e f l t j)
change (seen t) j = after j (touch t j)
change (launches t) j = after j (move_status queued launching [] t j)
change (launched t) j = after j (move_status launching awaiting_harness [] t j)
change (launch_failed e t) j = after j (move_status launching failed e t j)
change cancel_asked j = after j (request_cancel j)
change (cancelled_now t) j = after j (cancel_now t j)
change (never_connected t) j = after j (fail_stuck t j)

unfoldable pub changes : List Change → Job → Job
changes [] j = j
changes (c ∷ cs) j = changes cs (change c j)

-- What a job keeps while it changes from `j` to `k`: its identity and what it was submitted with; its
-- status goes only forward; and the outcome of a job that has ended stays as it is.
pub record Evolves (j k : Job) : Type 0 where
  pub same_id : k.id ≡ j.id
  pub same_config : k.run_config_json ≡ j.run_config_json
  pub same_token : k.harness_token ≡ j.harness_token
  pub same_created : k.created_at ≡ j.created_at
  pub forward : rank j.status ≤ rank k.status
  pub cancel_kept : j.cancel_requested ≡ true → k.cancel_requested ≡ true
  pub ended_status : terminal j.status ≡ true → k.status ≡ j.status
  pub ended_reason : terminal j.status ≡ true → k.stop_reason ≡ j.stop_reason
  pub ended_error : terminal j.status ≡ true → k.error ≡ j.error
  pub ended_text : terminal j.status ≡ true → k.final_text ≡ j.final_text
  pub ended_time : terminal j.status ≡ true → k.finished_at ≡ j.finished_at

pub Evolves-refl : (j : Job) → Evolves j j
Evolves-refl j = record {
  same_id = refl;
  same_config = refl;
  same_token = refl;
  same_created = refl;
  forward = omega arith;
  cancel_kept = λ h. h;
  ended_status = λ h. refl;
  ended_reason = λ h. refl;
  ended_error = λ h. refl;
  ended_text = λ h. refl;
  ended_time = λ h. refl;
}

pub Evolves-trans : (i j k : Job) → Evolves i j → Evolves j k → Evolves i k
Evolves-trans i j k p q = ground arith

pub terminal-status_for_stop_reason : (r : Bytes) → terminal (status_for_stop_reason r) ≡ true
unfolding status_for_stop_reason
terminal-status_for_stop_reason r = ground arith

pub settle_done-Evolves :
    (s : Status) (r e f : Bytes) (t : Time) (j : Job)
    → terminal s ≡ true
    → Evolves j (after j (settle_done s r e f t j))
unfolding settle_done
settle_done-Evolves s r e f t j h = ground arith

pub change-Evolves : (c : Change) (j : Job) → Evolves j (change c j)
unfolding change start_running settle_cancelled settle_failed settle_closed touch move_status
    request_cancel cancel_now fail_stuck
change-Evolves (started t) j = ground arith
change-Evolves (stopped t) j = ground arith
change-Evolves (broke e t) j = ground arith
change-Evolves (finished r e f t) j =
    settle_done-Evolves _ r e f t j (terminal-status_for_stop_reason r)
change-Evolves (lost e f l t) j = ground arith
change-Evolves (seen t) j = ground arith
change-Evolves (launches t) j = ground arith
change-Evolves (launched t) j = ground arith
change-Evolves (launch_failed e t) j = ground arith
change-Evolves cancel_asked j = ground arith
change-Evolves (cancelled_now t) j = ground arith
change-Evolves (never_connected t) j = ground arith

-- Whatever changes the parts of hairpin make to a job, in any order: its ID, run configuration, token
-- and time of creation stay; its status never goes back; a cancel request stays; and once it has ended, its
-- status, stop reason, error, final text and time of finishing never change.
pub changes-Evolves : (cs : List Change) (j : Job) → Evolves j (changes cs j)
unfolding changes
changes-Evolves [] j = Evolves-refl j
changes-Evolves (c ∷ cs) j =
    Evolves-trans j (change c j) (changes cs (change c j)) (change-Evolves c j)
      (changes-Evolves cs (change c j))
