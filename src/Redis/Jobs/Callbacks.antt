-- ===== src/Redis/Jobs/Callbacks.antt =====
-- The callbacks that hairpin's own parts hand to UpdateJob, as operations on the jobs in Redis.
use hairpin.Base.{◌≡◌, refl, true, Bytes, All, bytes_eq, text, ◌∷◌, [], arith}
use hairpin.Job.{Time, Status, running, failed, cancelled, status_text, status_of_text, valid_id}
use hairpin.Lifecycle.{
  start_running, settle_cancelled, settle_failed, settle_done, settle_closed, touch, move_status,
  request_cancel, cancel_now, fail_stuck,
}
use hairpin.Redis.Jobs.Refinement.{updates, IsAllowed}

-- The status is one that its text spells.
abbrev IsSpelled : Status → Type 0
IsSpelled s = status_of_text (status_text s) ≡ s

named-IsSpelled : IsSpelled running × IsSpelled failed × IsSpelled cancelled
unfolding status_of_text status_text bytes_eq text
named-IsSpelled = (refl, refl, refl)

module _ (id : Bytes) (t u : Time) (a b d : Bytes) (from to : Status) (v : valid_id id ≡ true)
    (n : IsSpelled to) where
  -- Every update that hairpin makes, with any arguments and with a new status that its text spells.
  pub updates-IsAllowed : All IsAllowed (
      updates _ id (start_running t)
      ∷ updates _ id (settle_cancelled t)
      ∷ updates _ id (settle_failed a t)
      ∷ updates _ id (settle_done to a b d t)
      ∷ updates _ id (settle_closed a b t u)
      ∷ updates _ id (touch t)
      ∷ updates _ id (move_status from to a t)
      ∷ updates _ id request_cancel
      ∷ updates _ id (cancel_now t)
      ∷ updates _ id (fail_stuck t)
      ∷ [])
  unfolding start_running settle_cancelled settle_failed settle_done settle_closed touch move_status
      request_cancel cancel_now fail_stuck
  updates-IsAllowed =
      let (r, f, c) = named-IsSpelled in
      (
        (v, λ j k x h e. ground arith, λ j e h. ground arith),
        (
          (v, λ j k x h e. ground arith, λ j e h. ground arith),
          (
            (v, λ j k x h e. ground arith, λ j e h. ground arith),
            (
              (v, λ j k x h e. ground arith, λ j e h. ground arith),
              (
                (v, λ j k x h e. ground arith, λ j e h. ground arith),
                (
                  (v, λ j k x h e. ground arith, λ j e h. ground arith),
                  (
                    (v, λ j k x h e. ground arith, λ j e h. ground arith),
                    (
                      (v, λ j k x h e. ground arith, λ j e h. ground arith),
                      (
                        (v, λ j k x h e. ground arith, λ j e h. ground arith),
                        ((v, λ j k x h e. ground arith, λ j e h. ground arith), tt),
                      ),
                    ),
                  ),
                ),
              ),
            ),
          ),
        ),
      )
