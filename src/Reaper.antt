-- ===== src/Reaper.antt =====
-- internal/reaper/reaper.go: one sweep over the store. The reaper's clock, `r.now`, is the server's.
pub mod Listing
pub mod Sweeping
use hairpin.Base.{
  ℕ, zero, suc, ◌+◌, ◌*◌, Bool, true, false, not, ◌&&◌, Option, none, some, List, [], ◌∷◌, ◌++◌,
  Bytes, is_empty, Result, ok, err, Error, not_found, ltb, leb, ◌==◌, if◌then◌else◌,
}
use hairpin.Job.{
  Time, is_zero, time_sub, second, Job, awaiting_harness, failed, same_status, terminal,
}
use hairpin.Proto.{RunConfig}
use hairpin.Store.Mem.{MemStore, delete_job}
use hairpin.Store.Mem.Listing.{list_jobs}
use hairpin.World.{World, Env, read_clock, append_status, update, count_completed}
use hairpin.Lifecycle.{fail_stuck, stuck_harness_error}

-- `retention` is 0 if it is not positive; the durations are in nanoseconds.
pub record Reaper : Type 0 where
  pub retention : ℕ
  pub deadline_slack : ℕ
  pub page_size : ℕ

abbrev pub awaiting_harness_margin : ℕ
awaiting_harness_margin = 300 * second

abbrev pub awaiting_harness_fallback : ℕ
awaiting_harness_fallback = 3600 * second

-- The loop of listAllJobs, with the most pages that it may read; it gives none if those do not suffice.
abbrev prepended : List Job → Option (Result (List Job)) → Option (Result (List Job))
prepended js none = none
prepended js (some (err e)) = some (err e)
prepended js (some (ok rest)) = some (ok (js ++ rest))

unfoldable pub list_from : ℕ → ℕ → Bytes → MemStore → Option (Result (List Job))
unfolding list_jobs
list_from zero size token m = none
list_from (suc pages) size token m = elim (list_jobs size token m) [
  | err e ↦ some (err e)
  | ok page ↦
      if is_empty page.1 then some (ok page.0) else prepended page.0 (list_from pages size page.1 m)
]

unfoldable pub list_all_jobs : ℕ → Reaper → MemStore → Option (Result (List Job))
unfolding list_from
list_all_jobs pages r m = list_from pages r.page_size [] m

module _ (env : Env) (r : Reaper) where
  -- awaitingHarnessDeadline; a negative timeout is not modelled.
  unfoldable pub awaiting_harness_deadline : Bytes → ℕ
  awaiting_harness_deadline json = elim (env.decode_config json) [
    | err e ↦ awaiting_harness_fallback + r.deadline_slack
    | ok cfg ↦ elim cfg.timeout [
      | none ↦ awaiting_harness_fallback + r.deadline_slack
      | some t ↦ t * second + r.deadline_slack + awaiting_harness_margin
    ]
  ]

  abbrev pub after_fail : Bytes → Result (Job × Bool) × World → World
  after_fail id (err e, w) = w
  after_fail id (ok (j, false), w) = w
  after_fail id (ok (j, true), w) =
      let (at, w1) = read_clock env w in
      count_completed id failed (append_status env id failed stuck_harness_error at w1)

  unfoldable pub fail_stuck_harness : Bytes → World → World
  unfolding read_clock update append_status count_completed
  fail_stuck_harness id w =
      let (now, w1) = read_clock env w in after_fail id (update id (fail_stuck now) w1)

  unfoldable pub is_stuck : Time → Job → Bool
  unfolding awaiting_harness_deadline
  is_stuck now j =
      same_status j.status awaiting_harness
      && not (leb (time_sub now j.created_at) (awaiting_harness_deadline j.run_config_json))

  unfoldable pub fail_each : Time → List Job → World → World
  unfolding is_stuck fail_stuck_harness
  fail_each now [] w = w
  fail_each now (j ∷ js) w =
      fail_each now js (if is_stuck now j then fail_stuck_harness j.id w else w)

  unfoldable pub reap_awaiting_harness : List Job → World → World
  unfolding read_clock fail_each
  reap_awaiting_harness jobs w = let (now, w1) = read_clock env w in fail_each now jobs w1

  unfoldable pub is_expired : Time → Job → Bool
  is_expired now j =
      terminal j.status
      && not (is_zero j.finished_at)
      && not (leb (time_sub now j.finished_at) r.retention)

  -- A delete that fails is logged.
  unfoldable pub delete_each : Time → List Job → World → World
  unfolding is_expired delete_job
  delete_each now [] w = w
  delete_each now (j ∷ js) w =
      delete_each now js
        (if is_expired now j then record w { store = (delete_job j.id w.store).1 } else w)

  unfoldable pub reap_retention : List Job → World → World
  unfolding read_clock delete_each
  reap_retention jobs w = let (now, w1) = read_clock env w in delete_each now jobs w1

  -- A listing that fails ends the sweep before it changes anything.
  abbrev pub swept : World → Option (Result (List Job)) → World
  swept w none = w
  swept w (some (err e)) = w
  swept w (some (ok jobs)) =
      let w1 = reap_awaiting_harness jobs w in
      if r.retention == 0 then w1 else reap_retention jobs w1

  unfoldable pub sweep : ℕ → World → World
  unfolding list_all_jobs reap_awaiting_harness reap_retention
  sweep pages w = swept w (list_all_jobs pages r w.store)
