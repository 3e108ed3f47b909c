-- ===== src/Redis/Jobs.antt =====
-- internal/store/redisstore/jobs.go: the jobs in Redis. Each command is one step, and other clients may act
-- between any two.
pub mod Commit
pub mod Representation
pub mod Quiet
pub mod Refinement
pub mod Callbacks
use hairpin.Base.{
  ℕ, zero, suc, ◌+◌, Bool, true, false, not, ◌||◌, Option, none, some, List, [], ◌∷◌, Bytes,
  is_empty, Assoc, Result, ok, err, Error, not_found, conflict, tx_failed, ltb, ◌==◌, if◌then◌else◌,
  length, take,
}
use hairpin.Job.{Job}
use hairpin.Redis.{
  Client, Conn, has_fields, command, exec, jobs_index_key, job_key, events_key, perms_key,
}
use hairpin.Redis.Fields.{job_set_fields, job_from_fields, write_job}

abbrev pub max_update_retries : ℕ
max_update_retries = 30

abbrev pub is_tx_failed : Error → Bool
is_tx_failed tx_failed = true
is_tx_failed _ = false

abbrev pub is_not_found : Error → Bool
is_not_found not_found = true
is_not_found _ = false

module _ (c : Client) where
  -- EXISTS.
  unfoldable pub job_exists : Bytes → Conn c → Result Bool × Conn c
  unfolding job_key command
  job_exists id = command c (λ t. (c.exists (job_key id) t, t))

  abbrev pub create_found : Bytes → Job → Bool → Result Bool × Conn c → Result (Unit {0}) × Conn c
  create_found key j before (err e, s) = (err e, s)
  create_found key j before (ok true, s) = (err conflict, s)
  create_found key j before (ok false, s) =
      exec c (before || c.touched s.commands key)
        (λ t. c.zadd jobs_index_key j.id (c.hset key (job_set_fields c j) t)) s

  abbrev pub create_watched : Job → Result (Unit {0}) × Conn c → Result (Unit {0}) × Conn c
  create_watched j (err e, s) = (err e, s)
  create_watched j (ok _, s) =
      create_found (job_key j.id) j (c.touched s.commands (job_key j.id)) (job_exists j.id s)

  abbrev pub create_outcome : Result (Unit {0}) × Conn c → Result (Unit {0}) × Conn c
  create_outcome (ok u, s) = (ok u, s)
  create_outcome (err e, s) = if is_tx_failed e then (err conflict, s) else (err e, s)

  -- WATCH on a key.
  unfoldable pub watch : Conn c → Result (Unit {0}) × Conn c
  unfolding command
  watch = command c (λ t. (tt, t))

  unfoldable pub create_job : Job → Conn c → Result (Unit {0}) × Conn c
  unfolding watch job_exists exec job_key jobs_index_key job_set_fields
  create_job j s = create_outcome (create_watched j (watch s))

  unfoldable pub fetch : Bytes → Conn c → Result (Assoc Bytes) × Conn c
  unfolding job_key command
  fetch id = command c (λ t. (c.hgetall (job_key id) t, t))

  -- What a reply of HGETALL says of the job.
  abbrev pub decoded_job : Assoc Bytes → Result Job
  decoded_job fs = if has_fields fs then job_from_fields c fs else err not_found

  abbrev pub got : Result (Assoc Bytes) × Conn c → Result Job × Conn c
  got (err e, s) = (err e, s)
  got (ok fs, s) = (decoded_job fs, s)

  unfoldable pub get_job : Bytes → Conn c → Result Job × Conn c
  unfolding fetch job_from_fields
  get_job id s = got (fetch id s)

  module _ {A : Type 0} where
    abbrev pub written : Result (Job × A) → Result (Unit {0}) × Conn c → Result (Job × A) × Conn c
    written r (err e, s) = (err e, s)
    written r (ok _, s) = (r, s)

    -- The callback on the decoded job, and the write of what it returns.
    abbrev pub apply_update : Bytes → Bool → Conn c → Result (Job × A) → Result (Job × A) × Conn c
    apply_update key before s (err e) = (err e, s)
    apply_update key before s (ok (k, a)) =
        written (ok (k, a)) (exec c (before || c.touched s.commands key) (write_job c key k) s)

    abbrev pub updated_by : (Job → Result (Job × A)) → Result Job → Result (Job × A)
    updated_by fn (err e) = err e
    updated_by fn (ok j) = fn j

    abbrev pub update_fetched :
        Bytes
        → (Job → Result (Job × A))
        → Bool
        → Result (Assoc Bytes) × Conn c
        → Result (Job × A) × Conn c
    update_fetched key fn before (err e, s) = (err e, s)
    update_fetched key fn before (ok fs, s) =
        apply_update key before s (updated_by fn (decoded_job fs))

    abbrev pub update_watched :
        Bytes → (Job → Result (Job × A)) → Result (Unit {0}) × Conn c → Result (Job × A) × Conn c
    update_watched id fn (err e, s) = (err e, s)
    update_watched id fn (ok _, s) =
        update_fetched (job_key id) fn (c.touched s.commands (job_key id)) (fetch id s)

    -- One attempt.
    unfoldable pub attempt : Bytes → (Job → Result (Job × A)) → Conn c → Result (Job × A) × Conn c
    unfolding watch fetch exec job_key write_job job_from_fields
    attempt id fn s = update_watched id fn (watch s)

    unfoldable pub update_tries :
        ℕ → Bytes → (Job → Result (Job × A)) → Conn c → Result (Job × A) × Conn c
    unfolding attempt
    update_tries zero id fn s = (err conflict, s)
    update_tries (suc n) id fn s =
        let (r, s1) = attempt id fn s in
        elim r [
          | ok a ↦ (ok a, s1)
          | err e ↦ if is_tx_failed e then update_tries n id fn s1 else (err e, s1)
        ]

    unfoldable pub update_job :
        Bytes → (Job → Result (Job × A)) → Conn c → Result (Job × A) × Conn c
    unfolding update_tries
    update_job = update_tries max_update_retries

  abbrev pub delete_found : Bytes → Result Bool × Conn c → Result (Unit {0}) × Conn c
  delete_found id (err e, s) = (err e, s)
  delete_found id (ok false, s) = (err not_found, s)
  delete_found id (ok true, s) =
      command c
        (λ t.
          (tt, c.zrem jobs_index_key id (c.del (job_key id ∷ events_key id ∷ perms_key id ∷ []) t)))
        s

  unfoldable pub delete_job : Bytes → Conn c → Result (Unit {0}) × Conn c
  unfolding job_exists command job_key events_key perms_key jobs_index_key
  delete_job id s = delete_found id (job_exists id s)

  -- The loop of ListJobs: an index entry without a job is skipped.
  abbrev pub with_listed : Job → Result (List Job) × Conn c → Result (List Job) × Conn c
  with_listed j (err e, s) = (err e, s)
  with_listed j (ok js, s) = (ok (j ∷ js), s)

  unfoldable pub get_each : List Bytes → Conn c → Result (List Job) × Conn c
  unfolding get_job
  get_each [] s = (ok [], s)
  get_each (id ∷ ids) s =
      let (r, s1) = get_job id s in
      let rest = get_each ids s1 in
      elim r [ ok j ↦ with_listed j rest | err e ↦ if is_not_found e then rest else (err e, s1) ]

  abbrev pub last_of : List Bytes → Bytes
  last_of [] = []
  last_of (x ∷ []) = x
  last_of (x ∷ y ∷ ys) = last_of (y ∷ ys)

  abbrev pub with_token : Bytes → Result (List Job) × Conn c → Result (List Job × Bytes) × Conn c
  with_token token (err e, s) = (err e, s)
  with_token token (ok js, s) = (ok (js, token), s)

  abbrev pub list_ids : ℕ → Result (List Bytes) × Conn c → Result (List Job × Bytes) × Conn c
  list_ids limit (err e, s) = (err e, s)
  list_ids limit (ok ids, s) =
      let page = take limit ids in
      with_token (if ltb limit (length ids) then last_of page else []) (get_each page s)

  -- A limit that is not positive is given as 0.
  unfoldable pub list_jobs : ℕ → Bytes → Conn c → Result (List Job × Bytes) × Conn c
  unfolding get_each command jobs_index_key
  list_jobs limit token s =
      let n = if limit == 0 then 50 else limit in
      let start = if is_empty token then none else some token in
      list_ids n (command c (λ t. (c.zrevrange jobs_index_key start (n + 1) t, t)) s)
