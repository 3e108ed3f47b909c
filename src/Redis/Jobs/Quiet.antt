-- ===== src/Redis/Jobs/Quiet.antt =====
-- internal/store/redisstore/jobs.go: what each operation does to a server that no other client writes.
use hairpin.Base.{
  ℕ, suc, ◌+◌, ◌≡◌, refl, ap, ◌∙◌, Bool, true, false, [], ◌∷◌, Bytes, Result, ok, err, Error,
  not_found, conflict,
}
use hairpin.Job.{Job}
use hairpin.Redis.{
  Client, Laws, Conn, has_fields, command, exec, job_key, events_key, perms_key, jobs_index_key,
}
use hairpin.Redis.Fields.{job_set_fields, write_job}
use hairpin.Redis.Jobs.{
  decoded_job, watch, job_exists, fetch, create_job, get_job, attempt, update_tries, update_job,
  delete_job, updated_by, is_tx_failed,
}
use hairpin.Redis.Jobs.Representation.{IsQuiet}

module _ (c : Client) (l : Laws c) (q : IsQuiet c) where
  -- The connection after `n` more commands, which left this server.
  abbrev pub at : c.Server → ℕ → Conn c
  at t n = record { server = t; commands = n }

  command_quiet :
      {A : Type 0} (f : c.Server → A × c.Server) (s : Conn c)
      → command c f s ≡ (ok (f s.server).0, at (f s.server).1 (s.commands + 1))
  unfolding command
  command_quiet f s = rw (q.alone s.commands s.server, q.reliable s.commands, command) refl

  exec_quiet :
      (f : c.Server → c.Server) (s : Conn c)
      → exec c false f s ≡ (ok tt, at (f s.server) (s.commands + 1))
  unfolding exec
  exec_quiet f s = rw (command_quiet (λ t. (false, f t)) s) refl

  pub get_job_quiet :
      (id : Bytes) (s : Conn c)
      → get_job c id s
        ≡ (decoded_job c (c.hgetall (job_key id) s.server), at s.server (s.commands + 1))
  unfolding get_job fetch
  get_job_quiet id s = rw (command_quiet (λ t. (c.hgetall (job_key id) t, t)) s) refl

  watch_quiet : (s : Conn c) → watch c s ≡ (ok tt, at s.server (s.commands + 1))
  unfolding watch
  watch_quiet s = command_quiet (λ t. (tt, t)) s

  fetch_quiet :
      (id : Bytes) (s : Conn c)
      → fetch c id s ≡ (ok (c.hgetall (job_key id) s.server), at s.server (s.commands + 1))
  unfolding fetch
  fetch_quiet id s = command_quiet (λ t. (c.hgetall (job_key id) t, t)) s

  exists_quiet :
      (id : Bytes) (s : Conn c) (b : Bool)
      → has_fields (c.hgetall (job_key id) s.server) ≡ b
      → job_exists c id s ≡ (ok b, at s.server (s.commands + 1))
  unfolding job_exists
  exists_quiet id s b h =
      command_quiet (λ t. (c.exists (job_key id) t, t)) s
      ∙ ap (λ x. (ok x, at s.server (s.commands + 1))) (l.exists_fields (job_key id) s.server ∙ h)

  pub create_job_new :
      (j : Job) (s : Conn c)
      → has_fields (c.hgetall (job_key j.id) s.server) ≡ false
      → create_job c j s ≡ (
        ok tt,
        at
            (c.zadd jobs_index_key j.id (c.hset (job_key j.id) (job_set_fields c j) s.server))
            (s.commands + 1 + 1 + 1),
      )
  unfolding create_job
  create_job_new j s h = rw (watch_quiet s) (
      rw (exists_quiet j.id (at s.server (s.commands + 1)) false h) (
        rw
          (
            q.untouched (s.commands + 1) (job_key j.id),
            q.untouched (s.commands + 1 + 1) (job_key j.id),
          )
          (rw
            (exec_quiet
              (λ t. c.zadd jobs_index_key j.id (c.hset (job_key j.id) (job_set_fields c j) t))
              (at s.server (s.commands + 1 + 1)))
            refl)))

  pub create_job_taken :
      (j : Job) (s : Conn c)
      → has_fields (c.hgetall (job_key j.id) s.server) ≡ true
      → create_job c j s ≡ (err conflict, at s.server (s.commands + 1 + 1))
  unfolding create_job
  create_job_taken j s h =
      rw (watch_quiet s) (rw (exists_quiet j.id (at s.server (s.commands + 1)) true h) refl)

  pub delete_job_stored :
      (id : Bytes) (s : Conn c)
      → has_fields (c.hgetall (job_key id) s.server) ≡ true
      → delete_job c id s ≡ (
        ok tt,
        at
            (c.zrem jobs_index_key id
              (c.del (job_key id ∷ events_key id ∷ perms_key id ∷ []) s.server))
            (s.commands + 1 + 1),
      )
  unfolding delete_job
  delete_job_stored id s h = rw (exists_quiet id s true h) (
      command_quiet
        (λ t.
          (tt, c.zrem jobs_index_key id (c.del (job_key id ∷ events_key id ∷ perms_key id ∷ []) t)))
        (at s.server (s.commands + 1)))

  pub delete_job_missing :
      (id : Bytes) (s : Conn c)
      → has_fields (c.hgetall (job_key id) s.server) ≡ false
      → delete_job c id s ≡ (err not_found, at s.server (s.commands + 1))
  unfolding delete_job
  delete_job_missing id s h = rw (exists_quiet id s false h) refl

  module _ {A : Type 0} (id : Bytes) (fn : Job → Result (Job × A)) (s : Conn c) where
    tried_ok :
        (n : ℕ) (a : Job × A) (u : Conn c)
        → attempt c id fn s ≡ (ok a, u)
        → update_tries c (suc n) id fn s ≡ (ok a, u)
    unfolding update_tries
    tried_ok n a u h = rw (ap (λ p. p.0) h, update_tries) (ap (λ v. (ok a, v)) (ap (λ p. p.1) h))

    tried_err :
        (n : ℕ) (e : Error) (u : Conn c)
        → attempt c id fn s ≡ (err e, u)
        → is_tx_failed e ≡ false
        → update_tries c (suc n) id fn s ≡ (err e, u)
    unfolding update_tries
    tried_err n e u h no_race =
        rw (ap (λ p. p.0) h, update_tries) (rw no_race (ap (λ v. (err e, v)) (ap (λ p. p.1) h)))

    pub update_job_written :
        (k : Job) (a : A)
        → updated_by c fn (decoded_job c (c.hgetall (job_key id) s.server)) ≡ ok (k, a)
        → update_job c id fn s
          ≡ (ok (k, a), at (write_job c (job_key id) k s.server) (s.commands + 1 + 1 + 1))
    unfolding update_job attempt
    update_job_written k a h =
        tried_ok 29 (k, a) _
          (rw (watch_quiet s) (
            rw (fetch_quiet id (at s.server (s.commands + 1))) (
              rw (q.untouched (s.commands + 1) (job_key id)) (
                rw h (
                  rw (q.untouched (s.commands + 1 + 1) (job_key id)) (
                    rw (exec_quiet (write_job c (job_key id) k) (at s.server (s.commands + 1 + 1)))
                      refl))))))

    pub update_job_refused :
        (e : Error)
        → updated_by c fn (decoded_job c (c.hgetall (job_key id) s.server)) ≡ err e
        → is_tx_failed e ≡ false
        → update_job c id fn s ≡ (err e, at s.server (s.commands + 1 + 1))
    unfolding update_job attempt
    update_job_refused e h no_race =
        tried_err 29 e _
          (rw (watch_quiet s) (rw (fetch_quiet id (at s.server (s.commands + 1))) (rw h refl)))
          no_race
