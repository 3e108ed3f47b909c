-- ===== src/Redis/Jobs/Commit.antt =====
-- internal/store/redisstore/jobs.go: what UpdateJob has done when it returns, whatever other clients do.
use hairpin.Base.{
  ok-injective, ℕ, zero, suc, ◌+◌, ◌≡◌, refl, ap, sym, ◌∙◌, inl, inr, Bool, true, false, ◌||◌,
  Bytes, Assoc, Result, ok, err, if◌then◌else◌, Option-cases, Result-cases, Bool-cases, arith,
}
use hairpin.Job.{Job}
use hairpin.Redis.{Client, Laws, Conn, command, exec, executed, job_key}
use hairpin.Redis.Fields.{write_job}
use hairpin.Redis.Jobs.{
  decoded_job, watch, fetch, attempt, update_tries, update_job, update_watched, update_fetched,
  updated_by, apply_update, written, is_tx_failed, max_update_retries,
}

module _ (c : Client) {A : Type 0} where
  -- What a command that was replied to has done.
  pub command-ok :
      (f : c.Server → A × c.Server) (s u : Conn c) (a : A)
      → command c f s ≡ (ok a, u)
      → (a ≡ (f (c.others s.commands s.server)).0)
        × (u ≡ record { server = (f (c.others s.commands s.server)).1; commands = s.commands + 1 })
  unfolding command
  command-ok f s u a h = elim (Option-cases (c.fault s.commands)) [
    | inl e ↦
        let g = rw (e, command) at h in
        (sym (ok-injective _ a (ap (λ p. p.0) g)), sym (ap (λ p. p.1) g))
    | inr ((bad, true), e) ↦ absurd (cc (ap (λ p. p.0) (rw (e, command) at h)))
    | inr ((bad, false), e) ↦ absurd (cc (ap (λ p. p.0) (rw (e, command) at h)))
  ]

module _ (c : Client) where
  ran : (lost : Bool) (f : c.Server → c.Server) (s : Conn c) → Result Bool × Conn c
  ran lost f s = command c (λ t. (lost, if lost then t else f t)) s

  -- A transaction that was executed wrote, and its key was not touched.
  pub exec-ok :
      (lost : Bool) (f : c.Server → c.Server) (s u : Conn c)
      → exec c lost f s ≡ (ok tt, u)
      → (lost ≡ false)
        × (u ≡ record { server = f (c.others s.commands s.server); commands = s.commands + 1 })
  unfolding exec ran
  exec-ok lost f s u h = of (ran lost f s) refl h
    where
      of :
          (r : Result Bool × Conn c)
          → ran lost f s ≡ r
          → executed c r ≡ (ok tt, u)
          → (lost ≡ false)
            × (u ≡ record { server = f (c.others s.commands s.server); commands = s.commands + 1 })
      of (err e, v) g h = absurd (cc (ap (λ p. p.0) h))
      of (ok true, v) g h = absurd (cc (ap (λ p. p.0) h))
      of (ok false, v) g h =
          let (l, w) = command-ok c (λ t. (lost, if lost then t else f t)) s v false g in
          (sym l, sym (ap (λ p. p.1) h) ∙ (w ∙ rw (sym l) refl))

  module _ {A : Type 0} (id : Bytes) (fn : Job → Result (Job × A)) where
    -- The update took effect in one step, at a moment when no other client could come between: the
    -- callback had the job as it stood then, and nothing was written but its result.
    pub record IsCommitted (k : Job) (a : A) (u : Conn c) : Type 0 where
      pub before : Conn c
      pub job : Job
      pub read :
          decoded_job c (c.hgetall (job_key id) (c.others before.commands before.server)) ≡ ok job
      pub applied : fn job ≡ ok (k, a)
      pub wrote : u ≡ record {
        server = write_job c (job_key id) k (c.others before.commands before.server);
        commands = before.commands + 1;
      }

    module _ (l : Laws c) where
      applied-ok :
          (first : Bool) (s u : Conn c) (fs : Assoc Bytes) (k : Job) (a : A)
          → fs ≡ c.hgetall (job_key id) s.server
          → apply_update c (job_key id) first s (updated_by c fn (decoded_job c fs))
            ≡ (ok (k, a), u)
          → IsCommitted k a u
      applied-ok first s u fs k a same h = of (decoded_job c fs) refl h
        where
          sent :
              (j k' : Job) (a' : A)
              → decoded_job c fs ≡ ok j
              → fn j ≡ ok (k', a')
              → (r : Result (Unit {0}) × Conn c)
              → exec c (first || c.touched s.commands (job_key id)) (write_job c (job_key id) k') s
                ≡ r
              → written c (ok (k', a')) r ≡ (ok (k, a), u)
              → IsCommitted k a u
          sent j k' a' d f (err e, v) g x = absurd (cc (ap (λ p. p.0) x))
          sent j k' a' d f (ok tt, v) g x =
              let (free, w) =
                exec-ok (first || c.touched s.commands (job_key id)) (write_job c (job_key id) k') s
                  v g in
              let pair = ok-injective (k', a') (k, a) (ap (λ p. p.0) x) in
              let quiet : c.touched s.commands (job_key id) ≡ false = ground (arith, free) in
              record {
                before = s;
                job = j;
                read =
                    ap (decoded_job c)
                      (l.untouched s.commands (job_key id) s.server quiet ∙ sym same)
                    ∙ d;
                applied = f ∙ ap ok pair;
                wrote =
                    sym (ap (λ p. p.1) x)
                    ∙ (w
                        ∙ ap
                            (λ (q : Job × A). record {
                              server = write_job c (job_key id) q.0 (c.others s.commands s.server);
                              commands = s.commands + 1;
                            })
                            pair);
              }

          called :
              (j : Job)
              → decoded_job c fs ≡ ok j
              → (r : Result (Job × A)) → fn j ≡ r
              → apply_update c (job_key id) first s r ≡ (ok (k, a), u)
              → IsCommitted k a u
          called j d (err e) f x = absurd (cc (ap (λ p. p.0) x))
          called j d (ok (k', a')) f x = sent j k' a' d f _ refl x

          of :
              (r : Result Job)
              → decoded_job c fs ≡ r
              → apply_update c (job_key id) first s (updated_by c fn r) ≡ (ok (k, a), u)
              → IsCommitted k a u
          of (err e) d x = absurd (cc (ap (λ p. p.0) x))
          of (ok j) d x = called j d (fn j) refl x

      fetched-ok :
          (s u : Conn c) (first : Bool) (k : Job) (a : A)
          → update_fetched c (job_key id) fn first (fetch c id s) ≡ (ok (k, a), u)
          → IsCommitted k a u
      unfolding fetch
      fetched-ok s u first k a h = of (fetch c id s) refl h
        where
          of :
              (r : Result (Assoc Bytes) × Conn c)
              → fetch c id s ≡ r
              → update_fetched c (job_key id) fn first r ≡ (ok (k, a), u)
              → IsCommitted k a u
          of (err e, v) g x = absurd (cc (ap (λ p. p.0) x))
          of (ok fs, v) g x =
              let (f, w) = command-ok c (λ t. (c.hgetall (job_key id) t, t)) s v fs g in
              applied-ok first v u fs k a
                (f ∙ ap (λ (q : Conn c). c.hgetall (job_key id) q.server) (sym w)) x

      attempt-IsCommitted :
          (s u : Conn c) (k : Job) (a : A) → attempt c id fn s ≡ (ok (k, a), u) → IsCommitted k a u
      unfolding attempt
      attempt-IsCommitted s u k a h = of (watch c s) h
        where
          of :
              (r : Result (Unit {0}) × Conn c)
              → update_watched c id fn r ≡ (ok (k, a), u)
              → IsCommitted k a u
          of (err e, v) x = absurd (cc (ap (λ p. p.0) x))
          of (ok t, v) x = fetched-ok v u (c.touched v.commands (job_key id)) k a x

      update_tries-IsCommitted :
          (n : ℕ) (s u : Conn c) (k : Job) (a : A)
          → update_tries c n id fn s ≡ (ok (k, a), u)
          → IsCommitted k a u
      unfolding update_tries
      update_tries-IsCommitted zero s u k a h = absurd (cc (ap (λ p. p.0) h))
      update_tries-IsCommitted (suc n) s u k a h = elim (Result-cases (attempt c id fn s).0) [
        | inl (q, e) ↦
            attempt-IsCommitted s u k a
              (ap (λ r. (r, (attempt c id fn s).1)) e ∙ (rw (e, update_tries) at h))
        | inr (bad, e) ↦ elim (Bool-cases (is_tx_failed bad)) [
          | inl lost ↦
              update_tries-IsCommitted n (attempt c id fn s).1 u k a
                (rw lost at (rw (e, update_tries) at h))
          | inr other ↦ absurd (cc (ap (λ p. p.0) (rw other at (rw (e, update_tries) at h))))
        ]
      ]

      -- An UpdateJob that succeeds, however many attempts it took and whatever other clients do between its
      -- commands, loses no update: the callback was given the job as it stood when the write was made, and the
      -- write of the callback's result is all that the step changed.
      pub update_job-IsCommitted :
          (s u : Conn c) (k : Job) (a : A)
          → update_job c id fn s ≡ (ok (k, a), u)
          → IsCommitted k a u
      unfolding update_job
      update_job-IsCommitted s u k a h = update_tries-IsCommitted max_update_retries s u k a h
