-- ===== src/Service/Cancelling.antt =====
-- internal/service/service.go: what Cancel has done when it returns.
use hairpin.Base.{
  ap, sym, ◌≡◌, ◌≢◌, refl, ◌∙◌, ◌⊎◌, inl, inr, true, false, none, some, [], ◌∷◌, ◌++◌, Bytes,
  bytes_eq_refl, lookup, arith, insert, lookup-insert, Result, ok, Bool-cases,
}
use hairpin.Job.{Job, cancelled, terminal, valid_id}
use hairpin.Registry.{Session, connected}
use hairpin.Store.Mem.{get_job}
use hairpin.World.{
  World, Env, append_status, read_clock, update, registry_send, count_completed, has_closed,
}
use hairpin.World.Persist.{update_job_written, jobs-append_event}
use hairpin.World.{append}
use hairpin.World.Sending.{IsAway, registry_send-cases}
use hairpin.Lifecycle.{request_cancel, cancel_now}
use hairpin.Controlplane.Stream.{cancel_event}
use hairpin.Service.{check_id, get, cancel, cancel_unassigned, after_cancel_sent}

module _ (env : Env) (id : Bytes) where
  -- The record says that a cancellation was asked for. Without an open session the job is stored as cancelled
  -- and nothing was sent; with one, exactly one cancel was sent to it.
  pub record IsCancelling (before : World) (r : Result Job × World) : Type 0 where
    pub job : Job
    pub returned : r.0 ≡ ok job
    pub stored : lookup id r.1.store.jobs ≡ some job
    pub asked : job.cancel_requested ≡ true
    pub acted :
        (IsAway env id cancel_event before × (job.status ≡ cancelled) × (r.1.sent ≡ before.sent))
        ⊎ ((s : Session) × (lookup id before.registry ≡ some s)
            × (has_closed before.closed s ≡ false)
            × (r.1.sent ≡ before.sent ++ (s, cancel_event) ∷ []))

  cancel_unassigned-IsCancelling :
      (b w : World) (j : Job)
      → IsAway env id cancel_event b
      → w.sent ≡ b.sent
      → lookup id w.store.jobs ≡ some j
      → terminal j.status ≡ false
      → IsCancelling b (cancel_unassigned env id w)
  unfolding cancel_unassigned read_clock cancel_now update append_status append count_completed
  cancel_unassigned-IsCancelling b w j away unsent e t =
      let k = record j {
        status = cancelled;
        cancel_requested = true;
        finished_at = env.now w.reads;
      } in
      rw (update_job_written id (cancel_now (env.now w.reads)) w.store j k true e (rw t refl))
        (record {
          job = k;
          returned = refl;
          stored =
              rw jobs-append_event (rw (lookup-insert id id k w.store.jobs, bytes_eq_refl id) refl);
          asked = refl;
          acted = inl (away, refl, unsent);
        })

  -- The send after the request was written.
  after_cancel_sent-IsCancelling :
      (b w : World) (j : Job)
      → lookup id w.store.jobs ≡ some j
      → terminal j.status ≡ false
      → j.cancel_requested ≡ true
      → w.registry ≡ b.registry
      → w.closed ≡ b.closed
      → w.sent ≡ b.sent
      → env.send_error w.sends ≡ none
      → IsCancelling b (after_cancel_sent env id j (registry_send env id cancel_event w))
  after_cancel_sent-IsCancelling b w j e t asked same_registry same_closed same_sent q =
      elim (registry_send-cases env id cancel_event w q) [
        | inl (away, gone) ↦ rw gone (
            cancel_unassigned-IsCancelling b w j
              (λ s f. ground (arith, away s (ap (lookup id) same_registry ∙ f), same_closed))
              same_sent e t)
        | inr (s, (at, unclosed, gone)) ↦ rw gone (record {
          job = j;
          returned = refl;
          stored = e;
          asked = asked;
          acted = inr (
            s,
            ap (lookup id) (sym same_registry) ∙ at,
            ap (λ l. has_closed l s) (sym same_closed) ∙ unclosed,
            ap (λ l. l ++ (s, cancel_event) ∷ []) same_sent,
          );
        })
      ]

  unregistered :
      (w : World) → connected id w.registry ≡ false → (s : Session) → lookup id w.registry ≢ some s
  unfolding connected
  unregistered w h s f = ground (arith, h, f)

  get_found :
      (w : World) (j : Job) → valid_id id ≡ true → lookup id w.store.jobs ≡ some j → get id w ≡ ok j
  unfolding get check_id get_job
  get_found w j v e = rw (v, get) (rw (e, get_job) refl)

  -- Cancel of a stored job that has not ended, on a server whose next send does not fail, returns the stored
  -- job with the cancellation on it. If a session that was not closed is registered for the job, that session was
  -- sent exactly one cancel; if none is, nothing was sent and the job is cancelled in the store.
  pub cancel-IsCancelling :
      (w : World) (j : Job)
      → valid_id id ≡ true
      → lookup id w.store.jobs ≡ some j
      → terminal j.status ≡ false
      → env.send_error w.sends ≡ none
      → IsCancelling w (cancel env id w)
  unfolding cancel update request_cancel
  cancel-IsCancelling w j v e t q =
      rw (get_found w j v e, cancel)
        (rw t (elim (Bool-cases (connected id w.registry)) [
          | inr away ↦ rw away (
              cancel_unassigned-IsCancelling w w j (λ s f. absurd (unregistered w away s f)) refl e
                t)
          | inl live ↦
              let k = record j { cancel_requested = true } in
              rw live (
                rw (update_job_written id request_cancel w.store j k tt e refl) (
                  after_cancel_sent-IsCancelling w
                    (record w { store = record w.store { jobs = insert id k w.store.jobs } }) k
                    (rw (lookup-insert id id k w.store.jobs, bytes_eq_refl id) refl) t refl refl
                    refl refl q))
        ]))
