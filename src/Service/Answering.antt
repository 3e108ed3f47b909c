-- ===== src/Service/Answering.antt =====
-- internal/service/service.go: what AnswerPermission has done when it returns.
use hairpin.Base.{
  ◌+◌, ap, sym, ◌≡◌, refl, ◌∙◌, ◌⊎◌, inl, inr, Bool, some, [], ◌∷◌, ◌++◌, Bytes, bytes_eq,
  bytes_eq_refl, bytes_eq_iff, lookup, insert, lookup-insert, Result, ok, err, Error,
  invalid_argument, Bool-cases, Result-cases, arith, if◌then◌else◌,
}
use hairpin.Job.{Time, Job, valid_id}
use hairpin.Registry.{Session}
use hairpin.Store.{PermissionRequest, allowed, denied}
use hairpin.Store.Mem.{MemStore, entries}
use hairpin.Store.Mem.Permissions.{put_permission, get_permission, is_pending}
use hairpin.Store.Mem.Permissions.Keyed.{IsKeyed}
use hairpin.World.{World, Env, read_clock, registry_send}
use hairpin.World.Persist.{jobs-put_permission}
use hairpin.World.Sending.{registry_send-outcome}
use hairpin.Service.{check_id, answer_permission, answered_as, permission_response, after_response}

get_permission-put_permission :
    (id r : Bytes) (p : PermissionRequest) (m : MemStore) (j : Job)
    → lookup id m.jobs ≡ some j
    → get_permission id r (put_permission id p m).1
      ≡ (if bytes_eq p.request_id r then ok p else get_permission id r m)
unfolding get_permission put_permission
get_permission-put_permission id r p m j e =
    rw (e, put_permission)
      (rw
        (
          lookup-insert id id (insert p.request_id p (entries (lookup id m.perms))) m.perms,
          bytes_eq_refl id,
          get_permission,
        )
        (ground (arith, lookup-insert p.request_id r p (entries (lookup id m.perms)))))

put_permission_stored :
    (id : Bytes) (p : PermissionRequest) (m : MemStore) (j : Job)
    → lookup id m.jobs ≡ some j
    → (put_permission id p m).0 ≡ ok tt
unfolding put_permission
put_permission_stored id p m j e = rw (e, put_permission) refl

module _ (env : Env) (id request_id : Bytes) (allow : Bool) (reason : Bytes) where
  -- Nothing was sent, and every request of the job reads as before.
  pub record IsUndelivered (w : World) (r : Result PermissionRequest × World) : Type 0 where
    pub why : Error
    pub refused : r.0 ≡ err why
    pub unsent : r.1.sent ≡ w.sent
    pub kept : (x : Bytes) → get_permission id x r.1.store ≡ get_permission id x w.store

  -- The stored request carries the decision, and the job's session was sent exactly that.
  pub record IsAnswered (w : World) (r : Result PermissionRequest × World) : Type 0 where
    pub request : PermissionRequest
    pub session : Session
    pub returned : r.0 ≡ ok request
    pub stored : get_permission id request_id r.1.store ≡ ok request
    pub decided : request.state ≡ (if allow then allowed else denied)
    pub connected : lookup id w.registry ≡ some session
    pub delivered : r.1.sent ≡ w.sent ++ (session, permission_response request_id allow reason) ∷ []

  refused-IsUndelivered : (w : World) (e : Error) → IsUndelivered w (err e, w)
  refused-IsUndelivered w e = record { why = e; refused = refl; unsent = refl; kept = λ x. refl }

  -- A delivery that failed leaves the request that was read first.
  reverted :
      (m : MemStore) (p : PermissionRequest) (at : Time) (j : Job) (x : Bytes)
      → lookup id m.jobs ≡ some j
      → get_permission id request_id m ≡ ok p
      → p.request_id ≡ request_id
      → get_permission id x
          (put_permission id p (put_permission id (answered_as allow reason at p) m).1).1
        ≡ get_permission id x m
  unfolding answered_as
  reverted m p at j x e g k =
      let q = answered_as allow reason at p in
      elim (Bool-cases (bytes_eq p.request_id x)) [
        | inl same ↦
            get_permission-put_permission id x p (put_permission id q m).1 j (still q)
            ∙ rw same (ground (arith, bytes_eq_iff p.request_id x))
        | inr differs ↦
            get_permission-put_permission id x p (put_permission id q m).1 j (still q)
            ∙ rw differs (get_permission-put_permission id x q m j e ∙ rw differs refl)
      ]
    where
      still : (q : PermissionRequest) → lookup id (put_permission id q m).1.jobs ≡ some j
      still q = ap (lookup id) (jobs-put_permission id q m) ∙ e

  answered_key :
      (t : Time) (p : PermissionRequest) (m : MemStore)
      → p.request_id ≡ request_id
      → (if bytes_eq (answered_as allow reason t p).request_id request_id
          then ok (answered_as allow reason t p)
          else get_permission id request_id m)
        ≡ ok (answered_as allow reason t p)
  unfolding answered_as
  answered_key t p m h = rw (h, bytes_eq_refl request_id) refl

  answered_state :
      (t : Time) (p : PermissionRequest)
      → (answered_as allow reason t p).state ≡ (if allow then allowed else denied)
  unfolding answered_as
  answered_state t p = refl

  after_recording-outcome :
      (w : World) (p : PermissionRequest) (at : Time) (j : Job)
      → lookup id w.store.jobs ≡ some j
      → get_permission id request_id w.store ≡ ok p
      → p.request_id ≡ request_id
      → (u : World) → u.store ≡ (put_permission id (answered_as allow reason at p) w.store).1
      → u.registry ≡ w.registry
      → u.sent ≡ w.sent
      → IsUndelivered w (
          after_response env id p
            (answered_as allow reason at p)
            (registry_send env id (permission_response request_id allow reason) u))
        ⊎ IsAnswered w (
            after_response env id p
              (answered_as allow reason at p)
              (registry_send env id (permission_response request_id allow reason) u))
  after_recording-outcome w p at j e g k u us ur ut =
      let q = answered_as allow reason at p in
      elim (registry_send-outcome env id (permission_response request_id allow reason) u) [
        | inl (bad, v, sent, vs, vt) ↦ inl (
            rw sent (record {
              why = bad;
              refused = refl;
              unsent = vt ∙ ut;
              kept = λ x. rw (vs ∙ us) (reverted w.store p at j x e g k);
            }))
        | inr (s, (found, unclosed, sent)) ↦ inr (
            rw sent (record {
              request = q;
              session = s;
              returned = refl;
              stored = rw us (
                  get_permission-put_permission id request_id q w.store j e
                  ∙ answered_key at p w.store k);
              decided = answered_state at p;
              connected = ap (lookup id) (sym ur) ∙ found;
              delivered = ap (λ l. l ++ (s, permission_response request_id allow reason) ∷ []) ut;
            }))
      ]

  -- AnswerPermission either fails, and then nothing was sent and every request of the job reads as
  -- before, or it returns the stored request with the decision, sent exactly once to the job's live session. The
  -- job is stored, with each of its requests under the request's own ID.
  pub answer_permission-outcome :
      (w : World) (j : Job)
      → lookup id w.store.jobs ≡ some j
      → IsKeyed id w.store
      → IsUndelivered w (answer_permission env id request_id allow reason w)
        ⊎ IsAnswered w (answer_permission env id request_id allow reason w)
  unfolding answer_permission check_id read_clock
  answer_permission-outcome w j e keyed = elim (Bool-cases (valid_id id)) [
    | inr bad ↦ inl (rw (bad, answer_permission) (refused-IsUndelivered w invalid_argument))
    | inl good ↦ elim (Result-cases (get_permission id request_id w.store)) [
      | inr (bad, g) ↦ inl (rw (good, answer_permission) (rw g (refused-IsUndelivered w bad)))
      | inl (p, g) ↦ elim (Bool-cases (is_pending p.state)) [
        | inr settled ↦ inl (
            rw (good, answer_permission)
              (rw g (rw settled (refused-IsUndelivered w invalid_argument))))
        | inl free ↦
            let at = env.now w.reads in
            let m = (put_permission id (answered_as allow reason at p) w.store).1 in
            rw (good, answer_permission)
              (rw g (
                rw free (
                  rw (put_permission_stored id (answered_as allow reason at p) w.store j e) (
                    after_recording-outcome w p at j e g (keyed request_id p g)
                      (record w { reads = w.reads + 1; store = m }) refl refl refl))))
      ]
    ]
  ]
