-- ===== src/Store/Mem/Permissions/Keyed.antt =====
-- internal/store/memstore.go: each permission request of a job stands under its own ID.
use hairpin.Base.{
  ℕ, ◌≡◌, inl, inr, some, List, [], ◌∷◌, Bytes, bytes_eq_iff, Assoc, lookup, insert, erase,
  lookup-insert, lookup-erase, ok, arith, Option-cases, Result-cases,
}
use hairpin.Store.{PermissionRequest}
use hairpin.Store.Mem.{MemStore, entries, new_mem_store, create_job, update_job, delete_job}
use hairpin.Store.Mem.Timeline.{append_event, appended, watch_events}
use hairpin.Store.Mem.Timeline.Watching.{remove_watcher_other, take_event-some}
use hairpin.Store.Mem.Timeline.{take_event}
use hairpin.Store.Mem.Permissions.{put_permission, get_permission}
use hairpin.Store.Mem.Runs.{
  Call, call, calls, creates, updates, deletes, appends, watches, receives, unwatches, permits,
}

-- Each request of the job is kept under its own ID.
abbrev pub IsKeyed : Bytes → MemStore → Type 0
IsKeyed id m = (r : Bytes) (p : PermissionRequest) → get_permission id r m ≡ ok p → p.request_id ≡ r

-- The same of every job, as the tables have it.
abbrev HasKeys : Assoc (Assoc PermissionRequest) → Type 0
HasKeys perms =
    (id r : Bytes) (p : PermissionRequest)
    → lookup r (entries (lookup id perms)) ≡ some p
    → p.request_id ≡ r

HasKeys-IsKeyed : (m : MemStore) → HasKeys m.perms → (id : Bytes) → IsKeyed id m
unfolding get_permission
HasKeys-IsKeyed m k id r p h = ground (arith, k id r p)

HasKeys-insert :
    (x : Bytes) (q : PermissionRequest) (perms : Assoc (Assoc PermissionRequest))
    → HasKeys perms
    → HasKeys (insert x (insert q.request_id q (entries (lookup x perms))) perms)
HasKeys-insert x q perms k id r p h =
    let table = entries (lookup x perms) in
    ground (
      arith,
      k id r p,
      lookup-insert x id (insert q.request_id q table) perms,
      lookup-insert q.request_id r q table,
      bytes_eq_iff q.request_id r,
      bytes_eq_iff x id,
    )

HasKeys-erase :
    (x : Bytes) (perms : Assoc (Assoc PermissionRequest)) → HasKeys perms → HasKeys (erase x perms)
unfolding lookup
HasKeys-erase x perms k id r p h = ground (arith, k id r p, lookup-erase x id perms)

call-HasKeys : (c : Call) (m : MemStore) → HasKeys m.perms → HasKeys (call c m).perms
unfolding call create_job update_job delete_job append_event appended watch_events put_permission
call-HasKeys (creates j) m k = elim (Option-cases (lookup j.id m.jobs)) [
  | inl e ↦ rw (e, create_job, call) k
  | inr (i, e) ↦ rw (e, create_job, call) k
]
call-HasKeys (updates id fn) m k = elim (Option-cases (lookup id m.jobs)) [
  | inl e ↦ rw (e, update_job, call) k
  | inr (j, e) ↦ elim (Result-cases (fn j)) [
    | inl (r, f) ↦ rw (e, update_job, call) (rw f k)
    | inr (bad, f) ↦ rw (e, update_job, call) (rw f k)
  ]
]
call-HasKeys (deletes id) m k = elim (Option-cases (lookup id m.jobs)) [
  | inl e ↦ rw (e, delete_job, call) k
  | inr (i, e) ↦ rw (e, delete_job, call) (HasKeys-erase id m.perms k)
]
call-HasKeys (appends now id ev) m k = elim (Option-cases (lookup id m.jobs)) [
  | inl e ↦ rw (e, append_event, call) k
  | inr (i, e) ↦ rw (e, append_event, call) k
]
call-HasKeys (watches id after) m k = elim (Option-cases (lookup id m.jobs)) [
  | inl e ↦ rw (e, watch_events, call) k
  | inr (i, e) ↦ rw (e, watch_events, call) k
]
call-HasKeys (receives id i) m k = elim (Option-cases (take_event id i m)) [
  | inl e ↦ rw e k
  | inr ((ev, n), e) ↦ let (found, (ws, new)) = take_event-some id i m n ev e in rw e (rw new k)
]
call-HasKeys (unwatches id i) m k = elim (remove_watcher_other id i m) [
  | inl same ↦ rw same k
  | inr (found, (ws, new)) ↦ rw new k
]
call-HasKeys (permits id p) m k = elim (Option-cases (lookup id m.jobs)) [
  | inl e ↦ rw (e, put_permission, call) k
  | inr (i, e) ↦ rw (e, put_permission, call) (HasKeys-insert id p m.perms k)
]

calls-HasKeys : (cs : List Call) (m : MemStore) → HasKeys m.perms → HasKeys (calls cs m).perms
unfolding calls
calls-HasKeys [] m k = k
calls-HasKeys (c ∷ cs) m k = calls-HasKeys cs (call c m) (call-HasKeys c m k)

-- After any sequence of calls on a new store, each request stands under its own ID.
pub reachable-IsKeyed :
    (n : ℕ) (cs : List Call) (id : Bytes) → IsKeyed id (calls cs (new_mem_store n))
unfolding new_mem_store lookup
reachable-IsKeyed n cs =
    HasKeys-IsKeyed (calls cs (new_mem_store n))
      (calls-HasKeys cs (new_mem_store n) (λ id r p h. absurd (ground arith)))
