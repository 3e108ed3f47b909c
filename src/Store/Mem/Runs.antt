-- ===== src/Store/Mem/Runs.antt =====
-- internal/store/memstore.go: the store after any sequence of calls, by any callers.
use hairpin.Base.{ℕ, none, some, List, [], ◌∷◌, Bytes, Result, Option-cases, inl, inr, Option}
use hairpin.Job.{Time, Job}
use hairpin.Store.{Event, PermissionRequest}
use hairpin.Store.Mem.{MemStore, new_mem_store, create_job, update_job, delete_job}
use hairpin.Store.Mem.Timeline.{append_event, watch_events, take_event, remove_watcher}
use hairpin.Store.Mem.Timeline.Watching.{remove_watcher_other, take_event-some}
use hairpin.Store.Mem.Permissions.{put_permission}
use hairpin.Store.Mem.Valid.{
  IsValid, KeepsId, new_mem_store-IsValid, create_job-IsValid, update_job-IsValid,
  delete_job-IsValid, append_event-IsValid, watch_events-IsValid, put_permission-IsValid,
  rewatched-IsValid,
}

-- A call that changes the store, with its arguments; the clock's reading is an argument of an append.
pub data Call : Type 0 where
  creates : Job → Call
  updates : Bytes → (Job → Result (Job × Unit {0})) → Call
  deletes : Bytes → Call
  appends : Time → Bytes → Event → Call
  watches : Bytes → Bytes → Call
  receives : Bytes → ℕ → Call
  unwatches : Bytes → ℕ → Call
  permits : Bytes → PermissionRequest → Call

received : MemStore → Option (Event × MemStore) → MemStore
received m none = m
received m (some (e, n)) = n

unfoldable pub call : Call → MemStore → MemStore
unfolding received
call (creates j) m = (create_job j m).1
call (updates id fn) m = (update_job id fn m).1
call (deletes id) m = (delete_job id m).1
call (appends now id ev) m = (append_event now id ev m).1
call (watches id after) m = (watch_events id after m).1
call (receives id i) m = received m (take_event id i m)
call (unwatches id i) m = remove_watcher id i m
call (permits id p) m = (put_permission id p m).1

unfoldable pub calls : List Call → MemStore → MemStore
unfolding call
calls [] m = m
calls (c ∷ cs) m = calls cs (call c m)

-- The callbacks of the updates keep the ID of the record that they are given.
abbrev pub KeepsIds : List Call → Type 0
KeepsIds [] = Unit
KeepsIds (updates id fn ∷ cs) = KeepsId fn × KeepsIds cs
KeepsIds (_ ∷ cs) = KeepsIds cs

receives-IsValid :
    (id : Bytes) (i : ℕ) (m : MemStore) → IsValid m → IsValid (call (receives id i) m)
unfolding call
receives-IsValid id i m v = elim (Option-cases (take_event id i m)) [
  | inl e ↦ rw e v
  | inr ((ev, n), e) ↦
      let (found, (ws, new)) = take_event-some id i m n ev e in
      rw e (rw new (rewatched-IsValid id ws m.next_ident m (λ h. found (v.watchers_owned id h)) v))
]

unwatches-IsValid :
    (id : Bytes) (i : ℕ) (m : MemStore) → IsValid m → IsValid (remove_watcher id i m)
unwatches-IsValid id i m v = elim (remove_watcher_other id i m) [
  | inl same ↦ rw same v
  | inr (found, (ws, new)) ↦
      rw new (rewatched-IsValid id ws m.next_ident m (λ h. found (v.watchers_owned id h)) v)
]

-- From a valid store every sequence of calls leads to a valid store.
pub calls-IsValid : (cs : List Call) (m : MemStore) → KeepsIds cs → IsValid m → IsValid (calls cs m)
unfolding calls
calls-IsValid [] m k v = v
calls-IsValid (creates j ∷ cs) m k v = calls-IsValid cs _ k (create_job-IsValid j m v)
calls-IsValid (updates id fn ∷ cs) m k v = calls-IsValid cs _ k.1 (update_job-IsValid id fn m k.0 v)
calls-IsValid (deletes id ∷ cs) m k v = calls-IsValid cs _ k (delete_job-IsValid id m v)
calls-IsValid (appends now id ev ∷ cs) m k v =
    calls-IsValid cs _ k (append_event-IsValid now id ev m v)
calls-IsValid (watches id after ∷ cs) m k v =
    calls-IsValid cs _ k (watch_events-IsValid id after m v)
calls-IsValid (receives id i ∷ cs) m k v = calls-IsValid cs _ k (receives-IsValid id i m v)
calls-IsValid (unwatches id i ∷ cs) m k v = calls-IsValid cs _ k (unwatches-IsValid id i m v)
calls-IsValid (permits id p ∷ cs) m k v = calls-IsValid cs _ k (put_permission-IsValid id p m v)

-- After any sequence of calls on a new store, with callbacks that keep the record's ID, the listing order holds each stored job once and no
-- other ID, every record stands under its own ID, no timeline, permission table or watch belongs to
-- a job that is not stored, and no timeline is longer than the cap.
pub reachable-IsValid :
    (n : ℕ) (cs : List Call) → KeepsIds cs → IsValid (calls cs (new_mem_store n))
reachable-IsValid n cs k = calls-IsValid cs (new_mem_store n) k (new_mem_store-IsValid n)
