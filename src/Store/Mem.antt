-- ===== src/Store/Mem.antt =====
-- internal/store/memstore.go: the in-memory store. Each method runs under the store's mutex, so it is
-- one step: it takes the store and returns its result with the new store.
pub mod Timeline
pub mod Listing
pub mod Permissions
pub mod Valid
pub mod Runs
use hairpin.Base.{
  ℕ, zero, suc, ◌+◌, ◌-◌, ◌*◌, ◌/◌, ◌%◌, ◌≡◌, Bool, true, false, not, ◌&&◌, ◌||◌, Option, none,
  some, List, [], ◌∷◌, ◌++◌, map, Bytes, text, bytes_eq, is_empty, Assoc, lookup, insert, erase,
  Error, not_found, conflict, bad_page_token, index_out_of_range, Result, ok, err, ltb, leb, ◌==◌,
  if◌then◌else◌, length, get_elem?, drop,
}
use hairpin.Job.{Time, is_zero, Job}
use hairpin.Store.{Event, PermissionRequest, PermissionState, pending}
use hairpin.Store.StreamId.{u64_mod, decimal, format_id, stream_id_less}

-- A watch: its identity (the pointer in the source) and what its channel holds.
pub record Watcher : Type 0 where
  pub ident : ℕ
  pub buffer : List Event

pub record MemStore : Type 0 where
  pub jobs : Assoc Job
  pub order : List Bytes
  pub events : Assoc (List Event)
  pub perms : Assoc (Assoc PermissionRequest)
  pub watchers : Assoc (List Watcher)
  pub seq : ℕ
  pub max_len : ℕ
  pub next_ident : ℕ

-- NewMemStore; a cap that is not positive is given as 0.
unfoldable pub new_mem_store : ℕ → MemStore
new_mem_store max_events = record {
  jobs = [];
  order = [];
  events = [];
  perms = [];
  watchers = [];
  seq = 0;
  max_len = if max_events == 0 then 10000 else max_events;
  next_ident = 0;
}

-- A read of a Go map of slices or of maps: a missing key reads as the empty one.
abbrev pub entries {ℓ} : {V : Type ℓ} → Option (List V) → List V
entries none = []
entries (some vs) = vs

unfoldable pub create_job : Job → MemStore → Result (Unit {0}) × MemStore
create_job j m = elim (lookup j.id m.jobs) [
  | some _ ↦ (err conflict, m)
  | none ↦ (ok tt, record m { jobs = insert j.id j m.jobs; order = m.order ++ j.id ∷ [] })
]

unfoldable pub get_job : Bytes → MemStore → Result Job
get_job id m = elim (lookup id m.jobs) [ none ↦ err not_found | some j ↦ ok j ]

-- The callback returns the changed record and what it assigned to captured variables, or an error.
module _ {A : Type 0} where
  abbrev updated : Bytes → MemStore → Result (Job × A) → Result (Job × A) × MemStore
  updated id m (ok (j, a)) = (ok (j, a), record m { jobs = insert id j m.jobs })
  updated id m (err e) = (err e, m)

  unfoldable pub update_job :
      Bytes → (Job → Result (Job × A)) → MemStore → Result (Job × A) × MemStore
  update_job id fn m = elim (lookup id m.jobs) [
    | none ↦ (err not_found, m)
    | some j ↦ updated id m (fn j)
  ]

unfoldable pub remove_first : Bytes → List Bytes → List Bytes
remove_first id [] = []
remove_first id (x ∷ xs) = if bytes_eq x id then xs else x ∷ remove_first id xs

unfoldable pub delete_job : Bytes → MemStore → Result (Unit {0}) × MemStore
delete_job id m = elim (lookup id m.jobs) [
  | none ↦ (err not_found, m)
  | some _ ↦ (
    ok tt,
    record m {
      jobs = erase id m.jobs;
      events = erase id m.events;
      perms = erase id m.perms;
      watchers = erase id m.watchers;
      order = remove_first id m.order;
    },
  )
]
