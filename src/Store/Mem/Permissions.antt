-- ===== src/Store/Mem/Permissions.antt =====
-- internal/store/memstore.go: the permission requests of a job.
pub mod Sorted
pub mod Keyed
use hairpin.Base.{
  Bool, true, false, none, some, List, [], ◌∷◌, Bytes, Assoc, lookup, insert, not_found, Result, ok,
  err, ltb, if◌then◌else◌,
}
use hairpin.Store.{PermissionRequest, PermissionState, pending}
use hairpin.Store.Mem.{MemStore, entries}

unfoldable pub put_permission : Bytes → PermissionRequest → MemStore → Result (Unit {0}) × MemStore
put_permission id p m = elim (lookup id m.jobs) [
  | none ↦ (err not_found, m)
  | some _ ↦ (
    ok tt,
    record m { perms = insert id (insert p.request_id p (entries (lookup id m.perms))) m.perms },
  )
]

unfoldable pub get_permission : Bytes → Bytes → MemStore → Result PermissionRequest
get_permission id request_id m = elim (lookup request_id (entries (lookup id m.perms))) [
  | none ↦ err not_found
  | some p ↦ ok p
]

abbrev pub is_pending : PermissionState → Bool
is_pending pending = true
is_pending _ = false

-- The order of the listing: pending requests first, then by the time of the request.
unfoldable pub listed_before : PermissionRequest → PermissionRequest → Bool
listed_before p q =
    if is_pending p.state
    then (if is_pending q.state then ltb p.requested_at q.requested_at else true)
    else if is_pending q.state
    then false
    else ltb p.requested_at q.requested_at

-- `sort.Slice`: a request goes in front of the first one that it does not come after.
unfoldable pub insert_sorted : PermissionRequest → List PermissionRequest → List PermissionRequest
insert_sorted p [] = p ∷ []
insert_sorted p (q ∷ qs) = if listed_before q p then q ∷ insert_sorted p qs else p ∷ q ∷ qs

unfoldable pub sort_permissions : List PermissionRequest → List PermissionRequest
unfolding insert_sorted
sort_permissions [] = []
sort_permissions (p ∷ ps) = insert_sorted p (sort_permissions ps)

unfoldable pub values : Assoc PermissionRequest → List PermissionRequest
values [] = []
values ((k, p) ∷ m) = p ∷ values m

-- The source reads the map in no particular order; here it is the order of the entries.
unfoldable pub list_permissions : Bytes → MemStore → List PermissionRequest
unfolding values sort_permissions
list_permissions id m = sort_permissions (values (entries (lookup id m.perms)))
