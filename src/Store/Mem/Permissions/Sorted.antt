-- ===== src/Store/Mem/Permissions/Sorted.antt =====
-- internal/store/memstore.go: the order in which ListPermissions lists a job's requests.
use mathlib.Core.List.{Perm}
use mathlib.Core.List.Perm
use hairpin.Base.{
  ◌≢◌, ◌↔◌, ◌⊎◌, ◌≤◌, ◌≡◌, true, false, List, [], ◌∷◌, Bytes, lookup, arith, All, Bool-cases, inl,
  inr,
}
use hairpin.Store.{PermissionRequest, PermissionState, pending, allowed, denied}
use hairpin.Store.Mem.{MemStore, entries}
use hairpin.Store.Mem.Permissions.{
  is_pending, listed_before, insert_sorted, sort_permissions, values, list_permissions,
}

-- The first request may be listed in front of the second: it is pending and the other is not, or they agree in
-- that and it was not asked later.
abbrev pub InOrder : PermissionRequest → PermissionRequest → Type 0
InOrder p q =
    ((p.state ≡ pending) × (q.state ≢ pending))
    ⊎ (((p.state ≡ pending) ↔ (q.state ≡ pending)) × (p.requested_at ≤ q.requested_at))

abbrev pub IsSorted : List PermissionRequest → Type 0
IsSorted [] = Unit
IsSorted (p ∷ ps) = All (λ q. InOrder p q) ps × IsSorted ps

is_pending_iff : (s : PermissionState) → (is_pending s ≡ true) ↔ (s ≡ pending)
is_pending_iff pending = ground arith
is_pending_iff allowed = ground arith
is_pending_iff denied = ground arith

listed_before-InOrder : (p q : PermissionRequest) → listed_before q p ≡ true → InOrder q p
unfolding listed_before
listed_before-InOrder p q h = ground (arith, is_pending_iff p.state, is_pending_iff q.state)

not_before-InOrder : (p q : PermissionRequest) → listed_before q p ≡ false → InOrder p q
unfolding listed_before
not_before-InOrder p q h = ground (arith, is_pending_iff p.state, is_pending_iff q.state)

InOrder-trans : (p q r : PermissionRequest) → InOrder p q → InOrder q r → InOrder p r
InOrder-trans p q r (inl (a, b)) (inl (c, d)) = inl (a, d)
InOrder-trans p q r (inl (a, b)) (inr (c, d)) = inl (a, λ e. b (c.1 e))
InOrder-trans p q r (inr (a, b)) (inl (c, d)) = inl (a.1 c, d)
InOrder-trans p q r (inr (a, b)) (inr (c, d)) =
    inr ((λ e. c.0 (a.0 e), λ e. a.1 (c.1 e)), omega arith)

module _ (P : PermissionRequest → Type 0) where
  All-insert_sorted :
      (p : PermissionRequest) (ps : List PermissionRequest)
      → P p
      → All P ps
      → All P (insert_sorted p ps)
  unfolding insert_sorted
  All-insert_sorted p [] h hs = (h, tt)
  All-insert_sorted p (q ∷ qs) h (k, ks) = elim (Bool-cases (listed_before q p)) [
    | inl e ↦ rw e (k, All-insert_sorted p qs h ks)
    | inr e ↦ rw e (h, (k, ks))
  ]

All-InOrder :
    (p q : PermissionRequest) (qs : List PermissionRequest)
    → InOrder p q
    → All (λ r. InOrder q r) qs
    → All (λ r. InOrder p r) qs
All-InOrder p q [] e h = tt
All-InOrder p q (r ∷ rs) e (h, hs) = (InOrder-trans p q r e h, All-InOrder p q rs e hs)

insert_sorted-IsSorted :
    (p : PermissionRequest) (ps : List PermissionRequest)
    → IsSorted ps
    → IsSorted (insert_sorted p ps)
unfolding insert_sorted
insert_sorted-IsSorted p [] h = (tt, tt)
insert_sorted-IsSorted p (q ∷ qs) (h, hs) = elim (Bool-cases (listed_before q p)) [
  | inl e ↦ rw e (
    All-insert_sorted (λ r. InOrder q r) p qs (listed_before-InOrder p q e) h,
    insert_sorted-IsSorted p qs hs,
  )
  | inr e ↦
      rw e ((not_before-InOrder p q e, All-InOrder p q qs (not_before-InOrder p q e) h), (h, hs))
]

sort_permissions-IsSorted : (ps : List PermissionRequest) → IsSorted (sort_permissions ps)
unfolding sort_permissions
sort_permissions-IsSorted [] = tt
sort_permissions-IsSorted (p ∷ ps) =
    insert_sorted-IsSorted p (sort_permissions ps) (sort_permissions-IsSorted ps)

insert_sorted-Perm :
    (p : PermissionRequest) (ps : List PermissionRequest) → Perm (insert_sorted p ps) (p ∷ ps)
unfolding insert_sorted
insert_sorted-Perm p [] = Perm.refl (p ∷ [])
insert_sorted-Perm p (q ∷ qs) = elim (Bool-cases (listed_before q p)) [
  | inl e ↦ rw e (Perm.trans (Perm.cons q (insert_sorted-Perm p qs)) (Perm.swap p q qs))
  | inr e ↦ rw e (Perm.refl (p ∷ q ∷ qs))
]

sort_permissions-Perm : (ps : List PermissionRequest) → Perm (sort_permissions ps) ps
unfolding sort_permissions
sort_permissions-Perm [] = Perm.refl []
sort_permissions-Perm (p ∷ ps) =
    Perm.trans (insert_sorted-Perm p (sort_permissions ps)) (Perm.cons p (sort_permissions-Perm ps))

-- ListPermissions lists each stored request of the job exactly as often as the store has it, pending requests
-- before answered ones, and among either the older ones first.
pub list_permissions-IsSorted :
    (id : Bytes) (m : MemStore)
    → IsSorted (list_permissions id m)
      × Perm (list_permissions id m) (values (entries (lookup id m.perms)))
unfolding list_permissions
list_permissions-IsSorted id m =
    let ps = values (entries (lookup id m.perms)) in
    (sort_permissions-IsSorted ps, sort_permissions-Perm ps)
