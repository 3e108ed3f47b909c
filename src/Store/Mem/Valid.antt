-- ===== src/Store/Mem/Valid.antt =====
-- internal/store/memstore.go: what holds of the store between two calls, whatever the calls are.
use hairpin.Base.{
  ℕ, ◌-◌, ◌≤◌, ◌≡◌, refl, ◌≢◌, Bool, true, false, ◌||◌, Option, none, some, List, [], ◌∷◌, ◌++◌,
  arith, Bytes, bytes_eq, bytes_eq_iff, lookup, insert, lookup-insert, lookup-erase, Result, ok,
  if◌then◌else◌, length, length-drop, Option-cases, Result-cases, inl, inr, ◌∙◌,
}
use hairpin.Job.{Time, Job}
use hairpin.Store.{Event, PermissionRequest}
use hairpin.Store.Mem.{
  MemStore, Watcher, entries, new_mem_store, create_job, update_job, delete_job, remove_first,
}
use hairpin.Store.Mem.Timeline.{capped, appended, append_event, watch_events}
use hairpin.Store.Mem.Permissions.{put_permission}

-- Whether a list of IDs has one of them.
unfoldable pub contains : Bytes → List Bytes → Bool
contains id [] = false
contains id (x ∷ xs) = bytes_eq x id || contains id xs

-- No ID stands twice in the list.
abbrev pub Distinct : List Bytes → Type 0
Distinct [] = Unit
Distinct (x ∷ xs) = (contains x xs ≡ false) × Distinct xs

abbrev pub is_some {ℓ} : {A : Type ℓ} → Option A → Bool
is_some none = false
is_some (some a) = true

pub record IsValid (m : MemStore) : Type 0 where
  pub listed : (id : Bytes) → contains id m.order ≡ is_some (lookup id m.jobs)
  pub distinct : Distinct m.order
  pub own_id : (id : Bytes) (j : Job) → lookup id m.jobs ≡ some j → j.id ≡ id
  pub events_owned : (id : Bytes) → lookup id m.jobs ≡ none → lookup id m.events ≡ none
  pub perms_owned : (id : Bytes) → lookup id m.jobs ≡ none → lookup id m.perms ≡ none
  pub watchers_owned : (id : Bytes) → lookup id m.jobs ≡ none → lookup id m.watchers ≡ none
  pub within_cap : (id : Bytes) → length (entries (lookup id m.events)) ≤ m.max_len

contains-append :
    (id x : Bytes) (xs : List Bytes)
    → contains id (xs ++ x ∷ []) ≡ (if bytes_eq x id then true else contains id xs)
unfolding contains
contains-append id x [] = ground arith
contains-append id x (y ∷ ys) = ground (arith, contains-append id x ys)

Distinct-append :
    (x : Bytes) (xs : List Bytes) → contains x xs ≡ false → Distinct xs → Distinct (xs ++ x ∷ [])
unfolding contains
Distinct-append x [] h d = (refl, tt)
Distinct-append x (y ∷ ys) h d = (
  ground (arith, contains-append y x ys, bytes_eq_iff x y, bytes_eq_iff y x),
  Distinct-append x ys (ground arith) d.1,
)

contains-remove_first :
    (id x : Bytes) (xs : List Bytes)
    → Distinct xs
    → contains id (remove_first x xs) ≡ (if bytes_eq x id then false else contains id xs)
unfolding contains remove_first
contains-remove_first id x [] d = ground arith
contains-remove_first id x (y ∷ ys) d = ground (
  arith,
  contains-remove_first id x ys d.1,
  bytes_eq_iff x id,
  bytes_eq_iff y x,
  bytes_eq_iff y id,
)

Distinct-remove_first : (x : Bytes) (xs : List Bytes) → Distinct xs → Distinct (remove_first x xs)
unfolding contains remove_first
Distinct-remove_first x [] d = tt
Distinct-remove_first x (y ∷ ys) d =
    ground
      (arith, Distinct-remove_first x ys d.1, contains-remove_first y x ys d.1, bytes_eq_iff x y)

length-capped : (n : ℕ) (evs : List Event) → length (capped n evs) ≤ n
unfolding capped
length-capped n evs = ground (arith, length-drop (length evs - n) evs)

pub new_mem_store-IsValid : (n : ℕ) → IsValid (new_mem_store n)
unfolding new_mem_store contains lookup
new_mem_store-IsValid n = record {
  listed = λ id. refl;
  distinct = tt;
  own_id = λ id j e. cc;
  events_owned = λ id e. refl;
  perms_owned = λ id e. refl;
  watchers_owned = λ id e. refl;
  within_cap = λ id. omega arith;
}

pub create_job-IsValid : (j : Job) (m : MemStore) → IsValid m → IsValid (create_job j m).1
unfolding create_job
create_job-IsValid j m v = elim (Option-cases (lookup j.id m.jobs)) [
  | inr (k, e) ↦ rw (e, create_job) v
  | inl e ↦
      rw (e, create_job)
        (record {
          listed = λ id.
              ground (
                arith,
                contains-append id j.id m.order,
                lookup-insert j.id id j m.jobs,
                v.listed id,
              );
          distinct = Distinct-append j.id m.order (ground (arith, v.listed j.id)) v.distinct;
          own_id = λ id k h.
              ground (arith, lookup-insert j.id id j m.jobs, bytes_eq_iff j.id id, v.own_id id k);
          events_owned = λ id h. ground (arith, lookup-insert j.id id j m.jobs, v.events_owned id);
          perms_owned = λ id h. ground (arith, lookup-insert j.id id j m.jobs, v.perms_owned id);
          watchers_owned =
              λ id h. ground (arith, lookup-insert j.id id j m.jobs, v.watchers_owned id);
          within_cap = v.within_cap;
        })
]

-- A callback that gives up or returns a record with the ID that it was given.
abbrev pub KeepsId : {A : Type 0} → (Job → Result (Job × A)) → Type 0
KeepsId {A} fn = (j k : Job) (a : A) → fn j ≡ ok (k, a) → k.id ≡ j.id

pub delete_job-IsValid : (id : Bytes) (m : MemStore) → IsValid m → IsValid (delete_job id m).1
unfolding delete_job
delete_job-IsValid x m v = elim (Option-cases (lookup x m.jobs)) [
  | inl e ↦ rw (e, delete_job) v
  | inr (k, e) ↦
      rw (e, delete_job)
        (record {
          listed = λ id. ground (
            arith,
            contains-remove_first id x m.order v.distinct,
            lookup-erase x id m.jobs,
            v.listed id,
          );
          distinct = Distinct-remove_first x m.order v.distinct;
          own_id = λ id j h. ground (arith, lookup-erase x id m.jobs, v.own_id id j);
          events_owned = λ id h.
              ground
                (arith, lookup-erase x id m.jobs, lookup-erase x id m.events, v.events_owned id);
          perms_owned = λ id h.
              ground (arith, lookup-erase x id m.jobs, lookup-erase x id m.perms, v.perms_owned id);
          watchers_owned = λ id h.
              ground (
                arith,
                lookup-erase x id m.jobs,
                lookup-erase x id m.watchers,
                v.watchers_owned id,
              );
          within_cap = λ id. ground (arith, lookup-erase x id m.events, v.within_cap id);
        })
]

-- Writing the record of a job that is there, under its own ID, keeps the store valid.
replaced-IsValid :
    (x : Bytes) (j k : Job) (m : MemStore)
    → lookup x m.jobs ≡ some j
    → k.id ≡ x
    → IsValid m
    → IsValid (record m { jobs = insert x k m.jobs })
replaced-IsValid x j k m e same v = record {
  listed = λ id. ground (arith, lookup-insert x id k m.jobs, v.listed id, bytes_eq_iff x id);
  distinct = v.distinct;
  own_id = λ id i h. ground (arith, lookup-insert x id k m.jobs, bytes_eq_iff x id, v.own_id id i);
  events_owned = λ id h. ground (arith, lookup-insert x id k m.jobs, v.events_owned id);
  perms_owned = λ id h. ground (arith, lookup-insert x id k m.jobs, v.perms_owned id);
  watchers_owned = λ id h. ground (arith, lookup-insert x id k m.jobs, v.watchers_owned id);
  within_cap = v.within_cap;
}

module _ {A : Type 0} where
  pub update_job-IsValid :
      (x : Bytes) (fn : Job → Result (Job × A)) (m : MemStore)
      → KeepsId fn
      → IsValid m
      → IsValid (update_job x fn m).1
  unfolding update_job
  update_job-IsValid x fn m keeps v = elim (Option-cases (lookup x m.jobs)) [
    | inl e ↦ rw (e, update_job) v
    | inr (j, e) ↦ elim (Result-cases (fn j)) [
      | inr (bad, f) ↦ rw (e, update_job) (rw f v)
      | inl ((k, a), f) ↦
          rw (e, update_job) (rw f (replaced-IsValid x j k m e (keeps j k a f ∙ v.own_id x j e) v))
    ]
  ]

-- A job's timeline and watches may be given anew, within the cap.
retimed-IsValid :
    (x : Bytes) (j : Job) (evs : List Event) (ws : List Watcher) (n i : ℕ) (m : MemStore)
    → lookup x m.jobs ≡ some j
    → length evs ≤ m.max_len
    → IsValid m
    → IsValid (record m {
      events = insert x evs m.events;
      watchers = insert x ws m.watchers;
      seq = n;
      next_ident = i;
    })
retimed-IsValid x j evs ws n i m e fits v = record {
  listed = v.listed;
  distinct = v.distinct;
  own_id = v.own_id;
  events_owned =
      λ id h. ground (arith, lookup-insert x id evs m.events, bytes_eq_iff x id, v.events_owned id);
  perms_owned = v.perms_owned;
  watchers_owned = λ id h.
      ground (arith, lookup-insert x id ws m.watchers, bytes_eq_iff x id, v.watchers_owned id);
  within_cap = λ id. ground (arith, lookup-insert x id evs m.events, v.within_cap id);
}

pub append_event-IsValid :
    (now : Time) (x : Bytes) (ev : Event) (m : MemStore)
    → IsValid m
    → IsValid (append_event now x ev m).1
unfolding append_event appended
append_event-IsValid now x ev m v = elim (Option-cases (lookup x m.jobs)) [
  | inl e ↦ rw (e, append_event) v
  | inr (j, e) ↦
      rw (e, append_event)
        (retimed-IsValid x j _ _ _ m.next_ident m e (length-capped m.max_len _) v)
]

-- A job's watches may be given anew.
pub rewatched-IsValid :
    (x : Bytes) (ws : List Watcher) (i : ℕ) (m : MemStore)
    → lookup x m.jobs ≢ none
    → IsValid m
    → IsValid (record m { watchers = insert x ws m.watchers; next_ident = i })
rewatched-IsValid x ws i m there v = record {
  listed = v.listed;
  distinct = v.distinct;
  own_id = v.own_id;
  events_owned = v.events_owned;
  perms_owned = v.perms_owned;
  watchers_owned = λ id h.
      ground (arith, lookup-insert x id ws m.watchers, bytes_eq_iff x id, v.watchers_owned id);
  within_cap = v.within_cap;
}

pub watch_events-IsValid :
    (x after : Bytes) (m : MemStore) → IsValid m → IsValid (watch_events x after m).1
unfolding watch_events
watch_events-IsValid x after m v = elim (Option-cases (lookup x m.jobs)) [
  | inl e ↦ rw (e, watch_events) v
  | inr (j, e) ↦ rw (e, watch_events) (rewatched-IsValid x _ _ m (λ h. cc) v)
]

pub put_permission-IsValid :
    (x : Bytes) (p : PermissionRequest) (m : MemStore)
    → IsValid m
    → IsValid (put_permission x p m).1
unfolding put_permission
put_permission-IsValid x p m v = elim (Option-cases (lookup x m.jobs)) [
  | inl e ↦ rw (e, put_permission) v
  | inr (j, e) ↦
      let ps = insert p.request_id p (entries (lookup x m.perms)) in
      rw (e, put_permission)
        (record {
          listed = v.listed;
          distinct = v.distinct;
          own_id = v.own_id;
          events_owned = v.events_owned;
          perms_owned = λ id h.
              ground (arith, lookup-insert x id ps m.perms, bytes_eq_iff x id, v.perms_owned id);
          watchers_owned = v.watchers_owned;
          within_cap = v.within_cap;
        })
]
