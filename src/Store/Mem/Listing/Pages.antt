-- ===== src/Store/Mem/Listing/Pages.antt =====
-- internal/store/memstore.go: what the pages of ListJobs hold, and the page tokens that fail.
use mathlib.Core.List.{append-nil}
use hairpin.Base.{
  ℕ, zero, suc, ◌-◌, ◌≤◌, ◌<◌, ◌≡◌, refl, ◌≢◌, inl, inr, none, some, List, [], ◌∷◌, arith, Bytes,
  true, bytes_eq_iff, is_empty, is_empty_iff, lookup, length, take, get_elem?, Option-cases,
  if◌then◌else◌, ◌==◌, index_out_of_range, ok, err, ap,
}
use hairpin.Job.{Job}
use hairpin.Store.StreamId.{decimal, span_digits, digits_value}
use hairpin.Store.StreamId.Order.{
  AllDigits, decimal-AllDigits, decimal-ne, digits_value-decimal, span_digits-append,
}
use hairpin.Store.Mem.{MemStore}
use hairpin.Store.Mem.Valid.{IsValid, contains}
use hairpin.Store.Mem.Listing.{at, i64_mod, scan_index, walk, next_token, start_of, list_jobs}

-- The jobs at the first `n` places of the creation order, the newest first.
unfoldable pub newest : MemStore → ℕ → List Job
newest m zero = []
newest m (suc i) = elim (get_elem? m.order i) [
  | none ↦ newest m i
  | some id ↦ elim (lookup id m.jobs) [ none ↦ newest m i | some j ↦ j ∷ newest m i ]
]

get_elem?_in :
    (xs : List Bytes) (i : ℕ)
    → i < length xs
    → (id : Bytes) × (get_elem? xs i ≡ some id) × (contains id xs ≡ true)
unfolding contains
get_elem?_in [] i h = absurd (omega arith)
get_elem?_in (x ∷ xs) zero h = (x, refl, ground (arith, bytes_eq_iff x x))
get_elem?_in (x ∷ xs) (suc i) h =
    let (id, e, c) = get_elem?_in xs i (omega arith) in (id, e, ground (arith, c))

-- Every place of a valid store's order holds a job.
pub job_at :
    (m : MemStore) (i : ℕ)
    → IsValid m
    → i < length m.order
    → (id : Bytes) × (j : Job) × (get_elem? m.order i ≡ some id) × (lookup id m.jobs ≡ some j)
job_at m i v h =
    let (id, e, c) = get_elem?_in m.order i h in
    elim (Option-cases (lookup id m.jobs)) [
      | inl missing ↦ absurd (ground (arith, v.listed id, c))
      | inr (j, found) ↦ (id, j, e, found)
    ]

length-newest : (m : MemStore) (n : ℕ) → IsValid m → n ≤ length m.order → length (newest m n) ≡ n
unfolding newest
length-newest m zero v h = refl
length-newest m (suc i) v h =
    let (id, j, e, found) = job_at m i v h in
    rw (e, newest) (rw found (ap suc (length-newest m i v (omega arith))))

-- One page is the next `room` jobs, and the walk stops right behind them.
pub walk_page :
    (m : MemStore) (n room : ℕ)
    → IsValid m
    → n ≤ length m.order
    → walk m n room ≡ ok (take room (newest m n), n - room)
unfolding walk newest
walk_page m zero zero v h = ap (λ k. ok ([], k)) (omega arith)
walk_page m zero (suc room) v h = ap (λ k. ok ([], k)) (omega arith)
walk_page m (suc i) zero v h = ap (λ k. ok ([], k)) (omega arith)
walk_page m (suc i) (suc room) v h =
    let (id, j, e, found) = job_at m i v h in
    rw (e, walk, newest)
      (rw (found, walk_page m i room v (omega arith))
        (ap (λ k. ok (j ∷ take room (newest m i), k)) (omega arith)))

span_digits-decimal : (n : ℕ) → span_digits (decimal n) ≡ (decimal n, [])
unfolding span_digits
span_digits-decimal n =
    rw append-nil at (span_digits-append (decimal n) [] (decimal-AllDigits n) refl refl)

scan_index_digits :
    (ds : Bytes) (n : ℕ)
    → ds ≢ []
    → AllDigits ds
    → span_digits ds ≡ (ds, [])
    → digits_value 0 ds ≡ n
    → n < i64_mod
    → scan_index ds ≡ at n
unfolding scan_index
scan_index_digits [] n e d s v h = absurd (e refl)
scan_index_digits (c ∷ cs) n e d s v h = ground (arith, d.0)

-- A token that ListJobs returns is read back as the position that it was printed for.
pub start_of-next_token :
    (i : ℕ) (m : MemStore) → i < i64_mod → start_of (next_token (suc i)) m ≡ ok (suc i)
unfolding start_of next_token
start_of-next_token i m h = ground (
  arith,
  is_empty_iff (decimal i),
  decimal-ne i,
  scan_index_digits (decimal i) i (decimal-ne i) (decimal-AllDigits i) (span_digits-decimal i)
      (digits_value-decimal i) h,
)

-- What a limit that is not positive means.
abbrev pub page_size : ℕ → ℕ
page_size limit = if limit == 0 then 50 else limit

-- The first page is the newest jobs, up to the limit, newest first, with the token of the first job left
-- out, or none if that was all.
pub list_jobs_first :
    (limit : ℕ) (m : MemStore)
    → IsValid m
    → list_jobs limit [] m
      ≡ ok (
        take (page_size limit) (newest m (length m.order)),
        next_token (length m.order - page_size limit),
      )
unfolding list_jobs start_of is_empty
list_jobs_first limit m v = rw (walk_page m (length m.order) (page_size limit) v (omega arith))

-- The page of a token goes on exactly where the page that returned it stopped.
pub list_jobs_resumed :
    (limit i : ℕ) (m : MemStore)
    → IsValid m
    → i < length m.order
    → i < i64_mod
    → list_jobs limit (next_token (suc i)) m
      ≡ ok (take (page_size limit) (newest m (suc i)), next_token (suc i - page_size limit))
unfolding list_jobs
list_jobs_resumed limit i m v h small =
    rw (start_of-next_token i m small) (rw (walk_page m (suc i) (page_size limit) v h))

get_elem?_out : (xs : List Bytes) (i : ℕ) → length xs ≤ i → get_elem? xs i ≡ none
get_elem?_out [] i h = refl
get_elem?_out (x ∷ xs) zero h = absurd (omega arith)
get_elem?_out (x ∷ xs) (suc i) h = get_elem?_out xs i (omega arith)

-- A token that names a position past the end of the order, as one does that was made up or was
-- returned before jobs were deleted, makes ListJobs index out of range.
pub list_jobs_panics :
    (limit i : ℕ) (token : Bytes) (m : MemStore)
    → token ≢ []
    → scan_index token ≡ at i
    → length m.order ≤ i
    → list_jobs limit token m ≡ err index_out_of_range
unfolding list_jobs start_of walk
list_jobs_panics limit i token m e s h =
    ground (arith, is_empty_iff token, get_elem?_out m.order i h)
