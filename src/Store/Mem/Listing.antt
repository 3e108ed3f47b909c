-- ===== src/Store/Mem/Listing.antt =====
-- internal/store/memstore.go: ListJobs and its page tokens.
pub mod Pages
use hairpin.Base.{
  ℕ, zero, suc, ◌+◌, ◌-◌, ◌*◌, ◌≡◌, Bool, true, false, not, ◌&&◌, ◌||◌, Option, none, some, List,
  [], ◌∷◌, ◌++◌, Bytes, is_empty, Assoc, lookup, Error, bad_page_token, index_out_of_range, Result,
  ok, err, ltb, leb, ◌==◌, if◌then◌else◌, length, get_elem?, ◌>>=◌,
}
use hairpin.Job.{Job}
use hairpin.Store.StreamId.{decimal, span_digits, digits_value}
use hairpin.Store.Mem.{MemStore}

-- What `Sscanf(token, "%d", &idx)` makes of a token: an index, a negative number, or an error.
-- Blanks before the number are not modelled.
pub data Index : Type 0 where
  at : ℕ → Index
  below_zero : Index
  unreadable : Index

abbrev pub i64_mod : ℕ
i64_mod = 9223372036854775808

signed_index : Bool → Bytes → Index
signed_index negative [] = unreadable
signed_index false (d ∷ ds) =
    if ltb (digits_value 0 (d ∷ ds)) i64_mod then at (digits_value 0 (d ∷ ds)) else unreadable
signed_index true (d ∷ ds) =
    if digits_value 0 (d ∷ ds) == 0
    then at 0
    else if leb (digits_value 0 (d ∷ ds)) i64_mod
    then below_zero
    else unreadable

unfoldable pub scan_index : Bytes → Index
unfolding signed_index span_digits digits_value
scan_index [] = unreadable
scan_index (c ∷ cs) =
    if c == b'-'
    then signed_index true (span_digits cs).0
    else if c == b'+'
    then signed_index false (span_digits cs).0
    else signed_index false (span_digits (c ∷ cs)).0

-- The loop of ListJobs: `n` is `i + 1`, the number of positions from `i` down to 0, and `room` is
-- `limit - len(out)`. The result is the page and the last `i + 1`; an `order[i]` out of range panics.
abbrev pub with_job : Job → Result (List Job × ℕ) → Result (List Job × ℕ)
with_job j (ok (js, n)) = ok (j ∷ js, n)
with_job j (err e) = err e

unfoldable pub walk : MemStore → ℕ → ℕ → Result (List Job × ℕ)
walk m zero room = ok ([], zero)
walk m (suc i) zero = ok ([], suc i)
walk m (suc i) (suc room) = elim (get_elem? m.order i) [
  | none ↦ err index_out_of_range
  | some id ↦ elim (lookup id m.jobs) [
    | none ↦ walk m i (suc room)
    | some j ↦ with_job j (walk m i room)
  ]
]

unfoldable pub next_token : ℕ → Bytes
unfolding decimal
next_token zero = []
next_token (suc i) = decimal i

abbrev pub paged : Result (List Job × ℕ) → Result (List Job × Bytes)
paged (ok (js, n)) = ok (js, next_token n)
paged (err e) = err e

-- Where the walk starts, as the number of positions down from there.
unfoldable pub start_of : Bytes → MemStore → Result ℕ
start_of token m = if is_empty token then ok (length m.order) else elim (scan_index token) [
  | at i ↦ ok (i + 1)
  | below_zero ↦ ok 0
  | unreadable ↦ err bad_page_token
]

-- A limit that is not positive is given as 0.
unfoldable pub list_jobs : ℕ → Bytes → MemStore → Result (List Job × Bytes)
list_jobs limit token m = do
  n ← start_of token m
  paged (walk m n (if limit == 0 then 50 else limit))
