-- ===== src/Reaper/Listing.antt =====
-- internal/reaper/reaper.go: the loop that reads all pages of ListJobs.
use mathlib.Core.List.{append-nil}
use hairpin.Base.{
  ℕ, zero, suc, ◌-◌, ◌≤◌, ◌<◌, ◌≡◌, refl, ap, sym, ◌∙◌, false, some, List, [], ◌∷◌, ◌++◌, is_empty,
  is_empty_iff, ok, length, take, arith, if◌then◌else◌,
}
use hairpin.Job.{Job}
use hairpin.Store.StreamId.Order.{decimal-ne}
use hairpin.Store.StreamId.{decimal}
use hairpin.Store.Mem.{MemStore}
use hairpin.Store.Mem.Valid.{IsValid}
use hairpin.Store.Mem.Listing.{i64_mod, next_token}
use hairpin.Store.Mem.Listing.Pages.{newest, list_jobs_first, list_jobs_resumed, page_size, job_at}
use hairpin.Reaper.{Reaper, list_from, list_all_jobs, prepended}

take-all : (k : ℕ) (xs : List Job) → length xs ≤ k → take k xs ≡ xs
take-all zero [] h = refl
take-all zero (x ∷ xs) h = absurd (omega arith)
take-all (suc k) [] h = refl
take-all (suc k) (x ∷ xs) h = ap (λ l. x ∷ l) (take-all k xs (omega arith))

-- A page and the older jobs are all of them.
take-newest :
    (m : MemStore) (n k : ℕ)
    → IsValid m
    → n ≤ length m.order
    → take k (newest m n) ++ newest m (n - k) ≡ newest m n
unfolding newest
take-newest m n zero v h = let same : n - 0 ≡ n = omega arith in ap (newest m) same
take-newest m zero (suc k) v h = let same : 0 - suc k ≡ 0 = omega arith in ap (newest m) same
take-newest m (suc i) (suc k) v h =
    let (id, j, e, found) = job_at m i v h in
    let same : suc i - suc k ≡ i - k = omega arith in
    rw (e, newest)
      (rw found (
        ap (λ l. j ∷ l)
          (ap (λ n. take k (newest m i) ++ newest m n) same ∙ take-newest m i k v (omega arith))))

page_size_positive : (limit : ℕ) → 1 ≤ page_size limit
page_size_positive limit = ground arith

module _ (m : MemStore) (size : ℕ) (v : IsValid m) (small : length m.order < i64_mod) where
  -- From a page that ends before the last `n` jobs, `n` further pages suffice for those.
  list_from_rest :
      (n pages : ℕ) (js : List Job)
      → n ≤ length m.order
      → n ≤ pages
      → (if is_empty (next_token n)
          then some (ok js)
          else prepended js (list_from pages size (next_token n) m))
        ≡ some (ok (js ++ newest m n))
  unfolding list_from next_token newest is_empty
  list_from_rest zero pages js h b = ap (λ l. some (ok l)) (sym (append-nil js))
  list_from_rest (suc i) zero js h b = absurd (omega arith)
  list_from_rest (suc i) (suc pages) js h b =
      let more : is_empty (decimal i) ≡ false =
        ground (arith, is_empty_iff (decimal i), decimal-ne i) in
      let page = take (page_size size) (newest m (suc i)) in
      let left = suc i - page_size size in
      let later =
        list_from_rest left pages page (omega arith) (omega (arith, page_size_positive size)) in
      let whole = ap (λ l. some (ok l)) (take-newest m (suc i) (page_size size) v h) in
      let step : list_from (suc pages) size (next_token (suc i)) m ≡ some (ok (newest m (suc i))) =
        rw (list_jobs_resumed size i m v h (omega arith), list_from) (later ∙ whole) in
      rw more (ap (prepended js) step)

-- On a valid store listAllJobs ends, after at most one page for each job and one more, and returns every
-- job that is stored, the newest first.
pub list_all_jobs_complete :
    (r : Reaper) (m : MemStore) (pages : ℕ)
    → IsValid m
    → length m.order < i64_mod
    → length m.order < pages
    → list_all_jobs pages r m ≡ some (ok (newest m (length m.order)))
unfolding list_all_jobs list_from
list_all_jobs_complete r m zero v small b = absurd (omega arith)
list_all_jobs_complete r m (suc pages) v small b =
    let n = length m.order in
    let page = take (page_size r.page_size) (newest m n) in
    rw (list_jobs_first r.page_size m v, list_all_jobs, list_from)
      (list_from_rest m r.page_size v small (n - page_size r.page_size) pages page (omega arith)
          (omega (arith, page_size_positive r.page_size))
        ∙ ap (λ l. some (ok l)) (take-newest m n (page_size r.page_size) v (omega arith)))
