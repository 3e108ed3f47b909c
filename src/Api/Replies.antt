-- ===== src/Api/Replies.antt =====
-- internal/api: what a caller is told, and what not.
use hairpin.Base.{
  ℕ, zero, suc, ◌≡◌, refl, inl, inr, Option, none, some, List, [], ◌∷◌, map, Bytes, bytes_eq, Assoc,
  lookup, Result, ok, err, ap, sym, ◌∙◌, ◌>>=◌, get_elem?, Option-cases, Bool-cases, Result-cases,
}
use hairpin.Job.{Job}
use hairpin.Store.Mem.{MemStore}
use hairpin.Store.Mem.Listing
use hairpin.Store.Mem.Listing.{walk, start_of, with_job, paged}
use hairpin.World.{World}
use hairpin.Service.{get, check_id}
use hairpin.Api.{
  Reply, reply, failure, job_to_proto, ProtoJob, answered, listed, get_job, list_jobs,
}
use hairpin.Store.Mem

-- The same jobs with other harness tokens.
abbrev pub retokened_job : (Bytes → Bytes) → Job → Job
retokened_job f j = record j { harness_token = f j.id }

abbrev pub retokened : (Bytes → Bytes) → Assoc Job → Assoc Job
retokened f [] = []
retokened f ((id, j) ∷ m) = (id, retokened_job f j) ∷ retokened f m

abbrev pub with_tokens : (Bytes → Bytes) → World → World
with_tokens f w = record w { store = record w.store { jobs = retokened f w.store.jobs } }

abbrev retokened_option : (Bytes → Bytes) → Option Job → Option Job
retokened_option f none = none
retokened_option f (some j) = some (retokened_job f j)

module _ (f : Bytes → Bytes) where
  lookup-retokened :
      (id : Bytes) (m : Assoc Job) → lookup id (retokened f m) ≡ retokened_option f (lookup id m)
  unfolding lookup
  lookup-retokened id [] = refl
  lookup-retokened id ((k, j) ∷ m) = elim (Bool-cases (bytes_eq k id)) [
    | inl e ↦ rw e refl
    | inr e ↦ rw e (lookup-retokened id m)
  ]

  abbrev shown : Result (List Job × ℕ) → Result (List ProtoJob × ℕ)
  shown (ok (js, n)) = ok (map job_to_proto js, n)
  shown (err e) = err e

  abbrev with_job_shown : ProtoJob → Result (List ProtoJob × ℕ) → Result (List ProtoJob × ℕ)
  with_job_shown p (ok (ps, n)) = ok (p ∷ ps, n)
  with_job_shown p (err e) = err e

  shown-with_job :
      (j : Job) (a b : Result (List Job × ℕ))
      → shown a ≡ shown b
      → shown (with_job (retokened_job f j) a) ≡ shown (with_job j b)
  unfolding job_to_proto
  shown-with_job j (ok (js, n)) (ok (ks, m)) h = ap (with_job_shown (job_to_proto j)) h
  shown-with_job j (ok a) (err e) h = cc
  shown-with_job j (err e) (ok b) h = cc
  shown-with_job j (err e) (err d) h = h

  walk-retokened :
      (m : MemStore) (n room : ℕ)
      → shown (walk (record m { jobs = retokened f m.jobs }) n room) ≡ shown (walk m n room)
  unfolding walk job_to_proto
  walk-retokened m zero room = refl
  walk-retokened m (suc i) zero = refl
  walk-retokened m (suc i) (suc room) =
      let u = record m { jobs = retokened f m.jobs } in
      elim (Option-cases (get_elem? m.order i)) [
        | inl e ↦ rw (e, walk) refl
        | inr (id, e) ↦ elim (Option-cases (lookup id m.jobs)) [
          | inl g ↦
              rw (e, walk)
                (rw (lookup-retokened id m.jobs ∙ ap (retokened_option f) g, walk)
                  (rw (g, walk) (walk-retokened m i (suc room))))
          | inr (j, g) ↦
              rw (e, walk)
                (rw (lookup-retokened id m.jobs ∙ ap (retokened_option f) g, walk)
                  (rw (g, walk)
                    (shown-with_job j (walk u i room) (walk m i room) (walk-retokened m i room))))
        ]
      ]

  abbrev retokened_result : Result Job → Result Job
  retokened_result (ok j) = ok (retokened_job f j)
  retokened_result (err e) = err e

  answered-retokened :
      (r : Result Job) → answered job_to_proto (retokened_result r) ≡ answered job_to_proto r
  unfolding job_to_proto
  answered-retokened (ok j) = refl
  answered-retokened (err e) = refl

  get-retokened : (id : Bytes) (w : World) → get id (with_tokens f w) ≡ retokened_result (get id w)
  unfolding get Mem.get_job
  get-retokened id w = elim (Result-cases (check_id id)) [
    | inr (e, b) ↦ rw (b, get) refl
    | inl (u, b) ↦ elim (Option-cases (lookup id w.store.jobs)) [
      | inl g ↦
          rw (b, get)
            (rw (lookup-retokened id w.store.jobs ∙ ap (retokened_option f) g, Mem.get_job)
              (rw (g, Mem.get_job) refl))
      | inr (j, g) ↦
          rw (b, get)
            (rw (lookup-retokened id w.store.jobs ∙ ap (retokened_option f) g, Mem.get_job)
              (rw (g, Mem.get_job) refl))
    ]
  ]

  get_job-retokened : (id : Bytes) (w : World) → get_job id (with_tokens f w) ≡ get_job id w
  unfolding get_job
  get_job-retokened id w =
      ap (answered job_to_proto) (get-retokened id w) ∙ answered-retokened (get id w)

  -- The reply for a page whose jobs are shown like this.
  abbrev replied : Result (List ProtoJob × ℕ) → Reply (List ProtoJob × Bytes)
  replied (ok (ps, n)) = reply (ps, Listing.next_token n)
  replied (err e) = failure e

  answered-paged : (a : Result (List Job × ℕ)) → answered listed (paged a) ≡ replied (shown a)
  answered-paged (ok (js, n)) = refl
  answered-paged (err e) = refl

  page-retokened :
      (m : MemStore) (k : ℕ) (start : Result ℕ)
      → let u = record m { jobs = retokened f m.jobs } in
        answered listed (start >>= λ n. paged (walk u n k))
        ≡ answered listed (start >>= λ n. paged (walk m n k))
  page-retokened m k (ok n) =
      answered-paged _ ∙ ap replied (walk-retokened m n k) ∙ sym (answered-paged (walk m n k))
  page-retokened m k (err e) = refl

  -- Replace the harness tokens of all jobs by any others: GetJob and ListJobs answer every call as before.
  pub read_replies-with_tokens :
      (id : Bytes) (limit : ℕ) (token : Bytes) (w : World)
      → (get_job id (with_tokens f w) ≡ get_job id w)
        × (list_jobs limit token (with_tokens f w) ≡ list_jobs limit token w)
  unfolding list_jobs Listing.list_jobs start_of
  read_replies-with_tokens id limit token w =
      (get_job-retokened id w, page-retokened w.store _ (start_of token w.store))
