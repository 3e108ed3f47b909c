-- ===== src/Store/Mem/Timeline/Resume.antt =====
-- internal/store/memstore.go: resuming a timeline from a cursor, and the order of event IDs.
use mathlib.Core.List.{append_assoc}
use hairpin.Base.{
  ℕ, zero, suc, ◌+◌, ◌-◌, ◌≤◌, ◌<◌, ◌≡◌, refl, ◌≢◌, inl, inr, some, List, [], ◌∷◌, ◌++◌, arith, sym,
  Bytes, true, false, is_empty, is_empty_iff, lookup, length, take, drop, if◌then◌else◌, ltb, ◌==◌,
  ok, All, All-append, All-drop, ◌∙◌, ap, Bool-cases,
}
use hairpin.Job.{Job, Time}
use hairpin.Store.{Event}
use hairpin.Store.StreamId.{u64_mod, format_id, stream_id_less}
use hairpin.Store.StreamId.Order.{
  stream_id_less-format_id, stream_id_less_irrefl, stream_id_less_asymm,
}
use hairpin.Store.Mem.{MemStore, entries}
use hairpin.Store.Mem.Timeline.{unix_milli, capped, hidden, read_from, read_events}

-- Each event's ID comes before the IDs of all events that follow it.
abbrev pub IsIncreasing : List Event → Type 0
IsIncreasing [] = Unit
IsIncreasing (e ∷ es) = All (λ x. stream_id_less e.id x.id ≡ true) es × IsIncreasing es

-- An event whose ID was printed from a millisecond and a sequence number within these bounds.
abbrev pub StampedBy : ℕ → ℕ → Event → Type 0
StampedBy millis n e = (a : ℕ) × (b : ℕ) × (e.id ≡ format_id a b) × (a ≤ millis) × (b ≤ n)

abbrev pub timeline : Bytes → MemStore → List Event
timeline id m = entries (lookup id m.events)

-- A job's timeline is in the order of its IDs, all stamped by the time `t` and the last sequence number.
pub record IsTimely (t : Time) (id : Bytes) (m : MemStore) : Type 0 where
  pub increasing : IsIncreasing (timeline id m)
  pub by_now : All (StampedBy (unix_milli t) m.seq) (timeline id m)

module _ (after : Bytes) where
  pub read_from-hidden :
      (room : ℕ) (xs ys : List Event)
      → All (λ x. hidden after x ≡ true) xs
      → read_from after (suc room) (xs ++ ys) ≡ read_from after (suc room) ys
  unfolding read_from
  read_from-hidden room [] ys h = refl
  read_from-hidden room (x ∷ xs) ys h = rw h.0 (read_from-hidden room xs ys h.1)

  read_from-seen :
      (room : ℕ) (ys : List Event)
      → All (λ x. hidden after x ≡ false) ys
      → read_from after room ys ≡ take room ys
  unfolding read_from
  read_from-seen zero ys h = refl
  read_from-seen (suc room) [] h = refl
  read_from-seen (suc room) (y ∷ ys) h = rw h.0 (ap (λ l. y ∷ l) (read_from-seen room ys h.1))

hidden_of_less :
    (e : Event) (es : List Event)
    → e.id ≢ []
    → All (λ x. stream_id_less e.id x.id ≡ true) es
    → All (λ x. hidden e.id x ≡ false) es
unfolding hidden
hidden_of_less e [] n h = tt
hidden_of_less e (x ∷ xs) n h = (ground (arith, h.0), hidden_of_less e xs n h.1)

-- What stands before an event of an increasing timeline is hidden by its ID, and so is the event.
pub hidden_before :
    (e : Event) (pre post : List Event)
    → e.id ≢ []
    → IsIncreasing (pre ++ e ∷ post)
    → All (λ x. hidden e.id x ≡ true) (pre ++ e ∷ [])
unfolding hidden
hidden_before e [] post n h = (ground (arith, is_empty_iff e.id, stream_id_less_irrefl e.id), tt)
hidden_before e (x ∷ pre) post n h = (
  ground (arith, is_empty_iff e.id, stream_id_less_asymm x.id e.id, before pre h.0),
  hidden_before e pre post n h.1,
)
  where
    before :
        (l : List Event)
        → All (λ y. stream_id_less x.id y.id ≡ true) (l ++ e ∷ post)
        → stream_id_less x.id e.id ≡ true
    before [] g = g.0
    before (y ∷ l) g = before l g.1

after_it :
    (e : Event) (pre post : List Event)
    → IsIncreasing (pre ++ e ∷ post)
    → All (λ x. stream_id_less e.id x.id ≡ true) post
after_it e [] post h = h.0
after_it e (x ∷ pre) post h = after_it e pre post h.1

read_from_cursor :
    (room : ℕ) (e : Event) (pre post : List Event)
    → 0 < room
    → e.id ≢ []
    → IsIncreasing (pre ++ e ∷ post)
    → read_from e.id room (pre ++ e ∷ post) ≡ take room post
read_from_cursor zero e pre post pos n up = absurd (omega arith)
read_from_cursor (suc room) e pre post pos n up =
    ap (read_from e.id (suc room)) (sym (append_assoc pre (e ∷ []) post))
    ∙ read_from-hidden e.id room (pre ++ e ∷ []) post (hidden_before e pre post n up)
    ∙ read_from-seen e.id (suc room) post (hidden_of_less e post n (after_it e pre post up))

-- How many events one call reads at most.
abbrev pub read_limit : ℕ → ℕ
read_limit limit = if limit == 0 then 1000 else limit

-- In a timeline whose IDs increase, a reader that resumes from an event's ID gets exactly the events
-- behind it, oldest first and up to the limit.
pub read_events_after :
    (id : Bytes) (limit : ℕ) (m : MemStore) (j : Job) (pre post : List Event) (e : Event)
    → lookup id m.jobs ≡ some j
    → lookup id m.events ≡ some (pre ++ e ∷ post)
    → IsIncreasing (pre ++ e ∷ post)
    → e.id ≢ []
    → read_events id e.id limit m ≡ ok (take (read_limit limit) post)
unfolding read_events
read_events_after id limit m j pre post e job evs up n =
    rw (job, evs, read_events)
      (ap ok (read_from_cursor (read_limit limit) e pre post (ground arith) n up))

-- Without a cursor a reader gets the whole timeline, up to the limit.
pub read_events_all :
    (id : Bytes) (limit : ℕ) (m : MemStore) (j : Job) (evs : List Event)
    → lookup id m.jobs ≡ some j
    → lookup id m.events ≡ some evs
    → read_events id [] limit m ≡ ok (take (read_limit limit) evs)
unfolding read_events
read_events_all id limit m j evs job at =
    rw (job, at, read_events) (ap ok (read_from-seen [] (read_limit limit) evs (seen evs)))
  where
    seen : (es : List Event) → All (λ x. hidden [] x ≡ false) es
    seen [] = tt
    seen (x ∷ xs) = (unfold hidden is_empty in refl, seen xs)

IsIncreasing-drop : (n : ℕ) (es : List Event) → IsIncreasing es → IsIncreasing (drop n es)
IsIncreasing-drop zero es h = h
IsIncreasing-drop (suc n) [] h = h
IsIncreasing-drop (suc n) (e ∷ es) h = IsIncreasing-drop n es h.1

pub IsIncreasing-append :
    (ev : Event) (es : List Event)
    → All (λ x. stream_id_less x.id ev.id ≡ true) es
    → IsIncreasing es
    → IsIncreasing (es ++ ev ∷ [])
IsIncreasing-append ev [] a h = (tt, tt)
IsIncreasing-append ev (e ∷ es) a h =
    (All-append _ es (ev ∷ []) h.0 (a.0, tt), IsIncreasing-append ev es a.1 h.1)

pub StampedBy-mono :
    (t u n k : ℕ) (es : List Event)
    → t ≤ u
    → n ≤ k
    → All (StampedBy t n) es
    → All (StampedBy u k) es
StampedBy-mono t u n k [] p q h = tt
StampedBy-mono t u n k (e ∷ es) p q ((a, b, i, x, y), h) =
    ((a, b, i, omega arith, omega arith), StampedBy-mono t u n k es p q h)

-- A later stamp has the greater ID.
pub later_id :
    (t n u : ℕ) (ev : Event) (es : List Event)
    → ev.id ≡ format_id u (n + 1)
    → t ≤ u
    → u < u64_mod
    → n + 1 < u64_mod
    → All (StampedBy t n) es
    → All (λ x. stream_id_less x.id ev.id ≡ true) es
later_id t n u ev [] e le p q h = tt
later_id t n u ev (x ∷ xs) e le p q ((a, b, i, y, z), h) = (
  rw (i, e)
      (stream_id_less-format_id (a, b) (u, n + 1) (omega arith) (omega arith) p q ∙ ground arith),
  later_id t n u ev xs e le p q h,
)

pub capped-All : (P : Event → Type 0) (n : ℕ) (es : List Event) → All P es → All P (capped n es)
unfolding capped
capped-All P n es h = elim (Bool-cases (ltb n (length es))) [
  | inl e ↦ rw e (All-drop P (length es - n) es h)
  | inr e ↦ rw e h
]

pub capped-IsIncreasing : (n : ℕ) (es : List Event) → IsIncreasing es → IsIncreasing (capped n es)
unfolding capped
capped-IsIncreasing n es h = elim (Bool-cases (ltb n (length es))) [
  | inl e ↦ rw e (IsIncreasing-drop (length es - n) es h)
  | inr e ↦ rw e h
]
