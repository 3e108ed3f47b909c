-- ===== src/Store/Mem/Timeline/Watching.antt =====
-- internal/store/memstore.go: what a watch delivers, and what its calls change.
use mathlib.Core.List.{append-nil, append_assoc}
use hairpin.Base.{
  ℕ, ◌<◌, ◌≡◌, refl, ◌≢◌, inl, inr, Option, none, some, List, [], ◌∷◌, ◌++◌, arith, sym, Bytes,
  lookup, insert, length, Option-cases, Bool-cases, ◌⊎◌, ◌∙◌, ap,
}
use hairpin.Store.{Event}
use hairpin.Store.Mem.{MemStore, Watcher, entries}
use hairpin.Store.Mem.Timeline.{
  watch_room, without_watcher, has_watcher, offer, take_first, take_from, take_event,
  remove_watcher,
}

-- Only the watches of the job change, and only if one was found there.
pub remove_watcher_other :
    (id : Bytes) (i : ℕ) (m : MemStore)
    → (remove_watcher id i m ≡ m)
      ⊎ ((lookup id m.watchers ≢ none)
          × ((ws : List Watcher) × (remove_watcher id i m
                ≡ record m { watchers = insert id ws m.watchers })))
unfolding remove_watcher
remove_watcher_other id i m = elim (Option-cases (lookup id m.watchers)) [
  | inl e ↦ inl (ground arith)
  | inr (ws, e) ↦ elim (Bool-cases (has_watcher i ws)) [
    | inl found ↦ inr (λ z. cc, (without_watcher i ws, rw (e, remove_watcher) (rw found)))
    | inr other ↦ inl (rw (e, remove_watcher) (rw other))
  ]
]

-- A watch that is found stands in the map.
pub take_event-some :
    (id : Bytes) (i : ℕ) (m n : MemStore) (e : Event)
    → take_event id i m ≡ some (e, n)
    → (lookup id m.watchers ≢ none)
      × ((ws : List Watcher) × (n ≡ record m { watchers = insert id ws m.watchers }))
unfolding take_event
take_event-some id i m n e h = elim (Option-cases (take_from i (entries (lookup id m.watchers)))) [
  | inl f ↦ cc (rw (f, take_event) at h)
  | inr ((e', ws), f) ↦ (λ z. ground arith, (ws, ground arith))
]

-- One watch over time: an event is appended to its job, or its goroutine takes one.
pub data Turn : Type 0 where
  appends : Event → Turn
  takes : Turn

abbrev pub taken : List Event → Watcher → Option (Event × Watcher) → List Event × Watcher
taken out w none = (out, w)
taken out w (some (e, w')) = (out ++ e ∷ [], w')

unfoldable pub turn : ℕ → Turn → List Event × Watcher → List Event × Watcher
turn max_len (appends ev) (out, w) = (out, offer max_len ev w)
turn max_len takes (out, w) = taken out w (take_first w)

-- What was delivered so far, and the watch.
unfoldable pub turns : ℕ → List Turn → List Event × Watcher → List Event × Watcher
unfolding turn take_first
turns max_len [] s = s
turns max_len (t ∷ ts) s = turns max_len ts (turn max_len t s)

abbrev pub appends_of : List Turn → List Event
appends_of [] = []
appends_of (appends ev ∷ ts) = ev ∷ appends_of ts
appends_of (takes ∷ ts) = appends_of ts

-- No append meets a full channel.
abbrev pub NeverFull : ℕ → List Turn → List Event × Watcher → Type 0
NeverFull max_len [] s = Unit
NeverFull max_len (appends ev ∷ ts) s =
    (length s.1.buffer < watch_room max_len) × NeverFull max_len ts (turn max_len (appends ev) s)
NeverFull max_len (takes ∷ ts) s = NeverFull max_len ts (turn max_len takes s)

offer_buffer :
    (max_len : ℕ) (ev : Event) (w : Watcher)
    → length w.buffer < watch_room max_len
    → (offer max_len ev w).buffer ≡ w.buffer ++ ev ∷ []
unfolding offer
offer_buffer max_len ev w h = ground arith

take_kept_of :
    (out : List Event) (i : ℕ) (b : List Event)
    → let w : Watcher = record { ident = i; buffer = b } in
      (taken out w (take_first w)).0 ++ (taken out w (take_first w)).1.buffer ≡ out ++ b
unfolding take_first
take_kept_of out i [] = refl
take_kept_of out i (e ∷ es) = append_assoc out (e ∷ []) es

take_kept :
    (out : List Event) (w : Watcher)
    → (taken out w (take_first w)).0 ++ (taken out w (take_first w)).1.buffer ≡ out ++ w.buffer
take_kept out w = take_kept_of out w.ident w.buffer

-- While its channel is never full at an append, a watch delivers or still holds, in order and with
-- nothing lost or repeated, what it held at first followed by all that was appended since.
pub watch_keeps_order :
    (max_len : ℕ) (ts : List Turn) (s : List Event × Watcher)
    → NeverFull max_len ts s
    → (turns max_len ts s).0 ++ (turns max_len ts s).1.buffer ≡ (s.0 ++ s.1.buffer) ++ appends_of ts
unfolding turns
watch_keeps_order max_len [] (out, w) h = sym (append-nil (out ++ w.buffer))
watch_keeps_order max_len (appends ev ∷ ts) (out, w) h =
    watch_keeps_order max_len ts (turn max_len (appends ev) (out, w)) h.1
    ∙ rw (offer_buffer max_len ev w h.0) (simp append_assoc)
watch_keeps_order max_len (takes ∷ ts) (out, w) h =
    watch_keeps_order max_len ts (turn max_len takes (out, w)) h
    ∙ ap (λ l. l ++ appends_of ts) (take_kept out w)
