-- ===== src/Store/Mem/Timeline/Delivery.antt =====
-- internal/store/memstore.go: AppendEvent, WatchEvents and the goroutine of a watch, together.
use hairpin.Base.{
  ℕ, ◌≡◌, Option, none, some, List, [], ◌∷◌, ◌++◌, Bytes, lookup, ◌==◌, if◌then◌else◌,
}
use hairpin.Job.{Time, Job}
use hairpin.Store.{Event}
use hairpin.Store.Mem.{MemStore, Watcher, entries}
use hairpin.Store.Mem.Timeline.{stamped, next_seq, append_event, take_event, watch_events, history}
use hairpin.Store.Mem.Timeline.Watching.{Turn}

abbrev pub find_watcher : ℕ → List Watcher → Option Watcher
find_watcher i [] = none
find_watcher i (w ∷ ws) = let later = find_watcher i ws in if w.ident == i then some w else later

-- One call on the store: an event is appended to the job, at a time that the clock gives, or the watch's
-- goroutine takes one.
pub data Step : Type 0 where
  records : Time → Event → Step
  receives : Step

module _ (id : Bytes) (i : ℕ) where
  abbrev pub given : List Event → MemStore → Option (Event × MemStore) → List Event × MemStore
  given out m none = (out, m)
  given out m (some (e, n)) = (out ++ e ∷ [], n)

  -- What the watch delivered so far, and the store.
  unfoldable pub step : Step → List Event × MemStore → List Event × MemStore
  step (records now ev) (out, m) = (out, (append_event now id ev m).1)
  step receives (out, m) = given out m (take_event id i m)

  unfoldable pub steps : List Step → List Event × MemStore → List Event × MemStore
  unfolding step
  steps [] s = s
  steps (t ∷ ts) s = steps ts (step t s)

  -- The steps as the one watch sees them: each event with the ID under which it was stored.
  abbrev pub seen : List Step → List Event × MemStore → List Turn
  seen [] s = []
  seen (records now ev ∷ ts) s =
      Turn.appends (stamped now (next_seq s.1) ev) ∷ seen ts (step (records now ev) s)
  seen (receives ∷ ts) s = Turn.takes ∷ seen ts (step receives s)

  -- The job is stored with its cap, and its watch is this one.
  pub record Follows (j : Job) (max_len : ℕ) (s : List Event × MemStore) (t : List Event × Watcher)
      : Type 0 where
    pub stored : lookup id s.1.jobs ≡ some j
    pub cap : s.1.max_len ≡ max_len
    pub watching : find_watcher i (entries (lookup id s.1.watchers)) ≡ some t.1
    pub delivered : s.0 ≡ t.0

module _ (id after : Bytes) (m : MemStore) where
  -- The watch that WatchEvents starts, and the store with it.
  abbrev pub a_new_watch : Watcher
  a_new_watch = record {
    ident = m.next_ident;
    buffer = history after (entries (lookup id m.events));
  }

  abbrev pub watched : List Event × MemStore
  watched = ([], (watch_events id after m).1)
