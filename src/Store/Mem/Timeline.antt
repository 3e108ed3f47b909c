-- ===== src/Store/Mem/Timeline.antt =====
-- internal/store/memstore.go: the event timelines and their watches.
pub mod Watching
pub mod Resume
pub mod Clock
pub mod Delivery
use hairpin.Base.{
  ℕ, zero, suc, ◌+◌, ◌-◌, ◌*◌, ◌/◌, ◌%◌, ◌≡◌, Bool, true, false, not, ◌&&◌, ◌||◌, Option, none,
  some, List, [], ◌∷◌, ◌++◌, map, Bytes, text, bytes_eq, is_empty, Assoc, lookup, insert, erase,
  Error, not_found, conflict, Result, ok, err, ltb, leb, ◌==◌, if◌then◌else◌, length, drop, refl,
  ◌≢◌, inl, inr, ◌⊎◌, Option-cases, arith, sym,
}
use hairpin.Job.{Time, is_zero}
use hairpin.Store.{Event}
use hairpin.Store.StreamId.{u64_mod, format_id, stream_id_less}
use hairpin.Store.Mem.{MemStore, Watcher, entries}

-- `t.UnixMilli()`, for times from 1970 on.
abbrev pub unix_epoch : Time
unix_epoch = 62135596800000000000

unfoldable pub unix_milli : Time → ℕ
unix_milli t = (t - unix_epoch) / 1000000

-- An event without a time gets the present one.
abbrev pub event_time : Time → Event → Time
event_time now ev = if is_zero ev.at then now else ev.at

-- The event as it is stored under the sequence number `n`.
unfoldable pub stamped : Time → ℕ → Event → Event
stamped now n ev = record ev {
  id = format_id (unix_milli (event_time now ev)) n;
  at = event_time now ev;
}

-- `evs[len(evs)-m.maxLen:]`, if the slice is longer than the cap.
unfoldable pub capped : ℕ → List Event → List Event
capped max_len evs = if ltb max_len (length evs) then drop (length evs - max_len) evs else evs

-- A watch's channel holds at most this many events.
abbrev pub watch_room : ℕ → ℕ
watch_room max_len = max_len + 64

-- `select { case w.ch <- ev: default: }`: a full channel loses the event.
unfoldable pub offer : ℕ → Event → Watcher → Watcher
offer max_len ev w =
    if ltb (length w.buffer) (watch_room max_len)
    then record w { buffer = w.buffer ++ ev ∷ [] }
    else w

unfoldable pub offer_all : ℕ → Event → List Watcher → List Watcher
offer_all max_len ev [] = []
offer_all max_len ev (w ∷ ws) = offer max_len ev w ∷ offer_all max_len ev ws

unfoldable pub next_seq : MemStore → ℕ
next_seq m = (m.seq + 1) % u64_mod

-- The store after the event that `stamped` returns was added to a job's timeline.
unfoldable pub appended : Bytes → Event → MemStore → MemStore
appended id ev m = record m {
  seq = next_seq m;
  events = insert id (capped m.max_len (entries (lookup id m.events) ++ ev ∷ [])) m.events;
  watchers = insert id (offer_all m.max_len ev (entries (lookup id m.watchers))) m.watchers;
}

unfoldable pub append_event : Time → Bytes → Event → MemStore → Result Bytes × MemStore
append_event now id ev m = elim (lookup id m.jobs) [
  | none ↦ (err not_found, m)
  | some _ ↦ let ev' = stamped now (next_seq m) ev in (ok ev'.id, appended id ev' m)
]

-- Whether the cursor hides an event: it does not come strictly after it.
unfoldable pub hidden : Bytes → Event → Bool
hidden after ev = not (is_empty after) && not (stream_id_less after ev.id)

-- The loop of ReadEvents with room for so many events more.
unfoldable pub read_from : Bytes → ℕ → List Event → List Event
read_from after zero evs = []
read_from after (suc room) [] = []
read_from after (suc room) (e ∷ es) =
    let skipped = read_from after (suc room) es in
    let kept = e ∷ read_from after room es in if hidden after e then skipped else kept

-- A limit that is not positive is given as 0.
unfoldable pub read_events : Bytes → Bytes → ℕ → MemStore → Result (List Event)
read_events id after limit m = elim (lookup id m.jobs) [
  | none ↦ err not_found
  | some _ ↦
      ok (read_from after (if limit == 0 then 1000 else limit) (entries (lookup id m.events)))
]

-- The history that a new watch replays into its channel.
unfoldable pub history : Bytes → List Event → List Event
history after [] = []
history after (e ∷ es) = let rest = history after es in if hidden after e then rest else e ∷ rest

-- The part of WatchEvents under the mutex: the result is the watch's identity.
unfoldable pub watch_events : Bytes → Bytes → MemStore → Result ℕ × MemStore
watch_events id after m = elim (lookup id m.jobs) [
  | none ↦ (err not_found, m)
  | some _ ↦
      let w : Watcher = record {
        ident = m.next_ident;
        buffer = history after (entries (lookup id m.events));
      } in
      (
        ok m.next_ident,
        record m {
          watchers = insert id (entries (lookup id m.watchers) ++ w ∷ []) m.watchers;
          next_ident = m.next_ident + 1;
        },
      )
]

-- `case ev := <-w.ch` of the watch's goroutine: the oldest event that its channel holds.
unfoldable pub take_first : Watcher → Option (Event × Watcher)
take_first w = elim w.buffer [ [] ↦ none | e ∷ es ↦ some (e, record w { buffer = es }) ]

put_back : Watcher → List Watcher → Option (Event × Watcher) → Option (Event × List Watcher)
put_back w ws none = none
put_back w ws (some (e, w')) = some (e, w' ∷ ws)

keep_front : Watcher → Option (Event × List Watcher) → Option (Event × List Watcher)
keep_front w none = none
keep_front w (some (e, ws)) = some (e, w ∷ ws)

take_from : ℕ → List Watcher → Option (Event × List Watcher)
take_from i [] = none
take_from i (w ∷ ws) =
    let later = keep_front w (take_from i ws) in
    if w.ident == i then put_back w ws (take_first w) else later

unfoldable pub take_event : Bytes → ℕ → MemStore → Option (Event × MemStore)
unfolding take_from put_back keep_front take_first
take_event id i m = elim (take_from i (entries (lookup id m.watchers))) [
  | none ↦ none
  | some (e, ws) ↦ some (e, record m { watchers = insert id ws m.watchers })
]

without_watcher : ℕ → List Watcher → List Watcher
without_watcher i [] = []
without_watcher i (w ∷ ws) = if w.ident == i then ws else w ∷ without_watcher i ws

unfoldable pub has_watcher : ℕ → List Watcher → Bool
has_watcher i [] = false
has_watcher i (w ∷ ws) = w.ident == i || has_watcher i ws

-- The map is written only if the watch is found in it.
unfoldable pub remove_watcher : Bytes → ℕ → MemStore → MemStore
unfolding without_watcher has_watcher
remove_watcher id i m =
    if has_watcher i (entries (lookup id m.watchers))
    then record m {
      watchers = insert id (without_watcher i (entries (lookup id m.watchers))) m.watchers;
    }
    else m
