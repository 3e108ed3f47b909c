-- ===== src/Service/Watch.antt =====
-- internal/service/watch.go: how a caller follows a job's timeline. A channel is the list of what it delivers.
pub mod Replay
pub mod Live
use hairpin.Base.{
  ℕ, zero, suc, Bool, true, false, ◌&&◌, Option, none, some, List, [], ◌∷◌, ◌++◌, Bytes, bytes_eq,
  Result, ok, err, if◌then◌else◌,
}
use hairpin.Job.{Job, terminal, status_of_text}
use hairpin.Store.{Event}
use hairpin.Store.Mem.{MemStore, get_job}
use hairpin.Store.Mem.Timeline.{read_events, watch_events}
use hairpin.World.{status_change}
use hairpin.Service.{check_id}

abbrev pub history_page : ℕ
history_page = 500

-- `evs[len(evs)-1].ID`.
unfoldable pub last_id : List Event → Bytes
last_id [] = []
last_id (e ∷ []) = e.id
last_id (e ∷ f ∷ es) = last_id (f ∷ es)

abbrev pub page_then : List Event → Option (List Event) → Option (List Event)
page_then page none = none
page_then page (some rest) = some (page ++ rest)

-- The loop of replay, with the most pages that it may read: it gives none if those do not suffice. Other
-- goroutines may change the store between two pages: `stores n` is what the n-th read finds.
unfoldable pub replay : ℕ → (ℕ → MemStore) → ℕ → Bytes → Bytes → Option (List Event)
unfolding read_events last_id
replay zero stores n id cursor = none
replay (suc pages) stores n id cursor = elim (read_events id cursor history_page (stores n)) [
  | err e ↦ some []
  | ok [] ↦ some []
  | ok (e ∷ es) ↦ page_then (e ∷ es) (replay pages stores (suc n) id (last_id (e ∷ es)))
]

-- isTerminalStatusEvent; `decode_status` is json.Unmarshal, and gives the status field.
unfoldable pub is_terminal_status_event : (Bytes → Option Bytes) → Event → Bool
unfolding status_change status_of_text
is_terminal_status_event decode_status ev =
    bytes_eq ev.kind status_change
    && elim (decode_status ev.payload_json) [ none ↦ false | some s ↦ terminal (status_of_text s) ]

-- The loop over the store's watch, up to the event that announces the end, for a caller who stays.
unfoldable pub forward : (Bytes → Option Bytes) → List Event → List Event
unfolding is_terminal_status_event
forward decode_status [] = []
forward decode_status (e ∷ es) =
    let rest = forward decode_status es in
    e ∷ (if is_terminal_status_event decode_status e then [] else rest)

-- What a caller of Watch follows: the replay of a job that has ended, or a watch of the store.
pub data Followed : Type 0 where
  replayed : Followed
  watched : ℕ → Followed

abbrev pub watched_live : Result ℕ × MemStore → Result Followed × MemStore
watched_live (err e, m) = (err e, m)
watched_live (ok i, m) = (ok (watched i), m)

-- `later` is the store when WatchEvents is called: others may have changed it since the job was read.
unfoldable pub watch : Bytes → Bytes → MemStore → MemStore → Result Followed × MemStore
unfolding check_id get_job watch_events
watch id after m later = elim (check_id id) [
  | err e ↦ (err e, later)
  | ok _ ↦ elim (get_job id m) [
    | err e ↦ (err e, later)
    | ok j ↦
        if terminal j.status
        then (ok replayed, later)
        else watched_live (watch_events id after later)
  ]
]
