-- ===== src/World.antt =====
-- What the server's goroutines share, and what its environment decides.
-- Every reading of the clock and every send on a stream is numbered: the environment says what the
-- n-th of them gives. A handler is a function of the world that returns the changed world.
pub mod Persist
pub mod Sending
use hairpin.Base.{
  ℕ, ◌+◌, ◌*◌, ◌/◌, ◌%◌, Bool, true, false, ◌&&◌, ◌||◌, Option, none, some, List, [], ◌∷◌, ◌++◌,
  Bytes, text, is_empty, Result, ok, err, Error, not_connected, external, lookup, ltb, ◌==◌,
  if◌then◌else◌,
}
use hairpin.Job.{Time, Job, Status, status_text}
use hairpin.Proto.{HarnessEvent, ControlEvent, RunConfig}
use hairpin.Registry.{Session, Registry}
use hairpin.Store.{Event}
use hairpin.Store.Mem.{MemStore, update_job}
use hairpin.Store.Mem.Timeline.{append_event}

-- Code that is not modelled: the clock, the transport, protojson, strconv.Quote and the
-- token issuer. A run configuration is decoded strictly, or with unknown fields discarded.
pub record Env : Type 0 where
  pub now : ℕ → Time
  pub send_error : ℕ → Option Bytes
  pub encode_event : HarnessEvent → Option Bytes
  pub encode_control : ControlEvent → Option Bytes
  pub decode_config : Bytes → Result RunConfig
  pub decode_known_config : Bytes → Result RunConfig
  pub quote : Bytes → Bytes
  pub mint : ℕ → Bytes → List Bytes → Option (Bytes × Time)

-- `sent` holds every control event that went out, with its session; `completed` every terminal
-- transition that was counted (JobCompleted).
pub record World : Type 0 where
  pub store : MemStore
  pub registry : Registry
  pub closed : List Session
  pub sent : List (Session × ControlEvent)
  pub completed : List (Bytes × Status)
  pub reads : ℕ
  pub sends : ℕ
  pub mints : ℕ

-- A JSON string, as encoding/json and `%q` write it for valid UTF-8 text.
abbrev hex_digit : ℕ → ℕ
hex_digit n = if ltb n 10 then 48 + n else 87 + n

abbrev escaped : ℕ → Bytes → Bytes
escaped c rest =
    if c == b'"' || c == 92
    then 92 ∷ c ∷ rest
    else if c == 10
    then 92 ∷ b'n' ∷ rest
    else if c == 13
    then 92 ∷ b'r' ∷ rest
    else if c == 9
    then 92 ∷ b't' ∷ rest
    else if c == 8
    then 92 ∷ b'b' ∷ rest
    else if c == 12
    then 92 ∷ b'f' ∷ rest
    else if ltb c 32 || c == b'<' || c == b'>' || c == b'&'
    then 92 ∷ b'u' ∷ b'0' ∷ b'0' ∷ hex_digit (c / 16) ∷ hex_digit (c % 16) ∷ rest
    else c ∷ rest

quoted : Bytes → Bytes
quoted [] = b'"' ∷ []
quoted (c ∷ cs) = escaped c (quoted cs)

-- The payload of a status_change event: `{"status":…}`, with an "error" field unless it is empty.
unfoldable pub status_payload : Status → Bytes → Bytes
unfolding quoted
status_payload s error =
    text "{\"status\":"
    ++ (b'"' ∷ quoted (status_text s))
    ++ (if is_empty error then [] else text ",\"error\":" ++ (b'"' ∷ quoted error))
    ++ text "}"

unfoldable pub status_change : Bytes
status_change = text "status_change"

unfoldable pub status_event : Status → Bytes → Time → Event
status_event s error at = record {
  id = [];
  kind = status_change;
  payload_json = status_payload s error;
  at = at;
}

module _ (env : Env) where
  -- `now()`.
  unfoldable pub read_clock : World → Time × World
  read_clock w = (env.now w.reads, record w { reads = w.reads + 1 })

  -- A timeline write; its error is logged and changes nothing.
  unfoldable pub append : Bytes → Event → World → World
  append id ev w = record w { store = (append_event (env.now w.reads) id ev w.store).1 }

  -- appendStatus, appendStatusEvent.
  unfoldable pub append_status : Bytes → Status → Bytes → Time → World → World
  unfolding append status_event
  append_status id s error at w = append id (status_event s error at) w

  -- `s.Send(ev)` on a stream: the environment may fail it.
  unfoldable pub stream_send : Session → ControlEvent → World → Result (Unit {0}) × World
  stream_send s ev w = elim (env.send_error w.sends) [
    | some e ↦ (err (external e), record w { sends = w.sends + 1 })
    | none ↦ (ok tt, record w { sends = w.sends + 1; sent = w.sent ++ (s, ev) ∷ [] })
  ]

abbrev pub has_closed : List Session → Session → Bool
has_closed [] s = false
has_closed (c ∷ cs) s = c == s || has_closed cs s

module _ (env : Env) where
  -- session.Send: nothing goes out on a session that was closed.
  unfoldable pub session_send : Session → ControlEvent → World → Result (Unit {0}) × World
  unfolding stream_send
  session_send s ev w =
      if has_closed w.closed s then (err not_connected, w) else stream_send env s ev w

  -- Registry.Send.
  unfoldable pub registry_send : Bytes → ControlEvent → World → Result (Unit {0}) × World
  unfolding session_send
  registry_send id ev w = elim (lookup id w.registry) [
    | none ↦ (err not_connected, w)
    | some s ↦ session_send s ev w
  ]

-- session.close.
unfoldable pub close_session : Session → World → World
close_session s w = record w { closed = s ∷ w.closed }

-- JobCompleted of the telemetry recorder.
unfoldable pub count_completed : Bytes → Status → World → World
count_completed id s w = record w { completed = w.completed ++ (id, s) ∷ [] }

module _ {A : Type 0} where
  -- UpdateJob of the store.
  unfoldable pub update : Bytes → (Job → Result (Job × A)) → World → Result (Job × A) × World
  update id fn w = let (r, m) = update_job id fn w.store in (r, record w { store = m })
