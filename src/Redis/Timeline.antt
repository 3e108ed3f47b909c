-- ===== src/Redis/Timeline.antt =====
-- internal/store/redisstore/events.go and permissions.go: timelines as Redis streams, permission requests as a hash of JSON.
pub mod Following
use hairpin.Base.{
  ℕ, zero, suc, Bool, true, false, Option, none, some, List, [], ◌∷◌, ◌++◌, Bytes, text, is_empty,
  Assoc, lookup, Result, ok, err, not_found, external, ◌==◌, if◌then◌else◌,
}
use hairpin.Job.{Time, is_zero}
use hairpin.Store.{Event, PermissionRequest}
use hairpin.Store.Mem.Permissions.{sort_permissions}
use hairpin.Redis.{Client, Conn, command, events_key, perms_key}
use hairpin.Redis.Jobs.{job_exists}

-- A message of a stream: its ID and its fields.
abbrev pub Message : Type 0
Message = Bytes × Assoc Bytes

-- The stream commands, on the same server, and the JSON of a permission request. `xadd key cap fields` trims the stream
-- to about `cap` messages.
pub record Streams (c : Client) : Type 0 where
  pub xadd : Bytes → ℕ → Assoc Bytes → c.Server → Bytes × c.Server
  pub xrange : Bytes → Bytes → ℕ → c.Server → List Message
  pub encode_permission : PermissionRequest → Option Bytes
  pub decode_permission : Bytes → Option PermissionRequest

unfoldable pub event_fields : (c : Client) → Time → Event → Assoc Bytes
event_fields c at ev =
    (text "type", ev.kind) ∷ (text "payload", ev.payload_json) ∷ (text "at", c.format_time at) ∷ []

abbrev pub text_field : Option Bytes → Bytes
text_field none = []
text_field (some v) = v

abbrev pub event_at : Bytes → Assoc Bytes → Time → Event
event_at id fs at = record {
  id = id;
  kind = text_field (lookup (text "type") fs);
  payload_json = text_field (lookup (text "payload") fs);
  at = at;
}

-- eventFromMessage.
unfoldable pub event_from_message : (c : Client) → Message → Result Event
event_from_message c (id, fs) =
    let v = text_field (lookup (text "at") fs) in
    if is_empty v then ok (event_at id fs 0) else elim (c.parse_time v) [
      | none ↦ err (external (text "event field at"))
      | some at ↦ ok (event_at id fs at)
    ]

abbrev pub with_event : Event → Result (List Event) → Result (List Event)
with_event e (err f) = err f
with_event e (ok es) = ok (e ∷ es)

-- The first message that cannot be read is the error.
unfoldable pub events_from : (c : Client) → List Message → Result (List Event)
unfolding event_from_message
events_from c [] = ok []
events_from c (m ∷ ms) =
    let rest = events_from c ms in
    elim (event_from_message c m) [ err e ↦ err e | ok ev ↦ with_event ev rest ]

-- From the start, or strictly behind an ID.
abbrev pub range_start : Bytes → Bytes
range_start after = if is_empty after then text "-" else b'(' ∷ after

abbrev pub watch_limit : ℕ
watch_limit = 100

-- The cursor after a page was delivered.
unfoldable pub cursor_after : Bytes → List Event → Bytes
cursor_after cursor [] = cursor
cursor_after cursor (e ∷ es) = cursor_after e.id es

module _ (c : Client) (x : Streams c) where
  abbrev pub append_found : Time → Bytes → ℕ → Event → Result Bool × Conn c → Result Bytes × Conn c
  append_found now id cap ev (err e, s) = (err e, s)
  append_found now id cap ev (ok false, s) = (err not_found, s)
  append_found now id cap ev (ok true, s) =
      command c
        (x.xadd (events_key id) cap (event_fields c (if is_zero ev.at then now else ev.at) ev)) s

  -- AppendEvent; `cap` is `r.maxEvents`.
  unfoldable pub append_event : Time → Bytes → ℕ → Event → Conn c → Result Bytes × Conn c
  unfolding job_exists command events_key event_fields
  append_event now id cap ev s = append_found now id cap ev (job_exists c id s)

  abbrev pub decoded_events : Result (List Message) × Conn c → Result (List Event) × Conn c
  decoded_events (err e, s) = (err e, s)
  decoded_events (ok ms, s) = (events_from c ms, s)

  abbrev pub read_found : Bytes → Bytes → ℕ → Result Bool × Conn c → Result (List Event) × Conn c
  read_found id after limit (err e, s) = (err e, s)
  read_found id after limit (ok false, s) = (err not_found, s)
  read_found id after limit (ok true, s) =
      decoded_events (command c (λ t. (x.xrange (events_key id) (range_start after) limit t, t)) s)

  -- ReadEvents; a limit that is not positive is given as 0.
  unfoldable pub read_events : Bytes → Bytes → ℕ → Conn c → Result (List Event) × Conn c
  unfolding job_exists command events_key events_from
  read_events id after limit s =
      read_found id after (if limit == 0 then 1000 else limit) (job_exists c id s)

  abbrev pub then_events : List Event → List Event × Conn c → List Event × Conn c
  then_events es (fs, s) = (es ++ fs, s)

  -- The polls of a watch's goroutine, so many of them, for a caller who takes every event: what it delivers. A read
  -- that fails ends it.
  unfoldable pub polls : ℕ → Bytes → Bytes → Conn c → List Event × Conn c
  unfolding read_events cursor_after
  polls zero id cursor s = ([], s)
  polls (suc n) id cursor s =
      let (r, s1) = read_events id cursor watch_limit s in
      elim r [ err e ↦ ([], s1) | ok es ↦ then_events es (polls n id (cursor_after cursor es) s1) ]

  abbrev pub put_encoded : Bytes → Bytes → Conn c → Option Bytes → Result (Unit {0}) × Conn c
  put_encoded id request_id s none = (err (external (text "put permission")), s)
  put_encoded id request_id s (some json) =
      command c (λ t. (tt, c.hset (perms_key id) ((request_id, json) ∷ []) t)) s

  abbrev pub put_found :
      Bytes → PermissionRequest → Result Bool × Conn c → Result (Unit {0}) × Conn c
  put_found id p (err e, s) = (err e, s)
  put_found id p (ok false, s) = (err not_found, s)
  put_found id p (ok true, s) = put_encoded id p.request_id s (x.encode_permission p)

  -- PutPermission.
  unfoldable pub put_permission : Bytes → PermissionRequest → Conn c → Result (Unit {0}) × Conn c
  unfolding job_exists command perms_key
  put_permission id p s = put_found id p (job_exists c id s)

  abbrev pub decoded_permission : Option Bytes → Result PermissionRequest
  decoded_permission none = err not_found
  decoded_permission (some json) = elim (x.decode_permission json) [
    | none ↦ err (external (text "get permission"))
    | some p ↦ ok p
  ]

  abbrev pub got_permission : Result (Option Bytes) × Conn c → Result PermissionRequest × Conn c
  got_permission (err e, s) = (err e, s)
  got_permission (ok o, s) = (decoded_permission o, s)

  -- GetPermission; HGET is the field of HGETALL.
  unfoldable pub get_permission : Bytes → Bytes → Conn c → Result PermissionRequest × Conn c
  unfolding command perms_key
  get_permission id request_id s =
      got_permission (command c (λ t. (lookup request_id (c.hgetall (perms_key id) t), t)) s)

  abbrev pub with_permission :
      PermissionRequest → Result (List PermissionRequest) → Result (List PermissionRequest)
  with_permission p (err e) = err e
  with_permission p (ok ps) = ok (p ∷ ps)

  unfoldable pub permissions_from : Assoc Bytes → Result (List PermissionRequest)
  permissions_from [] = ok []
  permissions_from ((k, json) ∷ fs) =
      let rest = permissions_from fs in
      elim (x.decode_permission json) [
        | none ↦ err (external (text "list permissions"))
        | some p ↦ with_permission p rest
      ]

  abbrev pub listed_permissions :
      Result (Assoc Bytes) × Conn c → Result (List PermissionRequest) × Conn c
  listed_permissions (err e, s) = (err e, s)
  listed_permissions (ok fs, s) =
      (elim (permissions_from fs) [ err e ↦ err e | ok ps ↦ ok (sort_permissions ps) ], s)

  -- ListPermissions.
  unfoldable pub list_permissions : Bytes → Conn c → Result (List PermissionRequest) × Conn c
  unfolding command perms_key permissions_from sort_permissions
  list_permissions id s = listed_permissions (command c (λ t. (c.hgetall (perms_key id) t, t)) s)
