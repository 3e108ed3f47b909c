-- ===== src/Web/Sse/Frames.antt =====
-- internal/web/sse.go against the format's own rules: a reader of Server-Sent Events gets back what was written.
use mathlib.Core.List.{append_assoc, append-nil}
use hairpin.Base.{
  ℕ, ◌≡◌, refl, false, List, [], ◌∷◌, ◌++◌, Bytes, text, bytes_eq, is_empty, map, All, ap, sym, ◌∙◌,
}
use hairpin.Store.{Event}
use hairpin.Web.Sse.{line_feed, split_lines, event_name, payload_or_empty, write_sse_event}
use hairpin.Web.Sse.Reader.{lines, Frame, has_null, read}
use hairpin.Web.Sse.Lines.{
  data_line, event_name-filled, joined, joined-split_lines, without_last-append, IsPlain, message,
  lines-write_sse_event,
}

-- The stream of a whole timeline.
pub written : List Event → Bytes
unfolding write_sse_event
written [] = []
written (e ∷ es) = write_sse_event e ++ written es

read-data_lines :
    (f : Frame) (ls more : List Bytes)
    → read f (map data_line ls ++ [] ∷ more)
      ≡ read (record f { buffer = f.buffer ++ joined ls }) ([] ∷ more)
unfolding read text is_empty bytes_eq
read-data_lines f [] more =
    ap (λ b. read (record f { buffer = b }) ([] ∷ more)) (sym (append-nil f.buffer))
read-data_lines f (l ∷ ls) more =
    read-data_lines (record f { buffer = f.buffer ++ (l ++ line_feed ∷ []) }) ls more
    ∙ ap (λ b. read (record f { buffer = b }) ([] ∷ more)) (simp append_assoc)

read-id :
    (f : Frame) (id : Bytes) (more : List Bytes)
    → has_null id ≡ false
    → read f ((text "id: " ++ id) ∷ more) ≡ read (record f { id = id }) more
unfolding read text is_empty bytes_eq
read-id f id more h = rw h refl

read-event :
    (f : Frame) (name : Bytes) (more : List Bytes)
    → read f ((text "event: " ++ name) ∷ more) ≡ read (record f { kind = name }) more
unfolding read text is_empty bytes_eq
read-event f name more = refl

filled : (s : Bytes) (c : ℕ) → is_empty (s ++ c ∷ []) ≡ false
unfolding is_empty
filled [] c = refl
filled (x ∷ xs) c = refl

-- The empty line behind an event with a type and a payload.
read-end :
    (id name payload : Bytes) (more : List Bytes)
    → is_empty name ≡ false
    → read (record { id = id; kind = name; buffer = payload ++ line_feed ∷ [] }) ([] ∷ more)
      ≡ record { id = id; kind = name; content = payload }
        ∷ read (record { id = id; kind = []; buffer = [] }) more
unfolding read is_empty
read-end id name payload more h =
    let rest = read (record { id = id; kind = []; buffer = [] }) more in
    rw (filled payload line_feed) (
      rw h (
        ap (λ c. record { id = id; kind = name; content = c } ∷ rest)
          (without_last-append payload line_feed)))

read-frame :
    (e : Event) (id : Bytes) (more : List Bytes)
    → IsPlain e
    → read
        (record { id = id; kind = []; buffer = [] })
        ((text "id: " ++ e.id)
          ∷ (text "event: " ++ event_name e.kind)
          ∷ (map data_line (split_lines (payload_or_empty e.payload_json)) ++ [] ∷ more))
      ≡ message e ∷ read (record { id = e.id; kind = []; buffer = [] }) more
read-frame e id more (i, n, p) =
    let body = split_lines (payload_or_empty e.payload_json) in
    let name = event_name e.kind in
    read-id (record { id = id; kind = []; buffer = [] }) e.id _ n
    ∙ read-event (record { id = e.id; kind = []; buffer = [] }) name _
    ∙ read-data_lines (record { id = e.id; kind = name; buffer = [] }) body more
    ∙ ap (λ b. read (record { id = e.id; kind = name; buffer = b }) ([] ∷ more))
        (joined-split_lines (payload_or_empty e.payload_json))
    ∙ read-end e.id name (payload_or_empty e.payload_json) more (event_name-filled e.kind)

-- What a browser reads of a stream is the timeline that was written: as many messages as events and in their
-- order, each with its event's ID, its payload ("{}" for an empty one), and its type, or "unknown" for a type
-- that is not 1 to 64 lowercase letters, digits and underscores. So no type that a harness chooses can forge a message.
pub read-written :
    (evs : List Event) (id : Bytes)
    → All IsPlain evs
    → read (record { id = id; kind = []; buffer = [] }) (lines false [] (written evs))
      ≡ map message evs
unfolding written read lines
read-written [] id h = refl
read-written (e ∷ es) id (h, hs) =
    ap (read (record { id = id; kind = []; buffer = [] })) (lines-write_sse_event e (written es) h)
    ∙ read-frame e id (lines false [] (written es)) h
    ∙ ap (λ l. message e ∷ l) (read-written es e.id hs)
