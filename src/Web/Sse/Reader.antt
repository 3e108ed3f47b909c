-- ===== src/Web/Sse/Reader.antt =====
-- A reader of Server-Sent Events, written from the HTML standard: a line ends with LF, CR or both; a field's name ends with
-- a colon, and one space behind it is dropped; an empty line ends the event.
use hairpin.Base.{
  ℕ, Bool, true, false, ◌||◌, List, [], ◌∷◌, ◌++◌, Bytes, text, bytes_eq, is_empty, ◌==◌,
  if◌then◌else◌,
}
use hairpin.Web.Sse.{line_feed}

abbrev pub carriage_return : ℕ
carriage_return = 13

-- The complete lines of a stream; `cr` says whether the byte before was a carriage return.
unfoldable pub lines : Bool → Bytes → Bytes → List Bytes
lines cr cur [] = []
lines cr cur (c ∷ cs) =
    let skipped = lines false cur cs in
    let ended = cur ∷ lines false [] cs in
    let returned = cur ∷ lines true [] cs in
    let longer = lines false (cur ++ c ∷ []) cs in
    if c == line_feed
    then (if cr then skipped else ended)
    else if c == carriage_return
    then returned
    else longer

-- The name before the first colon, and the value behind it.
abbrev pub without_space : Bytes → Bytes
without_space [] = []
without_space (c ∷ cs) = if c == 32 then cs else c ∷ cs

abbrev pub with_name : ℕ → Bytes × Bytes → Bytes × Bytes
with_name c (name, value) = (c ∷ name, value)

unfoldable pub field_of : Bytes → Bytes × Bytes
field_of [] = ([], [])
field_of (c ∷ cs) =
    let rest = field_of cs in if c == b':' then ([], without_space cs) else with_name c rest

-- What was read of the event so far.
pub record Frame : Type 0 where
  pub id : Bytes
  pub kind : Bytes
  pub buffer : Bytes

pub record Message : Type 0 where
  pub id : Bytes
  pub kind : Bytes
  pub content : Bytes

unfoldable pub has_null : Bytes → Bool
has_null [] = false
has_null (c ∷ cs) = c == 0 || has_null cs

unfoldable pub with_field : Bytes × Bytes → Frame → Frame
unfolding has_null
with_field (name, value) f =
    if bytes_eq name (text "event")
    then record f { kind = value }
    else if bytes_eq name (text "data")
    then record f { buffer = f.buffer ++ (value ++ line_feed ∷ []) }
    else if bytes_eq name (text "id")
    then (if has_null value then f else record f { id = value })
    else f

unfoldable pub without_last : Bytes → Bytes
without_last [] = []
without_last (x ∷ []) = []
without_last (x ∷ y ∷ ys) = x ∷ without_last (y ∷ ys)

-- An empty line: an event without data is none.
abbrev pub ended : Frame → List Message → List Message
ended f rest =
    if is_empty f.buffer
    then rest
    else record {
      id = f.id;
      kind = if is_empty f.kind then text "message" else f.kind;
      content = without_last f.buffer;
    }
      ∷ rest

unfoldable pub read : Frame → List Bytes → List Message
unfolding field_of with_field without_last
read f [] = []
read f (l ∷ ls) =
    let next = ended f (read (record { id = f.id; kind = []; buffer = [] }) ls) in
    let more = read (with_field (field_of l) f) ls in if is_empty l then next else more
