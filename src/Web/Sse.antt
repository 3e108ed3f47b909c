-- ===== src/Web/Sse.antt =====
-- internal/web/sse.go: one event in the format of Server-Sent Events.
pub mod Reader
pub mod Lines
pub mod Frames
use hairpin.Base.{
  ℕ, Bool, true, false, ◌&&◌, ◌||◌, List, [], ◌∷◌, ◌++◌, Bytes, text, is_empty, ltb, leb, ◌==◌,
  length, if◌then◌else◌,
}
use hairpin.Store.{Event}

abbrev pub line_feed : ℕ
line_feed = 10

unfoldable pub is_type_char : ℕ → Bool
is_type_char c = (leb b'a' c && leb c b'z') || (leb b'0' c && leb c b'9') || c == b'_'

unfoldable pub all_type_chars : Bytes → Bool
unfolding is_type_char
all_type_chars [] = true
all_type_chars (c ∷ cs) = is_type_char c && all_type_chars cs

-- `sseTypeRe.MatchString`: 1 to 64 letters, digits and underscores.
unfoldable pub is_sse_type : Bytes → Bool
unfolding all_type_chars
is_sse_type s = leb 1 (length s) && leb (length s) 64 && all_type_chars s

-- `strings.Split(s, "\n")`.
abbrev pub on_first : ℕ → List Bytes → List Bytes
on_first c [] = (c ∷ []) ∷ []
on_first c (l ∷ ls) = (c ∷ l) ∷ ls

unfoldable pub split_lines : Bytes → List Bytes
split_lines [] = [] ∷ []
split_lines (c ∷ cs) =
    let rest = split_lines cs in if c == line_feed then [] ∷ rest else on_first c rest

unfoldable pub data_lines : List Bytes → Bytes
data_lines [] = []
data_lines (l ∷ ls) = text "data: " ++ (l ++ line_feed ∷ data_lines ls)

-- The name on the "event:" line.
unfoldable pub event_name : Bytes → Bytes
unfolding is_sse_type
event_name typ = if is_sse_type typ then typ else text "unknown"

abbrev pub payload_or_empty : Bytes → Bytes
payload_or_empty payload = if is_empty payload then text "{}" else payload

-- writeSSEEvent.
unfoldable pub write_sse_event : Event → Bytes
unfolding event_name split_lines data_lines
write_sse_event ev =
    text "id: "
    ++ (ev.id
        ++ line_feed
          ∷ (text "event: "
              ++ (event_name ev.kind
                  ++ line_feed
                    ∷ (data_lines (split_lines (payload_or_empty ev.payload_json))
                        ++ line_feed ∷ []))))
