-- ===== src/Web/Sse/Lines.antt =====
-- internal/web/sse.go: the lines that are written for an event.
use mathlib.Core.List.{append_assoc, append-nil}
use hairpin.Base.{
  ℕ, ◌≡◌, refl, ◌≢◌, Bool, true, false, not, ◌&&◌, List, [], ◌∷◌, ◌++◌, Bytes, text, is_empty, ◌==◌,
  map, All, All-append, ap, sym, ◌∙◌, arith, Bool-cases, inl, inr,
}
use hairpin.Store.{Event}
use hairpin.Web.Sse.{
  line_feed, is_type_char, all_type_chars, is_sse_type, on_first, split_lines, data_lines,
  event_name, payload_or_empty, write_sse_event,
}
use hairpin.Web.Sse.Reader.{carriage_return, lines, Message, has_null, without_last}

-- No byte ends a line.
abbrev pub NoBreak : Bytes → Type 0
NoBreak = All (λ c. (c ≢ line_feed) × (c ≢ carriage_return))

pub lines-line :
    (cur l rest : Bytes)
    → NoBreak l
    → lines false cur (l ++ line_feed ∷ rest) ≡ (cur ++ l) ∷ lines false [] rest
unfolding lines
lines-line cur [] rest h = ap (λ x. x ∷ lines false [] rest) (sym (append-nil cur))
lines-line cur (c ∷ cs) rest h =
    ground
      (arith, lines-line (cur ++ c ∷ []) cs rest h.1, append_assoc cur (c ∷ []) cs, h.0.0, h.0.1)

pub unbroken : Bytes → Bool
unbroken [] = true
unbroken (c ∷ cs) = not (c == line_feed) && not (c == carriage_return) && unbroken cs

pub unbroken-NoBreak : (s : Bytes) → unbroken s ≡ true → NoBreak s
unfolding unbroken
unbroken-NoBreak [] h = tt
unbroken-NoBreak (c ∷ cs) h =
    ((λ e. ground arith, λ e. ground arith), unbroken-NoBreak cs (ground arith))

pub NoBreak-append : (a b : Bytes) → NoBreak a → NoBreak b → NoBreak (a ++ b)
NoBreak-append a b = All-append (λ c. (c ≢ line_feed) × (c ≢ carriage_return)) a b

-- A line of a fixed beginning.
pub lines-field :
    (name value rest : Bytes)
    → unbroken name ≡ true
    → NoBreak value
    → lines false [] (name ++ (value ++ line_feed ∷ rest)) ≡ (name ++ value) ∷ lines false [] rest
lines-field name value rest n v =
    ap (lines false []) (sym (append_assoc name value (line_feed ∷ rest)))
    ∙ lines-line [] (name ++ value) rest (NoBreak-append name value (unbroken-NoBreak name n) v)

abbrev pub data_line : Bytes → Bytes
data_line l = text "data: " ++ l

pub lines-data_lines :
    (ls : List Bytes) (rest : Bytes)
    → All NoBreak ls
    → lines false [] (data_lines ls ++ line_feed ∷ rest)
      ≡ map data_line ls ++ [] ∷ lines false [] rest
unfolding data_lines text unbroken
lines-data_lines [] rest h = lines-line [] [] rest tt
lines-data_lines (l ∷ ls) rest h =
    ap (λ x. lines false [] (text "data: " ++ x))
      (append_assoc l (line_feed ∷ data_lines ls) (line_feed ∷ rest))
    ∙ lines-field (text "data: ") l (data_lines ls ++ line_feed ∷ rest) refl h.0
    ∙ ap (λ x. data_line l ∷ x) (lines-data_lines ls rest h.1)

-- A type that is harness-supplied never breaks the line.
pub type_chars-unbroken : (s : Bytes) → all_type_chars s ≡ true → unbroken s ≡ true
unfolding all_type_chars is_type_char unbroken
type_chars-unbroken [] h = refl
type_chars-unbroken (c ∷ cs) h = ground (arith, type_chars-unbroken cs)

pub event_name-NoBreak : (typ : Bytes) → NoBreak (event_name typ)
unfolding event_name is_sse_type text unbroken
event_name-NoBreak typ = elim (Bool-cases (is_sse_type typ)) [
  | inl e ↦ rw (e, event_name) (unbroken-NoBreak typ (type_chars-unbroken typ (ground arith)))
  | inr e ↦ rw (e, event_name) (unbroken-NoBreak (text "unknown") refl)
]

pub event_name-filled : (typ : Bytes) → is_empty (event_name typ) ≡ false
unfolding event_name is_sse_type text is_empty
event_name-filled [] = refl
event_name-filled (c ∷ cs) = elim (Bool-cases (is_sse_type (c ∷ cs))) [
  | inl e ↦ rw (e, event_name) refl
  | inr e ↦ rw (e, event_name) refl
]

abbrev pub NoReturn : Bytes → Type 0
NoReturn = All (λ c. c ≢ carriage_return)

pub on_first-NoBreak :
    (c : ℕ) (ls : List Bytes)
    → (c ≢ line_feed) × (c ≢ carriage_return)
    → All NoBreak ls
    → All NoBreak (on_first c ls)
on_first-NoBreak c [] good h = ((good, tt), tt)
on_first-NoBreak c (l ∷ ls) good h = ((good, h.0), h.1)

pub split_lines-NoBreak : (s : Bytes) → NoReturn s → All NoBreak (split_lines s)
unfolding split_lines
split_lines-NoBreak [] h = (tt, tt)
split_lines-NoBreak (c ∷ cs) h = elim (Bool-cases (c == line_feed)) [
  | inl e ↦ rw e (tt, split_lines-NoBreak cs h.1)
  | inr e ↦
      rw e
        (on_first-NoBreak c (split_lines cs) (λ z. ground arith, h.0) (split_lines-NoBreak cs h.1))
]

abbrev pub joined : List Bytes → Bytes
joined [] = []
joined (l ∷ ls) = l ++ (line_feed ∷ joined ls)

pub split_lines-cons : (s : Bytes) → (l : Bytes) × (ls : List Bytes) × (split_lines s ≡ l ∷ ls)
unfolding split_lines
split_lines-cons [] = ([], [], refl)
split_lines-cons (c ∷ cs) = elim (Bool-cases (c == line_feed)) [
  | inl e ↦ ([], split_lines cs, rw e refl)
  | inr e ↦ let (l, ls, q) = split_lines-cons cs in (c ∷ l, ls, rw e (rw q refl))
]

pub joined-split_lines : (s : Bytes) → joined (split_lines s) ≡ s ++ line_feed ∷ []
unfolding split_lines
joined-split_lines [] = refl
joined-split_lines (c ∷ cs) = elim (Bool-cases (c == line_feed)) [
  | inl e ↦ rw e (
      ap (λ l. line_feed ∷ l) (joined-split_lines cs)
      ∙ ap (λ (x : ℕ). x ∷ (cs ++ line_feed ∷ [])) (ground arith))
  | inr e ↦
      let (l, ls, q) = split_lines-cons cs in
      rw e (
        ap (λ x. joined (on_first c x)) q
        ∙ ap (λ x. c ∷ joined x) (sym q)
        ∙ ap (λ x. c ∷ x) (joined-split_lines cs))
]

pub without_last-append : (s : Bytes) (c : ℕ) → without_last (s ++ c ∷ []) ≡ s
unfolding without_last
without_last-append [] c = refl
without_last-append (x ∷ []) c = refl
without_last-append (x ∷ y ∷ ys) c = ap (λ l. x ∷ l) (without_last-append (y ∷ ys) c)

-- An event as the store makes it: its ID on one line and without NUL, and no carriage return in its payload, which
-- encoding/json writes as an escape.
abbrev pub IsPlain : Event → Type 0
IsPlain e = NoBreak e.id × (has_null e.id ≡ false) × NoReturn e.payload_json

abbrev pub message : Event → Message
message e = record {
  id = e.id;
  kind = event_name e.kind;
  content = payload_or_empty e.payload_json;
}

pub payload_or_empty-NoReturn : (s : Bytes) → NoReturn s → NoReturn (payload_or_empty s)
unfolding text is_empty
payload_or_empty-NoReturn [] h = (λ e. cc, (λ e. cc, tt))
payload_or_empty-NoReturn (c ∷ cs) h = h

pub flat :
    (e : Event) (rest : Bytes)
    → write_sse_event e ++ rest
      ≡ text "id: "
        ++ (e.id
            ++ line_feed
              ∷ (text "event: "
                  ++ (event_name e.kind
                      ++ line_feed
                        ∷ (data_lines (split_lines (payload_or_empty e.payload_json))
                            ++ line_feed ∷ rest))))
unfolding write_sse_event
flat e rest = simp append_assoc

pub lines-write_sse_event :
    (e : Event) (rest : Bytes)
    → IsPlain e
    → lines false [] (write_sse_event e ++ rest)
      ≡ (text "id: " ++ e.id)
        ∷ (text "event: " ++ event_name e.kind)
        ∷ (map data_line (split_lines (payload_or_empty e.payload_json))
            ++ [] ∷ lines false [] rest)
unfolding text unbroken
lines-write_sse_event e rest (i, n, p) =
    let name = event_name e.kind in
    let body = split_lines (payload_or_empty e.payload_json) in
    ap (lines false []) (flat e rest)
    ∙ lines-field (text "id: ") e.id
        (text "event: " ++ (name ++ line_feed ∷ (data_lines body ++ line_feed ∷ rest))) refl i
    ∙ ap (λ l. (text "id: " ++ e.id) ∷ l)
        (lines-field (text "event: ") name (data_lines body ++ line_feed ∷ rest) refl
            (event_name-NoBreak e.kind)
          ∙ ap (λ l. (text "event: " ++ name) ∷ l)
              (lines-data_lines body rest (
                split_lines-NoBreak (payload_or_empty e.payload_json)
                  (payload_or_empty-NoReturn e.payload_json p))))
