-- ===== src/Memory.antt =====
-- internal/memory: the two memory tools that hairpin answers by calls of Billet (tool.go, memory.go).
pub mod Answers
pub mod Client
use hairpin.Base.{
  ℕ, Bool, true, false, ◌||◌, Option, none, some, List, [], ◌∷◌, ◌++◌, map, Bytes, text, bytes_eq,
  is_empty, ltb, leb, length, if◌then◌else◌,
}

unfoldable pub tool_search : Bytes
tool_search = text "search_memory"

unfoldable pub tool_save : Bytes
tool_save = text "save_memory"

abbrev pub max_search_limit : ℕ
max_search_limit = 100

abbrev pub max_content_bytes : ℕ
max_content_bytes = 262144

-- CallTimeout, in seconds.
abbrev pub call_timeout_seconds : ℕ
call_timeout_seconds = 10

unfoldable pub generic_failure_message : Bytes
generic_failure_message = text "memory is unavailable"

unfoldable pub is_memory_tool : Bytes → Bool
is_memory_tool name = bytes_eq name tool_search || bytes_eq name tool_save

-- An int32 that need not be positive.
pub data Limit : Type 0 where
  up_to : ℕ → Limit
  negative : ℕ → Limit

pub record SearchInput : Type 0 where
  pub query : Bytes
  pub limit : Limit

pub record SaveInput : Type 0 where
  pub content : Bytes
  pub kind : Bytes

-- One memory; the score is the bit pattern of a float64, which is passed through.
pub record Memory : Type 0 where
  pub memory_id : Bytes
  pub content : Bytes
  pub score : ℕ
  pub created_at : Bytes

pub record Saved : Type 0 where
  pub memory_id : Bytes
  pub accepted : Bool

-- What json.Unmarshal makes of an input: the value, an UnmarshalTypeError with its field and the value
-- found there, one without a field, or another error.
pub data Decoded (A : Type 0) : Type 0 where
  decoded : A → Decoded A
  wrong_field : Bytes → Bytes → Decoded A
  wrong_shape : Decoded A
  not_json : Decoded A

-- What a Billet call gives: a value; an error with code InvalidArgument or ResourceExhausted, with its
-- message; or any other error.
pub data Reply (A : Type 0) : Type 0 where
  replied : A → Reply A
  rejected : Bytes → Reply A
  broken : Bytes → Reply A

-- Code that is not modelled: Billet's client, encoding/json, strconv.Quote and the test whether a text is
-- blank, `strings.TrimSpace(s) == ""`.
pub record Billet : Type 0 where
  pub search : Bytes → Limit → Reply (List Memory)
  pub save : Bytes → Bytes → Reply Saved
  pub decode_search : Bytes → Decoded SearchInput
  pub decode_save : Bytes → Decoded SaveInput
  pub encode_search : List Memory → Option Bytes
  pub encode_save : Saved → Option Bytes
  pub quote : Bytes → Bytes
  pub blank : Bytes → Bool

unfoldable pub unsupported_tool_message : (Bytes → Bytes) → Bytes → Bytes
unsupported_tool_message quote name = text "hairpin does not fulfil the tool " ++ quote name

-- What the harness is told, whether it is an error, and the cause that is withheld from it.
pub record Answer : Type 0 where
  pub content : Bytes
  pub is_error : Bool
  pub detail : Option Bytes

abbrev pub refused : Bytes → Answer
refused message = record { content = message; is_error = true; detail = none }

abbrev pub withheld : Bytes → Answer
withheld cause = record { content = generic_failure_message; is_error = true; detail = some cause }

-- encodeOutput.
unfoldable pub encode_output : Option Bytes → Answer
encode_output none = withheld (text "encode")
encode_output (some out) = record { content = out; is_error = false; detail = none }

-- A limit above the ceiling is lowered to it; zero and below stay Billet's to default.
unfoldable pub clamp_limit : Limit → Limit
clamp_limit (up_to n) = if ltb max_search_limit n then up_to max_search_limit else up_to n
clamp_limit (negative n) = negative n

unfoldable pub known_kind : Bytes → Bool
known_kind k = is_empty k || bytes_eq k (text "event") || bytes_eq k (text "fact")

module _ (b : Billet) where
  -- The message of decodeInput's error.
  unfoldable pub wrong_field_message : Bytes → Bytes → Bytes → Bytes
  wrong_field_message tool field value =
      tool ++ text ": " ++ b.quote field ++ text " has the wrong type (got " ++ value ++ text ")"

  answer_search : Reply (List Memory) → Answer
  answer_search (replied rs) = encode_output (b.encode_search rs)
  answer_search (rejected message) = refused message
  answer_search (broken cause) = withheld cause

  search_with : SearchInput → Answer
  unfolding answer_search
  search_with i =
      if b.blank i.query
      then refused (tool_search ++ text ": \"query\" is required")
      else answer_search (b.search i.query (clamp_limit i.limit))

  answer_save : Reply Saved → Answer
  answer_save (replied r) = encode_output (b.encode_save r)
  answer_save (rejected message) = refused message
  answer_save (broken cause) = withheld cause

  save_with : SaveInput → Answer
  unfolding answer_save
  save_with i =
      if b.blank i.content
      then refused (tool_save ++ text ": \"content\" is required")
      else if ltb max_content_bytes (length i.content)
      then refused (tool_save ++ text ": \"content\" exceeds the 262144 byte limit")
      else if known_kind i.kind
      then answer_save (b.save i.content i.kind)
      else refused (tool_save ++ text ": \"kind\" must be \"event\" or \"fact\"")

  abbrev decoded_by : {A : Type 0} → Bytes → (A → Answer) → Decoded A → Answer
  decoded_by tool k (decoded a) = k a
  decoded_by tool k (wrong_field field value) = refused (wrong_field_message tool field value)
  decoded_by tool k wrong_shape = refused (tool ++ text ": input must be a JSON object")
  decoded_by tool k not_json = refused (tool ++ text ": input is not valid JSON")

  unfoldable pub fulfil_search : Bytes → Answer
  unfolding search_with
  fulfil_search input = decoded_by tool_search search_with (b.decode_search input)

  unfoldable pub fulfil_save : Bytes → Answer
  unfolding save_with
  fulfil_save input = decoded_by tool_save save_with (b.decode_save input)

  unfoldable pub fulfil : Bytes → Bytes → Answer
  unfolding fulfil_search fulfil_save
  fulfil tool input =
      if bytes_eq tool tool_search
      then fulfil_search input
      else if bytes_eq tool tool_save
      then fulfil_save input
      else refused (unsupported_tool_message b.quote tool)
