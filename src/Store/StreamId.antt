-- ===== src/Store/StreamId.antt =====
-- internal/store/memstore.go: event IDs of the form "millis-seq", printed by `Sprintf("%d-%d")`,
-- read back by `Sscanf` and compared by `streamIDLess`.
pub mod Order
use hairpin.Base.{
  ℕ, zero, suc, ◌+◌, ◌-◌, ◌*◌, ◌/◌, ◌%◌, ◌<◌, ◌≤◌, ◌≡◌, refl, ◌≢◌, Bool, true, false, not, ◌&&◌,
  ◌||◌, Option, none, some, List, [], ◌∷◌, ◌++◌, arith, Bytes, ltb, leb, ◌==◌, if◌then◌else◌, ◌∙◌,
  ap, Bool-cases, inl, inr, Option-cases,
}

-- `%d` of a number: the digits in front of those already printed. The fuel is more than the number.
decimal_onto : ℕ → ℕ → Bytes → Bytes
decimal_onto zero n acc = acc
decimal_onto (suc fuel) n acc =
    let more = decimal_onto fuel (n / 10) ((48 + n % 10) ∷ acc) in
    if n / 10 == 0 then (48 + n % 10) ∷ acc else more

unfoldable pub decimal : ℕ → Bytes
unfolding decimal_onto
decimal n = decimal_onto (suc n) n []

abbrev pub is_digit : ℕ → Bool
is_digit c = leb 48 c && leb c 57

-- `%d` of Sscanf: the digits at the front, as a number, and the rest.
unfoldable pub span_digits : Bytes → Bytes × Bytes
span_digits [] = ([], [])
span_digits (c ∷ cs) =
    let (ds, rest) = span_digits cs in if is_digit c then (c ∷ ds, rest) else ([], c ∷ cs)

unfoldable pub digits_value : ℕ → Bytes → ℕ
digits_value n [] = n
digits_value n (d ∷ ds) = digits_value (n * 10 + (d - 48)) ds

abbrev pub u64_mod : ℕ
u64_mod = 18446744073709551616

-- No digit, or a value out of range, is an error: the scan stops and the variable keeps its 0.
checked : Bytes × Bytes → Option (ℕ × Bytes)
checked ([], rest) = none
checked (d ∷ ds, rest) =
    if ltb (digits_value 0 (d ∷ ds)) u64_mod then some (digits_value 0 (d ∷ ds), rest) else none

scan_uint : Bytes → Option (ℕ × Bytes)
scan_uint s = checked (span_digits s)

after_dash : Bytes → Bytes
after_dash [] = []
after_dash (c ∷ cs) = if c == b'-' then cs else []

second_of : Option (ℕ × Bytes) → ℕ
second_of none = 0
second_of (some (n, rest)) = n

scanned : Option (ℕ × Bytes) → ℕ × ℕ
scanned none = (0, 0)
scanned (some (n, rest)) = (n, second_of (scan_uint (after_dash rest)))

-- `Sscanf(s, "%d-%d", &m, &s)`, with both variables 0 before.
unfoldable pub scan_id : Bytes → ℕ × ℕ
unfolding scanned second_of after_dash scan_uint checked span_digits digits_value
scan_id s = scanned (scan_uint s)

unfoldable pub format_id : ℕ → ℕ → Bytes
unfolding decimal
format_id millis seq = decimal millis ++ b'-' ∷ decimal seq

abbrev pub pair_less : ℕ × ℕ → ℕ × ℕ → Bool
pair_less (am, as') (bm, bs) = if am == bm then ltb as' bs else ltb am bm

unfoldable pub stream_id_less : Bytes → Bytes → Bool
stream_id_less a b = pair_less (scan_id a) (scan_id b)
