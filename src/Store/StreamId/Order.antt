-- ===== src/Store/StreamId/Order.antt =====
-- internal/store/memstore.go: what printing, scanning and comparing event IDs promise.
use mathlib.Core.List.{append-nil}
use hairpin.Base.{
  ℕ, zero, suc, ◌+◌, ◌/◌, ◌%◌, ◌<◌, ◌≡◌, refl, ◌≢◌, true, false, some, [], ◌∷◌, ◌++◌, arith, Bytes,
  ◌==◌, ◌∙◌, ap, Bool-cases, inl, inr,
}
use hairpin.Store.StreamId.{
  decimal_onto, decimal, is_digit, span_digits, digits_value, u64_mod, checked, scan_uint,
  after_dash, second_of, scanned, scan_id, format_id, pair_less, stream_id_less,
}

abbrev pub AllDigits : Bytes → Type 0
AllDigits [] = Unit
AllDigits (c ∷ cs) = (is_digit c ≡ true) × AllDigits cs

decimal_onto-AllDigits :
    (fuel n : ℕ) (acc : Bytes) → AllDigits acc → AllDigits (decimal_onto fuel n acc)
unfolding decimal_onto
decimal_onto-AllDigits zero n acc h = h
decimal_onto-AllDigits (suc fuel) n acc h =
    ground (arith, decimal_onto-AllDigits fuel (n / 10) ((48 + n % 10) ∷ acc))

digits_value-decimal_onto :
    (fuel n : ℕ) (acc : Bytes)
    → n < fuel
    → digits_value 0 (decimal_onto fuel n acc) ≡ digits_value n acc
unfolding decimal_onto digits_value
digits_value-decimal_onto zero n acc h = absurd (omega arith)
digits_value-decimal_onto (suc fuel) n acc h = elim (Bool-cases (n / 10 == 0)) [
  | inl last ↦ rw last (ap (λ m. digits_value m acc) (ground arith))
  | inr more ↦ rw more (
      digits_value-decimal_onto fuel (n / 10) ((48 + n % 10) ∷ acc) (ground arith)
      ∙ ap (λ m. digits_value m acc) (omega arith))
]

-- The text of a number ends in a byte at least: it is never empty.
decimal_onto-ne : (fuel n : ℕ) (acc : Bytes) → n < fuel → decimal_onto fuel n acc ≢ []
unfolding decimal_onto
decimal_onto-ne zero n acc h = absurd (omega arith)
decimal_onto-ne (suc fuel) n acc h =
    ground (arith, decimal_onto-ne fuel (n / 10) ((48 + n % 10) ∷ acc))

pub span_digits-append :
    (ds rest : Bytes)
    → AllDigits ds
    → (span_digits rest).0 ≡ []
    → (span_digits rest).1 ≡ rest
    → span_digits (ds ++ rest) ≡ (ds, rest)
unfolding span_digits
span_digits-append [] rest h e f = ground arith
span_digits-append (d ∷ ds) rest h e f = ground (arith, span_digits-append ds rest h.1 e f)

pub decimal-AllDigits : (n : ℕ) → AllDigits (decimal n)
unfolding decimal
decimal-AllDigits n = decimal_onto-AllDigits (suc n) n [] tt

pub decimal-ne : (n : ℕ) → decimal n ≢ []
unfolding decimal
decimal-ne n = decimal_onto-ne (suc n) n [] (omega arith)

pub digits_value-decimal : (n : ℕ) → digits_value 0 (decimal n) ≡ n
unfolding decimal digits_value
digits_value-decimal n = digits_value-decimal_onto (suc n) n [] (omega arith)

checked_value :
    (n : ℕ) (ds rest : Bytes)
    → n < u64_mod
    → ds ≢ []
    → digits_value 0 ds ≡ n
    → checked (ds, rest) ≡ some (n, rest)
unfolding checked
checked_value n [] rest h e v = absurd (e refl)
checked_value n (d ∷ ds) rest h e v = ground arith

checked-decimal : (n : ℕ) (rest : Bytes) → n < u64_mod → checked (decimal n, rest) ≡ some (n, rest)
checked-decimal n rest h =
    checked_value n (decimal n) rest h (decimal-ne n) (digits_value-decimal n)

-- A printed number in front of a byte that is no digit is scanned back whole.
scan_uint-decimal :
    (n : ℕ) (rest : Bytes)
    → n < u64_mod
    → (span_digits rest).0 ≡ []
    → (span_digits rest).1 ≡ rest
    → scan_uint (decimal n ++ rest) ≡ some (n, rest)
unfolding scan_uint
scan_uint-decimal n rest h e f =
    rw (span_digits-append (decimal n) rest (decimal-AllDigits n) e f) (checked-decimal n rest h)

scan_uint-decimal_end : (n : ℕ) → n < u64_mod → scan_uint (decimal n) ≡ some (n, [])
unfolding span_digits
scan_uint-decimal_end n h = rw append-nil at (scan_uint-decimal n [] h refl refl)

scanned-decimal :
    (millis seq : ℕ) → seq < u64_mod → scanned (some (millis, b'-' ∷ decimal seq)) ≡ (millis, seq)
unfolding scanned second_of after_dash
scanned-decimal millis seq h = rw (scan_uint-decimal_end seq h)

-- An ID of 64-bit parts is scanned back as the parts it was printed from.
pub scan_id-format_id :
    (millis seq : ℕ)
    → millis < u64_mod
    → seq < u64_mod
    → scan_id (format_id millis seq) ≡ (millis, seq)
unfolding scan_id format_id
scan_id-format_id millis seq h k =
    rw (scan_uint-decimal millis (b'-' ∷ decimal seq) h (ground arith) (ground arith))
      (scanned-decimal millis seq k)

-- So IDs are ordered as the pairs that they were printed from: by millisecond, then by sequence.
pub stream_id_less-format_id :
    (a b : ℕ × ℕ)
    → a.0 < u64_mod
    → a.1 < u64_mod
    → b.0 < u64_mod
    → b.1 < u64_mod
    → stream_id_less (format_id a.0 a.1) (format_id b.0 b.1) ≡ pair_less a b
unfolding stream_id_less
stream_id_less-format_id a b p q r s =
    rw (scan_id-format_id a.0 a.1 p q, scan_id-format_id b.0 b.1 r s)

pub stream_id_less_irrefl : (a : Bytes) → stream_id_less a a ≡ false
unfolding stream_id_less
stream_id_less_irrefl a = ground arith

pub stream_id_less_asymm : (a b : Bytes) → stream_id_less a b ≡ true → stream_id_less b a ≡ false
unfolding stream_id_less
stream_id_less_asymm a b h = ground arith

pub stream_id_less_trans :
    (a b c : Bytes)
    → stream_id_less a b ≡ true
    → stream_id_less b c ≡ true
    → stream_id_less a c ≡ true
unfolding stream_id_less
stream_id_less_trans a b c h k = ground arith
