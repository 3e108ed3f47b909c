-- ===== src/Memory/Answers.antt =====
-- internal/memory/tool.go: what reaches Billet, and what the harness hears of a failure.
use hairpin.Base.{
  [], ◌⊎◌, is_empty_iff, bytes_eq_iff, text, ◌≤◌, ◌≡◌, refl, true, false, some, List, arith, Bytes,
  length,
}
use hairpin.Memory.{
  Billet, Answer, Limit, up_to, negative, SearchInput, SaveInput, Memory, Saved, Decoded, decoded,
  Reply, wrong_field, wrong_shape, not_json, decoded_by, wrong_field_message,
  unsupported_tool_message, refused, tool_search, tool_save, max_search_limit, max_content_bytes,
  generic_failure_message, is_memory_tool, clamp_limit, known_kind, encode_output, fulfil,
  search_with, save_with, answer_search, answer_save, fulfil_search, fulfil_save, replied, rejected,
  broken,
}

-- The limit is one that Billet defaults, or at most the ceiling.
abbrev pub WithinCeiling : Limit → Type 0
WithinCeiling (up_to n) = n ≤ max_search_limit
WithinCeiling (negative n) = Unit

pub clamp_limit-WithinCeiling : (l : Limit) → WithinCeiling (clamp_limit l)
unfolding clamp_limit
clamp_limit-WithinCeiling (up_to n) = ground arith
clamp_limit-WithinCeiling (negative n) = tt

-- The kinds of a memory.
abbrev pub IsKind : Bytes → Type 0
IsKind k = (k ≡ []) ⊎ ((k ≡ text "event") ⊎ (k ≡ text "fact"))

known_kind-IsKind : (k : Bytes) → known_kind k ≡ true → IsKind k
unfolding known_kind
known_kind-IsKind k h =
    ground (arith, is_empty_iff k, bytes_eq_iff k (text "event"), bytes_eq_iff k (text "fact"))

-- Billet reached through other calls, with everything else as before.
abbrev pub rewired :
    Billet → (Bytes → Limit → Reply (List Memory)) → (Bytes → Bytes → Reply Saved) → Billet
rewired b search save = record b { search = search; save = save }

module _ (b : Billet) (search : Bytes → Limit → Reply (List Memory))
    (save : Bytes → Bytes → Reply Saved)
    (same_search : (q : Bytes) (l : Limit)
      → b.blank q ≡ false
      → WithinCeiling l
      → search q l ≡ b.search q l)
    (same_save : (t k : Bytes)
      → b.blank t ≡ false
      → length t ≤ max_content_bytes
      → IsKind k
      → save t k ≡ b.save t k) where
  search_with-rewired : (i : SearchInput) → search_with (rewired b search save) i ≡ search_with b i
  unfolding search_with
  search_with-rewired i =
      ground (arith, same_search i.query (clamp_limit i.limit), clamp_limit-WithinCeiling i.limit)

  save_with-rewired : (i : SaveInput) → save_with (rewired b search save) i ≡ save_with b i
  unfolding save_with
  save_with-rewired i = ground (arith, same_save i.content i.kind, known_kind-IsKind i.kind)

  decoded-rewired :
      {A : Type 0} (tool : Bytes) (f g : A → Answer)
      → ((a : A) → f a ≡ g a)
      → (d : Decoded A) → decoded_by (rewired b search save) tool f d ≡ decoded_by b tool g d
  unfolding wrong_field_message
  decoded-rewired tool f g same (decoded a) = same a
  decoded-rewired tool f g same (wrong_field x y) = refl
  decoded-rewired tool f g same wrong_shape = refl
  decoded-rewired tool f g same not_json = refl

  -- The answers to tool calls do not depend on what Billet would answer to a search for a blank text or for more
  -- than 100 memories, or to a save of a blank text, of more than 262144 bytes, or under another kind than none,
  -- "event" or "fact": two Billets that agree on all other requests give the same answers.
  pub fulfil-rewired :
      (tool input : Bytes) → fulfil (rewired b search save) tool input ≡ fulfil b tool input
  unfolding fulfil
  fulfil-rewired tool input = ground (
    arith,
    decoded-rewired tool_search _ _ search_with-rewired (b.decode_search input),
    decoded-rewired tool_save _ _ save_with-rewired (b.decode_save input),
  )

-- Billet with other causes of its failures.
abbrev pub recaused : {A : Type 0} → (Bytes → Bytes) → Reply A → Reply A
recaused f (replied a) = replied a
recaused f (rejected m) = rejected m
recaused f (broken cause) = broken (f cause)

abbrev pub with_causes : (Bytes → Bytes) → Billet → Billet
with_causes f b = rewired b (λ q l. recaused f (b.search q l)) (λ t k. recaused f (b.save t k))

-- The harness hears the same.
abbrev pub SoundsLike : Answer → Answer → Type 0
SoundsLike x y = (x.content ≡ y.content) × (x.is_error ≡ y.is_error)

module _ (f : Bytes → Bytes) (b : Billet) where
  answer_search-recaused :
      (r : Reply (List Memory))
      → SoundsLike (answer_search (with_causes f b) (recaused f r)) (answer_search b r)
  unfolding answer_search
  answer_search-recaused (replied ms) = (refl, refl)
  answer_search-recaused (rejected m) = (refl, refl)
  answer_search-recaused (broken cause) = (refl, refl)

  answer_save-recaused :
      (r : Reply Saved)
      → SoundsLike (answer_save (with_causes f b) (recaused f r)) (answer_save b r)
  unfolding answer_save
  answer_save-recaused (replied s) = (refl, refl)
  answer_save-recaused (rejected m) = (refl, refl)
  answer_save-recaused (broken cause) = (refl, refl)

  search_with-recaused :
      (i : SearchInput) → SoundsLike (search_with (with_causes f b) i) (search_with b i)
  unfolding search_with
  search_with-recaused i =
      ground (arith, answer_search-recaused (b.search i.query (clamp_limit i.limit)))

  save_with-recaused : (i : SaveInput) → SoundsLike (save_with (with_causes f b) i) (save_with b i)
  unfolding save_with
  save_with-recaused i = ground (arith, answer_save-recaused (b.save i.content i.kind))

  decoded-recaused :
      {A : Type 0} (tool : Bytes) (g h : A → Answer)
      → ((a : A) → SoundsLike (g a) (h a))
      → (d : Decoded A) → SoundsLike (decoded_by (with_causes f b) tool g d) (decoded_by b tool h d)
  unfolding wrong_field_message
  decoded-recaused tool g h same (decoded a) = same a
  decoded-recaused tool g h same (wrong_field x y) = (refl, refl)
  decoded-recaused tool g h same wrong_shape = (refl, refl)
  decoded-recaused tool g h same not_json = (refl, refl)

  -- What the harness hears of any tool call, its content and whether it is an error, does not depend on the causes
  -- of Billet's failures: with any other causes in their place it hears the same.
  pub fulfil-with_causes :
      (tool input : Bytes) → SoundsLike (fulfil (with_causes f b) tool input) (fulfil b tool input)
  unfolding fulfil fulfil_search fulfil_save
  fulfil-with_causes tool input = ground (
    arith,
    decoded-recaused tool_search (search_with (with_causes f b)) (search_with b)
        search_with-recaused (b.decode_search input),
    decoded-recaused tool_save (save_with (with_causes f b)) (save_with b) save_with-recaused
        (b.decode_save input),
  )

-- Whenever a cause is withheld, the model is told only that memory is unavailable, as an error.
pub fulfil_withholds :
    (b : Billet) (tool input cause : Bytes)
    → (fulfil b tool input).detail ≡ some cause
    → ((fulfil b tool input).content ≡ generic_failure_message)
      × ((fulfil b tool input).is_error ≡ true)
unfolding fulfil encode_output
fulfil_withholds b tool input cause h = ground arith

pub fulfil_unknown :
    (b : Billet) (tool input : Bytes)
    → is_memory_tool tool ≡ false
    → fulfil b tool input ≡ refused (unsupported_tool_message b.quote tool)
unfolding fulfil is_memory_tool
fulfil_unknown b tool input h = ground arith
