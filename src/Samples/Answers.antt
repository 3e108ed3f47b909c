-- ===== src/Samples/Answers.antt =====
-- Concrete uses of the theorems on watches and memory calls.
use hairpin.Base.{
  ◌≡◌, refl, true, false, none, some, List, [], ◌∷◌, Bytes, text, bytes_eq, is_empty, arith, inl,
  inr, leb, if◌then◌else◌,
}
use hairpin.Store.{Event}
use hairpin.Store.Mem.{MemStore}
use hairpin.Store.Mem.Timeline.Delivery.{Step, records, receives, steps, watched}
use hairpin.Memory.{
  Billet, Limit, Reply, Memory, Saved, broken, replied, decoded, not_json, up_to, negative,
  known_kind, fulfil,
}
use hairpin.Memory.Answers.{
  rewired, with_causes, SoundsLike, WithinCeiling, IsKind, fulfil-rewired, fulfil-with_causes,
}
use hairpin.Samples.{an_id, a_store}

abbrev an_entry : Event
an_entry = record { id = []; kind = []; payload_json = []; at = 1 }

-- An event comes, the watch takes it, and another comes.
abbrev some_steps : List Step
some_steps = records 3 an_entry ∷ receives ∷ records 4 an_entry ∷ []

abbrev a_watched_state : List Event × MemStore
a_watched_state = steps an_id a_store.next_ident some_steps (watched an_id [] a_store)

-- Billet is down.
abbrev a_billet : Billet
a_billet = record {
  search = λ q l. broken (text "down");
  save = λ t k. broken (text "down");
  decode_search = λ input. decoded (record { query = input; limit = up_to 500 });
  decode_save = λ input. not_json;
  encode_search = λ ms. none;
  encode_save = λ s. none;
  quote = λ s. s;
  blank = λ s. false;
}

-- Billet with its saves answered under their kind.
abbrev a_saving_billet : Billet
a_saving_billet = record a_billet {
  save = λ t k. replied (record { memory_id = k; accepted = true });
  decode_save = λ input. decoded (record { content = input; kind = text "event" });
  encode_save = λ s. some s.memory_id;
}

-- The same Billet, except that it fails a save under a kind that it does not know and a search for too many.
abbrev strict_save : Bytes → Bytes → Reply Saved
strict_save t k = if known_kind k then a_saving_billet.save t k else broken (text "kind")

abbrev strict_search : Bytes → Limit → Reply (List Memory)
strict_search q (up_to n) =
    if leb n 100 then a_saving_billet.search q (up_to n) else broken (text "limit")
strict_search q (negative n) = a_saving_billet.search q (negative n)

strict_search_same :
    (q : Bytes) (l : Limit) → WithinCeiling l → strict_search q l ≡ a_saving_billet.search q l
strict_search_same q (up_to n) h = ground arith
strict_search_same q (negative n) h = refl

strict_save_same : (t k : Bytes) → IsKind k → strict_save t k ≡ a_saving_billet.save t k
unfolding known_kind bytes_eq text is_empty
strict_save_same t k (inl e) = rw e refl
strict_save_same t k (inr (inl e)) = rw e refl
strict_save_same t k (inr (inr e)) = rw e refl

fulfil-rewired_example :
    fulfil (rewired a_saving_billet strict_search strict_save) (text "save_memory") (text "q")
    ≡ fulfil a_saving_billet (text "save_memory") (text "q")
fulfil-rewired_example =
    fulfil-rewired a_saving_billet strict_search strict_save (λ q l b w. strict_search_same q l w)
      (λ t k b n w. strict_save_same t k w) (text "save_memory") (text "q")

fulfil-with_causes_example :
    SoundsLike
      (fulfil (with_causes (λ cause. text "gone") a_billet) (text "search_memory") (text "q"))
      (fulfil a_billet (text "search_memory") (text "q"))
fulfil-with_causes_example =
    fulfil-with_causes (λ cause. text "gone") a_billet (text "search_memory") (text "q")
