-- ===== src/Service/Watch/Replay.antt =====
-- internal/service/watch.go: the replay of a job that has ended.
use mathlib.Core.Path.{subst}
use mathlib.Core.List.{append_assoc}
use hairpin.Base.{
  ℕ, zero, suc, ◌+◌, ◌*◌, ◌≤◌, ◌≡◌, refl, ◌≢◌, ◌⊎◌, inl, inr, some, List, [], ◌∷◌, ◌++◌, arith, sym,
  ap, ◌∙◌, Bytes, ok, lookup, length, take, drop, length-drop, All,
}
use hairpin.Job.{Job}
use hairpin.Store.{Event}
use hairpin.Store.Mem.{MemStore}
use hairpin.Store.Mem.Timeline.{read_events}
use hairpin.Store.Mem.Timeline.Resume.{IsIncreasing, read_events_after, read_events_all}
use hairpin.Service.Watch.{history_page, last_id, page_then, replay}

take-drop {ℓ} : {A : Type ℓ} (n : ℕ) (xs : List A) → take n xs ++ drop n xs ≡ xs
take-drop zero xs = refl
take-drop (suc n) [] = refl
take-drop (suc n) (x ∷ xs) = ap (λ l. x ∷ l) (take-drop n xs)

-- The last event of a page, and those before it.
last_of_page :
    (e : Event) (es : List Event)
    → (pre : List Event) × (f : Event) × (e ∷ es ≡ pre ++ f ∷ []) × (last_id (e ∷ es) ≡ f.id)
unfolding last_id
last_of_page e [] = ([], e, refl, refl)
last_of_page e (f ∷ es) =
    let (pre, g, p, q) = last_of_page f es in (e ∷ pre, g, ap (λ l. e ∷ l) p, q)

All-middle {ℓ κ} :
    {A : Type ℓ} (P : A → Type κ) (pre post : List A) (e : A) → All P (pre ++ e ∷ post) → P e
All-middle P [] post e h = h.0
All-middle P (x ∷ pre) post e h = All-middle P pre post e h.1

-- `rest` is what stands behind the cursor: all for the empty cursor, or what follows the event that it names.
abbrev pub Behind : Bytes → List Event → List Event → Type 0
Behind cursor evs rest =
    ((cursor ≡ []) × (evs ≡ rest))
    ⊎ ((pre : List Event) × (e : Event) × (evs ≡ pre ++ e ∷ rest) × (cursor ≡ e.id))

Behind-next :
    (cursor : Bytes) (evs : List Event) (e : Event) (rest more : List Event)
    → Behind cursor evs ((e ∷ rest) ++ more)
    → Behind (last_id (e ∷ rest)) evs more
Behind-next cursor evs e rest more (inl (c, p)) =
    let (pre, f, q, i) = last_of_page e rest in
    inr (pre, f, p ∙ ap (λ l. l ++ more) q ∙ append_assoc pre (f ∷ []) more, i)
Behind-next cursor evs e rest more (inr (before, d, p, c)) =
    let (pre, f, q, i) = last_of_page e rest in
    inr (
      before ++ d ∷ pre,
      f,
      p
          ∙ ap (λ l. before ++ d ∷ l) (ap (λ l. l ++ more) q ∙ append_assoc pre (f ∷ []) more)
          ∙ sym (append_assoc before (d ∷ pre) (f ∷ more)),
      i,
    )

module _ (stores : ℕ → MemStore) (id : Bytes) (evs : List Event)
    (stored : (n : ℕ) → (j : Job) × (lookup id (stores n).jobs ≡ some j))
    (recorded : (n : ℕ) → lookup id (stores n).events ≡ some evs) (named : All (λ e. e.id ≢ []) evs)
    (up : IsIncreasing evs) where
  one_page :
      (n : ℕ) (cursor : Bytes) (rest : List Event)
      → Behind cursor evs rest
      → read_events id cursor history_page (stores n) ≡ ok (take history_page rest)
  one_page n cursor rest (inl (c, p)) = rw c (
      read_events_all id history_page (stores n) (stored n).0 rest (stored n).1
        (recorded n ∙ ap some p))
  one_page n cursor rest (inr (pre, e, p, c)) = rw c (
      read_events_after id history_page (stores n) (stored n).0 pre rest e (stored n).1
        (recorded n ∙ ap some p) (subst IsIncreasing p up)
        (All-middle _ pre rest e (subst (All (λ x. x.id ≢ [])) p named)))

  -- The replay of a finished job ends, and delivers exactly what stands behind the caller's cursor, in
  -- order, if its timeline stays as it is while the pages are read. As many pages are enough as the events fill, and one more.
  pub replay_lem :
      (pages n : ℕ) (cursor : Bytes) (rest : List Event)
      → Behind cursor evs rest
      → length rest + history_page ≤ history_page * pages
      → replay pages stores n id cursor ≡ some rest
  unfolding replay
  replay_lem zero n cursor rest b room = absurd (omega arith)
  replay_lem (suc pages) n cursor [] b room = rw (one_page n cursor [] b, replay) refl
  replay_lem (suc pages) n cursor (e ∷ es) b room =
      rw (one_page n cursor (e ∷ es) b, replay)
        (ap (page_then (e ∷ take 499 es)) (
            replay_lem pages (suc n) (last_id (e ∷ take 499 es)) (drop 499 es)
              (Behind-next cursor evs e (take 499 es) (drop 499 es)
                (subst (Behind cursor evs) (ap (λ l. e ∷ l) (sym (take-drop 499 es))) b))
              (omega (arith, length-drop 499 es)))
          ∙ ap (λ l. some (e ∷ l)) (take-drop 499 es))
