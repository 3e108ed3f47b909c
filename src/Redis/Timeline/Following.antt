-- ===== src/Redis/Timeline/Following.antt =====
-- internal/store/redisstore/events.go: a watch that polls the stream while other clients append to it.
use mathlib.Core.List.{append_assoc, append-nil}
use mathlib.Core.Path.{subst}
use hairpin.Base.{
  ℕ, zero, suc, ◌+◌, ◌*◌, ◌≤◌, min, ◌≡◌, ◌≢◌, refl, ◌⊎◌, inl, inr, true, none, List, [], ◌∷◌, ◌++◌,
  ap, sym, ◌∙◌, arith, Bytes, Result, ok, err, length, take, drop, length-append, length-take,
  length-drop, All, Result-cases,
}
use hairpin.Store.{Event}
use hairpin.Redis.{Client, Conn, command, job_key, events_key}
use hairpin.Redis.Jobs.{job_exists}
use hairpin.Redis.Timeline.{
  Message, Streams, event_from_message, events_from, range_start, read_events, watch_limit,
  cursor_after, then_events, polls,
}

-- The cursor is the ID of the last of these messages, or none if there are none.
abbrev pub LastId : Bytes → List Message → Type 0
LastId cursor pre =
    ((cursor ≡ []) × (pre ≡ []))
    ⊎ ((before : List Message) × (m : Message) × (pre ≡ before ++ m ∷ []) × (cursor ≡ m.0))

take-drop {ℓ} : {A : Type ℓ} (n : ℕ) (xs : List A) → take n xs ++ drop n xs ≡ xs
take-drop zero xs = refl
take-drop (suc n) [] = refl
take-drop (suc n) (x ∷ xs) = ap (λ l. x ∷ l) (take-drop n xs)

All-right {ℓ κ} : {A : Type ℓ} (P : A → Type κ) (xs ys : List A) → All P (xs ++ ys) → All P ys
All-right P [] ys h = h
All-right P (x ∷ xs) ys h = All-right P xs ys h.1

All-left {ℓ κ} : {A : Type ℓ} (P : A → Type κ) (xs ys : List A) → All P (xs ++ ys) → All P xs
All-left P [] ys h = tt
All-left P (x ∷ xs) ys h = (h.0, All-left P xs ys h.1)

-- IDs are not empty, and none stands twice.
abbrev pub Unrepeated : List Message → Type 0
Unrepeated [] = Unit
Unrepeated (m ∷ ms) = (m.0 ≢ []) × All (λ k. m.0 ≢ k.0) ms × Unrepeated ms

module _ (c : Client) (x : Streams c) where
  abbrev pub Readable : Message → Type 0
  Readable m = (e : Event) × (event_from_message c m ≡ ok e)

  id-event_from_message : (m : Message) (e : Event) → event_from_message c m ≡ ok e → e.id ≡ m.0
  unfolding event_from_message
  id-event_from_message (id, fs) e h = ground arith

  abbrev events_or : Result (List Event) → List Event
  events_or (ok es) = es
  events_or (err e) = []

  -- Readable messages are all decoded, and the cursor moves to the last of them.
  events_from-Readable :
      (ms : List Message)
      → All Readable ms
      → (es : List Event) × (events_from c ms ≡ ok es)
        × ((cursor : Bytes) (pre : List Message)
            → LastId cursor pre
            → LastId (cursor_after cursor es) (pre ++ ms))
  unfolding events_from cursor_after
  events_from-Readable [] h =
      ([], refl, λ cursor pre at. subst (LastId cursor) (sym (append-nil pre)) at)
  events_from-Readable (m ∷ ms) ((e, f), rest) =
      let (es, g, moved) = events_from-Readable ms rest in
      (
        e ∷ es,
        rw (f, events_from) (rw g refl),
        λ cursor pre at.
            subst (LastId (cursor_after e.id es)) (append_assoc pre (m ∷ []) ms)
              (moved e.id (pre ++ m ∷ []) (inr (pre, m, refl, id-event_from_message m e f))),
      )

  events_from-append :
      (a b : List Message) (es fs : List Event)
      → events_from c a ≡ ok es
      → events_from c b ≡ ok fs
      → events_from c (a ++ b) ≡ ok (es ++ fs)
  unfolding events_from
  events_from-append [] b es fs g h = h ∙ ap (λ l. ok (l ++ fs)) (ap events_or g)
  events_from-append (m ∷ a) b es fs g h = elim (Result-cases (event_from_message c m)) [
    | inr (e, f) ↦ absurd (cc (rw (f, events_from) at g))
    | inl (e, f) ↦ elim (Result-cases (events_from c a)) [
      | inr (bad, q) ↦ absurd (cc (rw q at (rw (f, events_from) at g)))
      | inl (ea, q) ↦
          rw (f, events_from)
            (rw (events_from-append a b ea fs q h)
              (ap (λ l. ok (l ++ fs)) (ap events_or (rw q at (rw (f, events_from) at g)))))
    ]
  ]

  -- The stream of a key, of which XRANGE gives what stands behind an ID that it holds, or all of it.
  pub record Log (log : Bytes → c.Server → List Message) : Type 0 where
    pub xrange_behind :
        (key cursor : Bytes) (n : ℕ) (pre rest : List Message) (s : c.Server)
        → log key s ≡ pre ++ rest
        → Unrepeated (log key s)
        → LastId cursor pre
        → x.xrange key (range_start cursor) n s ≡ take n rest

  module _ (log : Bytes → c.Server → List Message) (id : Bytes) where
    -- The job is there, all messages of its stream can be read, and their IDs are not empty and all different.
    abbrev pub Live : c.Server → Type 0
    Live s =
        (c.exists (job_key id) s ≡ true)
        × All Readable (log (events_key id) s)
        × Unrepeated (log (events_key id) s)

    -- No command fails, and other clients keep the job and only append readable messages to its stream.
    pub record IsGrowing : Type 0 where
      pub reliable : (n : ℕ) → c.fault n ≡ none
      pub keeps : (n : ℕ) (s : c.Server) → Live s → Live (c.others n s)
      pub grows :
          (n : ℕ) (s : c.Server)
          → (more : List Message) × (log (events_key id) (c.others n s)
              ≡ log (events_key id) s ++ more)

    module _ (l : Log log) (g : IsGrowing) where
      command_reliable :
          {A : Type 0} (f : c.Server → A × c.Server) (s : Conn c)
          → command c f s ≡ (
            ok (f (c.others s.commands s.server)).0,
            record { server = (f (c.others s.commands s.server)).1; commands = s.commands + 1 },
          )
      unfolding command
      command_reliable f s = rw (g.reliable s.commands, command) refl

      -- What one read finds: the messages behind the cursor, with those that were appended meanwhile.
      read_lem :
          (cursor : Bytes) (pre rest : List Message) (s : Conn c)
          → log (events_key id) s.server ≡ pre ++ rest
          → LastId cursor pre
          → Live s.server
          → (more : List Message) × (t : Conn c) × (read_events c x id cursor watch_limit s
              ≡ (events_from c (take watch_limit (rest ++ more)), t))
            × (log (events_key id) t.server ≡ pre ++ (rest ++ more))
            × Live t.server
      unfolding read_events job_exists
      read_lem cursor pre rest s e at live =
          let s1 = c.others s.commands s.server in
          let s2 = c.others (s.commands + 1) s1 in
          let live1 = g.keeps s.commands s.server live in
          let live2 = g.keeps (s.commands + 1) s1 live1 in
          let (m1, e1) = g.grows s.commands s.server in
          let (m2, e2) = g.grows (s.commands + 1) s1 in
          let whole : log (events_key id) s2 ≡ pre ++ (rest ++ (m1 ++ m2)) =
            e2 ∙ ap (λ l. l ++ m2) (e1 ∙ ap (λ l. l ++ m1) e) ∙ simp append_assoc in
          let read_step : read_events c x id cursor watch_limit s ≡ (
            events_from c (take watch_limit (rest ++ (m1 ++ m2))),
            record { server = s2; commands = s.commands + 1 + 1 },
          ) =
            rw (command_reliable (λ t. (c.exists (job_key id) t, t)) s) (
              rw live1.0 (
                rw
                  (command_reliable
                    (λ t. (x.xrange (events_key id) (range_start cursor) watch_limit t, t))
                    (record { server = s1; commands = s.commands + 1 }))
                  (ap
                    (λ ms.
                      (events_from c ms, record { server = s2; commands = s.commands + 1 + 1 }))
                    (l.xrange_behind (events_key id) cursor watch_limit pre (rest ++ (m1 ++ m2)) s2
                      whole live2.2 at)))) in
          (
            m1 ++ m2,
            record { server = s2; commands = s.commands + 1 + 1 },
            read_step,
            whole,
            g.keeps (s.commands + 1) s1 live1,
          )

      polls_step :
          (k : ℕ) (cursor : Bytes) (s t : Conn c) (es : List Event)
          → read_events c x id cursor watch_limit s ≡ (ok es, t)
          → polls c x (suc k) id cursor s
            ≡ then_events c x es (polls c x k id (cursor_after cursor es) t)
      unfolding polls
      polls_step k cursor s t es h =
          rw (ap (λ p. p.0) h, polls)
            (ap (λ u. then_events c x es (polls c x k id (cursor_after cursor es) u))
              (ap (λ p. p.1) h))

      -- A watch that polls so many times, from a cursor that is empty or the ID of a message of the stream, while other
      -- clients keep the job and append readable messages with new IDs, and no command fails: what it has
      -- delivered is, decoded and in order, what follows the cursor in the stream, with nothing left out and nothing
      -- twice; and it has got through what was there at the start, up to a full page for each poll.
      pub polls_lem :
          (k : ℕ) (cursor : Bytes) (pre rest : List Message) (s : Conn c)
          → log (events_key id) s.server ≡ pre ++ rest
          → LastId cursor pre
          → Live s.server
          → (fresh : List Message) × (left : List Message) × (log
                (events_key id)
                (polls c x k id cursor s).1.server
              ≡ pre ++ (fresh ++ left))
            × (events_from c fresh ≡ ok (polls c x k id cursor s).0)
            × (min (length rest) (watch_limit * k) ≤ length fresh)
      unfolding polls events_from
      polls_lem zero cursor pre rest s e at live = ([], rest, e, refl, omega arith)
      polls_lem (suc k) cursor pre rest s e at live =
          let (more, t, found, whole, live') = read_lem cursor pre rest s e at live in
          let all = rest ++ more in
          let page = take watch_limit all in
          let later = drop watch_limit all in
          let split : page ++ later ≡ all = take-drop watch_limit all in
          let (es, decoded, moved) = events_from-Readable page (
            All-left Readable page later (
              subst (All Readable) (sym split)
                (All-right Readable pre all (subst (All Readable) whole live'.1)))) in
          let (fresh, left, there, delivered, enough) =
            polls_lem k (cursor_after cursor es) (pre ++ page) later t
              (whole ∙ ap (λ l. pre ++ l) (sym split) ∙ sym (append_assoc pre page later))
              (moved cursor pre at) live' in
          let step = polls_step k cursor s t es (found ∙ ap (λ r. (r, t)) decoded) in
          (
            page ++ fresh,
            left,
            rw step (
                there
                ∙ append_assoc pre page (fresh ++ left)
                ∙ ap (λ m. pre ++ m) (sym (append_assoc page fresh left))),
            rw step (events_from-append page fresh es _ decoded delivered),
            omega (
              arith,
              length-append page fresh,
              length-take watch_limit all,
              length-append rest more,
              length-drop watch_limit all,
            ),
          )
