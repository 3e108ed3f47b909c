-- ===== src/Samples/Feed.antt =====
-- A concrete use of the theorem on watches of a Redis stream: one job with one stream, to which another client appends.
use mathlib.Core.Path.{subst}
use mathlib.Core.List.{append-nil}
use hairpin.Base.{
  ℕ, ◌+◌, ◌*◌, ◌≤◌, min, ◌≡◌, ◌≢◌, refl, inl, inr, Bool, true, false, ◌||◌, none, List, [], ◌∷◌,
  ◌++◌, ap, sym, ◌∙◌, arith, Bytes, text, bytes_eq, bytes_eq_iff, bytes_eq_refl, is_empty, lookup,
  ok, if◌then◌else◌, ◌==◌, length, take, All, All-append, Bool-cases,
}
use hairpin.Redis.{Client, Conn}
use hairpin.Redis.Timeline.{
  Message, Streams, range_start, event_from_message, events_from, polls, watch_limit,
}
use hairpin.Redis.Timeline.Following.{LastId, Unrepeated, Readable, Log, Live, IsGrowing, polls_lem}
use hairpin.Samples.{an_id}

has_id : Bytes → List Message → Bool
has_id id [] = false
has_id id (m ∷ ms) = bytes_eq m.0 id || has_id id ms

abbrev new_message : ℕ → Message
new_message n = ((n + 1) ∷ [], [])

appended : ℕ → List Message → List Message
unfolding has_id
appended n ms = if has_id ((n + 1) ∷ []) ms then ms else ms ++ new_message n ∷ []

drop_through : Bytes → List Message → List Message
drop_through id [] = []
drop_through id (m ∷ ms) = let rest = drop_through id ms in if bytes_eq m.0 id then ms else rest

from_start : Bytes → List Message → List Message
unfolding drop_through
from_start [] ms = ms
from_start (c ∷ cs) ms = if c == b'(' then drop_through cs ms else ms

abbrev a_feed : Client
a_feed = record {
  Server = List Message;
  hgetall = λ k s. (text "id", an_id) ∷ [];
  hset = λ k fs s. s;
  hdel = λ k names s. s;
  exists = λ k s. true;
  del = λ keys s. s;
  zadd = λ z x s. s;
  zrem = λ z x s. s;
  zrevrange = λ z start n s. [];
  others = appended;
  touched = λ n k. false;
  fault = λ n. none;
  format_time = λ t. t ∷ [];
  parse_time = λ b. none;
  encode_scope = λ ps. [];
  decode_scope = λ b. none;
}

abbrev a_stream : Streams a_feed
a_stream = record {
  xadd = λ key cap fs s. ([], s);
  xrange = λ key start n s. take n (from_start start s);
  encode_permission = λ p. none;
  decode_permission = λ b. none;
}

abbrev the_log : Bytes → List Message → List Message
the_log key s = s

drop_through_lem :
    (before rest : List Message) (m : Message)
    → Unrepeated ((before ++ m ∷ []) ++ rest)
    → drop_through m.0 ((before ++ m ∷ []) ++ rest) ≡ rest
unfolding drop_through
drop_through_lem [] rest m u = rw (bytes_eq_refl m.0) refl
drop_through_lem (b ∷ before) rest m u =
    rw (differs before u.1) (drop_through_lem before rest m u.2)
  where
    differs :
        (l : List Message) → All (λ k. b.0 ≢ k.0) ((l ++ m ∷ []) ++ rest) → bytes_eq b.0 m.0 ≡ false
    differs [] a = ground (arith, bytes_eq_iff b.0 m.0, a.0)
    differs (k ∷ l) a = differs l a.1

named_middle :
    (before rest : List Message) (m : Message) → Unrepeated ((before ++ m ∷ []) ++ rest) → m.0 ≢ []
named_middle [] rest m u = u.0
named_middle (b ∷ before) rest m u = named_middle before rest m u.2

start_empty : (s : List Message) → from_start (range_start []) s ≡ s
unfolding from_start text is_empty
start_empty s = refl

start_after :
    (id : Bytes) (s : List Message)
    → is_empty id ≡ false
    → from_start (range_start id) s ≡ drop_through id s
unfolding from_start
start_after id s h = rw h refl

not_empty : (id : Bytes) → id ≢ [] → is_empty id ≡ false
unfolding is_empty
not_empty [] h = absurd (h refl)
not_empty (c ∷ cs) h = refl

a_stream-Log : Log a_feed a_stream the_log
unfolding from_start
a_stream-Log = record { xrange_behind = behind }
  where
    behind :
        (key cursor : Bytes) (n : ℕ) (pre rest s : List Message)
        → s ≡ pre ++ rest
        → Unrepeated s
        → LastId cursor pre
        → take n (from_start (range_start cursor) s) ≡ take n rest
    behind key cursor n pre rest s e u (inl (c, p)) =
        ap (take n)
          (ap (λ k. from_start (range_start k) s) c ∙ start_empty s ∙ e ∙ ap (λ l. l ++ rest) p)
    behind key cursor n pre rest s e u (inr (before, m, p, c)) =
        let w : s ≡ (before ++ m ∷ []) ++ rest = e ∙ ap (λ l. l ++ rest) p in
        let v = subst Unrepeated w u in
        ap (take n) (
          ap (λ k. from_start (range_start k) s) c
          ∙ start_after m.0 s (not_empty m.0 (named_middle before rest m v))
          ∙ ap (drop_through m.0) w
          ∙ drop_through_lem before rest m v)

unseen-All : (id : Bytes) (ms : List Message) → has_id id ms ≡ false → All (λ m. m.0 ≢ id) ms
unfolding has_id
unseen-All id [] h = tt
unseen-All id (m ∷ ms) h =
    (λ e. ground (arith, bytes_eq_iff m.0 id), unseen-All id ms (ground arith))

Unrepeated-append :
    (ms : List Message) (m : Message)
    → m.0 ≢ []
    → All (λ k. k.0 ≢ m.0) ms
    → Unrepeated ms
    → Unrepeated (ms ++ m ∷ [])
Unrepeated-append [] m n a u = (n, tt, tt)
Unrepeated-append (k ∷ ms) m n a u =
    (u.0, All-append (λ x. k.0 ≢ x.0) ms (m ∷ []) u.1 (a.0, tt), Unrepeated-append ms m n a.1 u.2)

new_message-Readable : (n : ℕ) → Readable a_feed a_stream (new_message n)
unfolding event_from_message lookup is_empty
new_message-Readable n = (_, refl)

a_feed-IsGrowing : IsGrowing a_feed a_stream the_log an_id
unfolding appended
a_feed-IsGrowing = record { reliable = λ n. refl; keeps = keeps; grows = grows }
  where
    keeps :
        (n : ℕ) (s : List Message)
        → Live a_feed a_stream the_log an_id s
        → Live a_feed a_stream the_log an_id (appended n s)
    keeps n s v = elim (Bool-cases (has_id ((n + 1) ∷ []) s)) [
      | inl e ↦ rw (e, appended) v
      | inr e ↦
          rw (e, appended)
            (
              refl,
              All-append (Readable a_feed a_stream) s (new_message n ∷ []) v.1
                  (new_message-Readable n, tt),
              Unrepeated-append s (new_message n) (λ z. cc) (unseen-All ((n + 1) ∷ []) s e) v.2,
            )
    ]

    grows : (n : ℕ) (s : List Message) → (more : List Message) × (appended n s ≡ s ++ more)
    grows n s = elim (Bool-cases (has_id ((n + 1) ∷ []) s)) [
      | inl e ↦ ([], rw (e, appended) (sym (append-nil s)))
      | inr e ↦ (new_message n ∷ [], rw (e, appended) refl)
    ]

-- The stream has one message behind the cursor at first.
abbrev second_message : List Message
second_message = (text "2", []) ∷ []

abbrev some_messages : List Message
some_messages = (text "1", []) ∷ second_message

abbrev a_feed_connection : Conn a_feed
a_feed_connection = record { server = some_messages; commands = 0 }

ids_differ : text "1" ≢ text "2"
unfolding text
ids_differ e = ground arith

polls_lem_example :
    let told = polls a_feed a_stream 2 an_id (text "1") a_feed_connection in
    (fresh : List Message) × (left : List Message) × (told.1.server
      ≡ ((text "1", []) ∷ []) ++ (fresh ++ left))
    × (events_from a_feed fresh ≡ ok told.0)
    × (min (length second_message) (watch_limit * 2) ≤ length fresh)
unfolding text event_from_message lookup is_empty
polls_lem_example =
    polls_lem a_feed a_stream the_log an_id a_stream-Log a_feed-IsGrowing 2 (text "1")
      ((text "1", []) ∷ []) second_message a_feed_connection refl
      (inr ([], (text "1", []), refl, refl))
      (refl, ((_, refl), ((_, refl), tt)), ((λ e. cc), (ids_differ, tt), ((λ e. cc), tt, tt)))
