-- ===== src/Store/Mem/Timeline/Clock.antt =====
-- internal/store/memstore.go: an event's ID carries the event's own time, so timelines are in the
-- order of their IDs exactly as far as the times that callers give do not go back.
use mathlib.Core.Path.{subst}
use hairpin.Base.{
  bytes_eq_refl, is_empty_iff, ℕ, zero, suc, ◌+◌, ◌≤◌, ◌<◌, ◌≡◌, refl, ◌≢◌, inl, inr, none, some,
  List, [], ◌∷◌, ◌++◌, arith, sym, Bytes, true, bytes_eq, lookup, lookup-insert, Option-cases,
  if◌then◌else◌, ok, All, All-append, ◌∙◌, ap, Bool-cases,
}
use hairpin.Job.{Job, Time}
use hairpin.Store.{Event}
use hairpin.Store.StreamId.{u64_mod, format_id, stream_id_less}
use hairpin.Store.StreamId.Order.{stream_id_less-format_id}
use hairpin.Store.Mem.{MemStore}
use hairpin.Store.Mem.Timeline.{
  unix_milli, event_time, stamped, capped, next_seq, appended, append_event, hidden, read_from,
  read_events,
}
use hairpin.Store.Mem.Timeline.Resume.{
  IsIncreasing, StampedBy, timeline, IsTimely, IsIncreasing-append, StampedBy-mono, later_id,
  capped-All, capped-IsIncreasing, hidden_before,
}

next_seq_small : (m : MemStore) → m.seq + 1 < u64_mod → next_seq m ≡ m.seq + 1
unfolding next_seq
next_seq_small m h = omega arith

module _ (id : Bytes) (u : Time) (ev : Event) (m : MemStore) (millis : unix_milli u < u64_mod)
    (numbers : m.seq + 1 < u64_mod) (stamp : ev.id ≡ format_id (unix_milli u) (m.seq + 1)) where
  timeline-appended :
      (x : Bytes)
      → timeline x (appended id ev m)
        ≡ (if bytes_eq id x then capped m.max_len (timeline id m ++ ev ∷ []) else timeline x m)
  unfolding appended
  timeline-appended x =
      ground (arith, lookup-insert id x (capped m.max_len (timeline id m ++ ev ∷ [])) m.events)

  seq-appended : (appended id ev m).seq ≡ m.seq + 1
  unfolding appended
  seq-appended = next_seq_small m numbers

  own-IsTimely :
      (t : Time)
      → unix_milli t ≤ unix_milli u
      → IsTimely t id m
      → IsIncreasing (capped m.max_len (timeline id m ++ ev ∷ []))
        × All (StampedBy (unix_milli u) (m.seq + 1)) (capped m.max_len (timeline id m ++ ev ∷ []))
  own-IsTimely t le v =
      let older =
        StampedBy-mono (unix_milli t) (unix_milli u) m.seq (m.seq + 1) (timeline id m) le
          (omega arith) v.by_now in
      (
        capped-IsIncreasing m.max_len _ (
            IsIncreasing-append ev (timeline id m)
              (later_id (unix_milli t) m.seq (unix_milli u) ev (timeline id m) stamp le millis
                numbers v.by_now)
              v.increasing),
        capped-All _ m.max_len _ (
            All-append _ (timeline id m) (ev ∷ []) older
              ((unix_milli u, m.seq + 1, stamp, omega arith, omega arith), tt)),
      )

  appended-IsTimely :
      (t : Time) (x : Bytes)
      → unix_milli t ≤ unix_milli u
      → IsTimely t id m
      → IsTimely t x m
      → IsTimely u x (appended id ev m)
  appended-IsTimely t x le own v = elim (Bool-cases (bytes_eq id x)) [
    | inl e ↦
        let same = timeline-appended x ∙ rw e in
        record {
          increasing = subst IsIncreasing (sym same) (own-IsTimely t le own).0;
          by_now = subst (All (StampedBy (unix_milli u) (appended id ev m).seq)) (sym same) (
              subst
                (λ n.
                  All (StampedBy (unix_milli u) n) (capped m.max_len (timeline id m ++ ev ∷ [])))
                (sym seq-appended) (own-IsTimely t le own).1);
        }
    | inr e ↦
        let same = timeline-appended x ∙ rw e in
        record {
          increasing = subst IsIncreasing (sym same) v.increasing;
          by_now = subst (All (StampedBy (unix_milli u) (appended id ev m).seq)) (sym same) (
              StampedBy-mono (unix_milli t) (unix_milli u) m.seq (appended id ev m).seq
                (timeline x m) le (omega (arith, seq-appended)) v.by_now);
        }
  ]

-- An append to a stored job whose event is not older, to the millisecond, than what came before keeps every
-- timeline in the order of its IDs, while times and sequence numbers fit 64 bits.
pub append_event-IsTimely :
    (now t : Time) (id x : Bytes) (ev : Event) (m : MemStore)
    → lookup id m.jobs ≢ none
    → unix_milli t ≤ unix_milli (event_time now ev)
    → unix_milli (event_time now ev) < u64_mod
    → m.seq + 1 < u64_mod
    → IsTimely t id m
    → IsTimely t x m
    → IsTimely (event_time now ev) x (append_event now id ev m).1
unfolding append_event stamped
append_event-IsTimely now t id x ev m there le millis numbers own v =
    elim (Option-cases (lookup id m.jobs)) [
      | inl e ↦ absurd (there e)
      | inr (j, e) ↦
          rw (e, append_event)
            (appended-IsTimely id (event_time now ev) (stamped now (next_seq m) ev) m millis numbers
              (ap (format_id (unix_milli (event_time now ev))) (next_seq_small m numbers)) t x le
              own v)
    ]

read_from_nothing :
    (after : Bytes) (room : ℕ) (es : List Event)
    → All (λ x. hidden after x ≡ true) es
    → read_from after room es ≡ []
unfolding read_from
read_from_nothing after zero es h = refl
read_from_nothing after (suc room) [] h = refl
read_from_nothing after (suc room) (x ∷ xs) h = rw h.0 (read_from_nothing after (suc room) xs h.1)

hidden_late :
    (now : Time) (n : ℕ) (ev e : Event) (a b : ℕ)
    → e.id ≡ format_id a b
    → e.id ≢ []
    → a < u64_mod
    → b < u64_mod
    → n < u64_mod
    → unix_milli (event_time now ev) < a
    → hidden e.id (stamped now n ev) ≡ true
unfolding hidden stamped
hidden_late now n ev e a b stamp ne p q r late = ground (
  arith,
  is_empty_iff e.id,
  ap (λ s. stream_id_less s (format_id (unix_milli (event_time now ev)) n)) stamp,
  stream_id_less-format_id (a, b) (unix_milli (event_time now ev), n),
)

next_seq_fits : (m : MemStore) → next_seq m < u64_mod
unfolding next_seq
next_seq_fits m = omega arith

-- An event that carries an earlier millisecond than the last one of its job's timeline is never seen by a reader
-- that resumes from that last event: its ID comes before the cursor.
pub late_event_unseen :
    (now : Time) (id : Bytes) (ev : Event) (m : MemStore) (j : Job) (pre : List Event) (e : Event)
    (a b limit : ℕ)
    → lookup id m.jobs ≡ some j
    → lookup id m.events ≡ some (pre ++ e ∷ [])
    → IsIncreasing (pre ++ e ∷ [])
    → e.id ≡ format_id a b
    → e.id ≢ []
    → a < u64_mod
    → b < u64_mod
    → unix_milli (event_time now ev) < a
    → read_events id e.id limit (append_event now id ev m).1 ≡ ok []
unfolding append_event appended read_events
late_event_unseen now id ev m j pre e a b limit job evs up stamp n p q late =
    rw (job, append_event)
      (rw (job, read_events)
        (ap ok (
          rw (lookup-insert id id _ m.events, bytes_eq_refl id, evs)
            (read_from_nothing e.id _ _ (
              capped-All _ m.max_len _ (
                All-append _ (pre ++ e ∷ []) (stamped now (next_seq m) ev ∷ [])
                  (hidden_before e pre [] n up)
                  (
                    hidden_late now (next_seq m) ev e a b stamp n p q (next_seq_fits m) late,
                    tt,
                  )))))))
