-- ===== src/Service/Watch/Live.antt =====
-- internal/service/watch.go: the watch of a job that is still live, over a watch of the in-memory store.
use mathlib.Core.List.{append-nil}
use hairpin.Base.{
  ℕ, ◌≡◌, refl, true, false, Option, some, List, [], ◌∷◌, ◌++◌, ap, sym, ◌∙◌, Bytes, text, bytes_eq,
  bytes_eq_refl, All,
}
use hairpin.Job.{
  Status, Time, terminal, status_text, status_of_text, queued, launching, awaiting_harness, running,
  succeeded, failed, cancelled, other,
}
use hairpin.Store.{Event}
use hairpin.Store.Mem.{Watcher}
use hairpin.Store.Mem.Timeline.{stamped}
use hairpin.Store.Mem.Timeline.Watching.{Turn, turns, NeverFull, appends_of, watch_keeps_order}
use hairpin.World.{status_event, status_payload, status_change}
use hairpin.Service.Watch.{is_terminal_status_event, forward}

status_of_text_named : (s : Status) → terminal s ≡ true → status_of_text (status_text s) ≡ s
unfolding status_of_text status_text bytes_eq text
status_of_text_named succeeded h = refl
status_of_text_named failed h = refl
status_of_text_named cancelled h = refl
status_of_text_named queued h = cc
status_of_text_named launching h = cc
status_of_text_named awaiting_harness h = cc
status_of_text_named running h = cc
status_of_text_named (other t) h = cc

module _ (decode_status : Bytes → Option Bytes)
    (decodes : (s : Status) (error : Bytes)
      → terminal s ≡ true
      → decode_status (status_payload s error) ≡ some (status_text s)) where
  -- The event by which a job's end is recorded is known as such.
  announces :
      (now at : Time) (n : ℕ) (s : Status) (error : Bytes)
      → terminal s ≡ true
      → is_terminal_status_event decode_status (stamped now n (status_event s error at)) ≡ true
  unfolding is_terminal_status_event stamped status_event
  announces now at n s error h =
      rw (bytes_eq_refl status_change)
        (rw (decodes s error h) (ap terminal (status_of_text_named s h) ∙ h))

  forward_stops :
      (before behind : List Event) (e : Event)
      → All (λ x. is_terminal_status_event decode_status x ≡ false) before
      → is_terminal_status_event decode_status e ≡ true
      → forward decode_status (before ++ e ∷ behind) ≡ before ++ e ∷ []
  unfolding forward
  forward_stops [] behind e quiet h = rw h refl
  forward_stops (x ∷ xs) behind e quiet h =
      rw quiet.0 (ap (λ l. x ∷ l) (forward_stops xs behind e quiet.1 h))

  -- A watch whose channel is never full at an append and has been emptied, on which the end of the job
  -- was recorded: the caller gets everything in the watch's history and appended since, in order, up to
  -- the event that announces the end, that event included, and nothing behind it.
  pub forward-turns :
      (max_len : ℕ) (ts : List Turn) (w : Watcher) (before behind : List Event) (now at : Time)
      (n : ℕ) (s : Status) (error : Bytes)
      → NeverFull max_len ts ([], w)
      → (turns max_len ts ([], w)).1.buffer ≡ []
      → w.buffer ++ appends_of ts ≡ before ++ stamped now n (status_event s error at) ∷ behind
      → All (λ e. is_terminal_status_event decode_status e ≡ false) before
      → terminal s ≡ true
      → forward decode_status (turns max_len ts ([], w)).0
        ≡ before ++ stamped now n (status_event s error at) ∷ []
  forward-turns max_len ts w before behind now at n s error room empty all quiet h =
      ap (forward decode_status) (
        sym (append-nil _)
        ∙ ap (λ l. (turns max_len ts ([], w)).0 ++ l) (sym empty)
        ∙ watch_keeps_order max_len ts ([], w) room
        ∙ all)
      ∙ forward_stops before behind _ quiet (announces now at n s error h)
