-- ===== src/Controlplane/Quiet.antt =====
-- internal/controlplane: the steps of the pump that leave every job's record alone.
use hairpin.Base.{
  ◌≡◌, refl, ◌∙◌, Bool, true, arith, Bytes, is_empty, Option-cases, Bool-cases, inl, inr, ap, leb,
  ltb, length,
}
use hairpin.Job.{Time, Status}
use hairpin.Proto.{HarnessEvent, ControlEvent}
use hairpin.Memory.{Answer}
use hairpin.Store.{Event}
use hairpin.World.{
  World, Env, read_clock, append, append_status, count_completed, stream_send, session_send,
}
use hairpin.World.Persist.{jobs-append_event, jobs-put_permission}
use hairpin.Registry.{Session}
use hairpin.Controlplane.{
  Handler, EventPump, MemoryCall, max_request_id_bytes, max_permission_requests,
}
use hairpin.Controlplane.Settle.{append_proto, append_control, settled_as}
use hairpin.Controlplane.Answer.{
  mint_and_send, issue_token, handle_sandbox_token_request, send_tool_result, admit_memory_call,
  fulfil_tool_result, finish_call, Admission, refuse, admit, admitted,
}
use hairpin.Controlplane.Pump.{
  EventKind, ready, heartbeat, permission_request, error, sandbox_token_request,
  tool_result_request, flush_deltas, put_request, record_event, answer_call, find_call,
}

module _ (env : Env) where
  pub jobs-append :
      (id : Bytes) (ev : Event) (w : World) → (append env id ev w).store.jobs ≡ w.store.jobs
  unfolding append
  jobs-append id ev w = jobs-append_event (env.now w.reads) id ev w.store

  pub jobs-settled_as :
      (id : Bytes) (s : Status) (at : Time) (w : World)
      → (settled_as env id s at w).store.jobs ≡ w.store.jobs
  unfolding settled_as append_status count_completed
  jobs-settled_as id s at w = jobs-append id _ w

  pub jobs-append_status :
      (id : Bytes) (s : Status) (e : Bytes) (at : Time) (w : World)
      → (append_status env id s e at w).store.jobs ≡ w.store.jobs
  unfolding append_status
  jobs-append_status id s e at w = jobs-append id _ w

  pub jobs-append_proto :
      (id : Bytes) (ev : HarnessEvent) (at : Time) (w : World)
      → (append_proto env id ev at w).store.jobs ≡ w.store.jobs
  unfolding append_proto append
  jobs-append_proto id ev at w = elim (Option-cases (env.encode_event ev)) [
    | inl e ↦ rw (e, append_proto)
    | inr (payload, e) ↦ rw (e, append_proto) (jobs-append_event _ id _ w.store)
  ]

  pub jobs-append_control :
      (id : Bytes) (ev : ControlEvent) (at : Time) (w : World)
      → (append_control env id ev at w).store.jobs ≡ w.store.jobs
  unfolding append_control append
  jobs-append_control id ev at w = elim (Option-cases (env.encode_control ev)) [
    | inl e ↦ rw (e, append_control)
    | inr (payload, e) ↦ rw (e, append_control) (jobs-append_event _ id _ w.store)
  ]

  pub store-stream_send :
      (s : Session) (ev : ControlEvent) (w : World) → (stream_send env s ev w).1.store ≡ w.store
  unfolding stream_send
  store-stream_send s ev w = ground arith

  pub store-session_send :
      (s : Session) (ev : ControlEvent) (w : World) → (session_send env s ev w).1.store ≡ w.store
  unfolding session_send
  store-session_send s ev w = ground arith

  pub jobs-flush_deltas :
      (p : EventPump) (w : World) → (flush_deltas env p w).1.store.jobs ≡ w.store.jobs
  unfolding flush_deltas read_clock
  jobs-flush_deltas p w = elim (Bool-cases (is_empty p.deltas)) [
    | inl e ↦ rw e
    | inr e ↦ rw e (jobs-append_proto p.job_id _ _ _)
  ]

  pub jobs-send_tool_result :
      (p : EventPump) (id content : Bytes) (e : Bool) (w : World)
      → (send_tool_result env p id content e w).store.jobs ≡ w.store.jobs
  unfolding send_tool_result read_clock
  jobs-send_tool_result p id content e w =
      jobs-append_control p.job_id _ _ _ ∙ ap (λ m. m.jobs) (store-session_send p.session _ w)

  store-mint_and_send :
      (p : EventPump) (id : Bytes) (w : World) → (mint_and_send env p id w).store ≡ w.store
  unfolding mint_and_send
  store-mint_and_send p id w = grind (arith, store-session_send)

  store-issue_token :
      (p : EventPump) (id : Bytes) (w : World) → (issue_token env p id w).1.store ≡ w.store
  unfolding issue_token
  store-issue_token p id w = grind (arith, store-session_send)

  -- The answer to a token request touches the stream alone.
  pub store-handle_sandbox_token_request :
      (h : Handler) (ev : HarnessEvent) (p : EventPump) (w : World)
      → (handle_sandbox_token_request env h ev p w).1.store ≡ w.store
  unfolding handle_sandbox_token_request
  store-handle_sandbox_token_request h ev p w = grind (arith, store-session_send)

  pub jobs-fulfil_tool_result :
      (h : Handler) (ev : HarnessEvent) (p : EventPump) (w : World)
      → (fulfil_tool_result env h ev p w).1.store.jobs ≡ w.store.jobs
  unfolding fulfil_tool_result
  jobs-fulfil_tool_result h ev p w =
      elim (Bool-cases (ltb max_request_id_bytes (length ev.request_id))) [
        | inl e ↦ rw e
        | inr e ↦ rw e (by_admission (admit_memory_call env.quote h ev.tool_name ev.request_id p))
      ]
    where
      by_admission : (a : Admission) → (admitted env ev p w a).1.store.jobs ≡ w.store.jobs
      by_admission (refuse message) = jobs-send_tool_result p ev.request_id message true w
      by_admission (admit q) = refl

  pub jobs-finish_call :
      (c : MemoryCall) (answer : Answer) (p : EventPump) (w : World)
      → (finish_call env c answer p w).1.store.jobs ≡ w.store.jobs
  unfolding finish_call
  jobs-finish_call c answer p w =
      jobs-send_tool_result p c.request_id answer.content answer.is_error w

  pub jobs-answer_call :
      (id : Bytes) (answer : Answer) (p : EventPump) (w : World)
      → (answer_call env id answer p w).1.store.jobs ≡ w.store.jobs
  unfolding answer_call
  jobs-answer_call id answer p w = elim (Option-cases (find_call id p.running_calls)) [
    | inl e ↦ rw (e, answer_call)
    | inr (c, e) ↦ rw (e, answer_call) (jobs-finish_call c answer p w)
  ]

  jobs-put_request :
      (ev : HarnessEvent) (at : Time) (p : EventPump) (w : World)
      → (put_request env ev at p w).1.store.jobs ≡ w.store.jobs
  unfolding put_request
  jobs-put_request ev at p w = elim (Bool-cases (leb max_permission_requests p.permissions_seen)) [
    | inl e ↦ rw e
    | inr e ↦ rw e (jobs-put_permission p.job_id _ w.store)
  ]

  pub jobs-record_event :
      (h : Handler) (k : EventKind) (ev : HarnessEvent) (now : Time) (p : EventPump) (w : World)
      → (record_event env h k ev now p w).1.store.jobs ≡ w.store.jobs
  unfolding record_event
  jobs-record_event h heartbeat ev now p w = jobs-append p.job_id _ w
  jobs-record_event h permission_request ev now p w =
      jobs-append_proto _ ev now _ ∙ jobs-put_request ev now p w
  jobs-record_event h error ev now p w = jobs-append_proto p.job_id ev now w
  jobs-record_event h sandbox_token_request ev now p w =
      ap (λ m. m.jobs) (store-handle_sandbox_token_request h ev p _)
      ∙ jobs-append_proto p.job_id ev now w
  jobs-record_event h tool_result_request ev now p w =
      jobs-fulfil_tool_result h ev p _ ∙ jobs-append_proto p.job_id ev now w
  jobs-record_event h ready ev now p w = refl
  jobs-record_event h _ ev now p w = jobs-append_proto p.job_id ev now w
