-- ===== src/Controlplane/Answer.antt =====
-- internal/controlplane/pump.go: the requests that a harness makes on its stream and hairpin answers, for
-- sandbox identity tokens and for memory tools.
use hairpin.Base.{
  ℕ, ◌+◌, ◌-◌, ◌/◌, Bool, true, false, not, ◌&&◌, ◌||◌, none, some, List, [], ◌∷◌, ◌++◌, Bytes,
  text, bytes_eq, ltb, leb, length, if◌then◌else◌,
}
use hairpin.Job.{Time, is_zero}
use hairpin.Proto.{HarnessEvent, ControlEvent}
use hairpin.Memory.{Answer, is_memory_tool, unsupported_tool_message}
use hairpin.Store.Mem.Timeline.{unix_epoch}
use hairpin.Store.Mem.Valid.{contains}
use hairpin.World.{World, Env, read_clock, session_send}
use hairpin.Controlplane.{
  Handler, EventPump, MemoryCall, max_sandbox_token_requests, max_request_id_bytes,
}
use hairpin.Controlplane.Settle.{append_control}

unfoldable pub sandbox_token_refusal : Bytes
sandbox_token_refusal = text "hairpin does not issue sandbox identity tokens"

unfoldable pub sandbox_token_undeclared_refusal : Bytes
sandbox_token_undeclared_refusal = text "this run's config does not declare a sandbox identity"

unfoldable pub sandbox_token_limit_refusal : Bytes
sandbox_token_limit_refusal = text "this run has exceeded hairpin's sandbox token request limit"

unfoldable pub sandbox_token_issuance_failure : Bytes
sandbox_token_issuance_failure = text "hairpin failed to issue a sandbox identity token"

unfoldable pub memory_disabled_refusal : Bytes
memory_disabled_refusal = text "hairpin has no memory backend configured"

unfoldable pub memory_busy_refusal : Bytes
memory_busy_refusal =
    text "hairpin is already running the maximum number of concurrent memory calls for this job"

unfoldable pub memory_call_limit_refusal : Bytes
memory_call_limit_refusal = text "this job has exceeded hairpin's memory-call limit"

unfoldable pub duplicate_request_refusal : Bytes
duplicate_request_refusal = text "hairpin has already accepted a memory call with this request id"

-- `t.Unix()`, for times from 1970 on.
abbrev pub unix : Time → ℕ
unix t = (t - unix_epoch) / 1000000000

abbrev pub token_response : Bytes → Bytes → Time → Bool → Bytes → ControlEvent
token_response request_id token expires_at is_error reason = record {
  kind = text "sandbox_token_response";
  task = none;
  request_id = request_id;
  content = [];
  token = token;
  is_error = some is_error;
  allowed = none;
  reason = reason;
  expires_at = if not is_error && not (is_zero expires_at) then some (unix expires_at) else none;
}

abbrev pub tool_response : Bytes → Bytes → Bool → ControlEvent
tool_response request_id content is_error = record {
  kind = text "tool_result_response";
  task = none;
  request_id = request_id;
  content = content;
  token = [];
  is_error = some is_error;
  allowed = none;
  reason = [];
  expires_at = none;
}

module _ (env : Env) where
  -- sendSandboxTokenResponse; a failed send is logged. The token goes to the stream and nowhere else.
  unfoldable pub send_token_response :
      EventPump → Bytes → Bytes → Time → Bool → Bytes → World → World
  send_token_response p request_id token expires_at is_error reason w =
      (session_send env p.session (token_response request_id token expires_at is_error reason) w).1

  -- `p.h.issuer.Mint(p.jobID, p.repoScope)` and the answer.
  unfoldable pub mint_and_send : EventPump → Bytes → World → World
  unfolding send_token_response
  mint_and_send p request_id w =
      let w1 = record w { mints = w.mints + 1 } in
      elim (env.mint w.mints p.job_id p.repo_scope) [
        | none ↦ send_token_response p request_id [] 0 true sandbox_token_issuance_failure w1
        | some (token, expires_at) ↦ send_token_response p request_id token expires_at false [] w1
      ]

  unfoldable pub issue_token : EventPump → Bytes → World → EventPump × World
  unfolding mint_and_send
  issue_token p request_id w =
      if not p.sandbox_identity_declared
      then (p, send_token_response p request_id [] 0 true sandbox_token_undeclared_refusal w)
      else if leb max_sandbox_token_requests p.sandbox_tokens
      then (p, send_token_response p request_id [] 0 true sandbox_token_limit_refusal w)
      else let q = record p { sandbox_tokens = p.sandbox_tokens + 1 } in
        (q, mint_and_send q request_id w)

  unfoldable pub handle_sandbox_token_request :
      Handler → HarnessEvent → EventPump → World → EventPump × World
  unfolding issue_token
  handle_sandbox_token_request h ev p w =
      if ltb max_request_id_bytes (length ev.request_id) then (p, w) else elim h.issuer [
        | none ↦ (p, send_token_response p ev.request_id [] 0 true sandbox_token_refusal w)
        | some audience ↦ issue_token p ev.request_id w
      ]

  -- sendToolResult: the answer is recorded on the timeline whether or not the send succeeds.
  unfoldable pub send_tool_result : EventPump → Bytes → Bytes → Bool → World → World
  unfolding read_clock
  send_tool_result p request_id content is_error w =
      let resp = tool_response request_id content is_error in
      let w1 = (session_send env p.session resp w).1 in
      let (at, w2) = read_clock env w1 in append_control env p.job_id resp at w2

-- What admitMemoryCall decides: a refusal to send back, or the pump with a slot taken.
pub data Admission : Type 0 where
  refuse : Bytes → Admission
  admit : EventPump → Admission

unfoldable pub admit_memory_call : (Bytes → Bytes) → Handler → Bytes → Bytes → EventPump → Admission
admit_memory_call quote h tool request_id p =
    if not (contains tool p.declared_tools) || not (is_memory_tool tool)
    then refuse (unsupported_tool_message quote tool)
    else if not h.memory
    then refuse memory_disabled_refusal
    else if contains request_id p.memory_requests
    then refuse duplicate_request_refusal
    else if leb h.max_memory_calls p.memory_calls
    then refuse memory_call_limit_refusal
    else if ltb p.memory_in_flight h.max_in_flight
    then admit (record p {
      memory_in_flight = p.memory_in_flight + 1;
      memory_calls = p.memory_calls + 1;
      memory_requests = request_id ∷ p.memory_requests;
    })
    else refuse memory_busy_refusal

unfoldable pub without_call : Bytes → List MemoryCall → List MemoryCall
without_call request_id [] = []
without_call request_id (c ∷ cs) =
    if bytes_eq c.request_id request_id then cs else c ∷ without_call request_id cs

module _ (env : Env) where
  -- fulfilToolResult: a refusal is sent at once, an admitted call starts its goroutine.
  abbrev pub admitted : HarnessEvent → EventPump → World → Admission → EventPump × World
  admitted ev p w (refuse message) = (p, send_tool_result env p ev.request_id message true w)
  admitted ev p w (admit q) =
      let call : MemoryCall = record {
        request_id = ev.request_id;
        tool = ev.tool_name;
        input = ev.input;
      } in
      (record q { running_calls = q.running_calls ++ call ∷ [] }, w)

  unfoldable pub fulfil_tool_result : Handler → HarnessEvent → EventPump → World → EventPump × World
  fulfil_tool_result h ev p w =
      if ltb max_request_id_bytes (length ev.request_id)
      then (p, w)
      else admitted ev p w (admit_memory_call env.quote h ev.tool_name ev.request_id p)

  -- The end of a call's goroutine: its answer is sent and its slot is free again.
  unfoldable pub finish_call : MemoryCall → Answer → EventPump → World → EventPump × World
  unfolding without_call
  finish_call c answer p w = (
    record p {
      memory_in_flight = p.memory_in_flight - 1;
      running_calls = without_call c.request_id p.running_calls;
    },
    send_tool_result env p c.request_id answer.content answer.is_error w,
  )
