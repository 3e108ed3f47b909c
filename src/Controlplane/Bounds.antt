-- ===== src/Controlplane/Bounds.antt =====
-- internal/controlplane/pump.go: the bounds on what one stream can make hairpin hold or do.
use hairpin.Base.{◌≤◌, ◌≡◌, refl, Bool, List, arith, Bytes, length}
use hairpin.Job.{Time}
use hairpin.Memory.{Answer}
use hairpin.Store.Mem.Valid.{Distinct}
use hairpin.World.{World}
use hairpin.Registry.{Session}
use hairpin.Controlplane.{
  new_pump, Handler, EventPump, max_sandbox_token_requests, max_permission_requests,
}

-- The final text, the tokens, the permission requests and the memory calls are within their limits; every
-- memory call that runs holds one slot and was accepted under an ID of its own.
pub record IsBounded (h : Handler) (p : EventPump) : Type 0 where
  pub text_capped : length p.final_text ≤ h.max_final_text
  pub tokens_capped : p.sandbox_tokens ≤ max_sandbox_token_requests
  pub permissions_capped : p.permissions_seen ≤ max_permission_requests
  pub calls_capped : p.memory_calls ≤ h.max_memory_calls
  pub slots_capped : p.memory_in_flight ≤ h.max_in_flight
  pub slots_used : p.memory_in_flight ≡ length p.running_calls
  pub calls_counted : length p.memory_requests ≡ p.memory_calls
  pub requests_distinct : Distinct p.memory_requests

pub new_pump-IsBounded :
    (h : Handler) (now : Time) (id : Bytes) (s : Session) (tools scope : List Bytes)
    (identity : Bool)
    → IsBounded h (new_pump now id s tools scope identity)
unfolding new_pump
new_pump-IsBounded h now id s tools scope identity = record {
  text_capped = omega arith;
  tokens_capped = omega arith;
  permissions_capped = omega arith;
  calls_capped = omega arith;
  slots_capped = omega arith;
  slots_used = refl;
  calls_counted = refl;
  requests_distinct = tt;
}
