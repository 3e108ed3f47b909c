-- ===== src/Proto.antt =====
-- The protobuf messages that hairpin exchanges (proto/harness/v1/harness.proto), as far as its own code
-- reads or writes them. The generated code and its JSON encoding are not modelled.
use hairpin.Base.{ℕ, Bool, Option, List, Bytes}

pub record HarnessEvent : Type 0 where
  pub kind : Bytes
  pub id : Bytes
  pub text : Bytes
  pub request_id : Bytes
  pub tool_name : Bytes
  pub input : Bytes
  pub message : Bytes
  pub stop_reason : Bytes
  pub audience : Bytes

pub record NetworkConfig : Type 0 where
  pub mode : Bytes

pub record ExecutorConfig : Type 0 where
  pub kind : Bytes
  pub image : Bytes
  pub workspace : Bytes
  pub runtime : Bytes
  pub k8s_namespace : Bytes
  pub k8s_service_account : Bytes
  pub k8s_egress_proxy_url : Bytes
  pub network : Option NetworkConfig
  pub sandbox_identity : Bool

pub record ToolConfig : Type 0 where
  pub name : Bytes
  pub timeout_seconds : ℕ

pub record TraceEmitterConfig : Type 0 where
  pub kind : Bytes
  pub endpoint : Bytes

-- `provider_type` is `GetProvider().GetType()`, `providers` the size of the providers map, and
-- `sandbox_identity` above whether that message is present.
pub record RunConfig : Type 0 where
  pub run_id : Bytes
  pub prompt : Bytes
  pub mode : Bytes
  pub provider_type : Bytes
  pub providers : ℕ
  pub max_turns : ℕ
  pub timeout : Option ℕ
  pub executor : Option ExecutorConfig
  pub control_plane_tools : List ToolConfig
  pub trace_emitter : Option TraceEmitterConfig

pub record ControlEvent : Type 0 where
  pub kind : Bytes
  pub task : Option RunConfig
  pub request_id : Bytes
  pub content : Bytes
  pub token : Bytes
  pub is_error : Option Bool
  pub allowed : Option Bool
  pub reason : Bytes
  pub expires_at : Option ℕ
