-- ===== src/Store.antt =====
-- internal/store: the event and permission records that every store keeps (store.go).
pub mod StreamId
pub mod Mem
use hairpin.Base.{Bytes}
use hairpin.Job.{Time}

pub record Event : Type 0 where
  pub id : Bytes
  pub kind : Bytes
  pub payload_json : Bytes
  pub at : Time

pub data PermissionState : Type 0 where
  pending allowed denied : PermissionState

pub record PermissionRequest : Type 0 where
  pub request_id : Bytes
  pub tool_name : Bytes
  pub input_json : Bytes
  pub state : PermissionState
  pub reason : Bytes
  pub requested_at : Time
  pub answered_at : Time
