-- ===== src/Rpc.antt =====
-- stnet/rpc.go: remote calls. A service keeps the requests that wait for a response, by their
-- sequence numbers. What the code does to the outside, the sending of frames and the calls of
-- functions, is a list of effects; a function that is called with reflection is its number and the
-- types of its parameters.
use gotools.Common.{ℕ, List, Option, Bool}
use gotools.Spb.Values.{Ty, Value}
pub mod Args
pub mod Proto
pub mod Frames
pub mod Params
pub mod Calls
pub mod Table
pub mod Shrinks
pub mod Once
pub mod Deliver
mod Tests

abbrev pub Bytes : Type 0
Bytes = List ℕ

pub record ReqProto : Type 0 where
  pub req_cmd_id : ℕ
  pub req_cmd_seq : ℕ
  pub req_data : Bytes
  pub is_one_way : Bool
  pub func_name : Bytes

pub record RspProto : Type 0 where
  pub rsp_cmd_id : ℕ
  pub rsp_cmd_seq : ℕ
  pub push_seq_id : ℕ
  pub rsp_code : ℕ
  pub rsp_data : Bytes
  pub func_name : Bytes

pub record Callback : Type 0 where
  pub function : ℕ
  pub params : List Ty

-- rpcRequest. `signal` is the address of the channel of a call that waits.
pub record RpcRequest : Type 0 where
  pub req : ReqProto
  pub callback : Option Callback
  pub exception : Option ℕ
  pub timeout : ℕ
  pub sess : ℕ
  pub signal : Option ℕ

pub record Method : Type 0 where
  pub params : List Ty
  pub call : List Value → List Value

-- `channels` is the store of the channels, of one place each: a caller keeps the address of its own
-- when the request is gone from the table.
pub record ServiceRpc : Type 0 where
  pub methods : List (Bytes × Method)
  pub rpc_requests : List (ℕ × RpcRequest)
  pub rpc_req_sequence : ℕ
  pub channels : List (ℕ × Option RspProto)
  pub next_channel : ℕ

-- What a service does to the outside: a frame handed to a session, a function called, or a panic.
pub data Effect : Type 0 where
  sent : ℕ → Bytes → Effect
  called_exception : ℕ → ℕ → Effect
  called_back : ℕ → List Value → Effect
  called_method : Bytes → List Value → Effect
  panicking : Effect
