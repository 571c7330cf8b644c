-- ===== src/Envelope.antt =====
-- src/RpcEnvelope.h: the JSON-RPC envelopes. `G` is `rfl::Generic`; the default member initialiser
-- `jsonrpc = "2.0"` is what the envelopes that the server builds carry.
use rpcpp.Base.{Option, ℤ, Text, text}

abbrev pub version : Text
version = text "2.0"

pub record RpcRequest (G : Type 0) : Type 0 where
  pub method : Text
  pub id : Option G
  pub params : Option G
  pub jsonrpc : Text

pub record RpcRequestHead (G : Type 0) : Type 0 where
  pub method : Text
  pub id : Option G
  pub jsonrpc : Text

pub record RpcTypedRequest (G P : Type 0) : Type 0 where
  pub method : Text
  pub id : Option G
  pub params : Option P
  pub jsonrpc : Text

pub record RpcResponse (G R : Type 0) : Type 0 where
  pub id : G
  pub result : R
  pub jsonrpc : Text

pub record ErrorBody : Type 0 where
  pub code : ℤ
  pub message : Text

pub record RpcError (G : Type 0) : Type 0 where
  pub id : G
  pub error : ErrorBody
  pub jsonrpc : Text

pub record RpcNotification (G : Type 0) : Type 0 where
  pub method : Text
  pub params : G
  pub jsonrpc : Text

pub record RpcTypedNotification (P : Type 0) : Type 0 where
  pub method : Text
  pub params : P
  pub jsonrpc : Text

-- `RpcError{.id = id, .error = {code, message}}`
abbrev pub rpc_error : {G : Type 0} → G → ℤ → Text → RpcError G
rpc_error id code message = record {
  id = id;
  error = record { code = code; message = message };
  jsonrpc = version;
}

abbrev pub rpc_response : {G R : Type 0} → G → R → RpcResponse G R
rpc_response id result = record { id = id; result = result; jsonrpc = version }
