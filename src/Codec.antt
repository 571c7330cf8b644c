-- ===== src/Codec.antt =====
-- src/Codec.h: what the server asks of a codec. A codec is a policy over reflect-cpp, which is not
-- part of the repository, so it is a parameter. reflect-cpp's types are named by `Ty`, with `El t` for
-- the values of the C++ type `t`; `write` is called on the envelopes of `Message` and on nothing else.
use rpcpp.Base.{◌≡◌, Text, Bool}
use rpcpp.Envelope.{
  RpcRequest, RpcRequestHead, RpcResponse, RpcError, RpcNotification, RpcTypedNotification,
}

-- `rfl::Result`, with the text of the error's `what()`.
pub data Result {ℓ} (A : Type ℓ) : Type ℓ where
  ok : A → Result A
  error : Text → Result A

-- The template arguments of `write`.
pub data Message (G : Type 0) (Ty : Type 0) (El : Ty → Type 0) : Type 0 where
  failure : RpcError G → Message G Ty El
  notification : RpcNotification G → Message G Ty El
  typed_notification : (t : Ty) → RpcTypedNotification (El t) → Message G Ty El
  generic_response : RpcResponse G G → Message G Ty El
  response : (t : Ty) → RpcResponse G (El t) → Message G Ty El

pub record Codec : Type 1 where
  pub Input : Type 0
  pub Output : Type 0
  pub Generic : Type 0
  -- `rfl::Generic{}`
  pub null : Generic
  pub Ty : Type 0
  pub El : Ty → Type 0
  -- whether `NativeAstCodec<C>` holds
  pub native : Bool
  pub read_request : Input → Result (RpcRequest Generic)
  pub read_head : Input → Result (RpcRequestHead Generic)
  pub write : Message Generic Ty El → Output

pub ok-injective {ℓ} : {A : Type ℓ} (a b : A) → ◌≡◌ {A = Result A} (ok a) (ok b) → a ≡ b
ok-injective a b e = cc
