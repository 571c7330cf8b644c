-- ===== src/Server/Host.antt =====
-- What a message to RpcServer (src/RpcServer.h) leaves as it was: the handler tables, and whatever part of
-- the host's state no handler changes.
use mathlib.Core.Path.{subst}
use rpcpp.Base.{
  some-injective, ℕ, sym, ◌≡◌, refl, ◌∙◌, Text, text_eq, Bool, true, false, Option, none, some,
  find, assign, find-assign, Bool-cases, inl, inr, Dict,
}
use rpcpp.Envelope.{RpcRequest, RpcRequestHead, version}
use rpcpp.Codec.{Codec, Result, ok, error}
use rpcpp.Server.{
  ParamsArg, Handler, AsyncHandler, Server, dispatch_async, dispatch, route, on_head, on_request,
  on_input, process_message,
}

module _ (c : Codec) (H : Type 0) {X : Type 0} (view : H → X) where
  open c use {Input, Generic, Output}

  abbrev pub Leaves : Handler c H → Type 0
  Leaves handler =
      (id : Generic) (params : ParamsArg Input Generic) (h : H)
      → view (handler id params h).host ≡ view h

  abbrev pub LeavesAsync : AsyncHandler c H → Type 0
  LeavesAsync handler =
      (id : Generic) (params : ParamsArg Input Generic) (k : ℕ) (h : H)
      → view (handler id params k h).host ≡ view h

  -- Every entry of a table satisfies a predicate.
  abbrev pub Entries : {V : Type 0} → (V → Type 0) → Dict V → Type 0
  Entries {V = V} P m = (name : Text) (v : V) → find name m ≡ some v → P v

  pub assign-Entries :
      {V : Type 0} (P : V → Type 0) (name : Text) (v : V) (m : Dict V)
      → P v
      → Entries P m
      → Entries P (assign name v m)
  assign-Entries P name v m now before other w found = elim (Bool-cases (text_eq name other)) [
    | inl same ↦
        subst P (some-injective v w (rw same at (sym (find-assign name other v m) ∙ found))) now
    | inr differs ↦ before other w (rw differs at (sym (find-assign name other v m) ∙ found))
  ]

  pub record Quiet (s : Server c H) : Type 0 where
    pub sync : Entries Leaves s.handlers
    pub async : Entries LeavesAsync s.async_handlers

  pub record Same (s s' : Server c H) : Type 0 where
    pub handlers : s'.handlers ≡ s.handlers
    pub async_handlers : s'.async_handlers ≡ s.async_handlers
    pub viewed : view s'.host ≡ view s.host

  pub Quiet-Same : (s s' : Server c H) → Same s s' → Quiet s → Quiet s'
  Quiet-Same s s' same quiet = record {
    sync = subst (Entries Leaves) (sym same.handlers) quiet.sync;
    async = subst (Entries LeavesAsync) (sym same.async_handlers) quiet.async;
  }

  Same-refl : (s : Server c H) → Same s s
  Same-refl s = record { handlers = refl; async_handlers = refl; viewed = refl }

  dispatch-Same :
      (method : Text) (id : Generic) (params : ParamsArg Input Generic)
      (sync : Option (Handler c H)) (async : Option (AsyncHandler c H)) (s : Server c H)
      → ((handler : Handler c H) → sync ≡ some handler → Leaves handler)
      → ((handler : AsyncHandler c H) → async ≡ some handler → LeavesAsync handler)
      → Same s (dispatch c H method id params sync async s).0
  unfolding dispatch dispatch_async
  dispatch-Same method id params (some handler) async s leaves leaves_async = record {
    handlers = refl;
    async_handlers = refl;
    viewed = leaves handler refl id params s.host;
  }
  dispatch-Same method id params none (some handler) s leaves leaves_async = record {
    handlers = refl;
    async_handlers = refl;
    viewed = leaves_async handler refl id params _ s.host;
  }
  dispatch-Same method id params none none s leaves leaves_async = Same-refl s

  route-Same :
      (method : Text) (id : Generic) (jsonrpc : Text) (params : ParamsArg Input Generic)
      (s : Server c H)
      → Quiet s
      → Same s (route c H method id jsonrpc params s).0
  unfolding route
  route-Same method id jsonrpc params s quiet = elim (Bool-cases (text_eq jsonrpc version)) [
    | inl v2 ↦ rw v2 (
        dispatch-Same method id params (find method s.handlers) (find method s.async_handlers) s
          (quiet.sync method) (quiet.async method))
    | inr other ↦ rw other (Same-refl s)
  ]

  on_head-Same :
      (bytes : Input) (r : Result (RpcRequestHead Generic)) (s : Server c H)
      → Quiet s
      → Same s (on_head c H bytes r s).0
  unfolding on_head
  on_head-Same bytes (error what) s quiet = Same-refl s
  on_head-Same bytes (ok head) s quiet = route-Same head.method _ head.jsonrpc _ s quiet

  on_request-Same :
      (r : Result (RpcRequest Generic)) (s : Server c H) → Quiet s → Same s (on_request c H r s).0
  unfolding on_request
  on_request-Same (error what) s quiet = Same-refl s
  on_request-Same (ok req) s quiet = route-Same req.method _ req.jsonrpc _ s quiet

  on_input-Same :
      (ast : Bool) (bytes : Input) (s : Server c H) → Quiet s → Same s (on_input c H ast bytes s).0
  unfolding on_input
  on_input-Same true bytes s quiet = on_head-Same bytes (c.read_head bytes) s quiet
  on_input-Same false bytes s quiet = on_request-Same (c.read_request bytes) s quiet

  pub process_message-Same :
      (bytes : Input) (s : Server c H) → Quiet s → Same s (process_message c H bytes s).0
  unfolding process_message
  process_message-Same bytes s quiet = on_input-Same c.native bytes s quiet
