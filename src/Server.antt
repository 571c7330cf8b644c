-- ===== src/Server.antt =====
-- src/RpcServer.h: registration of handlers and dispatch of one request.
--
-- A handler is code of the host program. It is a function of what it is given and of the host's own
-- state `H`; what it does to the server is the list of its calls, and it returns or throws. The handle
-- that an asynchronous handler is given is its own: unless it stores it, `drop` is among its calls.
-- A handler that calls `processMessage` or registers handlers itself is not modelled.
pub mod Inflight
pub mod Waiting
pub mod Wakeup
pub mod Settled
pub mod Routing
pub mod Host
use rpcpp.Base.{
  ℕ, zero, suc, ℤ, negsuc, Text, text, text_eq, Bool, true, false, not, Option, none, some, List,
  [], ◌∷◌, ◌++◌, Dict, find, assign, length, if◌then◌else◌, ◌==◌,
}
use rpcpp.Envelope.{RpcRequest, RpcRequestHead, rpc_error, version}
use rpcpp.Codec.{Codec, Result, ok, error, Message, failure}
use rpcpp.Async.{respond_error, internal_error}
use rpcpp.Net.{Net, empty_net, Call, allocate, on_pinned, unpin, run_call, run_calls}

abbrev pub parse_error : ℤ
parse_error = negsuc 32699

abbrev pub invalid_request : ℤ
invalid_request = negsuc 32599

abbrev pub method_not_found : ℤ
method_not_found = negsuc 32600

abbrev pub bad_version : Text
bad_version = text "Invalid JSON-RPC version"

abbrev pub not_found : Text → Text
not_found method = text "Method not found: " ++ method

-- How a call of host code ends: `threw` is a `std::exception` with its `what()`, `escaped` any other.
pub data Outcome (A : Type 0) : Type 0 where
  returned : A → Outcome A
  threw : Text → Outcome A
  escaped : Outcome A

-- What the caller of `processMessage` sees: an engaged optional, `std::nullopt`, or an exception.
pub data Answer (Out : Type 0) : Type 0 where
  reply : Out → Answer Out
  silent : Answer Out
  raises : Answer Out

-- `ParamsArg`: the raw request for a `NativeAstCodec`, the decoded params otherwise.
pub data ParamsArg (Input G : Type 0) : Type 0 where
  raw : Input → ParamsArg Input G
  decoded : G → ParamsArg Input G

module _ (c : Codec) (H : Type 0) where
  open c use {Input, Output, Generic, null, Ty, El, native, read_request, read_head, write}

  -- One run of host code.
  pub record Ran (A : Type 0) : Type 0 where
    pub host : H
    pub calls : List (Call Output Generic Ty El)
    pub outcome : Outcome A

  abbrev pub Handler : Type 0
  Handler = Generic → ParamsArg Input Generic → H → Ran Output

  abbrev pub AsyncHandler : Type 0
  AsyncHandler = Generic → ParamsArg Input Generic → ℕ → H → Ran (Unit {0})

  pub record Server : Type 0 where
    pub handlers : Dict Handler
    pub async_handlers : Dict AsyncHandler
    pub net : Net Output
    pub host : H

  -- The constructor, over a transport that nothing was sent to.
  abbrev pub init : H → Server
  init h = record { handlers = []; async_handlers = []; net = empty_net; host = h }

  unfoldable pub add_handler : Text → Handler → Server → Server
  add_handler name handler s = record s { handlers = assign name handler s.handlers }

  unfoldable pub add_async_handler : Text → AsyncHandler → Server → Server
  add_async_handler name handler s = record s {
    async_handlers = assign name handler s.async_handlers;
  }

  -- `return _codec.write(RpcError{id, {code, message}})`
  abbrev pub refuse : Generic → ℤ → Text → Answer Output
  refuse id code message = reply (write (failure (rpc_error id code message)))

  -- What a handler did, but for its result.
  abbrev pub absorb : {A : Type 0} → Server → Ran A → Server
  absorb s r = record s { net = run_calls c r.calls s.net; host = r.host }

  -- The `try` block around a synchronous handler.
  unfoldable pub finish_sync : Generic → Outcome Output → Answer Output
  finish_sync id (returned bytes) = reply bytes
  finish_sync id (threw what) = refuse id internal_error what
  finish_sync id escaped = raises

  -- The `try` block of `dispatchAsync`. The local `state` goes out of scope in every case.
  unfoldable pub finish_async : ℕ → Outcome (Unit {0}) → Net Output → Net Output × Answer Output
  finish_async k (returned _) n = (unpin k n, silent)
  finish_async k (threw what) n =
      (unpin k (on_pinned k (respond_error internal_error what) n), silent)
  finish_async k escaped n = (unpin k n, raises)

  unfoldable pub dispatch_async :
      Generic → ParamsArg Input Generic → AsyncHandler → Server → Server × Answer Output
  unfolding finish_async
  dispatch_async id params handler s =
      let k = length s.net.contexts in
      let r = handler id params k s.host in
      let (n, answer) = finish_async k r.outcome (run_calls c r.calls (allocate c id k s.net)) in
      (record s { net = n; host = r.host }, answer)

  -- The lookups of `route`, synchronous handlers first.
  unfoldable pub dispatch :
      Text
      → Generic
      → ParamsArg Input Generic
      → Option Handler
      → Option AsyncHandler
      → Server
      → Server × Answer Output
  unfolding finish_sync dispatch_async
  dispatch method id params (some handler) _ s =
      let r = handler id params s.host in (absorb s r, finish_sync id r.outcome)
  dispatch method id params none (some handler) s = dispatch_async id params handler s
  dispatch method id params none none s = (s, refuse id method_not_found (not_found method))

  unfoldable pub route :
      Text → Generic → Text → ParamsArg Input Generic → Server → Server × Answer Output
  unfolding dispatch
  route method id jsonrpc params s =
      if text_eq jsonrpc version
      then dispatch method id params (find method s.handlers) (find method s.async_handlers) s
      else (s, refuse id invalid_request bad_version)

  abbrev pub or_null : Option Generic → Generic
  or_null none = null
  or_null (some g) = g

  -- The two branches of `processMessage`, after the envelope was read.
  pub on_head : Input → Result (RpcRequestHead Generic) → Server → Server × Answer Output
  unfolding route
  on_head bytes (error what) s = (s, refuse null parse_error what)
  on_head bytes (ok head) s = route head.method (or_null head.id) head.jsonrpc (raw bytes) s

  unfoldable pub on_request : Result (RpcRequest Generic) → Server → Server × Answer Output
  unfolding route
  on_request (error what) s = (s, refuse null parse_error what)
  on_request (ok req) s =
      route req.method (or_null req.id) req.jsonrpc (decoded (or_null req.params)) s

  -- `if constexpr (NativeAstCodec<C>)`
  unfoldable pub on_input : Bool → Input → Server → Server × Answer Output
  unfolding on_head on_request
  on_input true bytes s = on_head bytes (read_head bytes) s
  on_input false bytes s = on_request (read_request bytes) s

  unfoldable pub process_message : Input → Server → Server × Answer Output
  unfolding on_input
  process_message bytes s = on_input native bytes s

  -- `hasInflight`, and the predicate that `waitForInflight` waits for.
  unfoldable pub has_inflight : Server → Bool
  has_inflight s = not (s.net.port.inflight == 0)

  -- What happens to a server: the owner feeds it a message or registers a handler, a thread of the host
  -- makes a call.
  pub data Event : Type 0 where
    message : Input → Event
    call : Call Output Generic Ty El → Event
    register : Text → Handler → Event
    register_async : Text → AsyncHandler → Event

  unfoldable pub step : Event → Server → Server
  unfolding process_message add_handler add_async_handler
  step (message bytes) s = (process_message bytes s).0
  step (call op) s = record s { net = run_call c op s.net }
  step (register name handler) s = add_handler name handler s
  step (register_async name handler) s = add_async_handler name handler s

  -- One order of the events.
  unfoldable pub run : List Event → Server → Server
  unfolding step
  run [] s = s
  run (e ∷ es) s = run es (step e s)

  -- `waitForInflight`: the calls of the other threads go on until nothing is in flight. `none`: it
  -- never returns, since the calls end first. Otherwise the calls that come after it are left.
  unfoldable pub wait_for_inflight :
      List (Call Output Generic Ty El) → Server → Option (Server × List (Call Output Generic Ty El))
  unfolding has_inflight
  wait_for_inflight [] s = if has_inflight s then none else some (s, [])
  wait_for_inflight (op ∷ ops) s =
      let later = wait_for_inflight ops (record s { net = run_call c op s.net }) in
      if has_inflight s then later else some (s, op ∷ ops)
