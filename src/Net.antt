-- ===== src/Net.antt =====
-- The part of src/RpcServer.h and src/Resolver.h that asynchronous work shares: the transport behind
-- `_send`, the counter `_inflight`, and the `AsyncContext` states with their `shared_ptr` handles.
--
-- A context is the state that one `dispatchAsync` allocates. `held` counts the `AsyncContext` objects
-- that the host program holds; `pinned` says that the local `state` of `dispatchAsync` is still alive.
-- With neither left the state is destroyed. Each operation is one step; steps of different threads come
-- in any order.
pub mod Invariant
pub mod Steps
pub mod Calls
pub mod Lengths
pub mod Newest
use rpcpp.Base.{
  ℕ, zero, suc, ◌+◌, ◌-◌, ℤ, Text, Bool, true, false, Option, none, some, List, [], ◌∷◌, ◌++◌, not,
  ◌||◌, get_elem?, set, if◌then◌else◌, ◌==◌, ltb,
}
use rpcpp.Envelope.{rpc_error, RpcNotification, RpcTypedNotification, version}
use rpcpp.Codec.{Codec, Message, failure, notification, typed_notification}
use rpcpp.Async.{ContextState, respond_bytes, respond_error, destroy}

-- Who sent a payload: the server's own write functions, or a context. The transport sees `bytes`
-- alone; the origin is kept for the theorems.
pub data Origin : Type 0 where
  server : Origin
  context : ℕ → Origin

pub record Sent (Out : Type 0) : Type 0 where
  pub origin : Origin
  pub bytes : Out

-- What the callbacks of a context reach through the captured `this`.
pub record Port (Out : Type 0) : Type 0 where
  pub sent : List (Sent Out)
  pub inflight : ℕ

pub record Context (Out : Type 0) : Type 0 where
  pub held : ℕ
  pub pinned : Bool
  pub state : ContextState Out (Port Out)

pub record Net (Out : Type 0) : Type 0 where
  pub port : Port Out
  pub contexts : List (Context Out)

-- Nothing was sent yet, and nothing is in flight.
abbrev pub empty_net : {Out : Type 0} → Net Out
empty_net = record { port = record { sent = []; inflight = 0 }; contexts = [] }

-- Whether some `shared_ptr` still owns the state.
abbrev pub is_alive : {Out : Type 0} → Context Out → Bool
is_alive cx = cx.pinned || ltb 0 cx.held

abbrev pub has_handle : {Out : Type 0} → Context Out → Bool
has_handle cx = ltb 0 cx.held

abbrev pub is_pinned : {Out : Type 0} → Context Out → Bool
is_pinned cx = cx.pinned

-- The owners after a copy, after the end of a handle, and after the end of the local `state`.
abbrev pub one_more : {Out : Type 0} → Context Out → ℕ × Bool
one_more cx = (cx.held + 1, cx.pinned)

abbrev pub one_less : {Out : Type 0} → Context Out → ℕ × Bool
one_less cx = (cx.held - 1, cx.pinned)

abbrev pub unpinned : {Out : Type 0} → Context Out → ℕ × Bool
unpinned cx = (cx.held, false)

-- `_send`
abbrev pub send : {Out : Type 0} → Origin → Out → Port Out → Port Out
send origin bytes p = record p { sent = p.sent ++ record { origin = origin; bytes = bytes } ∷ [] }

module _ (c : Codec) where
  open c use {Output, Generic, Ty, El, write}

  -- The state that `dispatchAsync` sets up for the request `id`, as context number `k`.
  unfoldable pub context_state : ℕ → Generic → ContextState Output (Port Output)
  context_state k id = record {
    done = false;
    on_bytes = some (λ bytes p. send (context k) bytes p);
    on_error = some (λ e p. send (context k) (write (failure (rpc_error id e.0 e.1))) p);
    on_complete = some (λ p. record p { inflight = p.inflight - 1 });
  }

  abbrev pub fresh_context : ℕ → Generic → Context Output
  fresh_context k id = record { held = 1; pinned = true; state = context_state k id }

  -- The start of `dispatchAsync`: a fresh state, held by the local `state` and by the handle that the
  -- handler is given, and `_inflight.fetch_add(1)`.
  unfoldable pub allocate : Generic → ℕ → Net Output → Net Output
  unfolding context_state
  allocate id k n = record {
    port = record n.port { inflight = n.port.inflight + 1 };
    contexts = n.contexts ++ fresh_context k id ∷ [];
  }

-- What the host program may do to the server's shared state while a handler runs, or from a thread.
pub data Call (Out G : Type 0) (Ty : Type 0) (El : Ty → Type 0) : Type 0 where
  respond : ℕ → Out → Call Out G Ty El
  respond_with_error : ℕ → ℤ → Text → Call Out G Ty El
  copy : ℕ → Call Out G Ty El
  drop : ℕ → Call Out G Ty El
  write_response : Out → Call Out G Ty El
  write_notification : Text → G → Call Out G Ty El
  write_typed_notification : Text → (t : Ty) → El t → Call Out G Ty El
  write_error : G → ℤ → Text → Call Out G Ty El

module _ {Out : Type 0} where
  -- Runs an operation of the state of context `k`, given that it has an owner who calls it.
  abbrev through :
      (Context Out → Bool)
      → ℕ
      → (ContextState Out (Port Out) → Port Out → ContextState Out (Port Out) × Port Out)
      → Net Out
      → Net Out
  through owner k f n = elim (get_elem? n.contexts k) [
    | none ↦ n
    | some cx ↦
        let (s', p') = f cx.state n.port in
        if owner cx
        then record { port = p'; contexts = set n.contexts k (record cx { state = s' }) }
        else n
  ]

  -- Through a handle of the host; without one there is no call.
  unfoldable pub on_context :
      ℕ
      → (ContextState Out (Port Out) → Port Out → ContextState Out (Port Out) × Port Out)
      → Net Out
      → Net Out
  on_context k f n = through has_handle k f n

  -- Through the local `state` of `dispatchAsync`.
  unfoldable pub on_pinned :
      ℕ
      → (ContextState Out (Port Out) → Port Out → ContextState Out (Port Out) × Port Out)
      → Net Out
      → Net Out
  on_pinned k f n = through is_pinned k f n

  -- The owners change to `held` and `pinned`; when none is left the state is destroyed.
  unfoldable pub set_owners : ℕ → Context Out → ℕ → Bool → Net Out → Net Out
  set_owners k cx held pinned n =
      let (s', p') = destroy cx.state n.port in
      if pinned || ltb 0 held
      then record n { contexts = set n.contexts k (record cx { held = held; pinned = pinned }) }
      else record {
        port = p';
        contexts = set n.contexts k (record { held = held; pinned = pinned; state = s' });
      }

  -- A change of owners, made by one who is an owner.
  abbrev re_own : (Context Out → Bool) → ℕ → (Context Out → ℕ × Bool) → Net Out → Net Out
  re_own owner k owners n = elim (get_elem? n.contexts k) [
    | none ↦ n
    | some cx ↦ if owner cx then set_owners k cx (owners cx).0 (owners cx).1 n else n
  ]

  -- The copy constructor and the destructor of a handle that the host holds.
  pub copy_handle : ℕ → Net Out → Net Out
  unfolding set_owners
  copy_handle k n = re_own has_handle k one_more n

  unfoldable pub drop_handle : ℕ → Net Out → Net Out
  unfolding set_owners
  drop_handle k n = re_own has_handle k one_less n

  -- The end of the scope of the local `state` of `dispatchAsync`.
  unfoldable pub unpin : ℕ → Net Out → Net Out
  unfolding set_owners
  unpin k n = re_own is_pinned k unpinned n

module _ (c : Codec) where
  open c use {Output, Generic, Ty, El, write}

  -- `writeResponse`, the two `writeNotification`s, `writeError`, and the methods of `AsyncContext`.
  unfoldable pub run_call : Call Output Generic Ty El → Net Output → Net Output
  unfolding on_context copy_handle drop_handle
  run_call (respond k bytes) n = on_context k (respond_bytes bytes) n
  run_call (respond_with_error k code message) n = on_context k (respond_error code message) n
  run_call (copy k) n = copy_handle k n
  run_call (drop k) n = drop_handle k n
  run_call (write_response bytes) n = record n { port = send server bytes n.port }
  run_call (write_notification method params) n = record n {
    port =
        send server
          (write (notification (record { method = method; params = params; jsonrpc = version })))
          n.port;
  }
  run_call (write_typed_notification method t params) n = record n {
    port =
        send server
          (write
            (typed_notification t (record { method = method; params = params; jsonrpc = version })))
          n.port;
  }
  run_call (write_error id code message) n = record n {
    port = send server (write (failure (rpc_error id code message))) n.port;
  }

  unfoldable pub run_calls : List (Call Output Generic Ty El) → Net Output → Net Output
  unfolding run_call
  run_calls [] n = n
  run_calls (op ∷ ops) n = run_calls ops (run_call op n)
