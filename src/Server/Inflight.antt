-- ===== src/Server/Inflight.antt =====
-- What src/RpcServer.h promises about asynchronous requests: one answer each, and a counter that says
-- when all are answered.
use rpcpp.Base.{
  ℕ, ◌≤◌, ◌<◌, ◌≡◌, Text, text_eq, Bool, true, false, Option, none, some, List, [], ◌∷◌, find,
  length, arith, Bool-cases, Option-cases, inl, inr, get_elem?, length-le_of_none,
}
use rpcpp.Codec.{Codec, Result, ok, error}
use rpcpp.Envelope.{RpcRequest, RpcRequestHead, version}
use rpcpp.Async.{internal_error}
use rpcpp.Net.{Net, is_alive}
use rpcpp.Net.Invariant.{answers, live, live-pos, Inv, Inv-empty, Next, Next-refl, Next-trans}
use rpcpp.Net.Calls.{run_call-Next, run_calls-Next, allocate-Next, unpin-Next, on_pinned-Next}
use rpcpp.Server.{
  Outcome, returned, threw, escaped, ParamsArg, Handler, AsyncHandler, Server, init, dispatch,
  finish_async, dispatch_async, route, on_head, on_request, on_input, process_message, has_inflight,
  Event, message, call, register, register_async, step, run, add_handler, add_async_handler,
}

module _ (c : Codec) (H : Type 0) where
  open c use {Input, Output, Generic, Ty, El, native, read_request, read_head}

  -- The invariant speaks of the shared state alone.
  abbrev pub Holds : Server c H → Type 0
  Holds s = Inv c s.net

  -- A step of the server, seen on the shared state.
  abbrev pub Goes : Server c H → Server c H → Type 0
  Goes s s' = Next c s.net s'.net

  finish_async-Next :
      (k : ℕ) (o : Outcome (Unit {0})) (n : Net Output)
      → Inv c n
      → Next c n (finish_async c H k o n).0
  unfolding finish_async
  finish_async-Next k (returned _) n inv = unpin-Next c k n inv
  finish_async-Next k (threw what) n inv =
      let failed = on_pinned-Next c k internal_error what n inv in
      Next-trans c failed (unpin-Next c k _ failed.inv)
  finish_async-Next k escaped n inv = unpin-Next c k n inv

  dispatch_async-Goes :
      (id : Generic) (params : ParamsArg Input Generic) (handler : AsyncHandler c H)
      (s : Server c H)
      → Holds s
      → Goes s (dispatch_async c H id params handler s).0
  unfolding dispatch_async
  dispatch_async-Goes id params handler s inv =
      let started = allocate-Next c id s.net inv in
      let called = run_calls-Next c _ _ started.inv in
      Next-trans c started (Next-trans c called (finish_async-Next _ _ _ called.inv))

  dispatch-Goes :
      (method : Text) (id : Generic) (params : ParamsArg Input Generic)
      (sync : Option (Handler c H)) (async : Option (AsyncHandler c H)) (s : Server c H)
      → Holds s
      → Goes s (dispatch c H method id params sync async s).0
  unfolding dispatch
  dispatch-Goes method id params (some handler) async s inv = run_calls-Next c _ _ inv
  dispatch-Goes method id params none (some handler) s inv =
      dispatch_async-Goes id params handler s inv
  dispatch-Goes method id params none none s inv = Next-refl c inv

  route-Goes :
      (method : Text) (id : Generic) (jsonrpc : Text) (params : ParamsArg Input Generic)
      (s : Server c H)
      → Holds s
      → Goes s (route c H method id jsonrpc params s).0
  unfolding route
  route-Goes method id jsonrpc params s inv = elim (Bool-cases (text_eq jsonrpc version)) [
    | inl v2 ↦ rw v2 (
        dispatch-Goes method id params (find method s.handlers) (find method s.async_handlers) s
          inv)
    | inr other ↦ rw other (Next-refl c inv)
  ]

  on_head-Goes :
      (bytes : Input) (r : Result (RpcRequestHead Generic)) (s : Server c H)
      → Holds s
      → Goes s (on_head c H bytes r s).0
  unfolding on_head
  on_head-Goes bytes (error what) s inv = Next-refl c inv
  on_head-Goes bytes (ok head) s inv = route-Goes head.method _ head.jsonrpc _ s inv

  on_request-Goes :
      (r : Result (RpcRequest Generic)) (s : Server c H) → Holds s → Goes s (on_request c H r s).0
  unfolding on_request
  on_request-Goes (error what) s inv = Next-refl c inv
  on_request-Goes (ok req) s inv = route-Goes req.method _ req.jsonrpc _ s inv

  on_input-Goes :
      (ast : Bool) (bytes : Input) (s : Server c H) → Holds s → Goes s (on_input c H ast bytes s).0
  unfolding on_input
  on_input-Goes true bytes s inv = on_head-Goes bytes (read_head bytes) s inv
  on_input-Goes false bytes s inv = on_request-Goes (read_request bytes) s inv

  pub process_message-Goes :
      (bytes : Input) (s : Server c H) → Holds s → Goes s (process_message c H bytes s).0
  unfolding process_message
  process_message-Goes bytes s inv = on_input-Goes native bytes s inv

  step-Goes : (e : Event c H) (s : Server c H) → Holds s → Goes s (step c H e s)
  unfolding step add_handler add_async_handler
  step-Goes (message bytes) s inv = process_message-Goes bytes s inv
  step-Goes (call op) s inv = run_call-Next c op s.net inv
  step-Goes (register name handler) s inv = Next-refl c inv
  step-Goes (register_async name handler) s inv = Next-refl c inv

  pub run-Goes : (es : List (Event c H)) (s : Server c H) → Holds s → Goes s (run c H es s)
  unfolding run
  run-Goes [] s inv = Next-refl c inv
  run-Goes (e ∷ es) s inv =
      let first = step-Goes e s inv in Next-trans c first (run-Goes es (step c H e s) first.inv)

  -- The server after any history.
  abbrev pub after : H → List (Event c H) → Server c H
  after h es = run c H es (init c H h)

  pub after-Inv : (h : H) (es : List (Event c H)) → Holds (after h es)
  after-Inv h es = (run-Goes es (init c H h) (Inv-empty c)).inv

  -- Where the invariant holds, a context answers at most once, and once if nothing is in flight.
  pub answers-le-one : (s : Server c H) (k : ℕ) → Holds s → answers k s.net.port.sent ≤ 1
  answers-le-one s k inv = elim (Option-cases (get_elem? s.net.contexts k)) [
    | inl e ↦ omega (arith, inv.fresh k (length-le_of_none s.net.contexts k e))
    | inr (cx, e) ↦ ground (arith, (inv.good k cx e).answered)
  ]

  pub answers-eq-one :
      (s : Server c H) (k : ℕ)
      → Holds s
      → has_inflight c H s ≡ false
      → k < length s.net.contexts
      → answers k s.net.port.sent ≡ 1
  unfolding has_inflight
  answers-eq-one s k inv quiet lt = elim (Option-cases (get_elem? s.net.contexts k)) [
    | inl e ↦ absurd (omega (arith, length-le_of_none s.net.contexts k e))
    | inr (cx, e) ↦ elim (Bool-cases (is_alive cx)) [
      | inl alive ↦
          absurd (omega (arith, live-pos s.net.contexts k cx e alive, inv.counted, zero_inflight))
      | inr dead ↦ ground (arith, (inv.good k cx e).answered, (inv.good k cx e).settled dead)
    ]
  ]
    where
      zero_inflight : s.net.port.inflight ≡ 0
      zero_inflight = ground arith

  -- After any history of messages, registrations and calls of other threads, no asynchronous request
  -- has had more than one answer.
  pub answered_at_most_once :
      (h : H) (es : List (Event c H)) (k : ℕ) → answers k (after h es).net.port.sent ≤ 1
  answered_at_most_once h es k = answers-le-one (after h es) k (after-Inv h es)

  -- After any history of messages, registrations and calls of other threads that leaves `hasInflight()`
  -- false, every asynchronous request that was
  -- dispatched has had exactly one answer.
  pub answered_exactly_once :
      (h : H) (es : List (Event c H)) (k : ℕ)
      → has_inflight c H (after h es) ≡ false
      → k < length (after h es).net.contexts
      → answers k (after h es).net.port.sent ≡ 1
  answered_exactly_once h es k quiet lt = answers-eq-one (after h es) k (after-Inv h es) quiet lt

  -- `_inflight` is at any time the number of requests whose state is not destroyed yet.
  pub inflight-live :
      (h : H) (es : List (Event c H))
      → (after h es).net.port.inflight ≡ live (after h es).net.contexts
  inflight-live h es = (after-Inv h es).counted
