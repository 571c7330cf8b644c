-- ===== src/Server/Settled.antt =====
-- `dispatchAsync` of src/RpcServer.h with `~State()` of src/Resolver.h: a request whose handler does nothing
-- with its handle but let it end is answered before `dispatchAsync` is over.
use rpcpp.Base.{◌+◌, ◌-◌, ◌≡◌, ap, ◌∙◌, Text, true, false, List, [], ◌∷◌, ◌++◌, length, arith}
use rpcpp.Envelope.{rpc_error}
use rpcpp.Codec.{Codec, failure}
use rpcpp.Async.{internal_error, abandoned}
use rpcpp.Net.{Sent, Net, Call, context, drop, run_calls, allocate}
use rpcpp.Net.Newest.{
  with_newest, pinned_context, closed_context, drop-allocate, fail-newest, unpin-newest,
}
use rpcpp.Server.{
  Outcome, returned, threw, escaped, Answer, silent, raises, ParamsArg, AsyncHandler, Server,
  finish_async, dispatch_async,
}

-- What the client is told: the text of the exception, or that the request was abandoned.
abbrev pub reason : {A : Type 0} → Outcome A → Text
reason (returned _) = abandoned
reason (threw what) = what
reason escaped = abandoned

abbrev pub outcome_answer : {A Out : Type 0} → Outcome A → Answer Out
outcome_answer (returned _) = silent
outcome_answer (threw what) = silent
outcome_answer escaped = raises

module _ (c : Codec) (H : Type 0) where
  open c use {Input, Output, Generic, Ty, El, write}

  abbrev settled_sent : Net Output → Generic → Text → List (Sent Output)
  settled_sent n id message =
      n.port.sent
      ++ record {
        origin = context (length n.contexts);
        bytes = write (failure (rpc_error id internal_error message));
      }
        ∷ []

  -- The shared state after the dispatch.
  abbrev settled_net : Net Output → Generic → Text → Net Output
  settled_net n id message =
      with_newest c
        (record { sent = settled_sent n id message; inflight = n.port.inflight + 1 - 1 }) n.contexts
        (closed_context c (length n.contexts) id)

  finish-settled :
      (n : Net Output) (id : Generic) (o : Outcome (Unit {0}))
      → finish_async c H (length n.contexts) o (
          with_newest c
            (record n.port { inflight = n.port.inflight + 1 })
            n.contexts
            (pinned_context c false (length n.contexts) id))
        ≡ (settled_net n id (reason o), outcome_answer o)
  unfolding finish_async
  finish-settled n id (returned _) = rw (unpin-newest c _ n.contexts id false)
  finish-settled n id (threw what) =
      rw (fail-newest c _ n.contexts id internal_error what, unpin-newest c _ n.contexts id true)
  finish-settled n id escaped = rw (unpin-newest c _ n.contexts id false)

  finish-dropped :
      (n : Net Output) (id : Generic) (o : Outcome (Unit {0}))
      (ops : List (Call Output Generic Ty El))
      → ops ≡ drop (length n.contexts) ∷ []
      → finish_async c H
          (length n.contexts)
          o
          (run_calls c ops (allocate c id (length n.contexts) n))
        ≡ (settled_net n id (reason o), outcome_answer o)
  finish-dropped n id o ops e = rw (e, drop-allocate c id n) (finish-settled n id o)

  -- A handler of an asynchronous method whose only effect on the server is that its own handle ends, with
  -- no answer given, no handle copied and no other call of the server made: before
  -- `dispatchAsync` ends, exactly one payload was sent, the error -32603 with the request's own id and
  -- with the text of the exception if a `std::exception` was thrown and "Async request was abandoned"
  -- otherwise, and the number in flight is what it was. The caller gets `std::nullopt`, or the exception
  -- if that was not a `std::exception`.
  pub dispatch_async_settled :
      (s : Server c H) (id : Generic) (params : ParamsArg Input Generic)
      (handler : AsyncHandler c H)
      → (handler id params (length s.net.contexts) s.host).calls ≡ drop (length s.net.contexts) ∷ []
      → let k = length s.net.contexts in
        let o = (handler id params k s.host).outcome in
        let r = dispatch_async c H id params handler s in
        (r.0.net.port.sent
          ≡ s.net.port.sent
            ++ record {
              origin = context k;
              bytes = write (failure (rpc_error id internal_error (reason o)));
            }
              ∷ [])
        × (r.0.net.port.inflight ≡ s.net.port.inflight)
        × (r.1 ≡ outcome_answer o)
  unfolding dispatch_async
  dispatch_async_settled s id params handler e =
      let r = handler id params (length s.net.contexts) s.host in
      let ended = finish-dropped s.net id r.outcome r.calls e in
      (
        ap (λ q. q.0.port.sent) ended,
        ap (λ q. q.0.port.inflight) ended ∙ omega arith,
        ap (λ q. q.1) ended,
      )
