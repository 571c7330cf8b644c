-- ===== src/Typed/Dispatch.antt =====
-- A request for an asynchronous method, from `route` of src/RpcServer.h through the lambda of
-- `addAsyncMethod` in src/TypedRpcServer.h to the one payload that is sent.
use rpcpp.Base.{
  ℕ, ◌+◌, ◌-◌, ◌≡◌, refl, ap, ◌∙◌, Text, none, [], ◌∷◌, ◌++◌, length, arith, find, find-assign_self,
  text_eq_refl, true, All,
}
use rpcpp.Envelope.{version, rpc_error, rpc_response}
use rpcpp.Codec.{Codec, ok, failure, response}
use rpcpp.Async.{internal_error, abandoned}
use rpcpp.Net.{
  Call, respond, respond_with_error, copy, drop, Net, context, send, run_calls, allocate,
}
use rpcpp.Net.Newest.{with_newest, closed_context, pinned_context, unpin-newest}
use rpcpp.Net.Newest.Captured.{Answers, bytes_answer, error_answer, answer-allocate}
use rpcpp.Server.{
  Outcome, returned, threw, escaped, ParamsArg, Server, route, dispatch, dispatch_async,
  finish_async, add_async_handler,
}
use rpcpp.Server.Settled.{outcome_answer}
use rpcpp.Typed.{Args, Reflection, TypedServer, decode_params, add_return}
use rpcpp.Typed.Decoding.{add_params-server}
use rpcpp.Typed.Async.{
  Own, Uses, others, transcript, calls_server, resolves, rejects, AsyncMethod, caught,
  async_method_handler, add_async_method, method_settles,
}

module _ (c : Codec) (r : Reflection c) (H : Type 0) where
  open c use {Input, Output, Generic, Ty, El, write}

  -- What the client is sent: the first `resolve` or `reject`, else what the method threw, else that the
  -- request was abandoned.
  abbrev pub first_payload : Generic → (t : Ty) → Uses c r H (El t) → Outcome (Unit {0}) → Output
  first_payload id t (resolves v ∷ _) o = write (response t (rpc_response id v))
  first_payload id t (rejects code message ∷ _) o = write (failure (rpc_error id code message))
  first_payload id t (calls_server _ ∷ us) o = first_payload id t us o
  first_payload id t [] (threw what) = write (failure (rpc_error id internal_error what))
  first_payload id t [] (returned _) = write (failure (rpc_error id internal_error abandoned))
  first_payload id t [] escaped = write (failure (rpc_error id internal_error abandoned))

  others-Own : {R : Type 0} (us : Uses c r H R) → All Own us → others c r H us ≡ []
  others-Own [] own = refl
  others-Own (resolves v ∷ us) own = others-Own us own.1
  others-Own (rejects code message ∷ us) own = others-Own us own.1
  others-Own (calls_server op ∷ us) own = cc own.0

  -- With uses of the resolver only, the calls are one answer.
  record OneAnswer (k : ℕ) (id : Generic) (t : Ty) (us : Uses c r H (El t)) (o : Outcome (Unit {0}))
      : Type 0 where
    op : Call Output Generic Ty El
    alone : transcript c r H k id t us o ≡ op ∷ []
    answers : Answers c k id op (first_payload id t us o)

  transcript-OneAnswer :
      (k : ℕ) (id : Generic) (t : Ty) (us : Uses c r H (El t)) (o : Outcome (Unit {0}))
      → All Own us
      → OneAnswer k id t us o
  transcript-OneAnswer k id t (resolves v ∷ us) o own = record {
    op = respond k (write (response t (rpc_response id v)));
    alone = ap (◌∷◌ (respond k (write (response t (rpc_response id v))))) (others-Own us own.1);
    answers = bytes_answer _;
  }
  transcript-OneAnswer k id t (rejects code message ∷ us) o own = record {
    op = respond_with_error k code message;
    alone = ap (◌∷◌ (respond_with_error k code message)) (others-Own us own.1);
    answers = error_answer code message;
  }
  transcript-OneAnswer k id t (calls_server op ∷ us) o own = cc own.0
  transcript-OneAnswer k id t [] (threw what) own = record {
    op = _;
    alone = refl;
    answers = error_answer internal_error what;
  }
  transcript-OneAnswer k id t [] (returned _) own = record {
    op = _;
    alone = refl;
    answers = error_answer internal_error abandoned;
  }
  transcript-OneAnswer k id t [] escaped own = record {
    op = _;
    alone = refl;
    answers = error_answer internal_error abandoned;
  }

  -- The end of a dispatch that was answered while the handler ran.
  finish-answered :
      (n : Net Output) (id : Generic) (bytes : Output) (o : Outcome (Unit {0}))
      → finish_async c H (length n.contexts) (caught c r H o) (
          with_newest c
            (send
              (context (length n.contexts))
              bytes
              (record n.port { inflight = n.port.inflight + 1 }))
            n.contexts
            (pinned_context c true (length n.contexts) id))
        ≡ (
          with_newest c
              (record (send (context (length n.contexts)) bytes n.port) {
                inflight = n.port.inflight + 1 - 1;
              })
              n.contexts
              (closed_context c (length n.contexts) id),
          outcome_answer o,
        )
  unfolding finish_async
  finish-answered n id bytes (returned _) = rw (unpin-newest c _ n.contexts id true) refl
  finish-answered n id bytes (threw what) = rw (unpin-newest c _ n.contexts id true) refl
  finish-answered n id bytes escaped = rw (unpin-newest c _ n.contexts id true) refl

  pub add_async_method-server :
      (name : Text) (m : AsyncMethod c r H) (s : TypedServer c r H)
      → (add_async_method c r H name m s).server
        ≡ add_async_handler c H name (async_method_handler c r H m) s.server
  unfolding add_async_method add_return
  add_async_method-server name m s =
      ap (add_async_handler c H name (async_method_handler c r H m))
        (add_params-server c r H name m.params s)

  -- What a dispatch to the method's handler does.
  method-dispatch :
      (s : Server c H) (m : AsyncMethod c r H) (id : Generic) (params : ParamsArg Input Generic)
      (args : Args c m.params)
      → decode_params c r m.params params ≡ ok args
      → (m.invoke args s.host).keep ≡ none
      → All Own (m.invoke args s.host).uses
      → let a = m.invoke args s.host in
        let q = dispatch_async c H id params (async_method_handler c r H m) s in
        (q.0.net.port.sent
          ≡ s.net.port.sent
            ++ record {
              origin = context (length s.net.contexts);
              bytes = first_payload id m.result a.uses a.outcome;
            }
              ∷ [])
        × (q.0.net.port.inflight ≡ s.net.port.inflight)
        × (q.0.host ≡ a.host)
        × (q.1 ≡ outcome_answer a.outcome)
  unfolding dispatch_async
  method-dispatch s m id params args decodes unkept own =
      let a = m.invoke args s.host in
      let k = length s.net.contexts in
      let ran = async_method_handler c r H m id params k s.host in
      let (calls, host, outcome) = method_settles c r H m id params k s.host args decodes unkept in
      let bytes = first_payload id m.result a.uses a.outcome in
      let one = transcript-OneAnswer k id m.result a.uses a.outcome own in
      let ended =
        ap (λ o. finish_async c H k o (run_calls c ran.calls (allocate c id k s.net))) outcome
        ∙ ap
            (λ ops.
              finish_async c H k (caught c r H a.outcome) (run_calls c ops (allocate c id k s.net)))
            (calls ∙ ap (λ ops. (copy k ∷ copy k ∷ ops) ++ drop k ∷ drop k ∷ drop k ∷ []) one.alone)
        ∙ ap (finish_async c H k (caught c r H a.outcome))
            (answer-allocate c id s.net one.op bytes one.answers)
        ∙ finish-answered s.net id bytes a.outcome in
      (
        ap (λ q. q.0.port.sent) ended,
        ap (λ q. q.0.port.inflight) ended ∙ omega arith,
        host,
        ap (λ q. q.1) ended,
      )

  -- After `addAsyncMethod` under a name that no synchronous handler has, a request of version 2.0
  -- for that name whose params decode, to a method that does not keep its resolver and, while it runs,
  -- makes no call of the server but those of its own resolver: exactly one payload is sent, for the context of this request, which is the encoded response with the
  -- request's id if the first use of the resolver was `resolve`, the error of the first `reject`,
  -- -32603 with the text of the exception that was thrown before any use, and else -32603 for an
  -- abandoned request. The number in flight is what it was, the method ran once, and the caller
  -- gets no reply, or the exception if that was no `std::exception`.
  pub async_method_call :
      (s : TypedServer c r H) (name : Text) (m : AsyncMethod c r H) (id : Generic)
      (params : ParamsArg Input Generic) (args : Args c m.params)
      → find name s.server.handlers ≡ none
      → decode_params c r m.params params ≡ ok args
      → (m.invoke args s.server.host).keep ≡ none
      → All Own (m.invoke args s.server.host).uses
      → let a = m.invoke args s.server.host in
        let q = route c H name id version params (add_async_method c r H name m s).server in
        (q.0.net.port.sent
          ≡ s.server.net.port.sent
            ++ record {
              origin = context (length s.server.net.contexts);
              bytes = first_payload id m.result a.uses a.outcome;
            }
              ∷ [])
        × (q.0.net.port.inflight ≡ s.server.net.port.inflight)
        × (q.0.host ≡ a.host)
        × (q.1 ≡ outcome_answer a.outcome)
  unfolding route dispatch add_async_handler
  async_method_call s name m id params args no_sync decodes unkept own =
      let handler = async_method_handler c r H m in
      rw
        (
          add_async_method-server name m s,
          text_eq_refl version,
          no_sync,
          find-assign_self name handler s.server.async_handlers,
        )
        (method-dispatch (add_async_handler c H name handler s.server) m id params args decodes
          unkept own)
