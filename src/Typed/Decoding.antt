-- ===== src/Typed/Decoding.antt =====
-- How a request for a typed method of src/TypedRpcServer.h is decoded, run and answered.
use rpcpp.Base.{◌≡◌, refl, ◌∙◌, ap, Text, negsuc, Option, none, some, List, [], ◌∷◌}
use rpcpp.Envelope.{version, rpc_error}
use rpcpp.Codec.{Codec, ok, error, failure, generic_response, response}
use rpcpp.Async.{internal_error}
use rpcpp.Server.{
  Outcome, returned, threw, escaped, Answer, reply, raises, ParamsArg, Ran, route, refuse, absorb,
  finish_sync, add_handler,
}
use rpcpp.Net.{run_calls}
use rpcpp.Server.Routing.{route-add_handler}
use rpcpp.Typed.{
  Reflection, Args, Method, Value, decode_params, write_result, map_outcome, invoke_decoded,
  method_handler, TypedServer, add_method, add_param, add_params, add_return,
}

module _ (c : Codec) (r : Reflection c) where
  open c use {Input, Output, Generic, null, Ty, El, write}

  -- What the caller of a method gets for how the method ended.
  abbrev pub method_answer : Generic → (t : Option Ty) → Outcome (Value c t) → Answer Output
  method_answer id none (returned _) =
      reply (write (generic_response (record { id = id; result = null; jsonrpc = version })))
  method_answer id (some t) (returned v) =
      reply (write (response t (record { id = id; result = v; jsonrpc = version })))
  method_answer id _ (threw what) = reply (write (failure (rpc_error id (negsuc 32602) what)))
  method_answer id _ escaped = raises

  module _ (H : Type 0) where
    finish-map :
        (id : Generic) (t : Option Ty) (o : Outcome (Value c t))
        → finish_sync c H id (map_outcome c r (write_result c r id t) o) ≡ method_answer id t o
    unfolding finish_sync write_result
    finish-map id none (returned v) = refl
    finish-map id (some t) (returned v) = refl
    finish-map id none (threw what) = refl
    finish-map id (some t) (threw what) = refl
    finish-map id none escaped = refl
    finish-map id (some t) escaped = refl

    pub add_params-server :
        (name : Text) (ts : List Ty) (s : TypedServer c r H)
        → (add_params c r H name ts s).server ≡ s.server
    unfolding add_params add_param
    add_params-server name [] s = refl
    add_params-server name (t ∷ ts) s = add_params-server name ts (add_param c r H name t s)

    pub add_method-server :
        (name : Text) (m : Method c H) (s : TypedServer c r H)
        → (add_method c r H name m s).server
          ≡ add_handler c H name (method_handler c r H m) s.server
    unfolding add_method add_return
    add_method-server name m s =
        ap (add_handler c H name (method_handler c r H m)) (add_params-server name m.params s)

    -- The run of the handler that `addMethod` makes, where the params decode.
    abbrev decoded_run : Generic → (m : Method c H) → Ran c H (Value c m.result) → Ran c H Output
    decoded_run id m ran = record {
      host = ran.host;
      calls = ran.calls;
      outcome = map_outcome c r (write_result c r id m.result) ran.outcome;
    }

    method_handler-decoded :
        (m : Method c H) (id : Generic) (params : ParamsArg Input Generic) (h : H)
        (args : Args c m.params)
        → decode_params c r m.params params ≡ ok args
        → method_handler c r H m id params h ≡ decoded_run id m (m.invoke args h)
    unfolding method_handler invoke_decoded
    method_handler-decoded m id params h args e = rw e

    method_handler-undecoded :
        (m : Method c H) (id : Generic) (params : ParamsArg Input Generic) (h : H) (what : Text)
        → decode_params c r m.params params ≡ error what
        → method_handler c r H m id params h ≡ record { host = h; calls = []; outcome = threw what }
    unfolding method_handler invoke_decoded
    method_handler-undecoded m id params h what e = rw e

    -- What a request for the method does, given how its handler runs.
    served_by :
        (s : TypedServer c r H) (name : Text) (m : Method c H) (id : Generic)
        (params : ParamsArg Input Generic) (ran : Ran c H Output)
        → method_handler c r H m id params s.server.host ≡ ran
        → let s' = (add_method c r H name m s).server in
          route c H name id version params s' ≡ (absorb c H s' ran, finish_sync c H id ran.outcome)
    unfolding add_handler
    served_by s name m id params ran e =
        rw (add_method-server name m s, ← e)
          (route-add_handler c H s.server name (method_handler c r H m) id params)

    -- After `addMethod` under a name, a request of version 2.0 for that name whose params decode runs the
    -- method once on the decoded arguments: the shared state is the one that its calls leave, the host is as
    -- it left it, and the answer is the encoded response of version 2.0 with the request's id and the
    -- result, which is null for a method that returns `void`; or the error -32603 with the request's id and
    -- the text of a `std::exception`; or whatever else was thrown.
    pub method_call :
        (s : TypedServer c r H) (name : Text) (m : Method c H) (id : Generic)
        (params : ParamsArg Input Generic) (args : Args c m.params)
        → decode_params c r m.params params ≡ ok args
        → let s' = (add_method c r H name m s).server in
          let ran = m.invoke args s.server.host in
          let q = route c H name id version params s' in
          (q.1 ≡ method_answer id m.result ran.outcome)
          × (q.0.net ≡ run_calls c ran.calls s.server.net)
          × (q.0.host ≡ ran.host)
    unfolding add_handler
    method_call s name m id params args e =
        let ran = m.invoke args s.server.host in
        let q =
          served_by s name m id params (decoded_run id m ran)
            (method_handler-decoded m id params s.server.host args e) in
        (
          ap (λ p. p.1) q ∙ finish-map id m.result ran.outcome,
          ap (λ p. p.0.net) q ∙ ap (λ t. run_calls c ran.calls t.net) (add_method-server name m s),
          ap (λ p. p.0.host) q,
        )

    -- After `addMethod` under a name, for a request of version 2.0 for that name: if the params do not
    -- decode, the method does not run, the answer is the error -32603 with the
    -- request's id and the text of the decoding error, and the shared state and the host are unchanged.
    pub method_undecodable :
        (s : TypedServer c r H) (name : Text) (m : Method c H) (id : Generic)
        (params : ParamsArg Input Generic) (what : Text)
        → decode_params c r m.params params ≡ error what
        → let s' = (add_method c r H name m s).server in
          let q = route c H name id version params s' in
          (q.1 ≡ refuse c H id internal_error what)
          × (q.0.net ≡ s.server.net)
          × (q.0.host ≡ s.server.host)
    unfolding add_handler finish_sync run_calls
    method_undecodable s name m id params what e =
        let q =
          served_by s name m id params _
            (method_handler-undecoded m id params s.server.host what e) in
        (
          ap (λ p. p.1) q,
          ap (λ p. p.0.net) q ∙ ap (λ t. t.net) (add_method-server name m s),
          ap (λ p. p.0.host) q,
        )
