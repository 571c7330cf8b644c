-- ===== src/Server/Routing.antt =====
-- `route` of src/RpcServer.h: which requests are served, and by whom.
use rpcpp.Base.{
  ◌≡◌, refl, sym, ap, ◌∙◌, ◌≢◌, ◌⊎◌, inl, inr, ℤ, negsuc, Text, text_eq, text_eq_iff, text_eq_ne,
  text_eq_refl, Option, none, some, find, find-assign, find-assign_self, Bool-cases,
}
use rpcpp.Codec.{Codec, failure}
use rpcpp.Envelope.{version, rpc_error}
use rpcpp.Net.{run_calls}
use rpcpp.Server.{
  Outcome, returned, threw, escaped, Answer, reply, raises, silent, ParamsArg, Handler,
  AsyncHandler, Server, dispatch, finish_sync, dispatch_async, route, invalid_request,
  method_not_found, bad_version, not_found, refuse, absorb, add_handler,
}

module _ (c : Codec) (H : Type 0) where
  open c use {Input, Output, Generic, write}

  -- A request of another protocol version, or for a method that is registered in neither table, is
  -- refused with its own id, and leaves the server as it was.
  pub unserved_is_refused :
      (s : Server c H) (method : Text) (id : Generic) (jsonrpc : Text)
      (params : ParamsArg Input Generic)
      → (jsonrpc ≢ version)
        ⊎ ((find method s.handlers ≡ none) × (find method s.async_handlers ≡ none))
      → (code : ℤ) × (message : Text) × (route c H method id jsonrpc params s
          ≡ (s, refuse c H id code message))
        × (((jsonrpc ≢ version) × (code ≡ invalid_request))
            ⊎ ((jsonrpc ≡ version) × (code ≡ method_not_found)))
  unfolding route dispatch
  unserved_is_refused s method id jsonrpc params (inl ne) =
      (invalid_request, bad_version, rw ((text_eq_ne jsonrpc version).1 ne), inl (ne, refl))
  unserved_is_refused s method id jsonrpc params (inr (no_sync, no_async)) =
      elim (Bool-cases (text_eq jsonrpc version)) [
        | inl e ↦ (
          method_not_found,
          not_found method,
          rw (e, no_sync, no_async),
          inr ((text_eq_iff jsonrpc version).0 e, refl),
        )
        | inr e ↦ (invalid_request, bad_version, rw e, inl ((text_eq_ne jsonrpc version).0 e, refl))
      ]

  finish_sync-ne-silent : (id : Generic) (o : Outcome Output) → finish_sync c H id o ≢ silent
  unfolding finish_sync
  finish_sync-ne-silent id (returned bytes) e = cc
  finish_sync-ne-silent id (threw what) e = cc
  finish_sync-ne-silent id escaped e = cc

  dispatch_silent :
      (method : Text) (id : Generic) (params : ParamsArg Input Generic)
      (sync : Option (Handler c H)) (async : Option (AsyncHandler c H)) (s : Server c H)
      → (dispatch c H method id params sync async s).1 ≡ silent
      → (sync ≡ none) × (handler : AsyncHandler c H) × (async ≡ some handler)
  unfolding dispatch
  dispatch_silent method id params (some handler) async s e =
      absurd (finish_sync-ne-silent id (handler id params s.host).outcome e)
  dispatch_silent method id params none (some handler) s e = (refl, handler, refl)
  dispatch_silent method id params none none s e = cc

  -- `route` answers `std::nullopt` only to a request of version 2.0 whose method is registered as
  -- asynchronous and not as synchronous.
  pub silent_is_async :
      (s : Server c H) (method : Text) (id : Generic) (jsonrpc : Text)
      (params : ParamsArg Input Generic)
      → (route c H method id jsonrpc params s).1 ≡ silent
      → (jsonrpc ≡ version)
        × (find method s.handlers ≡ none)
        × (handler : AsyncHandler c H) × (find method s.async_handlers ≡ some handler)
  unfolding route
  silent_is_async s method id jsonrpc params e = elim (Bool-cases (text_eq jsonrpc version)) [
    | inl v ↦
        let (no_sync, handler, async) =
          dispatch_silent method id params (find method s.handlers) (find method s.async_handlers) s
            (rw (v, route) at e) in
        ((text_eq_iff jsonrpc version).0 v, no_sync, handler, async)
    | inr other ↦ cc (rw (other, route) at e)
  ]

  -- What the caller gets for how a synchronous handler ended.
  abbrev pub handler_answer : Generic → Outcome Output → Answer Output
  handler_answer id (returned bytes) = reply bytes
  handler_answer id (threw what) = reply (write (failure (rpc_error id (negsuc 32602) what)))
  handler_answer id escaped = raises

  finish_sync-handler_answer :
      (id : Generic) (o : Outcome Output) → finish_sync c H id o ≡ handler_answer id o
  unfolding finish_sync
  finish_sync-handler_answer id (returned bytes) = refl
  finish_sync-handler_answer id (threw what) = refl
  finish_sync-handler_answer id escaped = refl

  pub route-add_handler :
      (s : Server c H) (name : Text) (handler : Handler c H) (id : Generic)
      (params : ParamsArg Input Generic)
      → let s' = add_handler c H name handler s in
        let r = handler id params s.host in
        route c H name id version params s' ≡ (absorb c H s' r, finish_sync c H id r.outcome)
  unfolding route dispatch add_handler
  route-add_handler s name handler id params =
      rw (text_eq_refl version, find-assign_self name handler s.handlers)

  -- After `addHandler` every request of version 2.0 for that method goes to that handler, whatever was
  -- registered before under the name in either table: the shared state is the one that its calls leave,
  -- the host is as it left it, and the tables stay as they were. What it returns is the reply, a
  -- `std::exception` becomes the error -32603 with the request's id and the text of the exception, anything
  -- else escapes, and there is no handler after which the caller gets `std::nullopt`.
  pub add_handler_serves :
      (s : Server c H) (name : Text) (handler : Handler c H) (id : Generic)
      (params : ParamsArg Input Generic)
      → let s' = add_handler c H name handler s in
        let r = handler id params s.host in
        let q = route c H name id version params s' in
        (q.0.net ≡ run_calls c r.calls s.net)
        × (q.0.host ≡ r.host)
        × (q.0.handlers ≡ s'.handlers)
        × (q.0.async_handlers ≡ s.async_handlers)
        × (q.1 ≡ handler_answer id r.outcome)
        × (q.1 ≢ silent)
  unfolding add_handler
  add_handler_serves s name handler id params =
      let r = handler id params s.host in
      let e = route-add_handler s name handler id params in
      (
        ap (λ q. q.0.net) e,
        ap (λ q. q.0.host) e,
        ap (λ q. q.0.handlers) e,
        ap (λ q. q.0.async_handlers) e,
        ap (λ q. q.1) e ∙ finish_sync-handler_answer id r.outcome,
        λ none_sent. finish_sync-ne-silent id r.outcome (sym (ap (λ q. q.1) e) ∙ none_sent),
      )

  -- The tables are not read again once the handler is found.
  dispatch-add_handler :
      (name method : Text) (handler : Handler c H) (id : Generic) (params : ParamsArg Input Generic)
      (sync : Option (Handler c H)) (async : Option (AsyncHandler c H)) (s : Server c H)
      → (dispatch c H method id params sync async (add_handler c H name handler s)).1
        ≡ (dispatch c H method id params sync async s).1
  unfolding dispatch dispatch_async add_handler
  dispatch-add_handler name method handler id params (some _) async s = refl
  dispatch-add_handler name method handler id params none (some _) s = refl
  dispatch-add_handler name method handler id params none none s = refl

  -- `addHandler` changes the answer to no request for another method.
  pub add_handler_frame :
      (s : Server c H) (name method : Text) (handler : Handler c H) (id : Generic) (jsonrpc : Text)
      (params : ParamsArg Input Generic)
      → name ≢ method
      → (route c H method id jsonrpc params (add_handler c H name handler s)).1
        ≡ (route c H method id jsonrpc params s).1
  unfolding route add_handler
  add_handler_frame s name method handler id jsonrpc params ne =
      elim (Bool-cases (text_eq jsonrpc version)) [
        | inl v ↦
            rw (v, same_sync)
              (dispatch-add_handler name method handler id params (find method s.handlers)
                (find method s.async_handlers) s)
        | inr other ↦ rw other
      ]
    where
      same_sync : find method (add_handler c H name handler s).handlers ≡ find method s.handlers
      same_sync = rw (find-assign name method handler s.handlers, (text_eq_ne name method).1 ne)
