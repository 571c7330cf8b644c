-- ===== src/Typed/Discovery/Current.antt =====
-- What `rpc.discover` of src/TypedRpcServer.h answers: the document of the registrations at that time.
use rpcpp.Base.{
  ◌≡◌, ◌≢◌, refl, ap, ◌∙◌, some, List, [], ◌∷◌, find, find-assign, find-assign_self, text_eq_refl,
  text_eq_ne, All,
}
use rpcpp.Envelope.{version, rpc_response}
use rpcpp.Codec.{Codec, Result, ok, error, response}
use rpcpp.Async.{internal_error}
use rpcpp.Net.{run_calls}
use rpcpp.Server.{
  reply, refuse, Answer, Server, ParamsArg, route, dispatch, finish_sync, add_handler,
  add_async_handler,
}
use rpcpp.Server.Host.{process_message-Same}
use rpcpp.Typed.{Reflection}
use rpcpp.Typed.Decoding.{add_method-server}
use rpcpp.Typed.Dispatch.{add_async_method-server}
use rpcpp.Typed.Discovery.{
  Shared, discover_name, Documents, Typed, registry_of, described, discovered, discover,
  add_discovery_method, method_on, async_method_on, Act, method, async_method, discovery, message,
  call, perform, perform_all,
}
use rpcpp.Typed.Discovery.Synced.{
  Synced, registered, fresh, perform-Synced, perform_all-Synced, fresh-Synced,
}

module _ (c : Codec) (r : Reflection c) (d : Documents c) (J : Type 0) where
  open c use {Input, Output, Generic}

  -- No synchronous method takes the name `rpc.discover`.
  abbrev pub Spares : Act c r d J → Type 0
  Spares (method name m) = name ≢ discover_name
  Spares (async_method name m) = Unit
  Spares discovery = Unit
  Spares (message bytes) = Unit
  Spares (call op) = Unit

  abbrev Discovers : Server c (Shared J) → Type 0
  Discovers t = find discover_name t.handlers ≡ some (discover c r d J)

  perform-Discovers :
      (a : Act c r d J) (s : Typed c r d J)
      → Spares a
      → Synced c r d J s
      → Discovers s.server
      → Discovers (perform c r d J a s).server
  unfolding perform add_discovery_method add_handler add_async_handler
  perform-Discovers (method name m) s spares v found =
      ap (λ t. find discover_name t.handlers)
        (add_method-server c r (Shared J) name (method_on c r d J m) s)
      ∙ find-assign name discover_name _ s.server.handlers
      ∙ rw ((text_eq_ne name discover_name).1 spares) found
  perform-Discovers (async_method name m) s spares v found =
      ap (λ t. find discover_name t.handlers)
        (add_async_method-server c r (Shared J) name (async_method_on c r d J m) s)
      ∙ found
  perform-Discovers discovery s spares v found =
      find-assign_self discover_name (discover c r d J) s.server.handlers
  perform-Discovers (message bytes) s spares v found =
      ap (find discover_name)
        (process_message-Same c (Shared J) (registered c r d J) bytes s.server v.quiet).handlers
      ∙ found
  perform-Discovers (call op) s spares v found = found

  perform_all-Discovers :
      (acts : List (Act c r d J)) (s : Typed c r d J)
      → All Spares acts
      → Synced c r d J s
      → Discovers s.server
      → Discovers (perform_all c r d J acts s).server
  unfolding perform_all
  perform_all-Discovers [] s spares v found = found
  perform_all-Discovers (a ∷ acts) s spares v found =
      perform_all-Discovers acts (perform c r d J a s) spares.1 (perform-Synced c r d J a s v)
        (perform-Discovers a s spares.0 v found)

  -- What the client gets for how `generateSchema` ended.
  abbrev pub discovery_answer : Generic → Result d.generics.Value → Answer Output
  discovery_answer id (ok doc) =
      reply (c.write (response d.object_type (rpc_response id (d.as_result doc))))
  discovery_answer id (error what) = refuse c (Shared J) id internal_error what

  finish-discovered :
      (id : Generic) (x : Result d.generics.Value)
      → finish_sync c (Shared J) id (discovered c r d J id x) ≡ discovery_answer id x
  unfolding finish_sync
  finish-discovered id (ok doc) = refl
  finish-discovered id (error what) = refl

  serves :
      (s : Typed c r d J) (id : Generic) (params : ParamsArg Input Generic)
      → Synced c r d J s
      → Discovers s.server
      → let q = route c (Shared J) discover_name id version params s.server in
        (q.1 ≡ discovery_answer id (described c r d J (registry_of c r d J s)))
        × (q.0.net ≡ s.server.net)
        × (q.0.host ≡ s.server.host)
  unfolding route dispatch discover run_calls
  serves s id params v found =
      rw (text_eq_refl version, found)
        (
          finish-discovered id _ ∙ ap (λ g. discovery_answer id (described c r d J g)) v.seen,
          refl,
          refl,
        )

  -- After `addDiscoveryMethod`, a request of version 2.0 for `rpc.discover` is answered with the document
  -- of everything that is registered when the request comes, also what was registered later, whatever
  -- messages and calls there were in between; or with -32603 and the text of the exception if
  -- `generateSchema` throws. Nothing is sent beside that, and no state changes. The condition is
  -- that no synchronous method was registered under that name afterwards.
  pub discover_current :
      (j : J) (before after : List (Act c r d J)) (id : Generic) (params : ParamsArg Input Generic)
      → All Spares after
      → let s =
          perform_all c r d J after
            (perform c r d J discovery (perform_all c r d J before (fresh c r d J j))) in
        let q = route c (Shared J) discover_name id version params s.server in
        (q.1 ≡ discovery_answer id (described c r d J (registry_of c r d J s)))
        × (q.0.net ≡ s.server.net)
        × (q.0.host ≡ s.server.host)
  unfolding perform add_discovery_method add_handler
  discover_current j before after id params spares =
      let s0 = perform_all c r d J before (fresh c r d J j) in
      let v0 = perform_all-Synced c r d J before (fresh c r d J j) (fresh-Synced c r d J j) in
      let s1 = perform c r d J discovery s0 in
      let v1 = perform-Synced c r d J discovery s0 v0 in
      serves (perform_all c r d J after s1) id params (perform_all-Synced c r d J after s1 v1) (
        perform_all-Discovers after s1 spares v1
          (find-assign_self discover_name (discover c r d J) s0.server.handlers))
