-- ===== src/Typed/Discovery/Synced.antt =====
-- The maps that the handler of `rpc.discover` sees (src/TypedRpcServer.h) are those of the server, whatever
-- is registered and whatever happens.
use mathlib.Core.Path.{subst}
use rpcpp.Base.{◌≡◌, refl, sym, ◌∙◌, Text, Option, none, some, List, [], ◌∷◌, find}
use rpcpp.Codec.{Codec, Result, ok, error}
use rpcpp.Server.{Handler, Server, init, add_handler, add_async_handler}
use rpcpp.Server.Host.{
  Leaves, LeavesAsync, Entries, Quiet, assign-Entries, Quiet-Same, process_message-Same,
}
use rpcpp.Typed.{Args, Reflection, Method, decode_params, method_handler, invoke_decoded}
use rpcpp.Typed.Async.{
  Resolver, AsyncMethod, async_method_handler, finish_method, decoded_run, stored,
}
use rpcpp.Typed.Decoding.{add_method-server}
use rpcpp.Typed.Dispatch.{add_async_method-server}
use rpcpp.Typed.Discovery.{
  Registry, Shared, discover_name, Documents, Typed, registry_of, discover, add_discovery_method,
  method_on, async_method_on, keep_in, Act, method, async_method, discovery, message, call, perform,
  perform_all,
}

module _ (c : Codec) (r : Reflection c) (d : Documents c) (J : Type 0) where
  open c use {Input, Output, Generic}

  abbrev pub registered : Shared J → Registry
  registered h = h.registry

  -- The handlers see the maps of the server, and none of them changes the maps.
  pub record Synced (s : Typed c r d J) : Type 0 where
    pub seen : s.server.host.registry ≡ registry_of c r d J s
    pub quiet : Quiet c (Shared J) registered s.server

  abbrev SyncTable : Server c (Shared J) → Type 0
  SyncTable t = Entries c (Shared J) registered (Leaves c (Shared J) registered) t.handlers

  abbrev AsyncTable : Server c (Shared J) → Type 0
  AsyncTable t =
      Entries c (Shared J) registered (LeavesAsync c (Shared J) registered) t.async_handlers

  add_handler-SyncTable :
      (name : Text) (handler : Handler c (Shared J)) (t : Server c (Shared J))
      → Leaves c (Shared J) registered handler
      → SyncTable t
      → SyncTable (add_handler c (Shared J) name handler t)
  unfolding add_handler
  add_handler-SyncTable name handler t leaves all =
      assign-Entries c (Shared J) registered (Leaves c (Shared J) registered) name handler
        t.handlers leaves all

  method-Leaves :
      (m : Method c J)
      → Leaves c (Shared J) registered (method_handler c r (Shared J) (method_on c r d J m))
  unfolding method_handler invoke_decoded
  method-Leaves m id params h = by_result (decode_params c r m.params params)
    where
      by_result :
          (x : Result (Args c m.params))
          → (invoke_decoded c r (Shared J) (method_on c r d J m) id x h).host.registry ≡ h.registry
      by_result (error what) = refl
      by_result (ok args) = refl

  stored-registry :
      {R : Type 0} (keep : Option (Resolver c r J R → J → J)) (x : Resolver c r J R) (h : Shared J)
      → (stored c r (Shared J) (keep_in c r d J keep) x h).registry ≡ h.registry
  stored-registry none x h = refl
  stored-registry (some keep) x h = refl

  async_method-Leaves :
      (m : AsyncMethod c r J)
      → LeavesAsync c
          (Shared J)
          registered
          (async_method_handler c r (Shared J) (async_method_on c r d J m))
  unfolding async_method_handler finish_method
  async_method-Leaves m id params k h = by_result (decode_params c r m.params params)
    where
      by_result :
          (x : Result (Args c m.params))
          → (decoded_run c r (Shared J) (async_method_on c r d J m) id k h x).host.registry
            ≡ h.registry
      by_result (error what) = refl
      by_result (ok args) = stored-registry (m.invoke args h.own).keep _ _

  discover-Leaves : Leaves c (Shared J) registered (discover c r d J)
  unfolding discover
  discover-Leaves id params h = refl

  pub perform-Synced :
      (a : Act c r d J) (s : Typed c r d J) → Synced s → Synced (perform c r d J a s)
  unfolding perform add_discovery_method add_handler add_async_handler
  perform-Synced (method name m) s v =
      let handler = method_handler c r (Shared J) (method_on c r d J m) in
      let added = add_method-server c r (Shared J) name (method_on c r d J m) s in
      record {
        seen = refl;
        quiet = record {
          sync =
              subst SyncTable (sym added)
                (add_handler-SyncTable name handler s.server (method-Leaves m) v.quiet.sync);
          async = subst AsyncTable (sym added) v.quiet.async;
        };
      }
  perform-Synced (async_method name m) s v =
      let handler = async_method_handler c r (Shared J) (async_method_on c r d J m) in
      let added = add_async_method-server c r (Shared J) name (async_method_on c r d J m) s in
      record {
        seen = refl;
        quiet = record {
          sync = subst SyncTable (sym added) v.quiet.sync;
          async = subst AsyncTable (sym added) (
              assign-Entries c (Shared J) registered (LeavesAsync c (Shared J) registered) name
                handler s.server.async_handlers (async_method-Leaves m) v.quiet.async);
        };
      }
  perform-Synced discovery s v = record {
    seen = v.seen;
    quiet = record {
      sync =
          add_handler-SyncTable discover_name (discover c r d J) s.server discover-Leaves
            v.quiet.sync;
      async = v.quiet.async;
    };
  }
  perform-Synced (message bytes) s v =
      let same = process_message-Same c (Shared J) registered bytes s.server v.quiet in
      record {
        seen = same.viewed ∙ v.seen;
        quiet = Quiet-Same c (Shared J) registered s.server _ same v.quiet;
      }
  perform-Synced (call op) s v = record {
    seen = v.seen;
    quiet = record { sync = v.quiet.sync; async = v.quiet.async };
  }

  abbrev pub fresh : J → Typed c r d J
  fresh j = record {
    server =
        init c (Shared J) (record { registry = record { generators = []; methods = [] }; own = j });
    schema_generators = [];
    method_schemas = [];
  }

  pub fresh-Synced : (j : J) → Synced (fresh j)
  unfolding find
  fresh-Synced j = record {
    seen = refl;
    quiet = record { sync = λ name v found. cc; async = λ name v found. cc };
  }

  pub perform_all-Synced :
      (acts : List (Act c r d J)) (s : Typed c r d J)
      → Synced s
      → Synced (perform_all c r d J acts s)
  unfolding perform_all
  perform_all-Synced [] s v = v
  perform_all-Synced (a ∷ acts) s v =
      perform_all-Synced acts (perform c r d J a s) (perform-Synced a s v)
