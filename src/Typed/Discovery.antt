-- ===== src/Typed/Discovery.antt =====
-- `addDiscoveryMethod` of src/TypedRpcServer.h.
--
-- The handler of `rpc.discover` holds `this` and reads the two maps of the typed server when it is called.
-- The maps are therefore part of the state that the handlers act on: a registration writes them there too,
-- and a method of the host program acts on its own part of the state only. The order in which the
-- maps are iterated is a parameter.
pub mod Synced
pub mod Current
use rpcpp.Base.{Text, text, Option, none, some, List, [], ◌∷◌, Dict}
use rpcpp.Envelope.{rpc_response}
use rpcpp.Codec.{Codec, Result, ok, error, response}
use rpcpp.Net.{Call, run_call}
use rpcpp.Server.{
  Outcome, returned, threw, ParamsArg, Ran, Handler, Server, add_handler, process_message,
}
use rpcpp.Typed.{Args, MethodDesc, Reflection, Method, TypedServer, add_method}
use rpcpp.Typed.Async.{AsyncRun, AsyncMethod, Resolver, add_async_method}
use rpcpp.Typed.Schema.{Generics, generate_schema}

pub record Registry : Type 0 where
  pub generators : Dict Text
  pub methods : Dict MethodDesc

pub record Shared (J : Type 0) : Type 0 where
  pub registry : Registry
  pub own : J

abbrev pub discover_name : Text
discover_name = text "rpc.discover"

-- The values of reflect-cpp as results, and the iteration of the maps.
pub record Documents (c : Codec) : Type 1 where
  pub generics : Generics
  pub object_type : c.Ty
  pub as_result : generics.Value → c.El object_type
  -- `rfl::json::write(..., pretty)`
  pub pretty : generics.Value → Text
  pub each_generator : Dict Text → List (Text × Text)
  pub each_method : Dict MethodDesc → List (Text × MethodDesc)

module _ (c : Codec) (r : Reflection c) (d : Documents c) (J : Type 0) where
  open c use {Input, Output, Generic, Ty, El, write}

  abbrev pub Typed : Type 0
  Typed = TypedServer c r (Shared J)

  abbrev pub registry_of : Typed → Registry
  registry_of s = record { generators = s.schema_generators; methods = s.method_schemas }

  -- `generateSchema()` over the maps as they are.
  abbrev pub described : Registry → Result d.generics.Value
  described g = generate_schema d.generics (d.each_generator g.generators) (d.each_method g.methods)

  abbrev pub written : Result d.generics.Value → Result Text
  written (error what) = error what
  written (ok doc) = ok (d.pretty doc)

  -- `dumpSchema`
  abbrev dump_schema : Typed → Result Text
  dump_schema s = written (described (registry_of s))

  abbrev pub discovered : Generic → Result d.generics.Value → Outcome Output
  discovered id (error what) = threw what
  discovered id (ok doc) =
      returned (write (response d.object_type (rpc_response id (d.as_result doc))))

  -- The lambda that `addDiscoveryMethod` registers.
  pub discover : Handler c (Shared J)
  discover id params h = record {
    host = h;
    calls = [];
    outcome = discovered id (described h.registry);
  }

  pub add_discovery_method : Typed → Typed
  unfolding discover
  add_discovery_method s = record s {
    server = add_handler c (Shared J) discover_name discover s.server;
  }

  -- What a method of the host program does to the state.
  abbrev pub method_on : Method c J → Method c (Shared J)
  method_on m = record {
    params = m.params;
    result = m.result;
    invoke = λ args h.
        (let ran = m.invoke args h.own in
          record { host = record h { own = ran.host }; calls = ran.calls; outcome = ran.outcome });
  }

  abbrev pub keep_in :
      {R : Type 0}
      → Option (Resolver c r J R → J → J)
      → Option (Resolver c r J R → Shared J → Shared J)
  keep_in none = none
  keep_in (some keep) = some (λ s h. record h { own = keep s h.own })

  abbrev pub async_method_on : AsyncMethod c r J → AsyncMethod c r (Shared J)
  async_method_on m = record {
    params = m.params;
    result = m.result;
    invoke = λ args h.
        (let ran = m.invoke args h.own in
          record {
            host = record h { own = ran.host };
            uses = ran.uses;
            keep = keep_in ran.keep;
            outcome = ran.outcome;
          });
  }

  -- The registrations are seen by the handlers.
  abbrev pub published : Typed → Typed
  published s = record s {
    server = record s.server { host = record s.server.host { registry = registry_of s } };
  }

  pub data Act : Type 1 where
    method : Text → Method c J → Act
    async_method : Text → AsyncMethod c r J → Act
    discovery : Act
    message : Input → Act
    call : Call Output Generic Ty El → Act

  pub perform : Act → Typed → Typed
  unfolding add_discovery_method
  perform (method name m) s = published (add_method c r (Shared J) name (method_on m) s)
  perform (async_method name m) s =
      published (add_async_method c r (Shared J) name (async_method_on m) s)
  perform discovery s = add_discovery_method s
  perform (message bytes) s = record s { server = (process_message c (Shared J) bytes s.server).0 }
  perform (call op) s = record s { server = record s.server { net = run_call c op s.server.net } }

  pub perform_all : List Act → Typed → Typed
  unfolding perform
  perform_all [] s = s
  perform_all (a ∷ acts) s = perform_all acts (perform a s)
