-- ===== src/Tests/Methods.antt =====
-- The theorems on src/TypedRpcServer.h at concrete methods.
use rpcpp.Base.{
  ℕ, zero, suc, ◌+◌, ◌≡◌, ◌≢◌, refl, Text, text, Bool, true, false, none, some, List, [], ◌∷◌, ◌++◌,
  find,
}
use rpcpp.Envelope.{RpcTypedRequest, version}
use rpcpp.Codec.{Result, ok, error}
use rpcpp.Async.{internal_error}
use rpcpp.Net.{run_calls}
use rpcpp.Server.{Server, Answer, ParamsArg, returned, decoded, init, route, refuse}
use rpcpp.Typed.{
  Kind, class, void_type, Args, Reflection, Method, TypedServer, decode_params, json_type_name,
  add_method,
}
use rpcpp.Typed.Decoding.{method_call, method_undecodable, method_answer}
use rpcpp.Typed.Registry.{add_method-recorded, recorded}
use rpcpp.Typed.Async.{AsyncMethod, async_method_handler, calls_server, resolves, method_settles}
use rpcpp.Typed.Names.{method_name, method_name-qualified, is_ident_char, IsIdent}
use rpcpp.Net.{respond, copy, drop}
use rpcpp.Server.{threw}
use rpcpp.Base.{All}
use rpcpp.Typed.Schema.{
  Generics, generate_schema, document, export_all, export_schema, export_inner, export_top,
  replace_all, replace_loop, find_at,
}
use rpcpp.Typed.Schema.Closed.{
  Registration, sync, async, register_all, fresh, KnownDesc, generate_schema-closed,
}
use rpcpp.Typed.Names.{starts_with}
use rpcpp.Typed.Async.{add_async_method}
use rpcpp.Typed.{MethodDesc, add_params, add_param, add_return, add_schema_generator}
use rpcpp.Base.{Dict, find, assign, text_eq}
use rpcpp.Typed.{json_type_name, add_method}
use rpcpp.Server.{Server, Answer, ParamsArg}
use rpcpp.Typed.Names.Msvc.{method_name_msvc, method_name_msvc-qualified}
use rpcpp.Tests.{plain}

abbrev plain_kind : Bool → Kind
plain_kind true = class
plain_kind false = void_type

abbrev fill : (ts : List Bool) → ℕ → Args plain ts
fill [] n = tt
fill (t ∷ ts) n = (n, fill ts n)

abbrev plain_from : (ts : List Bool) → ℕ → Result (Args plain ts)
plain_from ts zero = error (text "zero")
plain_from ts (suc n) = ok (fill ts n)

abbrev no_args : (ts : List Bool) → RpcTypedRequest ℕ (Args plain ts)
no_args ts = record { method = []; id = none; params = none; jsonrpc = version }

abbrev pub plain_types : Reflection plain
plain_types = record {
  kind = plain_kind;
  type_name = λ t. text "t";
  to_schema = λ t. text "{}";
  void_t = false;
  read_typed = λ ts request. ok (no_args ts);
  from_generic = plain_from;
}

abbrev pub add : Method plain ℕ
add = record {
  params = true ∷ [];
  result = some true;
  invoke = λ args h. record { host = h + 1; calls = []; outcome = returned (args.0 + h) };
}

abbrev pub bare : TypedServer plain plain_types ℕ
bare = record { server = init plain ℕ 4; schema_generators = []; method_schemas = [] }

abbrev pub server_of : TypedServer plain plain_types ℕ → Server plain ℕ
server_of s = s.server

abbrev asked : ParamsArg Text ℕ → Server plain ℕ × Answer Text
asked params =
    route plain ℕ (text "add") 5 version params
      (server_of (add_method plain plain_types ℕ (text "add") add bare))

pub decodes : decode_params plain plain_types (true ∷ []) (decoded 8) ≡ ok (7, tt)
unfolding decode_params
decodes = refl

undecoded : decode_params plain plain_types (true ∷ []) (decoded 0) ≡ error (text "zero")
unfolding decode_params
undecoded = refl

method_call_example :
    ((asked (decoded 8)).1 ≡ method_answer plain plain_types 5 (some true) (returned 11))
    × ((asked (decoded 8)).0.net ≡ run_calls plain [] (init plain ℕ 4).net)
    × ((asked (decoded 8)).0.host ≡ 5)
method_call_example =
    method_call plain plain_types ℕ bare (text "add") add 5 (decoded 8) (7, tt) decodes

method_undecodable_example :
    ((asked (decoded 0)).1 ≡ refuse plain ℕ 5 internal_error (text "zero"))
    × ((asked (decoded 0)).0.net ≡ (init plain ℕ 4).net)
    × ((asked (decoded 0)).0.host ≡ 4)
method_undecodable_example =
    method_undecodable plain plain_types ℕ bare (text "add") add 5 (decoded 0) (text "zero")
      undecoded

-- A second registration under one name: the types of its parameters are recorded behind the first ones.
abbrev twice : TypedServer plain plain_types ℕ
twice = add_method plain plain_types ℕ (text "add") add bare

add_method-recorded_example :
    (find (text "add") (add_method plain plain_types ℕ (text "add") add twice).method_schemas
      ≡ some (record {
        params =
            (recorded plain plain_types ℕ (text "add") twice).params
            ++ json_type_name plain plain_types ℕ true ∷ [];
        ret = json_type_name plain plain_types ℕ true;
      }))
    × ((other : Text)
        → text "add" ≢ other
        → find other (add_method plain plain_types ℕ (text "add") add twice).method_schemas
          ≡ find other twice.method_schemas)
add_method-recorded_example = add_method-recorded plain plain_types ℕ (text "add") add twice

-- A method that ends the handle of another request, resolves twice and then throws.
abbrev meddling : AsyncMethod plain plain_types ℕ
meddling = record {
  params = true ∷ [];
  result = true;
  invoke = λ args h. record {
    host = h + 1;
    uses = calls_server (drop 0) ∷ resolves (args.0) ∷ resolves 3 ∷ [];
    keep = none;
    outcome = threw (text "late");
  };
}

-- The same without the other call.
abbrev pub hasty : AsyncMethod plain plain_types ℕ
hasty = record {
  params = true ∷ [];
  result = true;
  invoke = λ args h. record {
    host = h + 1;
    uses = resolves (args.0) ∷ resolves 3 ∷ [];
    keep = none;
    outcome = threw (text "late");
  };
}

method_settles_example :
    ((async_method_handler plain plain_types ℕ meddling 5 (decoded 8) 2 4).calls
      ≡ copy 2 ∷ copy 2 ∷ drop 0 ∷ respond 2 (5 ∷ 5 ∷ 7 ∷ []) ∷ drop 2 ∷ drop 2 ∷ drop 2 ∷ [])
    × ((async_method_handler plain plain_types ℕ meddling 5 (decoded 8) 2 4).host ≡ 5)
    × ((async_method_handler plain plain_types ℕ meddling 5 (decoded 8) 2 4).outcome ≡ returned tt)
method_settles_example =
    method_settles plain plain_types ℕ meddling 5 (decoded 8) 2 4 (7, tt) decodes refl

pub add-IsIdent : All IsIdent (text "add")
unfolding is_ident_char
add-IsIdent = (refl, (refl, (refl, tt)))

method_name-qualified_example :
    method_name ((text "[with auto " ++ text "MemFn = ") ++ (text "&Calc::add" ++ text "; x]"))
    ≡ text "add"
method_name-qualified_example =
    method_name-qualified (text "[with auto ") (text "&Calc") (text "add") (text " x]") 59
      (refl, (refl, (refl, (refl, (refl, (refl, (refl, (refl, (refl, (refl, (refl, tt)))))))))))
      (refl, (refl, (refl, (refl, (refl, tt))))) add-IsIdent refl

-- Generic values that keep nothing, and schemas that are all the empty object.
abbrev pub blank : Generics
blank = record {
  Value = Text;
  of_text = λ t. t;
  of_bool = λ b. [];
  of_array = λ vs. [];
  of_object = λ fields. [];
  to_object = λ v. ok [];
  read_object = λ t. ok [];
}

abbrev two_methods : List (Registration plain plain_types ℕ)
two_methods = sync (text "add") add ∷ async (text "hasty") hasty ∷ []

abbrev registered : TypedServer plain plain_types ℕ
registered = register_all plain plain_types ℕ two_methods (fresh plain plain_types ℕ 4)

generated : generate_schema blank registered.schema_generators registered.method_schemas ≡ ok []
unfolding generate_schema export_all export_schema export_inner export_top replace_all replace_loop
    find_at starts_with register_all add_method add_async_method add_params add_param add_return
    add_schema_generator json_type_name find assign text_eq
generated = refl

generate_schema-closed_example :
    (schemas : Dict Text) × ([] ≡ document blank schemas registered.method_schemas)
    × ((name : Text) (d : MethodDesc)
        → find name registered.method_schemas ≡ some d
        → KnownDesc schemas d)
generate_schema-closed_example =
    generate_schema-closed plain plain_types ℕ blank 4 two_methods registered.schema_generators
      registered.method_schemas [] (λ n h. h) generated

method_name_msvc-qualified_example :
    method_name_msvc
      ((text "cdecl " ++ text "methodName<") ++ (text "Calc::add" ++ text "(int)>(void)"))
    ≡ text "add"
method_name_msvc-qualified_example =
    method_name_msvc-qualified (text "cdecl ") (text "Calc:") (text "add") (text "int)>(void)")
      (refl, (refl, (refl, (refl, (refl, (refl, tt)))))) (refl, (refl, (refl, (refl, (refl, tt)))))
      add-IsIdent
