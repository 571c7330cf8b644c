-- ===== src/Typed.antt =====
-- src/TypedRpcServer.h: methods registered by their C++ signature.
--
-- reflect-cpp is a parameter: which C++ types there are (`Ty` of the codec), their kinds, names and
-- schemas, and how a tuple of arguments is decoded. A method is code of the host program, as a handler is.
pub mod Decoding
pub mod Registry
pub mod Names
pub mod Schema
pub mod Async
pub mod Dispatch
pub mod Discovery
pub mod Overloads
pub mod Signature
use rpcpp.Base.{
  ℕ, ℤ, negsuc, Text, text, Bool, true, false, Option, none, some, List, [], ◌∷◌, ◌++◌, Dict, find,
  assign, contains, if◌then◌else◌,
}
use rpcpp.Envelope.{RpcTypedRequest, rpc_response}
use rpcpp.Codec.{Codec, Result, ok, error, Message, generic_response, response}
use rpcpp.Server.{
  Outcome, returned, threw, escaped, ParamsArg, raw, decoded, Ran, Handler, Server, add_handler,
}

-- The tests that `getJsonTypeName` makes, in their order; a type belongs to the first that fits.
pub data Kind : Type 0 where
  boolean integral floating void_type string class : Kind

-- `std::is_class_v`, which holds of `VoidT` and `std::string` too
abbrev pub is_class : Kind → Bool
is_class void_type = true
is_class string = true
is_class class = true
is_class _ = false

pub record MethodDesc : Type 0 where
  pub params : List Text
  pub ret : Text

abbrev pub empty_desc : MethodDesc
empty_desc = record { params = []; ret = [] }

abbrev pub missing_params : Text
missing_params = text "Missing params"

abbrev pub schemas_prefix : Text
schemas_prefix = text "#/components/schemas/"

module _ (c : Codec) where
  open c use {Input, Output, Generic, null, Ty, El, write}

  -- `std::tuple<std::decay_t<Args>...>`
  abbrev pub Args : List Ty → Type 0
  Args [] = Unit {0}
  Args (t ∷ ts) = El t × Args ts

  -- What the typed server asks of reflect-cpp.
  pub record Reflection : Type 0 where
    pub kind : Ty → Kind
    pub type_name : Ty → Text
    pub to_schema : Ty → Text
    -- `VoidT`
    pub void_t : Ty
    pub read_typed : (ts : List Ty) → Input → Result (RpcTypedRequest Generic (Args ts))
    pub from_generic : (ts : List Ty) → Generic → Result (Args ts)

  -- The value of a method; `none` is the return type `void` or `VoidT`.
  abbrev pub Value : Option Ty → Type 0
  Value none = Unit {0}
  Value (some t) = El t

  pub record Method (H : Type 0) : Type 0 where
    pub params : List Ty
    pub result : Option Ty
    pub invoke : Args params → H → Ran c H (Value result)

module _ (c : Codec) (r : Reflection c) where
  open c use {Input, Output, Generic, null, Ty, El, write}

  pub no_params : (ts : List Ty) → Result (Args c ts)
  no_params [] = ok tt
  no_params (t ∷ ts) = error missing_params

  pub typed_params :
      (ts : List Ty) → Result (RpcTypedRequest Generic (Args c ts)) → Result (Args c ts)
  unfolding no_params
  typed_params ts (error what) = error what
  typed_params ts (ok req) = elim req.params [ none ↦ no_params ts | some args ↦ ok args ]

  unfoldable pub decode_params : (ts : List Ty) → ParamsArg Input Generic → Result (Args c ts)
  unfolding typed_params
  decode_params ts (raw request) = typed_params ts (r.read_typed ts request)
  decode_params ts (decoded params) = r.from_generic ts params

  -- `_codec.write(RpcResponse{id, result})`
  pub write_result : Generic → (t : Option Ty) → Value c t → Output
  write_result id none _ = write (generic_response (rpc_response id null))
  write_result id (some t) v = write (response t (rpc_response id v))

  abbrev pub map_outcome : {A B : Type 0} → (A → B) → Outcome A → Outcome B
  map_outcome f (returned a) = returned (f a)
  map_outcome f (threw what) = threw what
  map_outcome f escaped = escaped

  module _ (H : Type 0) where
    -- The handler of a method after the decoding of its arguments.
    pub invoke_decoded : (m : Method c H) → Generic → Result (Args c m.params) → H → Ran c H Output
    unfolding write_result
    invoke_decoded m id (error what) h = record { host = h; calls = []; outcome = threw what }
    invoke_decoded m id (ok args) h =
        let ran = m.invoke args h in
        record {
          host = ran.host;
          calls = ran.calls;
          outcome = map_outcome (write_result id m.result) ran.outcome;
        }

    -- The lambda that `addMethod` registers.
    pub method_handler : Method c H → Handler c H
    unfolding decode_params invoke_decoded
    method_handler m id params h = invoke_decoded m id (decode_params m.params params) h

    pub record TypedServer : Type 0 where
      pub server : Server c H
      pub schema_generators : Dict Text
      pub method_schemas : Dict MethodDesc

    -- `getJsonTypeName`
    unfoldable pub json_type_name : Ty → Text
    json_type_name t = elim (r.kind t) [
      | boolean ↦ text "boolean"
      | integral ↦ text "integer"
      | floating ↦ text "number"
      | void_type ↦ text "null"
      | string ↦ text "string"
      | class ↦ schemas_prefix ++ r.type_name t
    ]

    -- `addSchemaGenerator`; a generator is what it generates.
    unfoldable pub add_schema_generator : Ty → Dict Text → Dict Text
    add_schema_generator t gens =
        if contains (r.type_name t) gens then gens else assign (r.type_name t) (r.to_schema t) gens

    abbrev note_type : Ty → Dict Text → Dict Text
    note_type t gens = if is_class (r.kind t) then add_schema_generator t gens else gens

    -- `_methodSchemas[name]`, which makes an empty entry where there is none.
    abbrev pub desc_of : Text → Dict MethodDesc → MethodDesc
    desc_of name descs = elim (find name descs) [ none ↦ empty_desc | some d ↦ d ]

    unfoldable pub add_param : Text → Ty → TypedServer → TypedServer
    unfolding add_schema_generator json_type_name
    add_param name t s =
        let d = desc_of name s.method_schemas in
        record s {
          schema_generators = note_type t s.schema_generators;
          method_schemas =
              assign name (record d { params = d.params ++ json_type_name t ∷ [] })
                s.method_schemas;
        }

    unfoldable pub add_params : Text → List Ty → TypedServer → TypedServer
    unfolding add_param
    add_params name [] s = s
    add_params name (t ∷ ts) s = add_params name ts (add_param name t s)

    unfoldable pub add_return : Text → Ty → TypedServer → TypedServer
    unfolding add_schema_generator json_type_name
    add_return name t s =
        let d = desc_of name s.method_schemas in
        record s {
          schema_generators = note_type t s.schema_generators;
          method_schemas = assign name (record d { ret = json_type_name t }) s.method_schemas;
        }

    -- `ReturnType`: `void` is recorded as `VoidT`.
    abbrev pub return_type : Option Ty → Ty
    return_type none = r.void_t
    return_type (some t) = t

    -- `addMethod<MemFn>(instance, name)`
    unfoldable pub add_method : Text → Method c H → TypedServer → TypedServer
    unfolding add_params add_return method_handler
    add_method name m s =
        let s' = add_return name (return_type m.result) (add_params name m.params s) in
        record s' { server = add_handler c H name (method_handler m) s'.server }
