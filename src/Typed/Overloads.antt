-- ===== src/Typed/Overloads.antt =====
-- The overloads of `addMethod` and `addAsyncMethod` of src/TypedRpcServer.h that derive the name from the
-- member pointer, or that use the server's own object.
--
-- A member is a method for each object of its class. `signature` is the text of the member pointer's
-- template instance, from which `methodName` takes the name; where that is empty the `static_assert` fails
-- and there is no program, here `none`.
pub mod Named
use rpcpp.Base.{Text, Option, none, some, is_empty, if◌then◌else◌}
use rpcpp.Codec.{Codec}
use rpcpp.Typed.{Reflection, Method, TypedServer, add_method}
use rpcpp.Typed.Async.{AsyncMethod, add_async_method}
use rpcpp.Typed.Names.{method_name}

-- A name, unless it is empty.
abbrev pub with_name : {A : Type 0} → Text → (Text → A) → Option A
with_name name register = if is_empty name then none else some (register name)

module _ (c : Codec) (r : Reflection c) (H : Type 0) where
  -- `addMethod<MemFn>(instance)`
  abbrev add_method_derived : Text → Method c H → TypedServer c r H → Option (TypedServer c r H)
  add_method_derived signature m s =
      with_name (method_name signature) (λ name. add_method c r H name m s)

  -- `addAsyncMethod<MemFn>(instance)`
  abbrev add_async_method_derived :
      Text → AsyncMethod c r H → TypedServer c r H → Option (TypedServer c r H)
  add_async_method_derived signature m s =
      with_name (method_name signature) (λ name. add_async_method c r H name m s)

  -- A server with its own `_object`, of the class `T`.
  pub record OwnServer (T : Type 0) : Type 0 where
    pub object : T
    pub typed : TypedServer c r H

  module _ {T : Type 0} where
    abbrev registered : OwnServer T → TypedServer c r H → OwnServer T
    registered o s = record o { typed = s }

    abbrev registered_if : OwnServer T → Option (TypedServer c r H) → Option (OwnServer T)
    registered_if o none = none
    registered_if o (some s) = some (registered o s)

    -- `addMethod<Func>(name)`
    pub add_own_method : (T → Method c H) → Text → OwnServer T → OwnServer T
    add_own_method member name o = registered o (add_method c r H name (member o.object) o.typed)

    -- `addMethod<MemFn>()`
    pub add_own_method_derived : Text → (T → Method c H) → OwnServer T → Option (OwnServer T)
    unfolding add_own_method
    add_own_method_derived signature member o =
        with_name (method_name signature) (λ name. add_own_method member name o)

    -- `addAsyncMethod<Func>(name)`
    pub add_own_async_method : (T → AsyncMethod c r H) → Text → OwnServer T → OwnServer T
    add_own_async_method member name o =
        registered o (add_async_method c r H name (member o.object) o.typed)

    -- `addAsyncMethod<MemFn>()`
    abbrev add_own_async_method_derived :
        Text → (T → AsyncMethod c r H) → OwnServer T → Option (OwnServer T)
    unfolding add_own_async_method
    add_own_async_method_derived signature member o =
        with_name (method_name signature) (λ name. add_own_async_method member name o)
