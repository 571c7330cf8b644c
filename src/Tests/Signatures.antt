-- ===== src/Tests/Signatures.antt =====
-- The theorems on the compile-time part of src/TypedRpcServer.h at concrete methods.
use rpcpp.Base.{Bool, ◌≡◌, ◌↔◌, refl, text, text_eq, true, false, some, List, [], ◌∷◌, ◌++◌, All}
use rpcpp.Typed.Signature.{
  named, resolver, CppType, lvalue_reference, rvalue_reference, object_type, unqualified, Callable,
  to_function_meta, AsyncFnMeta, async_fn_meta, same_class, Bare, void,
}
use rpcpp.Typed.Signature.Binding.{
  IsObject, NoArray, NoQualifiers, CallsMethod, invoke_method-Binds,
}
use rpcpp.Typed.Signature.AsyncBinding.{CallsAsync, Compiles, invoke_async-Binds}

-- `const std::string&`, `int&&` and `double&`
abbrev parameters : List CppType
parameters =
    record {
      reference = lvalue_reference;
      cv = record { is_const = true; is_volatile = false };
      bare = named (text "string");
    }
    ∷ record { reference = rvalue_reference; cv = unqualified; bare = named (text "int") }
    ∷ record { reference = lvalue_reference; cv = unqualified; bare = named (text "double") }
    ∷ []

abbrev add : Callable
add = record {
  class = some (text "Calc");
  ret = object_type (named (text "int"));
  args = parameters;
}

invoke_method-Binds_example :
    All IsObject (to_function_meta (text "Calc") add).param_tuple
    × (CallsMethod unqualified (text "Calc") add (to_function_meta (text "Calc") add)
        ↔ (NoQualifiers unqualified × All NoArray parameters))
unfolding same_class text_eq
invoke_method-Binds_example = invoke_method-Binds unqualified (text "Calc") add refl

-- `std::string` and `int`
abbrev values : List CppType
values = object_type (named (text "string")) ∷ object_type (named (text "int")) ∷ []

-- `Resolver<int>`
abbrev last : CppType
last = object_type (resolver (named (text "int")))

-- All types but `void`.
abbrev constructible : Bare → Bool
constructible void = false
constructible _ = true

invoke_async-Binds_example :
    ((m : AsyncFnMeta)
      → async_fn_meta constructible (values ++ last ∷ []) ≡ some m
      → (m.result ≡ named (text "int")) × All IsObject m.params)
    × (CallsAsync constructible unqualified (text "Calc") (values ++ last ∷ [])
        ↔ Compiles constructible unqualified values last (named (text "int")))
invoke_async-Binds_example =
    invoke_async-Binds constructible unqualified (text "Calc") values last (named (text "int")) refl

values_compile : Compiles constructible unqualified values last (named (text "int"))
values_compile =
    ((refl, refl), ((refl, refl), ((refl, refl), tt)), (refl, (refl, tt)), refl, λ by_ref. cc)

-- The registration of a method with these parameters is well typed.
values_are_accepted : CallsAsync constructible unqualified (text "Calc") (values ++ last ∷ [])
values_are_accepted =
    (invoke_async-Binds constructible unqualified (text "Calc") values last (named (text "int"))
        refl).1.1
      values_compile
