-- ===== src/Typed/Signature.antt =====
-- The part of src/TypedRpcServer.h that runs at compile time: what `FunctionMeta` and `asyncFnMeta` find in
-- the type of a method, and the arguments that `invokeMethod` and `invokeAsync` call the method with.
--
-- A C++ type is a reference kind, its qualifiers, and what is below them; an array's qualifiers are those
-- of its elements. Function types are left out. A parameter's type is what the compiler has adjusted it to,
-- so no parameter is an array by value.
pub mod Binding
pub mod AsyncBinding
use rpcpp.Base.{
  ℕ, ◌≡◌, Text, text, text_eq, Bool, true, false, ◌&&◌, ◌||◌, not, Option, none, some, List, [],
  ◌∷◌, ◌++◌, map, if◌then◌else◌,
}

pub record Cv : Type 0 where
  pub is_const : Bool
  pub is_volatile : Bool

abbrev pub unqualified : Cv
unqualified = record { is_const = false; is_volatile = false }

pub data Reference : Type 0 where
  by_value lvalue_reference rvalue_reference : Reference

pub data Bare : Type 0 where
  void : Bare
  named : Text → Bare
  pointer : Cv → Bare → Bare
  array : Bare → ℕ → Bare
  -- `rpcpp::Resolver<R>`
  resolver : Bare → Bare

pub record CppType : Type 0 where
  pub reference : Reference
  pub cv : Cv
  pub bare : Bare

abbrev pub object_type : Bare → CppType
object_type b = record { reference = by_value; cv = unqualified; bare = b }

-- `std::remove_cvref_t`
abbrev pub remove_cvref : CppType → CppType
remove_cvref t = object_type t.bare

abbrev decayed : Cv → Bare → Bare
decayed cv (array b n) = pointer cv b
decayed cv b = b

-- `std::decay_t`
abbrev pub decay : CppType → CppType
decay t = object_type (decayed t.cv t.bare)

abbrev is_void_bare : Bare → Bool
is_void_bare void = true
is_void_bare _ = false

-- `std::is_same_v<Ret, void>`
abbrev pub is_void : CppType → Bool
is_void t = elim t.reference [
  | by_value ↦ is_void_bare t.bare && not t.cv.is_const && not t.cv.is_volatile
  | _ ↦ false
]

pub record FunctionMeta : Type 0 where
  pub return_type : CppType
  pub param_tuple : List CppType
  pub original_args_tuple : List CppType

abbrev pub function_meta : CppType → List CppType → FunctionMeta
function_meta ret args = record {
  return_type = if is_void ret then object_type (named (text "VoidT")) else ret;
  param_tuple = map decay args;
  original_args_tuple = args;
}

-- A pointer to a member function, or to a function that is no member.
pub record Callable : Type 0 where
  pub class : Option Text
  pub ret : CppType
  pub args : List CppType

abbrev object_first : Bool → Text → List CppType → List CppType
object_first true class args = args
object_first false class args =
    record { reference = lvalue_reference; cv = unqualified; bare = named class } ∷ args

-- `requires std::same_as<std::remove_cvref_t<BindClass>, MemberClassT<MemFn>>`, of `addMethod`
unfoldable pub same_class : Text → Callable → Bool
same_class obj f = elim f.class [ none ↦ false | some class ↦ text_eq obj class ]

-- `toFunctionMeta<Type>`
pub to_function_meta : Text → Callable → FunctionMeta
to_function_meta type f = elim f.class [
  | none ↦ function_meta f.ret f.args
  | some class ↦ function_meta f.ret (object_first (text_eq type class) class f.args)
]

pub data Category : Type 0 where
  lvalue xvalue : Category

pub record Expression : Type 0 where
  pub category : Category
  pub cv : Cv
  pub bare : Bare

abbrev as_category : Category → CppType → Expression
as_category k t = record { category = k; cv = t.cv; bare = t.bare }

abbrev forwarded : Reference → CppType → Expression
forwarded lvalue_reference stored = as_category lvalue stored
forwarded _ stored = as_category xvalue stored

-- `forwardArg<OrigArg, StoredArg>`
pub forward_arg : CppType → CppType → Expression
forward_arg orig stored = forwarded orig.reference stored

-- `forwardArg` for each index of both tuples
pub forward_args : List CppType → List CppType → List Expression
unfolding forward_arg
forward_args [] stored = []
forward_args (o ∷ orig) [] = []
forward_args (o ∷ orig) (s ∷ stored) = forward_arg o s ∷ forward_args orig stored

-- `*inst`, for a `BindClass& instance`: the qualifiers are those of `BindClass`.
abbrev pub instance_of : Cv → Text → Expression
instance_of cv obj = record { category = lvalue; cv = cv; bare = named obj }

-- The parameter `T& obj` of `invokeMethod` and `invokeAsync`, where `T` is `std::remove_cvref_t<BindClass>`.
abbrev pub object_param : Text → CppType
object_param obj = record { reference = lvalue_reference; cv = unqualified; bare = named obj }

-- The arguments of `invokeMethod`: the object, and what the method is called with.
pub invoke_method : Expression → FunctionMeta → List Expression
unfolding forward_args
invoke_method inst m = inst ∷ forward_args m.original_args_tuple m.param_tuple

pub record PeelLast : Type 0 where
  pub rest : List CppType
  pub last : CppType

-- There is none without a parameter.
pub peel_last : List CppType → Option PeelLast
peel_last [] = none
peel_last (t ∷ []) = some (record { rest = []; last = t })
peel_last (t ∷ u ∷ us) = elim (peel_last (u ∷ us)) [
  | none ↦ none
  | some p ↦ some (record p { rest = t ∷ p.rest })
]

-- `IsResolver`, with what `ResolverInner` takes out
pub resolver_inner : CppType → Option Bare
resolver_inner t = elim t.bare [ resolver r ↦ some r | _ ↦ none ]

pub record AsyncFnMeta : Type 0 where
  pub params : List CppType
  pub original_args : List CppType
  pub result : Bare

abbrev is_by_value : Reference → Bool
is_by_value by_value = true
is_by_value _ = false

-- Which types the program can make with no initialiser is for the types themselves to say.
module _ (default_constructible : Bare → Bool) where
  -- Whether `std::tuple<Ts...>{}` is well formed: a reference has to be bound to something.
  pub tuple_constructible : List CppType → Bool
  tuple_constructible [] = true
  tuple_constructible (t ∷ ts) =
      is_by_value t.reference && default_constructible t.bare && tuple_constructible ts

  -- `return std::tuple<PT, OAT, R>{}`
  abbrev with_resolver : List CppType → Option Bare → Option AsyncFnMeta
  with_resolver rest none = none
  with_resolver rest (some r) =
      if tuple_constructible (map decay rest) && tuple_constructible rest && default_constructible r
      then some (record { params = map decay rest; original_args = rest; result = r })
      else none

  -- The last parameter without reference and qualifiers; where an assertion fails, there is no program.
  abbrev asserted : Option PeelLast → Option AsyncFnMeta
  asserted none = none
  asserted (some p) = with_resolver p.rest (resolver_inner (remove_cvref p.last))

  -- `asyncFnMeta` of a method that returns `void`
  pub async_fn_meta : List CppType → Option AsyncFnMeta
  unfolding peel_last resolver_inner tuple_constructible
  async_fn_meta args = asserted (peel_last args)

-- The arguments of `invokeAsync`: the object, what the method is called with, and its resolver, an rvalue.
pub invoke_async : Expression → AsyncFnMeta → List Expression
unfolding forward_args
invoke_async inst m =
    inst ∷ forward_args m.original_args m.params
    ++ record { category = xvalue; cv = unqualified; bare = resolver m.result } ∷ []
