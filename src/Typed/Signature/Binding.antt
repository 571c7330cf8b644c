-- ===== src/Typed/Signature/Binding.antt =====
-- Whether the calls that src/TypedRpcServer.h makes of a registered method are well typed in C++.
use rpcpp.Base.{
  ◌≡◌, ◌↔◌, refl, sym, ◌∙◌, Text, Bool, true, false, Option, none, some, List, [], ◌∷◌, map, All,
  Each,
}
use mathlib.Core.Path.{subst}
use rpcpp.Typed.Signature.{
  Cv, unqualified, Reference, by_value, lvalue_reference, rvalue_reference, Bare, array, CppType,
  remove_cvref, decay, decayed, function_meta, Callable, to_function_meta, lvalue, xvalue,
  Expression, forward_arg, forward_args, invoke_method, same_class, instance_of, object_param,
  FunctionMeta, object_first, forwarded,
}

-- No qualifier is lost.
abbrev pub Qualified : Cv → Cv → Type 0
Qualified from to =
    (from.is_const ≡ true → to.is_const ≡ true) × (from.is_volatile ≡ true → to.is_volatile ≡ true)

-- The rules of C++ for a parameter that is initialised by an expression of the same class; a value is
-- copied or moved.
pub data Binds (t : CppType) (x : Expression) : Type 0 where
  to_value : t.reference ≡ by_value → x.bare ≡ t.bare → Binds t x
  to_lvalue :
      t.reference ≡ lvalue_reference
      → x.category ≡ lvalue
      → x.bare ≡ t.bare
      → Qualified x.cv t.cv
      → Binds t x
  to_const :
      t.reference ≡ lvalue_reference
      → t.cv.is_const ≡ true
      → t.cv.is_volatile ≡ false
      → x.bare ≡ t.bare
      → Qualified x.cv t.cv
      → Binds t x
  to_rvalue :
      t.reference ≡ rvalue_reference
      → x.category ≡ xvalue
      → x.bare ≡ t.bare
      → Qualified x.cv t.cv
      → Binds t x

abbrev is_array_bare : Bare → Bool
is_array_bare (array b n) = true
is_array_bare _ = false

-- A parameter that is no array and no reference to one.
abbrev pub NoArray : CppType → Type 0
NoArray t = is_array_bare t.bare ≡ false

pub decayed-bare : (cv : Cv) (b : Bare) → is_array_bare b ≡ false → decayed cv b ≡ b
decayed-bare cv (array b n) is = cc
decayed-bare cv _ is = refl

array-decays : (cv : Cv) (b : Bare) → decayed cv b ≡ b → is_array_bare b ≡ false
array-decays cv (array b n) same = cc
array-decays cv _ same = refl

same-bare : (t : CppType) (x : Expression) → Binds t x → x.bare ≡ t.bare
same-bare t x (to_value is same) = same
same-bare t x (to_lvalue is left same q) = same
same-bare t x (to_const is c v same q) = same
same-bare t x (to_rvalue is right same q) = same

pub no-qualifiers : (cv : Cv) → Qualified unqualified cv
no-qualifiers cv = (λ is. cc, λ is. cc)

forwarded-bare : (r : Reference) (s : CppType) → (forwarded r s).bare ≡ s.bare
forwarded-bare by_value s = refl
forwarded-bare lvalue_reference s = refl
forwarded-bare rvalue_reference s = refl

abbrev type_of : Reference → Cv → Bare → CppType
type_of r cv b = record { reference = r; cv = cv; bare = b }

forwarded-Binds :
    (r : Reference) (cv : Cv) (b : Bare)
    → is_array_bare b ≡ false
    → Binds (type_of r cv b) (forwarded r (decay (type_of r cv b)))
forwarded-Binds by_value cv b is = to_value refl (decayed-bare cv b is)
forwarded-Binds lvalue_reference cv b is =
    to_lvalue refl refl (decayed-bare cv b is) (no-qualifiers cv)
forwarded-Binds rvalue_reference cv b is =
    to_rvalue refl refl (decayed-bare cv b is) (no-qualifiers cv)

pub forward_arg-Binds : (t : CppType) → Binds t (forward_arg t (decay t)) ↔ NoArray t
unfolding forward_arg
forward_arg-Binds t = (
  λ b. array-decays t.cv t.bare (
      sym (forwarded-bare t.reference (decay t)) ∙ same-bare t (forwarded t.reference (decay t)) b),
  forwarded-Binds t.reference t.cv t.bare,
)

forward_args-Binds :
    (ts : List CppType) → Each Binds ts (forward_args ts (map decay ts)) ↔ All NoArray ts
unfolding forward_args
forward_args-Binds [] = (λ u. u, λ u. u)
forward_args-Binds (t ∷ ts) =
    let (one, one') = forward_arg-Binds t in
    let (more, more') = forward_args-Binds ts in
    (λ e. (one e.0, more e.1), λ a. (one' a.0, more' a.1))

-- What a tuple of decayed types holds are objects: no reference, and no qualifier at the top.
abbrev pub IsObject : CppType → Type 0
IsObject t = remove_cvref t ≡ t

pub decayed-IsObject : (ts : List CppType) → All IsObject (map decay ts)
decayed-IsObject [] = tt
decayed-IsObject (t ∷ ts) = (refl, decayed-IsObject ts)

-- The object is neither `const` nor `volatile`.
abbrev pub NoQualifiers : Cv → Type 0
NoQualifiers cv = (cv.is_const ≡ false) × (cv.is_volatile ≡ false)

not_lost : (b : Bool) → (b ≡ true → false ≡ true) → b ≡ false
not_lost false kept = refl
not_lost true kept = cc (kept refl)

Qualified-lost : (cv : Cv) → Qualified cv unqualified → NoQualifiers cv
Qualified-lost cv q = (not_lost cv.is_const q.0, not_lost cv.is_volatile q.1)

pub object_param-Binds :
    (cv : Cv) (obj : Text) → Binds (object_param obj) (instance_of cv obj) ↔ NoQualifiers cv
object_param-Binds cv obj =
    (binds, λ n. to_lvalue refl refl refl (λ is. cc (n.0, is), λ is. cc (n.1, is)))
  where
    binds : Binds (object_param obj) (instance_of cv obj) → NoQualifiers cv
    binds (to_value is b) = cc
    binds (to_lvalue is left b q) = Qualified-lost cv q
    binds (to_const is c v b q) = cc
    binds (to_rvalue is right b q) = cc

-- The expressions for the object and for the arguments fit the parameters of `invokeMethod` and of the method.
abbrev pub CallsMethod : Cv → Text → Callable → FunctionMeta → Type 0
CallsMethod cv obj f m =
    Each Binds (object_param obj ∷ f.args) (invoke_method (instance_of cv obj) m)

call-Binds :
    (cv : Cv) (obj : Text) (ts : List CppType)
    → Each Binds (object_param obj ∷ ts) (instance_of cv obj ∷ forward_args ts (map decay ts))
      ↔ (NoQualifiers cv × All NoArray ts)
call-Binds cv obj ts =
    let (object, object') = object_param-Binds cv obj in
    let (others, others') = forward_args-Binds ts in
    (λ e. (object e.0, others e.1), λ a. (object' a.0, others' a.1))

-- `addMethod` with a member of the class of its instance, of any qualifiers: the tuple that the parameters
-- are decoded into has only object types, each the type that is recorded for it, and the call of
-- `invokeMethod` with the instance and the decoded parameters is well typed exactly if the instance is
-- neither `const` nor `volatile` and no parameter is a reference to an array.
pub invoke_method-Binds :
    (cv : Cv) (obj : Text) (f : Callable)
    → same_class obj f ≡ true
    → let m = to_function_meta obj f in
      All IsObject m.param_tuple × (CallsMethod cv obj f m ↔ (NoQualifiers cv × All NoArray f.args))
unfolding invoke_method to_function_meta same_class
invoke_method-Binds cv obj f same = member f.class same
  where
    Result : FunctionMeta → Type 0
    Result m =
        All IsObject m.param_tuple
        × (CallsMethod cv obj f m ↔ (NoQualifiers cv × All NoArray f.args))

    member :
        (c : Option Text)
        → same_class obj (record f { class = c }) ≡ true
        → Result (to_function_meta obj (record f { class = c }))
    member none is = cc
    member (some class) is =
        subst (λ b. Result (function_meta f.ret (object_first b class f.args))) (sym is)
          (decayed-IsObject f.args, call-Binds cv obj f.args)
