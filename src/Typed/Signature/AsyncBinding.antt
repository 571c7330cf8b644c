-- ===== src/Typed/Signature/AsyncBinding.antt =====
-- Whether the registration of an asynchronous method and the call of it in src/TypedRpcServer.h are well
-- typed in C++.
use rpcpp.Base.{
  ◌≡◌, ◌≢◌, ◌↔◌, refl, sym, ◌∙◌, Text, Bool, true, false, none, some, List, [], ◌∷◌, ◌++◌, map, All,
  Each, ap, ◌&&◌, if◌then◌else◌, some-injective,
}
use mathlib.Core.Path.{subst}
use rpcpp.Typed.Signature.{
  Cv, unqualified, Reference, by_value, lvalue_reference, rvalue_reference, Bare, resolver, CppType,
  remove_cvref, decay, xvalue, Expression, forward_args, peel_last, resolver_inner, AsyncFnMeta,
  async_fn_meta, invoke_async, instance_of, object_param, tuple_constructible, is_by_value,
}
use rpcpp.Typed.Signature.Binding.{
  Binds, to_value, to_lvalue, to_const, to_rvalue, NoArray, NoQualifiers, IsObject, decayed-bare,
  forward_arg-Binds, no-qualifiers, decayed-IsObject, object_param-Binds,
}

-- A parameter that takes an rvalue without qualifiers.
abbrev pub TakesRvalue : CppType → Type 0
TakesRvalue t = t.reference ≡ lvalue_reference → (t.cv.is_const ≡ true) × (t.cv.is_volatile ≡ false)

both_true : (a b : Bool) → (a && b) ≡ true → (a ≡ true) × (b ≡ true)
both_true true b e = (refl, e)
both_true false b e = cc

peel_last-snoc :
    (rest : List CppType) (last : CppType)
    → peel_last (rest ++ last ∷ []) ≡ some (record { rest = rest; last = last })
unfolding peel_last
peel_last-snoc [] last = refl
peel_last-snoc (t ∷ []) last = refl
peel_last-snoc (t ∷ u ∷ us) last = rw (peel_last-snoc (u ∷ us) last) refl

-- The resolver's expression.
abbrev handed_over : Bare → Expression
handed_over r = record { category = xvalue; cv = unqualified; bare = resolver r }

takes-Binds :
    (t : CppType) (r : Bare) → t.bare ≡ resolver r → Binds t (handed_over r) ↔ TakesRvalue t
takes-Binds t r same = (takes, λ f. binds t.reference refl f)
  where
    takes : Binds t (handed_over r) → TakesRvalue t
    takes (to_value is b) ref = cc
    takes (to_lvalue is left b q) ref = cc
    takes (to_const is c v b q) ref = (c, v)
    takes (to_rvalue is right b q) ref = cc

    binds : (k : Reference) → t.reference ≡ k → TakesRvalue t → Binds t (handed_over r)
    binds by_value is f = to_value is (sym same)
    binds lvalue_reference is f = to_const is (f is).0 (f is).1 (sym same) (no-qualifiers t.cv)
    binds rvalue_reference is f = to_rvalue is refl (sym same) (no-qualifiers t.cv)

forward_args_last-Binds :
    (ts : List CppType) (last : CppType) (x : Expression)
    → Each Binds (ts ++ last ∷ []) (forward_args ts (map decay ts) ++ x ∷ [])
      ↔ (All NoArray ts × Binds last x)
unfolding forward_args
forward_args_last-Binds [] last x = (λ e. (tt, e.0), λ a. (a.1, tt))
forward_args_last-Binds (t ∷ ts) last x =
    let (one, one') = forward_arg-Binds t in
    let (more, more') = forward_args_last-Binds ts last x in
    (λ e. ((one e.0, (more e.1).0), (more e.1).1), λ a. (one' a.0.0, more' (a.0.1, a.1)))

is_by_value-eq : (k : Reference) → is_by_value k ≡ true → k ≡ by_value
is_by_value-eq by_value is = refl
is_by_value-eq lvalue_reference is = cc
is_by_value-eq rvalue_reference is = cc

module _ (default_constructible : Bare → Bool) where
  -- A parameter by value of a type that needs no initialiser.
  abbrev pub Initialised : CppType → Type 0
  Initialised t = (t.reference ≡ by_value) × (default_constructible t.bare ≡ true)

  tuple_constructible-Initialised :
      (ts : List CppType) → tuple_constructible default_constructible ts ≡ true ↔ All Initialised ts
  unfolding tuple_constructible
  tuple_constructible-Initialised [] = (λ is. tt, λ u. refl)
  tuple_constructible-Initialised (t ∷ ts) =
      let (others, others') = tuple_constructible-Initialised ts in
      (
        λ is.
            let a = both_true _ (tuple_constructible default_constructible ts) is in
            let b = both_true (is_by_value t.reference) (default_constructible t.bare) a.0 in
            ((is_by_value-eq t.reference b.0, b.1), others a.1),
        λ a. rw (a.0.0, a.0.1) (others' a.1),
      )

  decayed-Initialised :
      (ts : List CppType) → All Initialised ts → All NoArray ts → All Initialised (map decay ts)
  decayed-Initialised [] a n = tt
  decayed-Initialised (t ∷ ts) a n = (
    (refl, ap default_constructible (decayed-bare t.cv t.bare n.0) ∙ a.0.1),
    decayed-Initialised ts a.1 n.1,
  )

  -- There is a tuple of types for the method, and the expressions for the object, for the arguments and for
  -- the resolver fit the parameters of `invokeAsync` and of the method.
  abbrev pub CallsAsync : Cv → Text → List CppType → Type 0
  CallsAsync cv obj args =
      (m : AsyncFnMeta) × (async_fn_meta default_constructible args ≡ some m)
      × Each Binds (object_param obj ∷ args) (invoke_async (instance_of cv obj) m)

  meta_of : List CppType → Bare → AsyncFnMeta
  meta_of rest r = record { params = map decay rest; original_args = rest; result = r }

  -- What `std::tuple<PT, OAT, R>{}` asks for.
  abbrev constructible : List CppType → Bare → Bool
  constructible rest r =
      tuple_constructible default_constructible (map decay rest)
      && tuple_constructible default_constructible rest
      && default_constructible r

  async_fn_meta-snoc :
      (rest : List CppType) (last : CppType) (r : Bare)
      → last.bare ≡ resolver r
      → async_fn_meta default_constructible (rest ++ last ∷ [])
        ≡ (if constructible rest r then some (meta_of rest r) else none)
  unfolding async_fn_meta resolver_inner meta_of
  async_fn_meta-snoc rest last r is = rw (peel_last-snoc rest last, is) refl

  found-meta :
      (b : Bool) (m m' : AsyncFnMeta)
      → (if b then some m else none) ≡ some m'
      → (b ≡ true) × (m ≡ m')
  found-meta true m m' e = (refl, some-injective m m' e)
  found-meta false m m' e = cc

  async_fn_meta-found :
      (rest : List CppType) (last : CppType) (r : Bare) (m : AsyncFnMeta)
      → last.bare ≡ resolver r
      → async_fn_meta default_constructible (rest ++ last ∷ []) ≡ some m
      → (constructible rest r ≡ true) × (meta_of rest r ≡ m)
  async_fn_meta-found rest last r m is e =
      found-meta (constructible rest r) (meta_of rest r) m
        (sym (async_fn_meta-snoc rest last r is) ∙ e)

  -- What an asynchronous method asks of its types and of its instance.
  abbrev pub Compiles : Cv → List CppType → CppType → Bare → Type 0
  Compiles cv rest last r =
      NoQualifiers cv
      × All Initialised rest
      × All NoArray rest
      × (default_constructible r ≡ true)
      × TakesRvalue last

  calls-Compiles :
      (cv : Cv) (obj : Text) (rest : List CppType) (last : CppType) (r : Bare)
      → last.bare ≡ resolver r
      → CallsAsync cv obj (rest ++ last ∷ [])
      → Compiles cv rest last r
  unfolding meta_of invoke_async
  calls-Compiles cv obj rest last r is (m, e, calls) =
      let (ok_meta, same) = async_fn_meta-found rest last r m is e in
      let (tuples, result) = both_true _ (default_constructible r) ok_meta in
      let parts = both_true _ (tuple_constructible default_constructible rest) tuples in
      let fits =
        subst
          (λ m.
            Each Binds (object_param obj ∷ rest ++ last ∷ []) (invoke_async (instance_of cv obj) m))
          (sym same) calls in
      let (others, final) = (forward_args_last-Binds rest last (handed_over r)).0 fits.1 in
      (
        (object_param-Binds cv obj).0 fits.0,
        (tuple_constructible-Initialised rest).0 parts.1,
        others,
        result,
        (takes-Binds last r is).0 final,
      )

  compiles-Calls :
      (cv : Cv) (obj : Text) (rest : List CppType) (last : CppType) (r : Bare)
      → last.bare ≡ resolver r
      → Compiles cv rest last r
      → CallsAsync cv obj (rest ++ last ∷ [])
  unfolding meta_of invoke_async
  compiles-Calls cv obj rest last r is (object, values, others, result, takes) =
      let originals = (tuple_constructible-Initialised rest).1 values in
      let decayed_ok =
        (tuple_constructible-Initialised (map decay rest)).1
          (decayed-Initialised rest values others) in
      (
        meta_of rest r,
        rw (async_fn_meta-snoc rest last r is, decayed_ok, originals, result) refl,
        (
          (object_param-Binds cv obj).1 object,
          (forward_args_last-Binds rest last (handed_over r)).1
              (others, (takes-Binds last r is).1 takes),
        ),
      )

  -- `addAsyncMethod` with a method whose last parameter is a `Resolver<R>`, by value or by any reference,
  -- and qualified or not, and with an instance of its class: where `asyncFnMeta` is well formed, its result
  -- is `R` and the tuple that the other parameters are decoded into has only object types; and it is well
  -- formed and the call of `invokeAsync` is well typed exactly if the instance is neither `const` nor
  -- `volatile`, the other parameters are no arrays and are all taken by value, they and `R` have default
  -- constructors, and the last parameter takes an rvalue.
  pub invoke_async-Binds :
      (cv : Cv) (obj : Text) (rest : List CppType) (last : CppType) (r : Bare)
      → last.bare ≡ resolver r
      → ((m : AsyncFnMeta)
          → async_fn_meta default_constructible (rest ++ last ∷ []) ≡ some m
          → (m.result ≡ r) × All IsObject m.params)
        × (CallsAsync cv obj (rest ++ last ∷ []) ↔ Compiles cv rest last r)
  unfolding meta_of
  invoke_async-Binds cv obj rest last r is = (
    λ m e.
        subst (λ m. (m.result ≡ r) × All IsObject m.params)
          (async_fn_meta-found rest last r m is e).1 (refl, decayed-IsObject rest),
    (calls-Compiles cv obj rest last r is, compiles-Calls cv obj rest last r is),
  )

not-resolver :
    (t : CppType) (b : Bare)
    → ((r : Bare) → b ≢ resolver r)
    → resolver_inner (record t { bare = b }) ≡ none
unfolding resolver_inner
not-resolver t (resolver r) other = absurd (other r refl)
not-resolver t _ other = refl

-- A method whose last parameter is no resolver is refused.
pub async_fn_meta_refuses :
    (default_constructible : Bare → Bool) (rest : List CppType) (last : CppType)
    → ((r : Bare) → last.bare ≢ resolver r)
    → async_fn_meta default_constructible (rest ++ last ∷ []) ≡ none
unfolding async_fn_meta
async_fn_meta_refuses default_constructible rest last other =
    rw (peel_last-snoc rest last, not-resolver (remove_cvref last) last.bare other) refl
