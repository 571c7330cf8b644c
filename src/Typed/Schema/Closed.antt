-- ===== src/Typed/Schema/Closed.antt =====
-- Every reference that `generateSchema` of src/TypedRpcServer.h writes has its schema in the document.
use mathlib.Core.Path.{subst}
use rpcpp.Base.{
  some-injective, ◌≡◌, refl, ◌∙◌, sym, Text, text_eq, Bool, true, false, Option, none, some, List,
  [], ◌∷◌, ◌++◌, Dict, find, assign, find-assign, contains, if◌then◌else◌, Bool-cases, inl, inr,
  All, All-append,
}
use rpcpp.Codec.{ok-injective, Codec, ok}
use rpcpp.Server.{init}
use rpcpp.Typed.{
  Kind, boolean, integral, floating, void_type, string, class, is_class, MethodDesc, empty_desc,
  Reflection, Method, TypedServer, json_type_name, add_schema_generator, desc_of, add_param,
  add_params, add_return, add_method, return_type, schemas_prefix,
}
use rpcpp.Typed.Async.{AsyncMethod, add_async_method}
use rpcpp.Typed.Schema.{Generics, is_reference, export_all, generate_schema, document}
use rpcpp.Typed.Schema.References.{Has, Has-assign, Has-assign_self, export_all-Has, Result-cases}

-- A recorded type is no reference, or refers to a name that the table has.
abbrev pub Known {ℓ} : {A : Type ℓ} → Dict A → Text → Type 0
Known m t = is_reference t ≡ true → (n : Text) × (t ≡ schemas_prefix ++ n) × Has n m

abbrev pub KnownDesc {ℓ} : {A : Type ℓ} → Dict A → MethodDesc → Type 0
KnownDesc m d = All (Known m) d.params × Known m d.ret

abbrev KnownAll {ℓ} : {A : Type ℓ} → Dict A → Dict MethodDesc → Type 0
KnownAll m descs = (name : Text) (d : MethodDesc) → find name descs ≡ some d → KnownDesc m d

module _ {ℓ ℓ'} {A : Type ℓ} {B : Type ℓ'} (m : Dict A) (m' : Dict B)
    (more : (n : Text) → Has n m → Has n m') where
  Known-more : (t : Text) → Known m t → Known m' t
  Known-more t k ref = let (n, e, h) = k ref in (n, e, more n h)

  All-more : (ts : List Text) → All (Known m) ts → All (Known m') ts
  All-more [] h = tt
  All-more (t ∷ ts) h = (Known-more t h.0, All-more ts h.1)

  KnownDesc-more : (d : MethodDesc) → KnownDesc m d → KnownDesc m' d
  KnownDesc-more d k = (All-more d.params k.0, Known-more d.ret k.1)

module _ {ℓ} {A : Type ℓ} (m : Dict A) where
  found-Known :
      (b : Bool) (d d' : MethodDesc) (o : Option MethodDesc)
      → KnownDesc m d
      → (o ≡ some d' → KnownDesc m d')
      → (if b then some d else o) ≡ some d'
      → KnownDesc m d'
  found-Known true d d' o k others e = subst (KnownDesc m) (some-injective d d' e) k
  found-Known false d d' o k others e = others e

  assign-KnownAll :
      (name : Text) (d : MethodDesc) (descs : Dict MethodDesc)
      → KnownDesc m d
      → KnownAll m descs
      → KnownAll m (assign name d descs)
  assign-KnownAll name d descs k all other d' e =
      found-Known (text_eq name other) d d' (find other descs) k (all other d')
        (sym (find-assign name other d descs) ∙ e)

  found_or_empty-Known :
      (o : Option MethodDesc)
      → ((d : MethodDesc) → o ≡ some d → KnownDesc m d)
      → KnownDesc m (elim o [ none ↦ empty_desc | some d ↦ d ])
  found_or_empty-Known none all = (tt, λ ref. cc)
  found_or_empty-Known (some d) all = all d refl

module _ (c : Codec) (r : Reflection c) (H : Type 0) where
  open c use {Ty}

  abbrev noted : Ty → Dict Text → Dict Text
  noted t gens = if is_class (r.kind t) then add_schema_generator c r H t gens else gens

  add_schema_generator-Has :
      (t : Ty) (gens : Dict Text)
      → Has (r.type_name t) (add_schema_generator c r H t gens)
        × ((n : Text) → Has n gens → Has n (add_schema_generator c r H t gens))
  unfolding add_schema_generator
  add_schema_generator-Has t gens = elim (Bool-cases (contains (r.type_name t) gens)) [
    | inl there ↦ rw there (there, λ n h. h)
    | inr new ↦
        rw new
          (Has-assign_self (r.type_name t) _ gens, λ n h. Has-assign (r.type_name t) n _ gens h)
  ]

  noted-more : (t : Ty) (gens : Dict Text) (n : Text) → Has n gens → Has n (noted t gens)
  noted-more t gens n h = elim (Bool-cases (is_class (r.kind t))) [
    | inl named ↦ rw named ((add_schema_generator-Has t gens).1 n h)
    | inr plain ↦ rw plain h
  ]

  json_type_name-Known : (t : Ty) (gens : Dict Text) → Known (noted t gens) (json_type_name c r H t)
  unfolding json_type_name
  json_type_name-Known t gens = by_kind (r.kind t) refl
    where
      by_kind : (k : Kind) → r.kind t ≡ k → Known (noted t gens) (json_type_name c r H t)
      by_kind boolean e = rw e (λ ref. cc)
      by_kind integral e = rw e (λ ref. cc)
      by_kind floating e = rw e (λ ref. cc)
      by_kind void_type e = rw e (λ ref. cc)
      by_kind string e = rw e (λ ref. cc)
      by_kind class e =
          rw (json_type_name, e) (λ ref. (r.type_name t, refl, (add_schema_generator-Has t gens).0))

  abbrev Refs : TypedServer c r H → Type 0
  Refs s = KnownAll s.schema_generators s.method_schemas

  noted-KnownAll :
      (t : Ty) (s : TypedServer c r H)
      → Refs s
      → KnownAll (noted t s.schema_generators) s.method_schemas
  noted-KnownAll t s refs name d e =
      KnownDesc-more s.schema_generators (noted t s.schema_generators)
        (noted-more t s.schema_generators) d (refs name d e)

  add_param-Refs :
      (name : Text) (t : Ty) (s : TypedServer c r H) → Refs s → Refs (add_param c r H name t s)
  unfolding add_param
  add_param-Refs name t s refs =
      let all = noted-KnownAll t s refs in
      let old =
        found_or_empty-Known (noted t s.schema_generators) (find name s.method_schemas)
          (all name) in
      assign-KnownAll (noted t s.schema_generators) name _ s.method_schemas
        (
          All-append (Known (noted t s.schema_generators))
              (desc_of c r H name s.method_schemas).params (json_type_name c r H t ∷ []) old.0
              (json_type_name-Known t s.schema_generators, tt),
          old.1,
        )
        all

  add_params-Refs :
      (name : Text) (ts : List Ty) (s : TypedServer c r H)
      → Refs s
      → Refs (add_params c r H name ts s)
  unfolding add_params
  add_params-Refs name [] s refs = refs
  add_params-Refs name (t ∷ ts) s refs =
      add_params-Refs name ts (add_param c r H name t s) (add_param-Refs name t s refs)

  add_return-Refs :
      (name : Text) (t : Ty) (s : TypedServer c r H) → Refs s → Refs (add_return c r H name t s)
  unfolding add_return
  add_return-Refs name t s refs =
      let all = noted-KnownAll t s refs in
      let old =
        found_or_empty-Known (noted t s.schema_generators) (find name s.method_schemas)
          (all name) in
      assign-KnownAll (noted t s.schema_generators) name _ s.method_schemas
        (old.0, json_type_name-Known t s.schema_generators) all

  -- The registrations of a server.
  pub data Registration : Type 1 where
    sync : Text → Method c H → Registration
    async : Text → AsyncMethod c r H → Registration

  unfoldable pub register_all : List Registration → TypedServer c r H → TypedServer c r H
  unfolding add_method add_async_method
  register_all [] s = s
  register_all (sync name m ∷ rest) s = register_all rest (add_method c r H name m s)
  register_all (async name m ∷ rest) s = register_all rest (add_async_method c r H name m s)

  register_all-Refs :
      (rest : List Registration) (s : TypedServer c r H) → Refs s → Refs (register_all rest s)
  unfolding register_all add_method add_async_method
  register_all-Refs [] s refs = refs
  register_all-Refs (sync name m ∷ rest) s refs =
      register_all-Refs rest (add_method c r H name m s) (
        add_return-Refs name (return_type c r H m.result) (add_params c r H name m.params s)
          (add_params-Refs name m.params s refs))
  register_all-Refs (async name m ∷ rest) s refs =
      register_all-Refs rest (add_async_method c r H name m s) (
        add_return-Refs name m.result (add_params c r H name m.params s)
          (add_params-Refs name m.params s refs))

  -- The server of the constructor.
  abbrev pub fresh : H → TypedServer c r H
  fresh h = record { server = init c H h; schema_generators = []; method_schemas = [] }

  -- Whatever synchronous and asynchronous methods were registered, and in whatever order the maps are
  -- iterated: if `generateSchema` does not throw, every type that is recorded for a method and starts
  -- with `#` is a reference to a name under `components/schemas` of the document, and the document has a
  -- schema under that name.
  pub generate_schema-closed :
      (g : Generics) (h : H) (regs : List Registration) (gens : List (Text × Text))
      (methods : List (Text × MethodDesc)) (doc : g.Value)
      → ((n : Text) → Has n (register_all regs (fresh h)).schema_generators → Has n gens)
      → generate_schema g gens methods ≡ ok doc
      → (schemas : Dict g.Value) × (doc ≡ document g schemas methods)
        × ((name : Text) (d : MethodDesc)
            → find name (register_all regs (fresh h)).method_schemas ≡ some d
            → KnownDesc schemas d)
  unfolding generate_schema find
  generate_schema-closed g h regs gens methods doc covers e =
      elim (Result-cases (export_all g gens [])) [
        | inl (what, bad) ↦ cc (rw (bad, generate_schema) at e)
        | inr (schemas, good) ↦ (
          schemas,
          sym (ok-injective (document g schemas methods) doc (rw (good, generate_schema) at e)),
          λ name d found.
              KnownDesc-more (register_all regs (fresh h)).schema_generators schemas
                (λ n has. (export_all-Has g gens [] schemas good).0 n (covers n has)) d
                (register_all-Refs regs (fresh h) (λ other d' none_yet. cc) name d found),
        )
      ]
