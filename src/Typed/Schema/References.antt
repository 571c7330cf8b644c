-- ===== src/Typed/Schema/References.antt =====
-- The references in the document of src/TypedRpcServer.h: what `generateSchema` exports for them.
use mathlib.Core.Path.{subst}
use rpcpp.Base.{
  text_eq_iff, ◌≡◌, refl, ap, ◌∙◌, sym, Text, text, text_eq, Bool, true, false, Option, none, some,
  List, [], ◌∷◌, Dict, find, assign, find-assign, find-assign_self, contains, if◌then◌else◌,
  Bool-cases, Option-cases, inl, inr, ◌⊎◌,
}
use rpcpp.Codec.{ok-injective, Result, ok, error}
use rpcpp.Typed.Schema.{
  Generics, export_defs, export_inner, export_top, export_schema, export_all, replace_all,
  defs_prefix,
}
use rpcpp.Typed.{schemas_prefix}

abbrev pub is_found {ℓ} : {A : Type ℓ} → Option A → Bool
is_found o = elim o [ none ↦ false | some a ↦ true ]

-- There is a value under the key.
abbrev pub Has {ℓ} : {A : Type ℓ} → Text → Dict A → Type 0
Has k m = contains k m ≡ true

pub Result-cases {ℓ} :
    {A : Type ℓ} (x : Result A) → ((what : Text) × (x ≡ error what)) ⊎ ((a : A) × (x ≡ ok a))
Result-cases (ok a) = inr (a, refl)
Result-cases (error what) = inl (what, refl)

module _ {ℓ} {A : Type ℓ} where
  either_found :
      (b : Bool) (v : A) (o : Option A)
      → is_found o ≡ true
      → is_found (if b then some v else o) ≡ true
  either_found true v o h = refl
  either_found false v o h = h

  pub Has-assign : (k j : Text) (v : A) (m : Dict A) → Has j m → Has j (assign k v m)
  Has-assign k j v m h =
      ap is_found (find-assign k j v m) ∙ either_found (text_eq k j) v (find j m) h

  pub Has-assign_self : (k : Text) (v : A) (m : Dict A) → Has k (assign k v m)
  Has-assign_self k v m = ap is_found (find-assign_self k v m)

  Has-tail : (k j : Text) (v : A) (m : Dict A) → text_eq k j ≡ false → Has j ((k, v) ∷ m) → Has j m
  unfolding find
  Has-tail k j v m other h = sym (ap (λ b. is_found (if b then some v else find j m)) other) ∙ h

module _ (g : Generics) where
  open g use {Value, of_object, to_object, read_object}

  -- What an export leaves of the schemas that were there.
  abbrev Keeps : Dict Value → Result (Dict Value) → Type 0
  Keeps schemas r = (out : Dict Value) → r ≡ ok out → (n : Text) → Has n schemas → Has n out

  export_defs-Keeps : (defs schemas : Dict Value) → Keeps schemas (export_defs g defs schemas)
  unfolding export_defs
  export_defs-Keeps [] schemas out e n h = rw (← ok-injective schemas out e) h
  export_defs-Keeps ((name, def) ∷ defs) schemas out e n h =
      elim (Bool-cases (text_eq name (text "VoidT"))) [
        | inl void ↦ export_defs-Keeps defs schemas out (rw void at e) n h
        | inr other ↦ elim (Result-cases (to_object def)) [
          | inl (what, bad) ↦ cc (rw (other, bad) at e)
          | inr (inner, good) ↦
              export_defs-Keeps defs (assign name (of_object inner) schemas) out
                (rw (other, good) at e) n (Has-assign name n (of_object inner) schemas h)
        ]
      ]

  export_inner-Keeps : (root schemas : Dict Value) → Keeps schemas (export_inner g root schemas)
  unfolding export_inner
  export_inner-Keeps root schemas out e n h = elim (Option-cases (find (text "$defs") root)) [
    | inl nothing ↦ rw (← ok-injective schemas out (rw (nothing, export_inner) at e)) h
    | inr (defs, some_defs) ↦ elim (Result-cases (to_object defs)) [
      | inl (what, bad) ↦ cc (rw (some_defs, bad, export_inner) at e)
      | inr (inner, good) ↦
          export_defs-Keeps inner schemas out (rw (some_defs, good, export_inner) at e) n h
    ]
  ]

  export_top-Has :
      (name : Text) (root schemas : Dict Value)
      → Has name (export_top g name root schemas)
        × ((n : Text) → Has n schemas → Has n (export_top g name root schemas))
  unfolding export_top
  export_top-Has name root schemas = elim (Bool-cases (contains name schemas)) [
    | inl there ↦ rw there (there, λ n h. h)
    | inr new ↦ rw new (Has-assign_self name _ schemas, λ n h. Has-assign name n _ schemas h)
  ]

  export_schema-Has :
      (name schema : Text) (schemas out : Dict Value)
      → export_schema g name schema schemas ≡ ok out
      → Has name out × ((n : Text) → Has n schemas → Has n out)
  unfolding export_schema
  export_schema-Has name schema schemas out e =
      elim (Result-cases (read_object (replace_all schema defs_prefix schemas_prefix))) [
        | inl (what, bad) ↦ cc (rw (bad, export_schema) at e)
        | inr (root, read) ↦ elim (Result-cases (export_inner g root schemas)) [
          | inl (what, bad) ↦ cc (rw (read, bad, export_schema) at e)
          | inr (inner, good) ↦
              let (self, kept) = export_top-Has name root inner in
              let same =
                ok-injective (export_top g name root inner) out
                  (rw (read, good, export_schema) at e) in
              (
                subst (Has name) same self,
                λ n h. subst (Has n) same (kept n (export_inner-Keeps root schemas inner good n h)),
              )
        ]
      ]

  pub export_all-Has :
      (gens : List (Text × Text)) (schemas out : Dict Value)
      → export_all g gens schemas ≡ ok out
      → ((n : Text) → Has n gens → Has n out) × ((n : Text) → Has n schemas → Has n out)
  unfolding export_all find
  export_all-Has [] schemas out e = (λ n h. cc, λ n h. subst (Has n) (ok-injective schemas out e) h)
  export_all-Has ((name, schema) ∷ gens) schemas out e =
      elim (Result-cases (export_schema g name schema schemas)) [
        | inl (what, bad) ↦ cc (rw bad at e)
        | inr (mid, good) ↦
            let (self, kept) = export_schema-Has name schema schemas mid good in
            let (later, still) = export_all-Has gens mid out (rw good at e) in
            (
              λ n h. elim (Bool-cases (text_eq name n)) [
                | inl same ↦ still n (subst (λ k. Has k mid) ((text_eq_iff name n).0 same) self)
                | inr other ↦ later n (Has-tail name n schema gens other h)
              ],
              λ n h. still n (kept n h),
            )
      ]
