-- ===== src/Typed/Registry.antt =====
-- What src/TypedRpcServer.h records of a registered method for the OpenRPC document.
use mathlib.Core.List.{append_assoc, append-nil}
use rpcpp.Base.{
  ◌≡◌, refl, ◌≢◌, ap, sym, ◌∙◌, Text, text_eq_ne, Option, none, some, List, [], ◌∷◌, ◌++◌, map,
  Dict, find, assign, find-assign, find-assign_self,
}
use rpcpp.Codec.{Codec}
use rpcpp.Typed.{
  Reflection, Method, MethodDesc, empty_desc, TypedServer, add_method, add_param, add_params,
  add_return, json_type_name, desc_of, return_type,
}

abbrev found_or_empty : Option MethodDesc → MethodDesc
found_or_empty o = elim o [ none ↦ empty_desc | some d ↦ d ]

find-assign_other :
    (name other : Text) (d : MethodDesc) (m : Dict MethodDesc)
    → name ≢ other
    → find other (assign name d m) ≡ find other m
find-assign_other name other d m ne = rw (find-assign name other d m, (text_eq_ne name other).1 ne)

module _ (c : Codec) (r : Reflection c) (H : Type 0) where
  open c use {Ty}

  -- What is recorded under a name.
  abbrev pub recorded : Text → TypedServer c r H → MethodDesc
  recorded name s = desc_of c r H name s.method_schemas

  abbrev with_params : List Ty → MethodDesc → MethodDesc
  with_params ts d = record d { params = d.params ++ map (json_type_name c r H) ts }

  add_param-recorded :
      (name : Text) (t : Ty) (s : TypedServer c r H)
      → recorded name (add_param c r H name t s) ≡ with_params (t ∷ []) (recorded name s)
  unfolding add_param
  add_param-recorded name t s =
      ap found_or_empty
        (find-assign_self name (with_params (t ∷ []) (recorded name s)) s.method_schemas)

  add_params-recorded :
      (name : Text) (ts : List Ty) (s : TypedServer c r H)
      → recorded name (add_params c r H name ts s) ≡ with_params ts (recorded name s)
  unfolding add_params
  add_params-recorded name [] s =
      ap (λ ps. record (recorded name s) { params = ps })
        (sym (append-nil (recorded name s).params))
  add_params-recorded name (t ∷ ts) s =
      add_params-recorded name ts (add_param c r H name t s)
      ∙ ap (with_params ts) (add_param-recorded name t s)
      ∙ ap (λ ps. record (recorded name s) { params = ps })
          (append_assoc (recorded name s).params (json_type_name c r H t ∷ [])
            (map (json_type_name c r H) ts))

  add_params-other :
      (name other : Text) (ts : List Ty) (s : TypedServer c r H)
      → name ≢ other
      → find other (add_params c r H name ts s).method_schemas ≡ find other s.method_schemas
  unfolding add_params add_param
  add_params-other name other [] s ne = refl
  add_params-other name other (t ∷ ts) s ne =
      add_params-other name other ts (add_param c r H name t s) ne
      ∙ find-assign_other name other _ s.method_schemas ne

  -- `addMethod` records under the method's name the type of its result, and the types of its parameters
  -- in their order behind those that were recorded under that name before. What is recorded under every
  -- other name stays as it was.
  pub add_method-recorded :
      (name : Text) (m : Method c H) (s : TypedServer c r H)
      → (find name (add_method c r H name m s).method_schemas
          ≡ some (record {
            params = (recorded name s).params ++ map (json_type_name c r H) m.params;
            ret = json_type_name c r H (return_type c r H m.result);
          }))
        × ((other : Text)
            → name ≢ other
            → find other (add_method c r H name m s).method_schemas ≡ find other s.method_schemas)
  unfolding add_method add_return
  add_method-recorded name m s = (
    find-assign_self name _ (add_params c r H name m.params s).method_schemas
        ∙ ap {A = MethodDesc}
            (λ d. some (record d { ret = json_type_name c r H (return_type c r H m.result) }))
            (add_params-recorded name m.params s),
    λ other ne.
        find-assign_other name other _ (add_params c r H name m.params s).method_schemas ne
        ∙ add_params-other name other m.params s ne,
  )
