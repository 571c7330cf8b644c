-- ===== src/Typed/Schema.antt =====
-- `generateSchema` of src/TypedRpcServer.h with `replaceAll` and `extractTypeName`: the OpenRPC document.
--
-- reflect-cpp's generic values are a parameter; an object is the list of its fields, and `object[key] =
-- value` is `assign`. The two maps are given in the order in which they are iterated. What is thrown is
-- an `error` with its text.
pub mod References
pub mod Closed
pub mod Replace
pub mod Substitution
use rpcpp.Base.{
  ℕ, zero, suc, ◌+◌, ◌/◌, ◌%◌, Text, text, text_eq, Bool, true, false, Option, none, some, List, [],
  ◌∷◌, ◌++◌, Dict, find, assign, contains, decimal, length, drop, take, is_empty, if◌then◌else◌,
  ◌==◌, ltb, ◌||◌,
}
use rpcpp.Codec.{Result, ok, error}
use rpcpp.Typed.{MethodDesc, schemas_prefix}
use rpcpp.Typed.Names.{starts_with, or_here}

-- `str.find(m)`
unfoldable pub find_at : Text → Text → Option ℕ
unfolding starts_with
find_at m [] = if is_empty m then some 0 else none
find_at m (c ∷ s) =
    let rest = find_at m s in
    if starts_with (c ∷ s) m then some 0 else elim rest [ none ↦ none | some i ↦ some (suc i) ]

-- The string after the replacement at `p`.
abbrev pub replaced : Text → Text → Text → ℕ → Text
replaced old new str p = take p str ++ (new ++ drop (p + length old) str)

-- The loop of `replaceAll`, on fuel for its rounds.
unfoldable pub replace_loop : ℕ → Text → Text → Text → ℕ → Text
unfolding find_at
replace_loop zero old new str pos = str
replace_loop (suc fuel) old new str pos = elim (find_at old (drop pos str)) [
  | none ↦ str
  | some i ↦ replace_loop fuel old new (replaced old new str (pos + i)) (pos + i + length new)
]

unfoldable pub replace_all : Text → Text → Text → Text
unfolding replace_loop
replace_all str old new = replace_loop (suc (length str)) old new str 0

-- `find_last_of("/")`, and what stands behind it.
pub last_slash : Text → Option Text
last_slash [] = none
last_slash (c ∷ s) = or_here (c == 47) s (last_slash s)

abbrev whole_unless : Option Text → Text → Text
whole_unless none s = s
whole_unless (some t) s = t

abbrev pub is_reference : Text → Bool
is_reference [] = false
is_reference (c ∷ _) = c == 35

-- `extractTypeName`
pub extract_type_name : Text → Text
unfolding last_slash
extract_type_name s = if is_reference s then whole_unless (last_slash s) s else s

abbrev defs_prefix : Text
defs_prefix = text "#/$defs/"

-- `rfl::Generic` and reading it from JSON text.
pub record Generics : Type 1 where
  pub Value : Type 0
  pub of_text : Text → Value
  pub of_bool : Bool → Value
  pub of_array : List Value → Value
  pub of_object : Dict Value → Value
  pub to_object : Value → Result (Dict Value)
  pub read_object : Text → Result (Dict Value)

module _ (g : Generics) where
  open g use {Value, of_text, of_bool, of_array, of_object, to_object, read_object}

  -- The loop over the inner `$defs`.
  pub export_defs : Dict Value → Dict Value → Result (Dict Value)
  export_defs [] schemas = ok schemas
  export_defs ((name, def) ∷ defs) schemas =
      let others = export_defs defs schemas in
      if text_eq name (text "VoidT") then others else elim (to_object def) [
        | error what ↦ error what
        | ok inner ↦ export_defs defs (assign name (of_object inner) schemas)
      ]

  abbrev export_object : Result (Dict Value) → Dict Value → Result (Dict Value)
  export_object (error what) schemas = error what
  export_object (ok defs) schemas = export_defs defs schemas

  -- Step 1 of the export of one schema.
  unfoldable pub export_inner : Dict Value → Dict Value → Result (Dict Value)
  unfolding export_defs
  export_inner root schemas = elim (find (text "$defs") root) [
    | none ↦ ok schemas
    | some defs ↦ export_object (to_object defs) schemas
  ]

  -- The fields of the schema itself.
  pub top_level : Dict Value → Dict Value → Dict Value
  top_level [] top = top
  top_level ((k, v) ∷ root) top =
      let skip = top_level root top in
      let with_field = top_level root (assign k v top) in
      if text_eq k (text "$defs") || text_eq k (text "$schema") then skip else with_field

  -- Step 2: the schema under its registered name, unless one is there.
  unfoldable pub export_top : Text → Dict Value → Dict Value → Dict Value
  unfolding top_level
  export_top name root schemas =
      if contains name schemas then schemas else assign name (of_object (top_level root [])) schemas

  abbrev pub export_top_of : Text → Dict Value → Result (Dict Value) → Result (Dict Value)
  export_top_of name root (error what) = error what
  export_top_of name root (ok schemas) = ok (export_top name root schemas)

  abbrev export_read : Text → Result (Dict Value) → Dict Value → Result (Dict Value)
  export_read name (error what) schemas = error what
  export_read name (ok root) schemas = export_top_of name root (export_inner root schemas)

  -- One round of the loop over `_schemaGenerators`.
  unfoldable pub export_schema : Text → Text → Dict Value → Result (Dict Value)
  unfolding replace_all export_inner export_top
  export_schema name schema schemas =
      export_read name (read_object (replace_all schema defs_prefix schemas_prefix)) schemas

  abbrev pub and_then :
      Result (Dict Value) → (Dict Value → Result (Dict Value)) → Result (Dict Value)
  and_then (error what) f = error what
  and_then (ok schemas) f = f schemas

  unfoldable pub export_all : List (Text × Text) → Dict Value → Result (Dict Value)
  unfolding export_schema
  export_all [] schemas = ok schemas
  export_all ((name, schema) ∷ gens) schemas =
      and_then (export_schema name schema schemas) (export_all gens)

  -- `{"$ref": name}` or `{"type": name}`
  pub type_object : Text → Value
  type_object name =
      if is_reference name
      then of_object ((text "$ref", of_text name) ∷ [])
      else of_object ((text "type", of_text name) ∷ [])

  abbrev param_object : ℕ → Text → Value
  param_object i name = of_object (
      (text "name", of_text (text "param" ++ decimal (suc i) i))
      ∷ (text "required", of_bool true)
      ∷ (text "schema", type_object name)
      ∷ [])

  pub param_objects : ℕ → List Text → List Value
  unfolding type_object decimal
  param_objects i [] = []
  param_objects i (name ∷ names) = param_object i name ∷ param_objects (suc i) names

  abbrev result_type : Text → Text
  result_type ret = if is_empty ret then text "null" else ret

  pub method_object : Text → MethodDesc → Value
  unfolding param_objects extract_type_name type_object
  method_object name d = of_object (
      (text "name", of_text name)
      ∷ (text "params", of_array (param_objects 0 d.params))
      ∷ (
        text "result",
        of_object (
            (text "name", of_text (extract_type_name (result_type d.ret)))
            ∷ (text "schema", type_object (result_type d.ret))
            ∷ []),
      )
      ∷ [])

  pub method_objects : List (Text × MethodDesc) → List Value
  unfolding method_object
  method_objects [] = []
  method_objects ((name, d) ∷ methods) = method_object name d ∷ method_objects methods

  abbrev pub document : Dict Value → List (Text × MethodDesc) → Value
  document schemas methods = of_object (
      (text "openrpc", of_text (text "1.3.2"))
      ∷ (
        text "info",
        of_object (
            (text "title", of_text (text "JSON-RPC API Schema"))
            ∷ (text "version", of_text (text "1.0.0"))
            ∷ []),
      )
      ∷ (text "methods", of_array (method_objects methods))
      ∷ (text "components", of_object ((text "schemas", of_object schemas) ∷ []))
      ∷ [])

  unfoldable pub generate_schema : List (Text × Text) → List (Text × MethodDesc) → Result Value
  unfolding export_all method_objects
  generate_schema gens methods = elim (export_all gens []) [
    | error what ↦ error what
    | ok schemas ↦ ok (document schemas methods)
  ]
