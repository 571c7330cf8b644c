-- ===== src/QuickJs/Shapes/Represents.antt =====
-- When a QuickJS value of src/qjs stands for a tree.
use rpcpp.Base.{All, map, Each, ℕ, ◌<◌, ◌≤◌, ◌≡◌, true, false, Option, none, some}
use rpcpp.QuickJs.{Engine, c_str}
use rpcpp.QuickJs.Laws.{View, Gives, Plain, Solid}
use rpcpp.QuickJs.Shapes.{
  Shape, Members, a_string, a_bytestring, a_boolean, a_double, an_integer, an_optional, a_vector,
  a_map, a_struct, no_members, member, El, Els,
}

module _ (e : Engine) (w : View e) where
  open e use {Value, Heap}
  open w use {items, field, keys, number, made}

  abbrev pub IsNull : Value → Type 0
  IsNull v = Plain e v × (e.is_null v ≡ true)

  abbrev NullOr : {X : Type 0} → Type 0 → (X → Type 0) → Option X → Type 0
  NullOr nothing P none = nothing
  NullOr nothing P (some x) = P x

  -- A container with a number from `lo` on.
  abbrev pub From : ℕ → Value → Heap → Type 0
  From lo v h = (lo ≤ number v) × (number v < made h)

  -- The value stands for `x`, and the containers in it have numbers from `lo` on.
  abbrev mutual
    pub Rep : ℕ → (s : Shape) → El e s → Value → Heap → Type 0
    Rep lo a_string x v h = Solid e v × (e.is_string v ≡ true) × Gives e w (e.to_text v) (some x) h
    Rep lo a_bytestring x v h =
        Solid e v × (e.is_array_buffer v ≡ false) × Gives e w (e.uint8_array v) (some x) h
    Rep lo a_boolean x v h = Solid e v × (e.is_bool v ≡ true) × (e.to_bool v ≡ x)
    Rep lo a_double x v h = Solid e v × (e.is_number v ≡ true) × Gives e w (e.to_float64 v) x h
    Rep lo (an_integer t) n v h = Solid e v × (e.is_number v ≡ true) × Gives e w (e.to_int64 v) n h
    Rep lo (an_optional s) x v h = NullOr (IsNull v) (λ y. Rep lo s y v h) x
    Rep lo (a_vector s) xs v h =
        Solid e v
        × (e.is_array v ≡ true)
        × From lo v h
        × Each (λ x c. Rep lo s x c h) xs (items v h)
    Rep lo (a_map s) xs v h =
        Solid e v
        × (e.is_object v ≡ true)
        × (e.is_array v ≡ false)
        × From lo v h
        × (keys v h ≡ map (λ q. q.0) xs)
        × All (λ q. (c : Value) × (field v q.0 h ≡ some c) × Rep lo s q.1 c h) xs
    Rep lo (a_struct ms) x v h =
        Solid e v
        × (e.is_object v ≡ true)
        × (e.is_array v ≡ false)
        × From lo v h
        × RepMembers lo ms x v h

    pub RepMembers : ℕ → (ms : Members) → Els e ms → Value → Heap → Type 0
    RepMembers lo no_members x v h = Unit
    RepMembers lo (member n s ms) x v h =
        ((c : Value) × (field v (c_str n) h ≡ some c) × Rep lo s x.0 c h) × RepMembers lo ms x.1 v h
