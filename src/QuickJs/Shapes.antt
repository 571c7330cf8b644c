-- ===== src/QuickJs/Shapes.antt =====
-- The trees that a client of src/qjs/Writer.hpp can make, each of a shape: the simple types of
-- `from_basic_type`, null where there is no value, arrays, and objects with any or with given field names.
pub mod Write
pub mod Read
pub mod Represents
pub mod Kept
pub mod RoundTrip
use rpcpp.Base.{
  ℕ, ◌^◌, ◌<◌, ◌≡◌, ◌≢◌, ℤ, Text, Bool, true, false, Option, none, some, List, [], ◌∷◌, All, length,
}
use rpcpp.Framer.{Bytes}
use rpcpp.QuickJs.{Engine, c_str}
use rpcpp.QuickJs.Integers.{IntType, InRange}
use rpcpp.QuickJs.Laws.{Exact, proto, digit_first}

mutual
  pub data Shape : Type 0 where
    a_string : Shape
    a_bytestring : Shape
    a_boolean : Shape
    a_double : Shape
    an_integer : IntType → Shape
    an_optional : Shape → Shape
    a_vector : Shape → Shape
    a_map : Shape → Shape
    a_struct : Members → Shape

  pub data Members : Type 0 where
    no_members : Members
    member : Text → Shape → Members → Members

abbrev pub names_of : Members → List Text
names_of no_members = []
names_of (member n s ms) = n ∷ names_of ms

-- An optional of an optional is written as what its content is, so it cannot be read back.
abbrev pub is_optional : Shape → Bool
is_optional (an_optional s) = true
is_optional _ = false

module _ (e : Engine) where
  open e use {Double}

  -- The values of a shape.
  abbrev mutual
    pub El : Shape → Type 0
    El a_string = Text
    El a_bytestring = Bytes
    El a_boolean = Bool
    El a_double = Double
    El (an_integer t) = ℤ
    El (an_optional s) = Option (El s)
    El (a_vector s) = List (El s)
    -- in the order of its keys
    El (a_map s) = List (Text × El s)
    El (a_struct ms) = Els ms

    pub Els : Members → Type 0
    Els no_members = Unit {0}
    Els (member n s ms) = El s × Els ms

  abbrev pub Given : {X : Type 0} → (X → Type 0) → Option X → Type 0
  Given P none = Unit
  Given P (some x) = P x

  -- Different keys that a property can have, each its own C string and no array index.
  abbrev pub Keyed : {X : Type 0} → List (Text × X) → Type 0
  Keyed [] = Unit
  Keyed ((k, x) ∷ xs) =
      (c_str k ≡ k) × (k ≢ proto) × (digit_first k ≡ false) × All (λ q. k ≢ q.0) xs × Keyed xs

  -- What a value must satisfy to come back as it was.
  abbrev mutual
    pub Fits : (s : Shape) → El s → Type 0
    Fits a_string x = Unit
    Fits a_bytestring x = Unit
    Fits a_boolean x = Unit
    Fits a_double x = Unit
    Fits (an_integer t) n = InRange t n × Exact n
    Fits (an_optional s) x = (is_optional s ≡ false) × Given (Fits s) x
    Fits (a_vector s) xs = (length xs < 2 ^ 32) × All (Fits s) xs
    Fits (a_map s) xs = Keyed xs × All (λ q. Fits s q.1) xs
    Fits (a_struct ms) x = FitMembers ms x

    -- The names are told apart by their characters before the first null character.
    pub FitMembers : (ms : Members) → Els ms → Type 0
    FitMembers no_members x = Unit
    FitMembers (member n s ms) x =
        (c_str n ≢ proto)
        × All (λ m. c_str n ≢ c_str m) (names_of ms)
        × Fits s x.0
        × FitMembers ms x.1
