-- ===== src/Tests/Shaped.antt =====
-- The writer and the reader of src/qjs at a concrete tree: an object of a string, an array of integers, null,
-- an integer and an object of booleans.
use rpcpp.Base.{true, Bool, Text, false, pos, negsuc, text, none, some, List, [], ◌∷◌}
use rpcpp.QuickJs.{World, Ref, value}
use rpcpp.QuickJs.Integers.{int64}
use rpcpp.QuickJs.Reader.{Reader}
use rpcpp.QuickJs.Shapes.{
  Shape, a_string, an_integer, an_optional, a_vector, a_map, a_struct, a_boolean, no_members,
  member, El,
}
use rpcpp.Tests.Store.{string, store}

abbrev shape : Shape
shape = a_struct (
    member (text "name") a_string (
      member (text "sums") (a_vector (an_integer int64)) (
        member (text "on") (an_optional a_boolean) (
          member (text "last") (an_optional (an_integer int64))
            (member (text "by_name") (a_map a_boolean) no_members)))))

abbrev flags : List (Text × Bool)
flags = (text "x", true) ∷ (text "y", false) ∷ []

abbrev element : El store shape
element = (text "add", (pos 7 ∷ negsuc 2 ∷ [], (none, (some (pos 4), (flags, tt)))))

abbrev held : List (Ref store)
held = value (string (text "kept")) ∷ []

abbrev world : World store
world = record {
  heap = record { made = 3; items = λ i. []; field = λ i n. none; keys = λ i. [] };
  begun = held;
  ended = [];
}
