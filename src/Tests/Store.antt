-- ===== src/Tests/Store.antt =====
-- An engine with the documented behaviour that the round trip of src/qjs relies on: arrays and objects
-- with numbers, and simple values. Its doubles are whole numbers.
use rpcpp.Base.{
  ℕ, ◌+◌, ℤ, pos, Text, Bool, true, false, ◌&&◌, Option, none, some, List, [], ◌∷◌, ◌++◌, length,
  get_elem?, text_eq, ◌==◌, if◌then◌else◌,
}
use rpcpp.Framer.{Bytes}
use rpcpp.QuickJs.{Engine}
use rpcpp.QuickJs.Laws.{View}

pub data Js : Type 0 where
  null : Js
  undefined : Js
  exception : Js
  boolean : Bool → Js
  integer : ℤ → Js
  double : ℕ → Js
  string : Text → Js
  bytes : Bytes → Js
  array : ℕ → Js
  object : ℕ → Js

pub record Heap : Type 0 where
  pub made : ℕ
  pub items : ℕ → List Js
  pub field : ℕ → Text → Option Js
  pub keys : ℕ → List Text

abbrev pub make : (ℕ → Js) → Heap → Js × Heap
make container h = (
  container h.made,
  record {
    made = h.made + 1;
    items = λ i. if i == h.made then [] else h.items i;
    field = λ i n. if i == h.made then none else h.field i n;
    keys = λ i. if i == h.made then [] else h.keys i;
  },
)

abbrev pub or_undefined : Option Js → Js
or_undefined none = undefined
or_undefined (some v) = v

abbrev pub items_of : Js → Heap → List Js
items_of (array i) h = h.items i
items_of _ h = []

abbrev pub field_of : Js → Text → Heap → Option Js
field_of (object i) n h = h.field i n
field_of _ n h = none

abbrev pub number_of : Js → ℕ
number_of (array i) = i
number_of (object i) = i
number_of _ = 0

abbrev pub append : ℕ → Js → Heap → Heap
append i c h = record h { items = λ j. if j == i then h.items i ++ c ∷ [] else h.items j }

-- A property that there was keeps its place.
abbrev pub add_key : Option Js → Text → List Text → List Text
add_key none n ks = ks ++ n ∷ []
add_key (some c) n ks = ks

abbrev pub attach : ℕ → Text → Js → Heap → Heap
attach i n c h = record h {
  field = λ j m. if j == i && text_eq n m then some c else h.field j m;
  keys = λ j. if j == i then add_key (h.field i n) n (h.keys i) else h.keys j;
}

abbrev pub keys_of : Js → Heap → List Text
keys_of (object i) h = h.keys i
keys_of _ h = []

abbrev pub put : Js → ℕ → Js → Heap → Bool × Heap
put (array i) k c h = if k == length (h.items i) then (true, append i c h) else (false, h)
put _ k c h = (false, h)

abbrev pub put_named : Js → Text → Js → Heap → Bool × Heap
put_named (object i) n c h = (true, attach i n c h)
put_named _ n c h = (false, h)

abbrev pub is_array_value : Js → Bool
is_array_value (array i) = true
is_array_value _ = false

abbrev pub is_object_value : Js → Bool
is_object_value (array i) = true
is_object_value (object i) = true
is_object_value _ = false

abbrev pub is_counted : Js → Bool
is_counted (string s) = true
is_counted (bytes b) = true
is_counted v = is_object_value v

abbrev pub is_a_number : Js → Bool
is_a_number (integer n) = true
is_a_number (double d) = true
is_a_number _ = false

abbrev pub text_of : Js → Option Text
text_of (string s) = some s
text_of _ = none

abbrev pub bytes_of : Js → Option Bytes
bytes_of (bytes b) = some b
bytes_of _ = none

abbrev pub double_of : Js → ℕ
double_of (double d) = d
double_of _ = 0

abbrev pub integer_of : Js → ℤ
integer_of (integer n) = n
integer_of _ = pos 0

abbrev pub store : Engine
store = record {
  Value = Js;
  Heap = Heap;
  Atom = Text;
  Double = ℕ;
  null = null;
  undefined = undefined;
  has_ref_count = is_counted;
  is_exception = λ v. elim v [ exception ↦ true | _ ↦ false ];
  is_undefined = λ v. elim v [ undefined ↦ true | _ ↦ false ];
  is_null = λ v. elim v [ null ↦ true | _ ↦ false ];
  is_string = λ v. elim v [ string s ↦ true | _ ↦ false ];
  is_bool = λ v. elim v [ boolean b ↦ true | _ ↦ false ];
  is_number = is_a_number;
  is_array = is_array_value;
  is_object = is_object_value;
  is_array_buffer = λ v. false;
  to_bool = λ v. elim v [ boolean b ↦ b | _ ↦ true ];
  get_index = λ v i h. (or_undefined (get_elem? (items_of v h) i), h);
  get_named = λ v n h. (or_undefined (field_of v n h), h);
  get_atom = λ v n h. (or_undefined (field_of v n h), h);
  get_exception = λ h. (null, h);
  get_length = λ v h. (some (length (items_of v h)), h);
  own_names = λ v h. (some (keys_of v h), h);
  atom_text = λ n h. (some n, h);
  to_text = λ v h. (text_of v, h);
  array_buffer = λ v h. (none, h);
  uint8_array = λ v h. (bytes_of v, h);
  to_float64 = λ v h. (double_of v, h);
  to_int64 = λ v h. (integer_of v, h);
  new_array = make array;
  new_object = make object;
  new_text = λ s h. (string s, h);
  new_bytes = λ b h. (bytes b, h);
  new_bool = λ b h. (boolean b, h);
  new_float64 = λ d h. (double d, h);
  new_int64 = λ n h. (integer n, h);
  set_index = put;
  set_named = put_named;
  free_value = λ v h. h;
  free_text = λ s h. h;
  free_names = λ ns h. h;
}

abbrev pub view : View store
view = record {
  Later = λ h h'. Unit;
  items = items_of;
  field = field_of;
  keys = keys_of;
  number = number_of;
  made = λ h. h.made;
}
