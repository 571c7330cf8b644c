-- ===== src/Tests/Bridge.antt =====
-- The theorems on src/qjs at concrete inputs: an engine whose values are numbers, with a reference count
-- from 3 on, and 2 as the exception.
use rpcpp.Base.{
  ℕ, ◌+◌, ◌≡◌, refl, Text, text, true, false, Option, none, some, List, [], ◌∷◌, ◌++◌, ltb, ◌==◌,
  not, pos, ◌⊎◌, arith,
}
use rpcpp.Codec.{Result, ok, error}
use rpcpp.QuickJs.{Engine, World, Ref, value, Holds, refs_of}
use rpcpp.QuickJs.Integers.{int64}
use rpcpp.QuickJs.Reader
use rpcpp.QuickJs.Reader.{Reader, read_array, to_string, read}
use rpcpp.QuickJs.Reader.Ownership.{Uses, bind, returns, array, as_string, read-Holds}
use rpcpp.QuickJs.Writer
use rpcpp.QuickJs.Writer.{
  Root, object_root, value_root, string, integral, add_value_to_object, write,
}
use rpcpp.QuickJs.Writer.Ownership
use rpcpp.QuickJs.Writer.Ownership.{made_root, write-Holds}

abbrev pub toy : Engine
toy = record {
  Value = ℕ;
  Heap = ℕ;
  Atom = ℕ;
  Double = ℕ;
  null = 0;
  undefined = 1;
  has_ref_count = λ v. ltb 2 v;
  is_exception = λ v. v == 2;
  is_undefined = λ v. v == 1;
  is_null = λ v. v == 0;
  is_string = λ v. ltb 2 v;
  is_bool = λ v. false;
  is_number = λ v. false;
  is_array = λ v. ltb 2 v;
  is_object = λ v. ltb 2 v;
  is_array_buffer = λ v. false;
  to_bool = λ v. false;
  get_index = λ v i h. (h, h + 1);
  get_named = λ v s h. (2, h);
  get_atom = λ v a h. (2, h);
  get_exception = λ h. (h, h + 1);
  get_length = λ v h. (some 2, h);
  own_names = λ v h. (some (6 ∷ []), h);
  atom_text = λ a h. (some (a ∷ []), h);
  to_text = λ v h. (some (v ∷ []), h);
  array_buffer = λ v h. (none, h);
  uint8_array = λ v h. (none, h);
  to_float64 = λ v h. (v, h);
  to_int64 = λ v h. (pos v, h);
  new_array = λ h. (h, h + 1);
  new_object = λ h. (h, h + 1);
  new_text = λ s h. (h, h + 1);
  new_bytes = λ b h. (h, h + 1);
  new_bool = λ b h. (h, h + 1);
  new_float64 = λ d h. (h, h + 1);
  new_int64 = λ n h. (h, h + 1);
  set_index = λ v i c h. (true, h);
  set_named = λ v s c h. (not (c == 12), h);
  free_value = λ v h. h;
  free_text = λ s h. h;
  free_names = λ ns h. h;
}

-- The caller holds value 7, and the next new value is 10.
abbrev pub world : World toy
world = record { heap = 10; begun = value 7 ∷ []; ended = [] }

abbrev pub held : List (Ref toy)
held = value 7 ∷ []

pub world-Holds : Holds toy held world
world-Holds p = omega arith

-- A parser of an array of strings, which counts them.
abbrev element : ℕ → ℕ → Reader.M toy (Option Text × ℕ)
element v n = Reader.◌>>=◌ toy (to_string toy v) λ s. Reader.pure toy (none, n + 1)

abbrev parse : ℕ → Reader.M toy (Result ℕ)
parse v = Reader.◌>>=◌ toy (read_array toy element 0 v) λ o. Reader.pure toy (ok o.1)

parse-Uses : (v : ℕ) → Uses toy (Result ℕ) (parse v)
parse-Uses v =
    bind _ _ (read_array toy element 0 v) _
      (array ℕ element 0 v
        λ x n. bind _ _ (to_string toy x) _ (as_string x) λ s. returns _ (none, n + 1))
      (λ o. returns _ (ok o.1))

read-Holds_example : Holds toy held (read toy parse 7 world).1
read-Holds_example = read-Holds toy parse 7 held world parse-Uses world-Holds

-- An object with two fields; the second cannot be set.
abbrev root : Root toy
root = object_root (λ v.
    Writer.◌>>=◌ toy (add_value_to_object toy (text "a") (string (text "b")) v) λ x.
      Writer.◌>>=◌ toy (add_value_to_object toy (text "c") (integral int64 (pos 5)) v)
        λ y. Writer.pure toy tt)

write-Holds_example :
    Holds toy (refs_of toy (made_root toy root world) ++ held) (write toy root world).1
    × (((write toy root world).0 ≡ ok (made_root toy root world))
        ⊎ ((what : Text) × ((write toy root world).0 ≡ error what)))
write-Holds_example =
    write-Holds toy refl root held world
      (λ v.
        Ownership.bind _ _ _ _ (Ownership.value_to_object _ _ v) (λ x.
          Ownership.bind _ _ _ _ (Ownership.value_to_object _ _ v) λ y. Ownership.returns _ tt))
      world-Holds
