-- ===== src/QuickJs/Writer/Adding.antt =====
-- Runs e of the methods of src/qjs/Writer.hpp that add a child: what each adds.
use rpcpp.Base.{◌≡◌, ◌≢◌, refl, sym, ℤ, Text, true, false, some, pos, negsuc, arith}
use mathlib.Core.Path.{subst}
use rpcpp.QuickJs.{Engine, c_str}
use rpcpp.QuickJs.Writer.{
  Array, Writer, Basic, string, bytes, boolean, floating, integral, from_basic_type,
  add_array_to_array, add_array_to_object, add_object_to_array, add_object_to_object,
  add_value_to_array, add_value_to_object, add_null_to_array, add_null_to_object, empty_array,
}
use rpcpp.QuickJs.Integers.{InRange, int64, cast-InRange}
use rpcpp.QuickJs.Laws.{Exact, Solid, Gives, View, Untouched, Laws, proto}
use rpcpp.QuickJs.Writer.Runs.{Runs, pure-Runs, >>=-Runs}
use rpcpp.QuickJs.Writer.Setting.{
  Open, Room, OpenObject, Appended, Attached, Added, AddedAt, set_in_array-Runs, set_in_object-Runs,
  add_to_array-Runs, add_to_object-Runs,
}

module _ (e : Engine) (w : View e) (laws : Laws e w) where
  open e use {Value, Heap}

  -- What a simple value is made into.
  abbrev pub Stands : Basic e → Value → Heap → Type 0
  Stands (string x) v h = Solid e v × (e.is_string v ≡ true) × Gives e w (e.to_text v) (some x) h
  Stands (bytes x) v h =
      Solid e v × (e.is_array_buffer v ≡ false) × Gives e w (e.uint8_array v) (some x) h
  Stands (boolean x) v h = Solid e v × (e.is_bool v ≡ true) × (e.to_bool v ≡ x)
  Stands (floating x) v h = Solid e v × (e.is_number v ≡ true) × Gives e w (e.to_float64 v) x h
  Stands (integral t n) v h = Solid e v × (e.is_number v ≡ true) × Gives e w (e.to_int64 v) n h

  abbrev pub Fine : Basic e → Type 0
  Fine (integral t n) = Exact n
  Fine _ = Unit

  Exact-int64 : (n : ℤ) → Exact n → InRange int64 n
  Exact-int64 (pos n) ex = omega arith
  Exact-int64 (negsuc n) ex = (refl, omega arith)

  pub from_basic_type-Stands :
      (b : Basic e) (h : Heap)
      → Fine b
      → let (v, h') = from_basic_type e b h in Untouched e w h h' × Stands b v h'
  unfolding from_basic_type
  from_basic_type-Stands (string x) h fine =
      let law = laws.new_text_law x h in (law.0, (law.1, law.2, law.3))
  from_basic_type-Stands (bytes x) h fine =
      let law = laws.new_bytes_law x h in (law.0, (law.1, law.2, law.3))
  from_basic_type-Stands (boolean x) h fine =
      let law = laws.new_bool_law x h in (law.0, (law.1, law.2, law.3))
  from_basic_type-Stands (floating x) h fine =
      let law = laws.new_float64_law x h in (law.0, (law.1, law.2, law.3))
  from_basic_type-Stands (integral t n) h fine =
      subst
        (λ m.
          Untouched e w h (e.new_int64 m h).1
          × Stands (integral t n) (e.new_int64 m h).0 (e.new_int64 m h).1)
        (sym (cast-InRange int64 n (Exact-int64 n fine)))
        (let law = laws.new_int64_law n h fine in (law.0, (law.1, law.2, law.3)))

  pub add_value_to_array-Runs :
      (b : Basic e) (a : Array e) (s : Writer e)
      → Fine b
      → Open e w laws a s.world.heap
      → Room e w laws a
      → Runs e (add_value_to_array e b a) s (Added e w laws (from_basic_type e b) a s.world.heap)
  unfolding add_value_to_array
  add_value_to_array-Runs b a s fine o room =
      add_to_array-Runs e w laws (from_basic_type e b) a s
        (from_basic_type-Stands b s.world.heap fine).0 o room

  pub add_value_to_object-Runs :
      (n : Text) (b : Basic e) (v : Value) (s : Writer e)
      → Fine b
      → OpenObject e w laws v s.world.heap
      → c_str n ≢ proto
      → Runs e
          (add_value_to_object e n b v)
          s
          (AddedAt e w laws (from_basic_type e b) v n s.world.heap)
  unfolding add_value_to_object
  add_value_to_object-Runs n b v s fine o ne =
      add_to_object-Runs e w laws (from_basic_type e b) n v s
        (from_basic_type-Stands b s.world.heap fine).0 o ne

  pub add_array_to_array-Runs :
      (a : Array e) (s : Writer e)
      → Open e w laws a s.world.heap
      → Room e w laws a
      → Runs e (add_array_to_array e a) s λ q h'.
        (q.0 ≡ empty_array e q.0.val) × Added e w laws e.new_array a s.world.heap (q.0.val, q.1) h'
  unfolding add_array_to_array
  add_array_to_array-Runs a s o room =
      >>=-Runs e
        (add_to_array-Runs e w laws e.new_array a s (laws.new_array_law s.world.heap).0.0 o room)
        λ q s' done. pure-Runs e (empty_array e q.0, q.1) s' _ (refl, done)

  pub add_array_to_object-Runs :
      (n : Text) (v : Value) (s : Writer e)
      → OpenObject e w laws v s.world.heap
      → c_str n ≢ proto
      → Runs e
          (add_array_to_object e n v)
          s
          λ a h'. (a ≡ empty_array e a.val) × AddedAt e w laws e.new_array v n s.world.heap a.val h'
  unfolding add_array_to_object
  add_array_to_object-Runs n v s o ne =
      >>=-Runs e
        (add_to_object-Runs e w laws e.new_array n v s (laws.new_array_law s.world.heap).0.0 o ne)
        λ c s' done. pure-Runs e (empty_array e c) s' _ (refl, done)

  pub add_object_to_array-Runs :
      (a : Array e) (s : Writer e)
      → Open e w laws a s.world.heap
      → Room e w laws a
      → Runs e (add_object_to_array e a) s (Added e w laws e.new_object a s.world.heap)
  unfolding add_object_to_array
  add_object_to_array-Runs a s o room =
      add_to_array-Runs e w laws e.new_object a s (laws.new_object_law s.world.heap).0.0 o room

  pub add_object_to_object-Runs :
      (n : Text) (v : Value) (s : Writer e)
      → OpenObject e w laws v s.world.heap
      → c_str n ≢ proto
      → Runs e (add_object_to_object e n v) s (AddedAt e w laws e.new_object v n s.world.heap)
  unfolding add_object_to_object
  add_object_to_object-Runs n v s o ne =
      add_to_object-Runs e w laws e.new_object n v s (laws.new_object_law s.world.heap).0.0 o ne

  pub add_null_to_array-Runs :
      (a : Array e) (s : Writer e)
      → Open e w laws a s.world.heap
      → Room e w laws a
      → Runs e (add_null_to_array e a) s (λ q h'. Appended e w laws a s.world.heap e.null q.1 h')
  unfolding add_null_to_array
  add_null_to_array-Runs a s o room =
      >>=-Runs e (set_in_array-Runs e w laws a e.null s o room)
        λ a' s' done. pure-Runs e (e.null, a') s' _ done

  pub add_null_to_object-Runs :
      (n : Text) (v : Value) (s : Writer e)
      → OpenObject e w laws v s.world.heap
      → c_str n ≢ proto
      → Runs e (add_null_to_object e n v) s (λ c h'. Attached e w laws v n s.world.heap e.null h')
  unfolding add_null_to_object
  add_null_to_object-Runs n v s o ne =
      >>=-Runs e (set_in_object-Runs e w laws v n e.null s o ne)
        λ u s' done. pure-Runs e e.null s' _ done
