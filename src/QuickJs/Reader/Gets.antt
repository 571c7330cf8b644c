-- ===== src/QuickJs/Reader/Gets.antt =====
-- What the methods of src/qjs/Reader.hpp give where they succeed; no container changes.
use rpcpp.Base.{
  ◌∙◌, ◌≡◌, refl, sym, ap, ℤ, Text, Bool, true, false, ◌||◌, not, Option, some, [], arith,
  if◌then◌else◌,
}
use mathlib.Core.Path.{subst}
use rpcpp.Framer.{Bytes}
use rpcpp.Codec.{Result, ok, error}
use rpcpp.QuickJs.{Engine, World, c_str, fetch, query, free}
use rpcpp.QuickJs.Integers.{IntType, InRange, cast, cast-InRange}
use rpcpp.QuickJs.Reader.{
  Reader, read, M, pure, ◌>>=◌, lift, act, is_empty, to_string, to_bytestring, to_boolean,
  to_double, to_integer, to_array, to_object, get_field_from_object, fetch_text, release_text,
  track, string_or_error, bytes_or_error, clear_exception, ◌>>◌, no_field, track_ok,
}
use rpcpp.QuickJs.Laws.{View, Plain, Gives, Untouched, Laws, Change-refl, Untouched-trans}

module _ (e : Engine) (w : View e) (laws : Laws e w) where
  open e use {Value, Heap}
  open w use {items, field, number, made}

  -- The method gives `a`, and no container has changed.
  pub record Gets {A : Type 0} (m : M e A) (a : A) (s : Reader e) : Type 0 where
    pub value : (m s).0 ≡ a
    pub same : Untouched e w s.world.heap (m s).1.world.heap

  pub pure-Gets : {A : Type 0} (a : A) (s : Reader e) → Gets (pure e a) a s
  pure-Gets a s = record {
    value = refl;
    same = Change-refl e w laws (made s.world.heap) s.world.heap;
  }

  pub >>=-Gets :
      {A B : Type 0} {m : M e A} (f : A → M e B) {a : A} {b : B} {s : Reader e}
      → Gets m a s
      → ((s' : Reader e) → Untouched e w s.world.heap s'.world.heap → Gets (f a) b s')
      → Gets (◌>>=◌ e m f) b s
  >>=-Gets {m = m} f {a = a} {b = b} {s = s} first next =
      go (subst (λ c. Gets (f c) b (m s).1) (sym first.value) (next (m s).1 first.same))
    where
      go : Gets (f (m s).0) b (m s).1 → Gets (◌>>=◌ e m f) b s
      go second = record {
        value = second.value;
        same =
            Untouched-trans e w laws s.world.heap (m s).1.world.heap
              (f (m s).0 (m s).1).1.world.heap first.same second.same;
      }

  -- The same where it matters which state the first method leaves.
  pub then-Gets :
      {A B : Type 0} {m : M e A} (f : A → M e B) {a : A} {b : B} {s : Reader e}
      → Gets m a s
      → Gets (f a) b (m s).1
      → Gets (◌>>=◌ e m f) b s
  then-Gets {m = m} f {a = a} {b = b} {s = s} first second = record {
    value = ap (λ c. (f c (m s).1).0) first.value ∙ second.value;
    same =
        subst (λ c. Untouched e w s.world.heap (f c (m s).1).1.world.heap) (sym first.value)
          (Untouched-trans e w laws s.world.heap (m s).1.world.heap (f a (m s).1).1.world.heap
            first.same second.same);
  }

  pub if-Gets :
      {A : Type 0} {b : Bool} (t : M e A) {f : M e A} {a : A} {s : Reader e}
      → b ≡ false
      → Gets f a s
      → Gets (if b then t else f) a s
  if-Gets {b = true} t is get = cc
  if-Gets {b = false} t is get = get

  pub fetch-Gets :
      (op : Heap → Value × Heap) (v : Value) (s : Reader e)
      → (op s.world.heap).0 ≡ v
      → Untouched e w s.world.heap (op s.world.heap).1
      → Gets (lift e (fetch e op)) v s
  unfolding fetch
  fetch-Gets op v s is u = record { value = is; same = u }

  pub query-Gets :
      {A : Type 0} (op : Heap → A × Heap) (a : A) (s : Reader e)
      → (op s.world.heap).0 ≡ a
      → Untouched e w s.world.heap (op s.world.heap).1
      → Gets (lift e (query e op)) a s
  unfolding query
  query-Gets op a s is u = record { value = is; same = u }

  pub fetch_text-Gets :
      (op : Heap → Option Text × Heap) (t : Option Text) (s : Reader e)
      → (op s.world.heap).0 ≡ t
      → Untouched e w s.world.heap (op s.world.heap).1
      → Gets (lift e (fetch_text e op)) t s
  unfolding query
  fetch_text-Gets op t s is u = record { value = is; same = u }

  pub track-Gets : (v : Value) (s : Reader e) → Gets (track e v) v s
  unfolding track
  track-Gets v s = record {
    value = refl;
    same = Change-refl e w laws (made s.world.heap) s.world.heap;
  }

  -- The call gives the same now.
  now : {X : Type 0} (op : Heap → X × Heap) (x : X) (h : Heap) → Gives e w op x h → (op h).0 ≡ x
  now op x h gives = gives h (laws.later_refl h)

  not-true : (b : Bool) → b ≡ true → not b ≡ false
  not-true true yes' = refl
  not-true false yes' = sym yes'

  pub to_string-Gets :
      (v : Value) (x : Text) (s : Reader e)
      → e.is_string v ≡ true
      → Gives e w (e.to_text v) (some x) s.world.heap
      → Gets (to_string e v) (ok x) s
  unfolding to_string
  to_string-Gets v x s is gives = if-Gets _ (not-true (e.is_string v) is) (
      >>=-Gets (string_or_error e)
        (fetch_text-Gets (e.to_text v) (some x) s (now (e.to_text v) (some x) s.world.heap gives)
          (laws.to_text_law v s.world.heap is))
        λ s1 u.
          >>=-Gets {m = act e (release_text e x)} (λ u. pure e (ok x))
            (record { value = refl; same = laws.free_text_law x s1.world.heap })
            λ s2 u2. pure-Gets (ok x) s2)

  pub to_bytestring-Gets :
      (v : Value) (x : Bytes) (s : Reader e)
      → e.is_array_buffer v ≡ false
      → Gives e w (e.uint8_array v) (some x) s.world.heap
      → Gets (to_bytestring e v) (ok x) s
  unfolding to_bytestring
  to_bytestring-Gets v x s is gives = if-Gets _ is (
      >>=-Gets (λ b. ◌>>◌ e (clear_exception e b) (pure e (bytes_or_error e b)))
        (query-Gets (e.uint8_array v) (some x) s (now (e.uint8_array v) (some x) s.world.heap gives)
          (laws.uint8_array_law v s.world.heap))
        λ s1 u. pure-Gets (ok x) s1)

  pub to_boolean-Gets :
      (v : Value) (x : Bool) (s : Reader e)
      → e.is_bool v ≡ true
      → e.to_bool v ≡ x
      → Gets (to_boolean e v) (ok x) s
  unfolding to_boolean
  to_boolean-Gets v x s is same = record {
    value = rw is (ap ok same);
    same = Change-refl e w laws (made s.world.heap) s.world.heap;
  }

  pub to_double-Gets :
      (v : Value) (x : e.Double) (s : Reader e)
      → e.is_number v ≡ true
      → Gives e w (e.to_float64 v) x s.world.heap
      → Gets (to_double e v) (ok x) s
  unfolding to_double
  to_double-Gets v x s is gives = if-Gets _ (not-true (e.is_number v) is) (
      >>=-Gets (λ d. pure e (ok d))
        (query-Gets (e.to_float64 v) x s (now (e.to_float64 v) x s.world.heap gives)
          (laws.to_float64_law v s.world.heap is))
        λ s1 u. pure-Gets (ok x) s1)

  pub to_integer-Gets :
      (t : IntType) (v : Value) (n : ℤ) (s : Reader e)
      → InRange t n
      → e.is_number v ≡ true
      → Gives e w (e.to_int64 v) n s.world.heap
      → Gets (to_integer e t v) (ok n) s
  unfolding to_integer
  to_integer-Gets t v n s range is gives = if-Gets _ (not-true (e.is_number v) is) (
      >>=-Gets (λ n. pure e (ok (cast t n)))
        (query-Gets (e.to_int64 v) n s (now (e.to_int64 v) n s.world.heap gives)
          (laws.to_int64_law v s.world.heap is))
        λ s1 u.
          subst (λ m. Gets (pure e (ok (cast t n))) (ok m) s1) (cast-InRange t n range)
            (pure-Gets (ok (cast t n)) s1))

  pub to_array-Gets :
      (v : Value) (s : Reader e) → e.is_array v ≡ true → Gets (to_array e v) (ok v) s
  unfolding to_array
  to_array-Gets v s is = record {
    value = rw is refl;
    same = Change-refl e w laws (made s.world.heap) s.world.heap;
  }

  pub to_object-Gets :
      (v : Value) (s : Reader e)
      → e.is_object v ≡ true
      → e.is_array v ≡ false
      → Gets (to_object e v) (ok v) s
  unfolding to_object
  to_object-Gets v s is not_array = record {
    value = rw (is, not_array) refl;
    same = Change-refl e w laws (made s.world.heap) s.world.heap;
  }

  pub is_empty-Gets :
      (v : Value) (b : Bool) (s : Reader e)
      → e.is_null v ≡ b
      → e.is_undefined v ≡ false
      → Gets (is_empty e v) b s
  unfolding is_empty
  is_empty-Gets v b s is defined = record {
    value = ground arith;
    same = Change-refl e w laws (made s.world.heap) s.world.heap;
  }

  pub get_field_from_object-Gets :
      (n : Text) (v c : Value) (s : Reader e)
      → e.is_object v ≡ true
      → field v (c_str n) s.world.heap ≡ some c
      → Plain e c
      → Gets (get_field_from_object e n v) (ok c) s
  unfolding get_field_from_object
  get_field_from_object-Gets n v c s is there plain =
      let law = laws.get_named_law v (c_str n) c s.world.heap is there in
      >>=-Gets
        (λ c'.
          if e.is_exception c' || e.is_undefined c'
          then ◌>>◌ e (act e (free e c')) (pure e (error (no_field e n)))
          else track_ok e c')
        (fetch-Gets (e.get_named v (c_str n)) c s law.0 law.1)
        λ s1 u.
          if-Gets {b = e.is_exception c || e.is_undefined c} _ (rw (plain.0, plain.1) refl)
            (>>=-Gets (λ v'. pure e (ok v')) (track-Gets c s1) λ s2 u2. pure-Gets (ok c) s2)

  pub read-Gets :
      {A : Type 0} (parse : Value → M e (Result A)) (v : Value) (wo : World e) (r : Result A)
      → Gets (parse v) r (record { world = wo; owned = [] })
      → (read e parse v wo).0 ≡ r
  unfolding read
  read-Gets parse v wo r get = get.value
