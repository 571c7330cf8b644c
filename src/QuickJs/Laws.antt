-- ===== src/QuickJs/Laws.antt =====
-- What the round trip of src/qjs relies on: the documented behaviour of the QuickJS calls on arrays, plain
-- objects and simple values, for an engine that does not run out of memory and in which JavaScript code has
-- made no proxy and no property with a getter or a setter; `__proto__` is the one that there is by itself.
--
-- A `View` says what the calls act on: the items of an array, the own properties of an object, and how
-- many containers were made, of which each has its number. One heap is `Later` than another when it comes
-- from it by calls that free nothing that the bridge holds.
use rpcpp.Base.{
  Each, none, ltb, ◌&&◌, ℕ, ◌+◌, ◌^◌, ◌<◌, ◌≤◌, ◌≡◌, ◌≢◌, refl, ◌∙◌, ℤ, pos, negsuc, Text, text,
  Bool, true, false, Option, some, List, [], ◌∷◌, ◌++◌, length, get_elem?, ◌⊎◌, inl, inr, arith,
}
use rpcpp.Framer.{Bytes}
use rpcpp.QuickJs.{Engine}

-- An integer that a double has exactly, with its neighbours.
abbrev pub Exact : ℤ → Type 0
Exact (pos n) = n ≤ 2 ^ 53
Exact (negsuc n) = n < 2 ^ 53

-- The property with a setter on every object.
abbrev pub proto : Text
proto = text "__proto__"

-- Whether the name may be an array index.
abbrev pub digit_first : Text → Bool
digit_first [] = false
digit_first (c ∷ cs) = ltb 47 c && ltb c 58

module _ (e : Engine) where
  open e use {
    Value, Heap, Atom, atom_text, get_atom, own_names, free_names, Double, null, is_exception,
    is_undefined, is_null, is_string, is_bool, is_number, is_array, is_object, is_array_buffer,
    to_bool, get_index, get_named, get_length, to_text, uint8_array, to_float64, to_int64,
    new_array, new_object, new_text, new_bytes, new_bool, new_float64, new_int64, set_index,
    set_named, free_text,
  }

  pub record View : Type 1 where
    pub Later : Heap → Heap → Type 0
    pub items : Value → Heap → List Value
    pub field : Value → Text → Heap → Option Value
    -- the names of its own properties, in the engine's order
    pub keys : Value → Heap → List Text
    pub number : Value → ℕ
    pub made : Heap → ℕ

  -- A value that is neither the exception nor undefined; and one that is not null either.
  abbrev pub Plain : Value → Type 0
  Plain v = (is_exception v ≡ false) × (is_undefined v ≡ false)

  abbrev pub Solid : Value → Type 0
  Solid v = Plain v × (is_null v ≡ false)

  module _ (w : View) where
    open w use {Later, items, field, keys, number, made}

    -- Of the containers that there were, only the one with number `p` may have changed.
    pub record Change (p : ℕ) (h h' : Heap) : Type 0 where
      pub later : Later h h'
      pub grows : made h ≤ made h'
      pub keys_kept : (v : Value) → number v < made h → number v ≢ p → keys v h' ≡ keys v h
      pub items_kept : (v : Value) → number v < made h → number v ≢ p → items v h' ≡ items v h
      pub fields_kept :
          (v : Value) (n : Text) → number v < made h → number v ≢ p → field v n h' ≡ field v n h

    -- No container has changed.
    abbrev pub Untouched : Heap → Heap → Type 0
    Untouched h h' = Change (made h) h h'

    abbrev pub IsNew : Value → Heap → Heap → Type 0
    IsNew v h h' = Untouched h h' × (made h ≤ number v) × (number v < made h')

    -- The call still gives `x` in every later heap.
    abbrev pub Gives : {X : Type 0} → (Heap → X × Heap) → X → Heap → Type 0
    Gives op x h = (h2 : Heap) → Later h h2 → (op h2).0 ≡ x

    -- The atom of a name, in every later heap.
    abbrev pub Names : Atom → Text → Heap → Type 0
    Names a n h =
        Gives (atom_text a) (some n) h
        × ((v : Value) (x : Value) (h2 : Heap)
            → Later h h2
            → is_object v ≡ true
            → field v n h2 ≡ some x
            → ((get_atom v a h2).0 ≡ x) × Untouched h2 (get_atom v a h2).1)

    pub record Laws : Type 0 where
      pub later_refl : (h : Heap) → Later h h
      pub later_trans : (h h1 h2 : Heap) → Later h h1 → Later h1 h2 → Later h h2
      pub null_law : Plain null × (is_null null ≡ true)
      pub new_array_law :
          (h : Heap)
          → let (v, h') = new_array h in
            IsNew v h h' × Solid v × (is_array v ≡ true) × (items v h' ≡ [])
      pub new_object_law :
          (h : Heap)
          → let (v, h') = new_object h in
            IsNew v h h'
            × Solid v
            × (is_object v ≡ true)
            × (is_array v ≡ false)
            × (keys v h' ≡ [])
            × ((n : Text) → field v n h' ≡ none)
      pub new_text_law :
          (s : Text) (h : Heap)
          → let (v, h') = new_text s h in
            Untouched h h' × Solid v × (is_string v ≡ true) × Gives (to_text v) (some s) h'
      pub new_bytes_law :
          (b : Bytes) (h : Heap)
          → let (v, h') = new_bytes b h in
            Untouched h h'
            × Solid v
            × (is_array_buffer v ≡ false)
            × Gives (uint8_array v) (some b) h'
      pub new_bool_law :
          (b : Bool) (h : Heap)
          → let (v, h') = new_bool b h in
            Untouched h h' × Solid v × (is_bool v ≡ true) × (to_bool v ≡ b)
      pub new_float64_law :
          (d : Double) (h : Heap)
          → let (v, h') = new_float64 d h in
            Untouched h h' × Solid v × (is_number v ≡ true) × Gives (to_float64 v) d h'
      -- beyond 2 ^ 53 the number is rounded to a double
      pub new_int64_law :
          (n : ℤ) (h : Heap)
          → Exact n
          → let (v, h') = new_int64 n h in
            Untouched h h' × Solid v × (is_number v ≡ true) × Gives (to_int64 v) n h'
      -- the next index of an array; 2 ^ 32 - 1 is no index
      pub set_index_law :
          (v : Value) (i : ℕ) (x : Value) (h : Heap)
          → is_array v ≡ true
          → number v < made h
          → i ≡ length (items v h)
          → i + 1 < 2 ^ 32
          → let (done, h') = set_index v i x h in
            (done ≡ true) × Change (number v) h h' × (items v h' ≡ items v h ++ x ∷ [])
      pub set_named_law :
          (v : Value) (n : Text) (x : Value) (h : Heap)
          → is_object v ≡ true
          → is_array v ≡ false
          → number v < made h
          → n ≢ proto
          → let (done, h') = set_named v n x h in
            (done ≡ true)
            × Change (number v) h h'
            × (field v n h' ≡ some x)
            × ((m : Text) → n ≢ m → field v m h' ≡ field v m h)
      -- a new property comes last, if its name is no array index
      pub set_named_keys_law :
          (v : Value) (n : Text) (x : Value) (h : Heap)
          → is_object v ≡ true
          → is_array v ≡ false
          → number v < made h
          → n ≢ proto
          → digit_first n ≡ false
          → field v n h ≡ none
          → keys v (set_named v n x h).1 ≡ keys v h ++ n ∷ []
      pub own_names_law :
          (v : Value) (h : Heap)
          → is_object v ≡ true
          → number v < made h
          → (atoms : List Atom) × ((own_names v h).0 ≡ some atoms)
            × Each (λ a n. Names a n (own_names v h).1) atoms (keys v h)
            × Untouched h (own_names v h).1
      pub atom_text_law : (a : Atom) (h : Heap) → Untouched h (atom_text a h).1
      pub free_names_law : (atoms : List Atom) (h : Heap) → Untouched h (free_names atoms h)
      pub get_index_law :
          (v : Value) (i : ℕ) (x : Value) (h : Heap)
          → is_array v ≡ true
          → get_elem? (items v h) i ≡ some x
          → ((get_index v i h).0 ≡ x) × Untouched h (get_index v i h).1
      pub get_named_law :
          (v : Value) (n : Text) (x : Value) (h : Heap)
          → is_object v ≡ true
          → field v n h ≡ some x
          → ((get_named v n h).0 ≡ x) × Untouched h (get_named v n h).1
      pub get_length_law :
          (v : Value) (h : Heap)
          → is_array v ≡ true
          → number v < made h
          → ((get_length v h).0 ≡ some (length (items v h))) × Untouched h (get_length v h).1
      pub to_text_law : (v : Value) (h : Heap) → is_string v ≡ true → Untouched h (to_text v h).1
      pub free_text_law : (s : Text) (h : Heap) → Untouched h (free_text s h)
      pub uint8_array_law : (v : Value) (h : Heap) → Untouched h (uint8_array v h).1
      pub to_float64_law :
          (v : Value) (h : Heap) → is_number v ≡ true → Untouched h (to_float64 v h).1
      pub to_int64_law : (v : Value) (h : Heap) → is_number v ≡ true → Untouched h (to_int64 v h).1

    module _ (laws : Laws) where
      pub Change-refl : (p : ℕ) (h : Heap) → Change p h h
      Change-refl p h = record {
        later = laws.later_refl h;
        grows = omega arith;
        keys_kept = λ v lt ne. refl;
        items_kept = λ v lt ne. refl;
        fields_kept = λ v n lt ne. refl;
      }

      -- Changes of one container, or of containers that are new.
      pub Change-trans :
          (p q : ℕ) (h h1 h2 : Heap)
          → Change p h h1
          → Change q h1 h2
          → (q ≡ p) ⊎ (made h ≤ q)
          → Change p h h2
      Change-trans p q h h1 h2 first second only = record {
        later = laws.later_trans h h1 h2 first.later second.later;
        grows = omega (arith, first.grows, second.grows);
        keys_kept = λ v lt ne.
            second.keys_kept v (omega (arith, lt, first.grows)) (other v lt ne only)
            ∙ first.keys_kept v lt ne;
        items_kept = λ v lt ne.
            second.items_kept v (omega (arith, lt, first.grows)) (other v lt ne only)
            ∙ first.items_kept v lt ne;
        fields_kept = λ v n lt ne.
            second.fields_kept v n (omega (arith, lt, first.grows)) (other v lt ne only)
            ∙ first.fields_kept v n lt ne;
      }
        where
          other :
              (v : Value) → number v < made h → number v ≢ p → (q ≡ p) ⊎ (made h ≤ q) → number v ≢ q
          other v lt ne (inl same) e = ne (e ∙ same)
          other v lt ne (inr new) e = absurd (omega arith)

      pub Untouched-Change : (p : ℕ) (h h1 : Heap) → Untouched h h1 → Change p h h1
      Untouched-Change p h h1 u =
          Change-trans p (made h) h h h1 (Change-refl p h) u (inr (omega arith))

      pub Untouched-trans : (h h1 h2 : Heap) → Untouched h h1 → Untouched h1 h2 → Untouched h h2
      Untouched-trans h h1 h2 u1 u2 = Change-trans (made h) (made h1) h h1 h2 u1 u2 (inr u1.grows)
