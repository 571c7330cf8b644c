-- ===== src/Tests/Lawful.antt =====
-- The engine of the tests has the laws of QuickJs/Laws.
-- with numbers, and simple values. Its doubles are whole numbers.
use rpcpp.Base.{
  ◌==◌, Each, none, List, ℕ, ◌+◌, ◌^◌, ◌<◌, ◌≡◌, ◌≢◌, refl, sym, ap, Text, Bool, true, false, some,
  [], ◌∷◌, ◌++◌, length, text_eq_iff, ==_iff, if◌then◌else◌, arith,
}
use mathlib.Core.Path.{subst}
use rpcpp.QuickJs.Laws.{digit_first, Names, proto, Laws, Change, Untouched}
use rpcpp.Tests.Store.{
  Js, Heap, null, array, object, make, or_undefined, items_of, field_of, keys_of, add_key,
  number_of, append, attach, put, put_named, is_array_value, is_object_value, store, view,
}

same : (p : ℕ) (h : Heap) → Change store view p h h
same p h = record {
  later = tt;
  grows = omega arith;
  keys_kept = λ v lt ne. refl;
  items_kept = λ v lt ne. refl;
  fields_kept = λ v n lt ne. refl;
}

make-Untouched : (container : ℕ → Js) (h : Heap) → Untouched store view h (make container h).1
make-Untouched container h = record {
  later = tt;
  grows = omega arith;
  keys_kept = keys_kept;
  items_kept = items_kept;
  fields_kept = fields_kept;
}
  where
    keys_kept :
        (v : Js)
        → number_of v < h.made
        → number_of v ≢ h.made
        → keys_of v (make container h).1 ≡ keys_of v h
    keys_kept (object j) lt ne = ground arith
    keys_kept _ lt ne = refl

    items_kept :
        (v : Js)
        → number_of v < h.made
        → number_of v ≢ h.made
        → items_of v (make container h).1 ≡ items_of v h
    items_kept (array i) lt ne = ground arith
    items_kept _ lt ne = refl

    fields_kept :
        (v : Js) (n : Text)
        → number_of v < h.made
        → number_of v ≢ h.made
        → field_of v n (make container h).1 ≡ field_of v n h
    fields_kept (object i) n lt ne = ground arith
    fields_kept _ n lt ne = refl

append-Change : (i : ℕ) (c : Js) (h : Heap) → Change store view i h (append i c h)
append-Change i c h = record {
  later = tt;
  grows = omega arith;
  keys_kept = keys_kept;
  items_kept = items_kept;
  fields_kept = fields_kept;
}
  where
    keys_kept :
        (v : Js) → number_of v < h.made → number_of v ≢ i → keys_of v (append i c h) ≡ keys_of v h
    keys_kept (object j) lt ne = refl
    keys_kept _ lt ne = refl

    fields_kept :
        (v : Js) (n : Text)
        → number_of v < h.made
        → number_of v ≢ i
        → field_of v n (append i c h) ≡ field_of v n h
    fields_kept (object j) n lt ne = refl
    fields_kept _ n lt ne = refl

    items_kept :
        (v : Js) → number_of v < h.made → number_of v ≢ i → items_of v (append i c h) ≡ items_of v h
    items_kept (array j) lt ne = ground arith
    items_kept _ lt ne = refl

attach-Change : (i : ℕ) (n : Text) (c : Js) (h : Heap) → Change store view i h (attach i n c h)
attach-Change i n c h = record {
  later = tt;
  grows = omega arith;
  keys_kept = keys_kept;
  items_kept = items_kept;
  fields_kept = fields_kept;
}
  where
    keys_kept :
        (v : Js) → number_of v < h.made → number_of v ≢ i → keys_of v (attach i n c h) ≡ keys_of v h
    keys_kept (object j) lt ne = ground arith
    keys_kept _ lt ne = refl

    items_kept :
        (v : Js)
        → number_of v < h.made
        → number_of v ≢ i
        → items_of v (attach i n c h) ≡ items_of v h
    items_kept (array j) lt ne = refl
    items_kept _ lt ne = refl

    fields_kept :
        (v : Js) (m : Text)
        → number_of v < h.made
        → number_of v ≢ i
        → field_of v m (attach i n c h) ≡ field_of v m h
    fields_kept (object j) m lt ne = ground arith
    fields_kept _ m lt ne = refl

-- What the call has done when it succeeds.
abbrev Appends : ℕ → Js → Heap → Bool × Heap → Type 0
Appends j x h r = (r.0 ≡ true) × Change store view j h r.1 × (r.1.items j ≡ h.items j ++ x ∷ [])

set_index_law :
    (v : Js) (i : ℕ) (x : Js) (h : Heap)
    → is_array_value v ≡ true
    → number_of v < h.made
    → i ≡ length (items_of v h)
    → i + 1 < 2 ^ 32
    → let (done, h') = put v i x h in
      (done ≡ true)
      × Change store view (number_of v) h h'
      × (items_of v h' ≡ items_of v h ++ x ∷ [])
set_index_law (array j) i x h is known at fits =
    let here = (==_iff i (length (h.items j))).1 at in
    subst (λ b. Appends j x h (if b then (true, append j x h) else (false, h))) (sym here)
      (refl, append-Change j x h, ground arith)
set_index_law null i x h is known at fits = cc
set_index_law _ i x h is known at fits = cc

set_named_law :
    (v : Js) (n : Text) (x : Js) (h : Heap)
    → is_object_value v ≡ true
    → is_array_value v ≡ false
    → number_of v < h.made
    → n ≢ proto
    → let (done, h') = put_named v n x h in
      (done ≡ true)
      × Change store view (number_of v) h h'
      × (field_of v n h' ≡ some x)
      × ((m : Text) → n ≢ m → field_of v m h' ≡ field_of v m h)
set_named_law (object j) n x h is no_array known ne = (
  refl,
  attach-Change j n x h,
  ground (arith, text_eq_iff n n),
  λ m other. ground (arith, text_eq_iff n m),
)
set_named_law (array j) n x h is no_array known ne = cc
set_named_law _ n x h is no_array known ne = cc

set_named_keys_law :
    (v : Js) (n : Text) (x : Js) (h : Heap)
    → is_object_value v ≡ true
    → is_array_value v ≡ false
    → number_of v < h.made
    → n ≢ proto
    → digit_first n ≡ false
    → field_of v n h ≡ none
    → keys_of v (put_named v n x h).1 ≡ keys_of v h ++ n ∷ []
set_named_keys_law (object j) n x h is no_array known ne word absent =
    here (j == j) ((==_iff j j).1 refl)
  where
    here :
        (b : Bool)
        → b ≡ true
        → (if b then add_key (h.field j n) n (h.keys j) else h.keys j) ≡ h.keys j ++ n ∷ []
    here true is = ap (λ o. add_key o n (h.keys j)) absent
    here false is = cc
set_named_keys_law (array j) n x h is no_array known ne word absent = cc
set_named_keys_law _ n x h is no_array known ne word absent = cc

names : (h : Heap) (ns : List Text) → Each (λ a n. Names store view a n h) ns ns
names h [] = tt
names h (n ∷ ns) =
    ((λ h2 l. refl, λ v x h2 l is there. (ap or_undefined there, same h2.made h2)), names h ns)

get_named_law :
    (v : Js) (n : Text) (x : Js) (h : Heap)
    → is_object_value v ≡ true
    → field_of v n h ≡ some x
    → (or_undefined (field_of v n h) ≡ x) × Untouched store view h h
get_named_law v n x h is there = (ap or_undefined there, same h.made h)

pub store_laws : Laws store view
store_laws = record {
  later_refl = λ h. tt;
  later_trans = λ h h1 h2 l l'. tt;
  null_law = ((refl, refl), refl);
  new_array_law = λ h. (
    (make-Untouched array h, omega arith, omega arith),
    ((refl, refl), refl),
    refl,
    ground arith,
  );
  new_object_law = λ h. (
    (make-Untouched object h, omega arith, omega arith),
    ((refl, refl), refl),
    refl,
    refl,
    ground arith,
    λ n. ground arith,
  );
  new_text_law = λ s h. (same h.made h, ((refl, refl), refl), refl, λ h2 l. refl);
  new_bytes_law = λ b h. (same h.made h, ((refl, refl), refl), refl, λ h2 l. refl);
  new_bool_law = λ b h. (same h.made h, ((refl, refl), refl), refl, refl);
  new_float64_law = λ d h. (same h.made h, ((refl, refl), refl), refl, λ h2 l. refl);
  new_int64_law = λ n h ex. (same h.made h, ((refl, refl), refl), refl, λ h2 l. refl);
  set_index_law = set_index_law;
  set_named_law = set_named_law;
  set_named_keys_law = set_named_keys_law;
  own_names_law = λ v h is known. (keys_of v h, refl, names h (keys_of v h), same h.made h);
  atom_text_law = λ a h. same h.made h;
  free_names_law = λ atoms h. same h.made h;
  get_index_law = λ v i x h is there. (ap or_undefined there, same h.made h);
  get_named_law = get_named_law;
  get_length_law = λ v h is known. (refl, same h.made h);
  to_text_law = λ v h is. same h.made h;
  free_text_law = λ s h. same h.made h;
  uint8_array_law = λ v h. same h.made h;
  to_float64_law = λ v h is. same h.made h;
  to_int64_law = λ v h is. same h.made h;
}
