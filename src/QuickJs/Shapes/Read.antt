-- ===== src/QuickJs/Shapes/Read.antt =====
-- What the methods of src/qjs/Reader.hpp read from a value that stands for a tree.
use mathlib.Core.Path.{subst}
use rpcpp.Base.{
  sym, refl, map, Each, Text, ℕ, ◌≡◌, true, false, Option, none, some, List, [], ◌∷◌, length, arith,
}
use rpcpp.Codec.{ok}
use rpcpp.QuickJs.{Engine}
use rpcpp.QuickJs.Laws.{View, Untouched, Laws, Change-refl}
use rpcpp.QuickJs.Reader.{
  Reader, M, is_empty, to_string, to_bytestring, to_boolean, to_double, to_integer, to_array,
  to_object, read_array, read_object, get_field_from_object,
}
use rpcpp.QuickJs.Reader.Gets.{
  Gets, to_string-Gets, to_bytestring-Gets, to_boolean-Gets, to_double-Gets, to_integer-Gets,
  to_array-Gets, to_object-Gets, is_empty-Gets, get_field_from_object-Gets,
}
use rpcpp.QuickJs.Reader.Objects.{Sees, read_object-Gets}
use rpcpp.QuickJs.Reader.Arrays.{Takes, read_array-Gets}
use rpcpp.QuickJs.Shapes.{
  Shape, Members, a_string, a_bytestring, a_boolean, a_double, an_integer, an_optional, a_vector,
  a_map, a_struct, no_members, member, El, Els, Fits,
}
use rpcpp.QuickJs.Shapes.Represents.{Rep, RepMembers}
use rpcpp.QuickJs.Shapes.Kept.{Rep-Solid, Rep-Plain}

module _ (e : Engine) (w : View e) (laws : Laws e w) where
  open e use {Value, Heap}
  open w use {items, made, number}

  same_length :
      {X Y : Type 0} (R : X → Y → Type 0) (xs : List X) (ys : List Y)
      → Each R xs ys
      → length ys ≡ length xs
  same_length R [] [] each = refl
  same_length R [] (y ∷ ys) each = absurd each
  same_length R (x ∷ xs) [] each = absurd each
  same_length R (x ∷ xs) (y ∷ ys) each = omega (arith, same_length R xs ys each.1)

  -- Each named field is found, and stands for its part of the tree.
  abbrev pub MembersRead : ℕ → (ms : Members) → Els e ms → Value → Reader e → Type 0
  MembersRead lo no_members x v st = Unit
  MembersRead lo (member n s ms) x v st =
      ((c : Value) × Gets e w laws (get_field_from_object e n v) (ok c) st
        × Rep e w lo s x.0 c st.world.heap)
      × MembersRead lo ms x.1 v st

  abbrev IsEmptyReads : {Y : Type 0} → (Y → Type 0) → Value → Reader e → Option Y → Type 0
  IsEmptyReads P v st none = Gets e w laws (is_empty e v) true st
  IsEmptyReads P v st (some y) = Gets e w laws (is_empty e v) false st × P y

  -- What the methods give at one node of a tree. A callback of `read_array` or `read_object` keeps an `X`;
  -- `Takes` and `Sees` say what it makes of the children one after another.
  abbrev pub MethodsRead : (X : Type 0) → ℕ → (s : Shape) → El e s → Value → Reader e → Type 0
  MethodsRead X lo a_string x v st = Gets e w laws (to_string e v) (ok x) st
  MethodsRead X lo a_bytestring x v st = Gets e w laws (to_bytestring e v) (ok x) st
  MethodsRead X lo a_boolean x v st = Gets e w laws (to_boolean e v) (ok x) st
  MethodsRead X lo a_double x v st = Gets e w laws (to_double e v) (ok x) st
  MethodsRead X lo (an_integer t) n v st = Gets e w laws (to_integer e t v) (ok n) st
  MethodsRead X lo (an_optional s) x v st = IsEmptyReads (λ y. MethodsRead X lo s y v st) v st x
  MethodsRead X lo (a_vector s) xs v st =
      Gets e w laws (to_array e v) (ok v) st
      × ((read : Value → X → M e (Option Text × X)) (before after : X)
          → Takes e w laws read st.world.heap (items v st.world.heap) before after
          → Gets e w laws (read_array e read before v) (none, after) st)
  MethodsRead X lo (a_map s) xs v st =
      Gets e w laws (to_object e v) (ok v) st
      × ((read : Text → Value → X → M e X) (before after : X)
          → ((h : Heap)
              → Untouched e w st.world.heap h
              → Sees e w laws read v h (map (λ q. q.0) xs) before after)
          → Gets e w laws (read_object e read before v) (none, after) st)
  MethodsRead X lo (a_struct ms) x v st =
      Gets e w laws (to_object e v) (ok v) st × MembersRead lo ms x v st

  RepMembers-read :
      (ms : Members) (x : Els e ms) (v : Value) (lo : ℕ) (st : Reader e)
      → e.is_object v ≡ true
      → RepMembers e w lo ms x v st.world.heap
      → MembersRead lo ms x v st
  RepMembers-read no_members x v lo st object reps = tt
  RepMembers-read (member n s ms) x v lo st object ((c, there, rep), reps) = (
    (
      c,
      get_field_from_object-Gets e w laws n v c st object there
          (Rep-Plain e w laws s x.0 c lo st.world.heap rep),
      rep,
    ),
    RepMembers-read ms x.1 v lo st object reps,
  )

  pub Rep-read :
      (X : Type 0) (s : Shape) (x : El e s) (v : Value) (lo : ℕ) (st : Reader e)
      → Fits e s x
      → Rep e w lo s x v st.world.heap
      → MethodsRead X lo s x v st
  Rep-read X a_string x v lo st fits rep = to_string-Gets e w laws v x st rep.1 rep.2
  Rep-read X a_bytestring x v lo st fits rep = to_bytestring-Gets e w laws v x st rep.1 rep.2
  Rep-read X a_boolean x v lo st fits rep = to_boolean-Gets e w laws v x st rep.1 rep.2
  Rep-read X a_double x v lo st fits rep = to_double-Gets e w laws v x st rep.1 rep.2
  Rep-read X (an_integer t) n v lo st fits rep =
      to_integer-Gets e w laws t v n st fits.0 rep.1 rep.2
  Rep-read X (an_optional s) none v lo st fits rep = is_empty-Gets e w laws v true st rep.1 rep.0.1
  Rep-read X (an_optional s) (some x) v lo st fits rep =
      let solid = Rep-Solid e w laws s x v lo st.world.heap fits.0 rep in
      (is_empty-Gets e w laws v false st solid.1 solid.0.1, Rep-read X s x v lo st fits.1 rep)
  Rep-read X (a_vector s) xs v lo st fits (solid, array, from, each) = (
    to_array-Gets e w laws v st array,
    λ read before after takes.
        read_array-Gets e w laws read v st.world.heap before after st array from.1
          (omega (arith, fits.0, same_length _ xs (items v st.world.heap) each))
          (Change-refl e w laws (made st.world.heap) st.world.heap) takes,
  )
  Rep-read X (a_map s) xs v lo st fits (solid, object, no_array, from, names, entries) = (
    to_object-Gets e w laws v st object no_array,
    λ read before after sees.
        read_object-Gets e w laws read v before after st object from.1
          λ h u. subst (λ ns. Sees e w laws read v h ns before after) (sym names) (sees h u),
  )
  Rep-read X (a_struct ms) x v lo st fits (solid, object, no_array, from, reps) =
      (to_object-Gets e w laws v st object no_array, RepMembers-read ms x v lo st object reps)
