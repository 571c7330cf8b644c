-- ===== src/QuickJs/Reader/Arrays.antt =====
-- `read_array` (src/qjs/Reader.hpp) where it succeeds: the callback sees each item of the array in its order.
use rpcpp.Base.{
  ℕ, suc, ◌+◌, ◌^◌, ◌<◌, ◌≡◌, refl, sym, ap, ◌∙◌, Text, true, Option, none, some, List, [], ◌∷◌,
  ◌++◌, length, length-append, get_elem?, arith, if◌then◌else◌,
}
use mathlib.Core.List.{append_assoc}
use native.Mathlib.Nat.{mod-eq_of_lt}
use rpcpp.QuickJs.{Engine, free}
use rpcpp.QuickJs.Reader.{
  Reader, M, pure, ◌>>=◌, act, read_elements, read_array, index32, track, stop_or, ◌>>◌, no_element,
  elements_or_error,
}
use rpcpp.QuickJs.Laws.{View, Plain, Untouched, Laws, Untouched-trans}
use rpcpp.QuickJs.Reader.Gets.{
  Gets, >>=-Gets, if-Gets, fetch-Gets, query-Gets, pure-Gets, track-Gets,
}

module _ (e : Engine) (w : View e) (laws : Laws e w) where
  open e use {Value, Heap}
  open w use {items, number, made}

  get_elem?-append :
      {X : Type 0} (xs : List X) (y : X) (ys : List X)
      → get_elem? (xs ++ y ∷ ys) (length xs) ≡ some y
  get_elem?-append [] y ys = refl
  get_elem?-append (x ∷ xs) y ys = get_elem?-append xs y ys

  -- The callback takes the values `cs` one by one, from the state `x` to the state `y`.
  pub data Takes {X : Type 0} (read : Value → X → M e (Option Text × X)) (h : Heap)
      : List Value → X → X → Type 0 where
    done : (x : X) → Takes read h [] x x
    more :
        (c : Value) (cs : List Value) (x y z : X)
        → Plain e c
        → ((s : Reader e) → Untouched e w h s.world.heap → Gets e w laws (read c x) (none, y) s)
        → Takes read h cs y z
        → Takes read h (c ∷ cs) x z

  -- The body of the loop for one item.
  abbrev round :
      {X : Type 0}
      → (Value → X → M e (Option Text × X))
      → Value
      → ℕ
      → ℕ
      → X
      → Value
      → M e (Option Text × X)
  round read arr rounds i x v =
      if e.is_exception v
      then ◌>>◌ e (act e (free e v)) (pure e (some (no_element e i), x))
      else ◌>>=◌ e (◌>>=◌ e (track e v) (λ v. read v x))
          (stop_or e (read_elements e read arr rounds (suc i)))

  read_elements-Gets :
      {X : Type 0} (read : Value → X → M e (Option Text × X)) (arr : Value) (h : Heap)
      (before cs : List Value) (i : ℕ) (x y : X) (s : Reader e)
      → e.is_array arr ≡ true
      → number arr < made h
      → items arr h ≡ before ++ cs
      → i ≡ length before
      → length before + length cs < 2 ^ 32
      → Untouched e w h s.world.heap
      → Takes read h cs x y
      → Gets e w laws (read_elements e read arr (length cs) i x) (none, y) s
  unfolding read_elements
  read_elements-Gets read arr h before _ i _ _ s array known are at fits u (done x) =
      pure-Gets e w laws (none, x) s
  read_elements-Gets read arr h before _ i _ _ s array known are at fits u
        (more c cs x z y plain takes rest) =
      let there = u.items_kept arr known (λ same. absurd (omega (arith, known))) ∙ are in
      let law = laws.get_index_law arr (index32 i) c s.world.heap array (
        ap (get_elem? (items arr s.world.heap)) (mod-eq_of_lt (omega arith) ∙ at)
        ∙ ap (λ is. get_elem? is (length before)) there
        ∙ get_elem?-append before c cs) in
      >>=-Gets e w laws (round read arr (length cs) i x)
        (fetch-Gets e w laws (e.get_index arr (index32 i)) c s law.0 law.1)
        λ s1 u1. if-Gets e w laws {b = e.is_exception c} _ plain.0 (
          >>=-Gets e w laws (stop_or e (read_elements e read arr (length cs) (suc i)))
            (>>=-Gets e w laws (λ v. read v x) (track-Gets e w laws c s1)
              λ s2 u2. takes s2 (back s1 s2 (back s s1 u u1) u2))
            λ s3 u3.
              read_elements-Gets read arr h (before ++ c ∷ []) cs (suc i) z y s3 array known
                (are ∙ sym (append_assoc before (c ∷ []) cs))
                (omega (arith, at, length-append before (c ∷ [])))
                (omega (arith, fits, length-append before (c ∷ [])))
                (back s1 s3 (back s s1 u u1) u3) rest)
    where
      back :
          (s1 s2 : Reader e)
          → Untouched e w h s1.world.heap
          → Untouched e w s1.world.heap s2.world.heap
          → Untouched e w h s2.world.heap
      back s1 s2 u1 u2 = Untouched-trans e w laws h s1.world.heap s2.world.heap u1 u2

  pub read_array-Gets :
      {X : Type 0} (read : Value → X → M e (Option Text × X)) (arr : Value) (h : Heap) (x y : X)
      (s : Reader e)
      → e.is_array arr ≡ true
      → number arr < made h
      → length (items arr h) < 2 ^ 32
      → Untouched e w h s.world.heap
      → Takes read h (items arr h) x y
      → Gets e w laws (read_array e read x arr) (none, y) s
  unfolding read_array
  read_array-Gets read arr h x y s array known fits u takes =
      let law = laws.get_length_law arr s.world.heap array (omega (arith, known, u.grows)) in
      >>=-Gets e w laws (elements_or_error e read x arr)
        (query-Gets e w laws (e.get_length arr) (some (length (items arr h))) s
          (law.0
            ∙ ap (λ is. some (length is))
                (u.items_kept arr known (λ same. absurd (omega (arith, known)))))
          law.1)
        λ s1 u1.
          read_elements-Gets read arr h [] (items arr h) 0 x y s1 array known refl refl
            (omega (arith, fits)) (Untouched-trans e w laws h s.world.heap s1.world.heap u u1) takes
