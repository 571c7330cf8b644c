-- ===== src/QuickJs/Shapes/Write/Structs.antt =====
-- What is left after an array was filled with a vector, or an object with the members of a struct.
use rpcpp.Base.{
  Each, Each-map, ◌<◌, ◌≤◌, ◌≡◌, ◌≢◌, refl, sym, ap, ◌∙◌, Text, List, ◌++◌, length, All, arith, inl,
  inr,
}
use mathlib.Core.Path.{subst}
use rpcpp.QuickJs.{Engine, c_str}
use rpcpp.QuickJs.Laws.{View, Change, Laws, Change-refl, Change-trans}
use rpcpp.QuickJs.Writer.{Array, empty_array}
use rpcpp.QuickJs.Writer.Setting.{Open}
use rpcpp.QuickJs.Shapes.{Shape, Members, a_vector, a_struct, member, names_of, El, Els}
use rpcpp.QuickJs.Shapes.Represents.{Rep, RepMembers}
use rpcpp.QuickJs.Shapes.Kept.{Rep-kept, RepMembers-kept}
use rpcpp.QuickJs.Shapes.Write.Filling.{InObject, NewArray, NewObject}
use rpcpp.QuickJs.Shapes.Write.Maps.{lower}
use rpcpp.QuickJs.Shapes.Write.Vectors.{Filled}

module _ (e : Engine) (w : View e) (laws : Laws e w) where
  open e use {Value, Heap}
  open w use {items, field, number, made}

  -- What the members of a struct have done to its object.
  abbrev pub HasMembers : (ms : Members) → Els e ms → Value → Heap → Heap → Type 0
  HasMembers ms x v h h' =
      Change e w (number v) h h'
      × RepMembers e w (made h) ms x v h'
      × ((m : Text) → All (λ n. m ≢ c_str n) (names_of ms) → field v m h' ≡ field v m h)

  -- An array that was made since `h1`, and was filled.
  pub Filled-Rep :
      (s : Shape) (xs : List (El e s)) (v : Value) (h1 h2 h3 : Heap)
      → made h1 ≤ made h2
      → NewArray e w laws v h1 h2
      → Filled e w laws s xs v h2 h3
      → Rep e w (made h1) (a_vector s) xs v h3
  Filled-Rep s xs v h1 h2 h3 grows (new, known, solid, array, none_yet) (change, (cs, more, each)) =
      (
        solid,
        array,
        (new, omega (arith, known, change.grows)),
        subst (Each (λ x c. Rep e w (made h1) s x c h3) xs)
            (sym (more ∙ ap (λ is. is ++ cs) none_yet))
            (Each-map _ _ xs cs (λ x c. lower e w laws s x c (made h2) (made h1) h3 grows) each),
      )

  pub members-Rep :
      (ms : Members) (x : Els e ms) (v : Value) (h1 h2 h3 : Heap)
      → made h1 ≤ made h2
      → NewObject e w laws v h1 h2
      → HasMembers ms x v h2 h3
      → Rep e w (made h1) (a_struct ms) x v h3
  members-Rep ms x v h1 h2 h3 grows (new, known, solid, object, no_array, no_keys, absent)
        (change, reps, others) =
      (
        solid,
        object,
        no_array,
        (new, omega (arith, known, change.grows)),
        RepMembers-kept e w laws ms x v (made h2) (made h1) (made h3) h3 h3 grows
            (Change-refl e w laws (made h3) h3) (inr (omega arith)) (λ n. refl) reps,
      )

  pub empty-Open :
      (a : Array e) (h h' : Heap)
      → a ≡ empty_array e a.val
      → NewArray e w laws a.val h h'
      → Open e w laws a h' × (length (items a.val h') ≡ 0)
  empty-Open a h h' is (new, known, solid, array, none_yet) = (
    record {
      array = array;
      known = known;
      next = ap (λ b. b.length) is ∙ sym (ap length none_yet);
    },
    ap length none_yet,
  )

  -- One member, and then the others.
  pub HasMembers-more :
      (n : Text) (s : Shape) (ms : Members) (x : El e s × Els e ms) (v : Value) (h h1 h2 : Heap)
      → number v < made h
      → All (λ m. c_str n ≢ c_str m) (names_of ms)
      → InObject e w laws s x.0 n v h h1
      → HasMembers ms x.1 v h1 h2
      → HasMembers (member n s ms) x v h h2
  HasMembers-more n s ms x v h h1 h2 known apart (c, done, rep) (change, reps, others) = (
    Change-trans e w laws (number v) (number v) h h1 h2 done.change change (inl refl),
    (
      (
        c,
        others (c_str n) apart ∙ done.attached,
        Rep-kept e w laws s x.0 c (made h) (made h) (number v) h1 h2 (omega arith) change
            (inl known) rep,
      ),
      RepMembers-kept e w laws ms x.1 v (made h1) (made h) (made h2) h2 h2 done.change.grows
          (Change-refl e w laws (made h2) h2) (inr (omega arith)) (λ m. refl) reps,
    ),
    λ m ne. others m ne.1 ∙ done.others m (λ same. ne.0 (sym same)),
  )
