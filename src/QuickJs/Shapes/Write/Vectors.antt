-- ===== src/QuickJs/Shapes/Write/Vectors.antt =====
-- Filling an array with the elements of a vector (src/qjs/Writer.hpp).
use rpcpp.Base.{
  Each, Each-map, ◌+◌, ◌^◌, ◌<◌, ◌≡◌, refl, sym, ap, ◌∙◌, List, [], ◌∷◌, ◌++◌, length,
  length-append, All, arith, inl, inr,
}
use mathlib.Core.List.{append-nil, append_assoc}
use mathlib.Core.Path.{subst}
use rpcpp.QuickJs.{Engine}
use rpcpp.QuickJs.Laws.{View, Change, Laws, Change-refl, Change-trans}
use rpcpp.QuickJs.Writer.{Array, Writer}
use rpcpp.QuickJs.Writer.Runs.{Runs, weaken, pure-Runs, >>=-Runs}
use rpcpp.QuickJs.Writer.Setting.{Open, Room, Appended}
use rpcpp.QuickJs.Shapes.{Shape, El, Fits}
use rpcpp.QuickJs.Shapes.Write.{fill, write_in}
use rpcpp.QuickJs.Shapes.Represents.{Rep}
use rpcpp.QuickJs.Shapes.Kept.{Rep-kept}
use rpcpp.QuickJs.Shapes.Write.Filling.{InArray}

module _ (e : Engine) (w : View e) (laws : Laws e w) where
  open e use {Value, Heap}
  open w use {items, number, made}

  -- What filling an array with `xs` has done.
  abbrev pub Filled : (s : Shape) → List (El e s) → Value → Heap → Heap → Type 0
  Filled s xs v h h' =
      Change e w (number v) h h'
      × ((cs : List Value) × (items v h' ≡ items v h ++ cs)
          × Each (λ x c. Rep e w (made h) s x c h') xs cs)

  abbrev pub WritesIn : Shape → Type 0
  WritesIn s =
      (x : El e s) (a : Array e) (st : Writer e)
      → Fits e s x
      → Open e w laws a st.world.heap
      → Room e w laws a
      → Runs e (write_in e s x a) st (InArray e w laws s x a st.world.heap)

  Open-longer :
      (a : Array e) (h h' : Heap) (c : Value) (a' : Array e)
      → Open e w laws a h
      → Appended e w laws a h c a' h'
      → Open e w laws a' h' × (length (items a.val h') ≡ length (items a.val h) + 1)
  Open-longer a h h' c a' o done = (
    record {
      array = ap e.is_array done.same ∙ o.array;
      known = omega (arith, ap number done.same, o.known, done.change.grows);
      next =
          omega (arith, done.more, o.next, longer_items, ap (λ v. length (items v h')) done.same);
    },
    longer_items,
  )
    where
      longer_items : length (items a.val h') ≡ length (items a.val h) + 1
      longer_items = ap length done.appended ∙ length-append (items a.val h) (c ∷ [])

  -- One item, and then the others.
  Filled-more :
      (s : Shape) (x : El e s) (xs : List (El e s)) (a a' : Array e) (h h1 h2 : Heap)
      → number a.val < made h
      → InArray e w laws s x a h a' h1
      → Filled s xs a.val h1 h2
      → Filled s (x ∷ xs) a.val h h2
  Filled-more s x xs a a' h h1 h2 known (c, done, rep) (change, (cs, more, each)) = (
    Change-trans e w laws (number a.val) (number a.val) h h1 h2 done.change change (inl refl),
    (
      c ∷ cs,
      more ∙ ap (λ is. is ++ cs) done.appended ∙ append_assoc (items a.val h) (c ∷ []) cs,
      (
        Rep-kept e w laws s x c (made h) (made h) (number a.val) h1 h2 (omega arith) change
            (inl known) rep,
        Each-map _ _ xs cs
            (λ y d.
              Rep-kept e w laws s y d (made h1) (made h) (made h2) h2 h2 done.change.grows
                (Change-refl e w laws (made h2) h2) (inr (omega arith)))
            each,
      ),
    ),
  )

  pub fill-Runs :
      (s : Shape) (writes : WritesIn s) (xs : List (El e s)) (a : Array e) (st : Writer e)
      → All (Fits e s) xs
      → Open e w laws a st.world.heap
      → length (items a.val st.world.heap) + length xs < 2 ^ 32
      → Runs e (fill e (write_in e s) xs a) st (λ u. Filled s xs a.val st.world.heap)
  unfolding fill
  fill-Runs s writes [] a st fits o room = pure-Runs e tt st _ (
    Change-refl e w laws (number a.val) st.world.heap,
    ([], sym (append-nil (items a.val st.world.heap)), tt),
  )
  fill-Runs s writes (x ∷ xs) a st fits o room =
      >>=-Runs e (writes x a st fits.0 o (omega (arith, o.next, room))) λ a' s1 one.
        let open_now = Open-longer a st.world.heap s1.world.heap one.0 a' o one.1 in
        let same = one.1.same in
        weaken e
          (fill-Runs s writes xs a' s1 fits.1 open_now.0
            (omega (arith, open_now.1, room, ap (λ v. length (items v s1.world.heap)) same)))
          λ u h2 more.
            Filled-more s x xs a a' st.world.heap s1.world.heap h2 o.known one
              (subst (λ v. Filled s xs v s1.world.heap h2) same more)
