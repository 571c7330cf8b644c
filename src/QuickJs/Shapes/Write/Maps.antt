-- ===== src/QuickJs/Shapes/Write/Maps.antt =====
-- Filling an object with the entries of a map (src/qjs/Writer.hpp).
use rpcpp.Base.{
  ℕ, ◌<◌, ◌≤◌, ◌≡◌, ◌≢◌, refl, sym, ap, ◌∙◌, Text, none, some, List, [], ◌∷◌, ◌++◌, map, All,
  All-map, All-both, arith, inl, inr,
}
use mathlib.Core.List.{append-nil, append_assoc}
use rpcpp.QuickJs.{Engine, c_str}
use rpcpp.QuickJs.Laws.{View, Change, Laws, proto, digit_first, Change-refl, Change-trans}
use rpcpp.QuickJs.Writer.{Writer}
use rpcpp.QuickJs.Writer.Runs.{Runs, weaken, pure-Runs, >>=-Runs}
use rpcpp.QuickJs.Writer.Setting.{OpenObject}
use rpcpp.QuickJs.Shapes.{Shape, a_map, El, Fits, Keyed}
use rpcpp.QuickJs.Shapes.Write.{write_at, fill_map}
use rpcpp.QuickJs.Shapes.Represents.{Rep}
use rpcpp.QuickJs.Shapes.Kept.{Rep-kept}
use rpcpp.QuickJs.Shapes.Write.Filling.{InObject, NewObject}

module _ (e : Engine) (w : View e) (laws : Laws e w) where
  open e use {Value, Heap}
  open w use {field, keys, number, made}

  -- A value stands for what it stood for, with older containers than needed.
  pub lower :
      (s : Shape) (x : El e s) (v : Value) (lo lo' : ℕ) (h : Heap)
      → lo' ≤ lo
      → Rep e w lo s x v h
      → Rep e w lo' s x v h
  lower s x v lo lo' h le rep =
      Rep-kept e w laws s x v lo lo' (made h) h h le (Change-refl e w laws (made h) h)
        (inr (omega arith)) rep

  -- The property of an entry.
  abbrev pub Entry : ℕ → (s : Shape) → Value → Heap → Text × El e s → Type 0
  Entry lo s v h q = (c : Value) × (field v q.0 h ≡ some c) × Rep e w lo s q.1 c h

  -- What the entries of a map have done to its object.
  abbrev pub HasEntries : (s : Shape) → List (Text × El e s) → Value → Heap → Heap → Type 0
  HasEntries s xs v h h' =
      Change e w (number v) h h'
      × (keys v h' ≡ keys v h ++ map (λ q. q.0) xs)
      × All (Entry (made h) s v h') xs
      × ((m : Text) → All (λ q. m ≢ q.0) xs → field v m h' ≡ field v m h)

  pub entries-Rep :
      (s : Shape) (xs : List (Text × El e s)) (v : Value) (h1 h2 h3 : Heap)
      → made h1 ≤ made h2
      → NewObject e w laws v h1 h2
      → HasEntries s xs v h2 h3
      → Rep e w (made h1) (a_map s) xs v h3
  entries-Rep s xs v h1 h2 h3 grows (new, known, solid, object, no_array, no_keys, absent)
        (change, names, entries, others) =
      (
        solid,
        object,
        no_array,
        (new, omega (arith, known, change.grows)),
        names ∙ ap (λ ks. ks ++ map (λ q. q.0) xs) no_keys,
        All-map _ _ xs (λ q r. (r.0, r.1, lower s q.1 r.0 (made h2) (made h1) h3 grows r.2))
            entries,
      )

  abbrev pub WritesAt : Shape → Type 0
  WritesAt s =
      (x : El e s) (n : Text) (v : Value) (st : Writer e)
      → Fits e s x
      → OpenObject e w laws v st.world.heap
      → c_str n ≢ proto
      → Runs e (write_at e s x n v) st (λ u. InObject e w laws s x n v st.world.heap)

  HasEntries-more :
      (s : Shape) (k : Text) (x : El e s) (xs : List (Text × El e s)) (v : Value) (h h1 h2 : Heap)
      → number v < made h
      → Keyed e ((k, x) ∷ xs)
      → field v k h ≡ none
      → InObject e w laws s x k v h h1
      → HasEntries s xs v h1 h2
      → HasEntries s ((k, x) ∷ xs) v h h2
  HasEntries-more s k x xs v h h1 h2 known (own, ne, word, apart, keyed) absent (c, done, rep)
        (change, names, entries, others) =
      (
        Change-trans e w laws (number v) (number v) h h1 h2 done.change change (inl refl),
        names
            ∙ ap (λ ks. ks ++ map (λ q. q.0) xs)
                (done.keyed (ap digit_first own ∙ word) (ap (λ n. field v n h) own ∙ absent)
                  ∙ ap (λ n. keys v h ++ n ∷ []) own)
            ∙ append_assoc (keys v h) (k ∷ []) (map (λ q. q.0) xs),
        (
          (
            c,
            others k apart ∙ ap (λ n. field v n h1) (sym own) ∙ done.attached,
            Rep-kept e w laws s x c (made h) (made h) (number v) h1 h2 (omega arith) change
                (inl known) rep,
          ),
          All-map _ _ xs
              (λ q r. (r.0, r.1, lower s q.1 r.0 (made h1) (made h) h2 done.change.grows r.2))
              entries,
        ),
        λ m away. others m away.1 ∙ done.others m (λ same. away.0 (sym same ∙ own)),
      )

  fill_entries-Runs :
      (s : Shape) (writes : WritesAt s) (xs : List (Text × El e s)) (v : Value) (st : Writer e)
      → Keyed e xs
      → All (λ q. Fits e s q.1) xs
      → OpenObject e w laws v st.world.heap
      → All (λ q. field v q.0 st.world.heap ≡ none) xs
      → Runs e (fill_map e (write_at e s) xs v) st (λ u. HasEntries s xs v st.world.heap)
  unfolding fill_map
  fill_entries-Runs s writes [] v st keyed fits o absent = pure-Runs e tt st _ (
    Change-refl e w laws (number v) st.world.heap,
    sym (append-nil (keys v st.world.heap)),
    tt,
    λ m away. refl,
  )
  fill_entries-Runs s writes ((k, x) ∷ xs) v st (own, ne, word, apart, keyed) fits o absent =
      >>=-Runs e (writes x k v st fits.0 o (λ same. ne (sym own ∙ same))) λ u s1 one.
        weaken e
          (fill_entries-Runs s writes xs v s1 keyed fits.1
            (o.0, o.1, omega (arith, o.2, one.1.change.grows))
            (All-both _ _ _ xs
              (λ q away gone. one.1.others q.0 (λ same. away (sym own ∙ same)) ∙ gone) apart
              absent.1))
          λ u' h2 more.
            HasEntries-more s k x xs v st.world.heap s1.world.heap h2 o.2
              (own, ne, word, apart, keyed) absent.0 one more

  everywhere : {X : Type 0} (P : X → Type 0) (xs : List X) → ((x : X) → P x) → All P xs
  everywhere P [] f = tt
  everywhere P (x ∷ xs) f = (f x, everywhere P xs f)

  -- The object has no property before.
  pub fill_map-Runs :
      (s : Shape) (writes : WritesAt s) (xs : List (Text × El e s)) (v : Value) (st : Writer e)
      → Keyed e xs
      → All (λ q. Fits e s q.1) xs
      → OpenObject e w laws v st.world.heap
      → ((n : Text) → field v n st.world.heap ≡ none)
      → Runs e (fill_map e (write_at e s) xs v) st (λ u. HasEntries s xs v st.world.heap)
  fill_map-Runs s writes xs v st keyed fits o absent =
      fill_entries-Runs s writes xs v st keyed fits o (everywhere _ xs (λ q. absent q.0))
