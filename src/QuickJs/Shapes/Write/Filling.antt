-- ===== src/QuickJs/Shapes/Write/Filling.antt =====
-- What the methods of src/qjs/Writer.hpp make of a simple value stands for it; new containers.
use rpcpp.Base.{
  Text, none, ℕ, ◌<◌, ◌≤◌, ◌≡◌, ◌≢◌, sym, ◌∙◌, Text, true, false, [], arith, ◌⊎◌, inl, inr,
}
use mathlib.Core.Path.{subst}
use rpcpp.QuickJs.{Engine, c_str}
use rpcpp.QuickJs.Laws.{View, Solid, Change, Laws, proto, Change-trans}
use rpcpp.QuickJs.Writer.{Array, Writer, Basic, from_basic_type}
use rpcpp.QuickJs.Writer.Runs.{Runs, pure-Runs, >>=-Runs}
use rpcpp.QuickJs.Writer.Setting.{Open, Room, OpenObject, Appended, Attached, Added, AddedAt}
use rpcpp.QuickJs.Writer.Adding.{
  Stands, Fine, from_basic_type-Stands, add_value_to_array-Runs, add_value_to_object-Runs,
}
use rpcpp.QuickJs.Shapes.{Shape, El}
use rpcpp.QuickJs.Shapes.Write.{value_in, value_at}
use rpcpp.QuickJs.Shapes.Represents.{Rep}
use rpcpp.QuickJs.Shapes.Kept.{Rep-kept}

module _ (e : Engine) (w : View e) (laws : Laws e w) where
  open e use {Value, Heap}
  open w use {items, field, keys, number, made}

  -- The array has one more item, which stands for `x`.
  abbrev pub InArray : (s : Shape) → El e s → Array e → Heap → Array e → Heap → Type 0
  InArray s x a h a' h' = (c : Value) × Appended e w laws a h c a' h' × Rep e w (made h) s x c h'

  abbrev pub InObject : (s : Shape) → El e s → Text → Value → Heap → Heap → Type 0
  InObject s x n v h h' = (c : Value) × Attached e w laws v n h c h' × Rep e w (made h) s x c h'

  Added-InArray :
      (s : Shape) (x : El e s) (op : Heap → Value × Heap) (a : Array e) (h h' : Heap) (c : Value)
      (a' : Array e)
      → number a.val < made h
      → Rep e w (made h) s x (op h).0 (op h).1
      → Added e w laws op a h (c, a') h'
      → InArray s x a h a' h'
  Added-InArray s x op a h h' c a' known rep (is, done, change) = (
    c,
    done,
    subst (λ c. Rep e w (made h) s x c h') (sym is)
        (Rep-kept e w laws s x (op h).0 (made h) (made h) (number a.val) (op h).1 h' (omega arith)
          change (inl known) rep),
  )

  Added-InObject :
      (s : Shape) (x : El e s) (op : Heap → Value × Heap) (v : Value) (n : Text) (h h' : Heap)
      (c : Value)
      → number v < made h
      → Rep e w (made h) s x (op h).0 (op h).1
      → AddedAt e w laws op v n h c h'
      → InObject s x n v h h'
  Added-InObject s x op v n h h' c known rep (is, done, change) = (
    c,
    done,
    subst (λ c. Rep e w (made h) s x c h') (sym is)
        (Rep-kept e w laws s x (op h).0 (made h) (made h) (number v) (op h).1 h' (omega arith)
          change (inl known) rep),
  )

  -- A new empty array since `h`, and a new object.
  abbrev pub NewArray : Value → Heap → Heap → Type 0
  NewArray v h h' =
      (made h ≤ number v)
      × (number v < made h')
      × Solid e v
      × (e.is_array v ≡ true)
      × (items v h' ≡ [])

  abbrev pub NewObject : Value → Heap → Heap → Type 0
  NewObject v h h' =
      (made h ≤ number v)
      × (number v < made h')
      × Solid e v
      × (e.is_object v ≡ true)
      × (e.is_array v ≡ false)
      × (keys v h' ≡ [])
      × ((n : Text) → field v n h' ≡ none)

  pub new_array_since :
      (p : ℕ) (v : Value) (h h' : Heap)
      → (p < made h) ⊎ (made (e.new_array h).1 ≤ p)
      → v ≡ (e.new_array h).0
      → Change e w p (e.new_array h).1 h'
      → NewArray v h h'
  new_array_since p v h h' out is c =
      let law = laws.new_array_law h in
      let new = law.0 in
      subst (λ v. NewArray v h h') (sym is)
        (
          new.1,
          omega (arith, new.2, c.grows),
          law.1,
          law.2,
          c.items_kept (e.new_array h).0 new.2 (λ same. absurd (omega (arith, new.1, new.2)))
              ∙ law.3,
        )

  pub new_object_since :
      (p : ℕ) (v : Value) (h h' : Heap)
      → (p < made h) ⊎ (made (e.new_object h).1 ≤ p)
      → v ≡ (e.new_object h).0
      → Change e w p (e.new_object h).1 h'
      → NewObject v h h'
  new_object_since p v h h' out is c =
      let law = laws.new_object_law h in
      let new = law.0 in
      subst (λ v. NewObject v h h') (sym is)
        (
          new.1,
          omega (arith, new.2, c.grows),
          law.1,
          law.2,
          law.3,
          c.keys_kept (e.new_object h).0 new.2 (λ same. absurd (omega (arith, new.1, new.2)))
              ∙ law.4,
          λ n.
              c.fields_kept (e.new_object h).0 n new.2
                (λ same. absurd (omega (arith, new.1, new.2)))
              ∙ law.5 n,
        )

  -- The parent keeps what it got while the child is filled.
  pub Appended-later :
      (a : Array e) (h h1 h2 : Heap) (v : Value) (a' : Array e)
      → number a.val < made h
      → made h ≤ number v
      → Appended e w laws a h v a' h1
      → Change e w (number v) h1 h2
      → Appended e w laws a h v a' h2
  Appended-later a h h1 h2 v a' known new done c = record {
    same = done.same;
    more = done.more;
    change = Change-trans e w laws (number a.val) (number v) h h1 h2 done.change c (inr new);
    appended =
        c.items_kept a.val (omega (arith, known, done.change.grows)) (λ same. absurd (omega arith))
        ∙ done.appended;
  }

  pub Attached-later :
      (v : Value) (n : Text) (h h1 h2 : Heap) (c : Value)
      → number v < made h
      → made h ≤ number c
      → Attached e w laws v n h c h1
      → Change e w (number c) h1 h2
      → Attached e w laws v n h c h2
  Attached-later v n h h1 h2 c known new done change = record {
    change = Change-trans e w laws (number v) (number c) h h1 h2 done.change change (inr new);
    attached = kept (c_str n) ∙ done.attached;
    keyed = λ word absent.
        change.keys_kept v (omega (arith, known, done.change.grows)) (λ same. absurd (omega arith))
        ∙ done.keyed word absent;
    others = λ m ne. kept m ∙ done.others m ne;
  }
    where
      kept : (m : Text) → field v m h2 ≡ field v m h1
      kept m =
          change.fields_kept v m (omega (arith, known, done.change.grows))
            (λ same. absurd (omega arith))

  pub value_in-Runs :
      (b : Basic e) (s : Shape) (x : El e s) (a : Array e) (st : Writer e)
      → Fine e w laws b
      → ((h h' : Heap) (v : Value) → Stands e w laws b v h' → Rep e w (made h) s x v h')
      → Open e w laws a st.world.heap
      → Room e w laws a
      → Runs e (value_in e b a) st (InArray s x a st.world.heap)
  value_in-Runs b s x a st fine rep o room =
      >>=-Runs e (add_value_to_array-Runs e w laws b a st fine o room) λ q s' done.
        pure-Runs e q.1 s' _ (
          Added-InArray s x (from_basic_type e b) a st.world.heap s'.world.heap q.0 q.1 o.known
            (rep st.world.heap _ _ (from_basic_type-Stands e w laws b st.world.heap fine).1) done)

  pub value_at-Runs :
      (b : Basic e) (s : Shape) (x : El e s) (n : Text) (v : Value) (st : Writer e)
      → Fine e w laws b
      → ((h h' : Heap) (v : Value) → Stands e w laws b v h' → Rep e w (made h) s x v h')
      → OpenObject e w laws v st.world.heap
      → c_str n ≢ proto
      → Runs e (value_at e b n v) st (λ u. InObject s x n v st.world.heap)
  value_at-Runs b s x n v st fine rep o ne =
      >>=-Runs e (add_value_to_object-Runs e w laws n b v st fine o ne) λ c s' done.
        pure-Runs e tt s' _ (
          Added-InObject s x (from_basic_type e b) v n st.world.heap s'.world.heap c o.2
            (rep st.world.heap _ _ (from_basic_type-Stands e w laws b st.world.heap fine).1) done)
