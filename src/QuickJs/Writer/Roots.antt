-- ===== src/QuickJs/Writer/Roots.antt =====
-- `rpcpp::qjs::write` (src/qjs/Writer.hpp), where the root is filled without an exception.
use rpcpp.Base.{◌≡◌, refl, ap, ◌∙◌}
use rpcpp.Codec.{ok}
use rpcpp.QuickJs.{Engine, World, fetch}
use rpcpp.QuickJs.Writer.{
  M, Basic, Root, array_root, object_root, null_root, value_root, write, root_or_error, empty_array,
  from_basic_type, array_as_root, object_as_root, null_as_root, value_as_root, Array,
}
use rpcpp.QuickJs.Writer.Ownership.{rooted}
use rpcpp.QuickJs.Writer.Runs.{Runs}

module _ (e : Engine) where
  open e use {Value, Heap}

  -- The root is returned, and of it and the heap then `Q` holds.
  pub record Returns (r : Root e) (w : World e) (Q : Value → Heap → Type 0) : Type 0 where
    pub value : Value
    pub after : World e
    pub is : write e r w ≡ (ok value, after)
    pub told : Q value after.heap

  pub array-Returns :
      (fill : Array e → M e (Unit {0})) (w : World e) (Q : Value → Heap → Type 0)
      → Runs e
          (fill (empty_array e (e.new_array w.heap).0))
          (rooted e e.new_array w)
          (λ u. Q (e.new_array w.heap).0)
      → Returns (array_root fill) w Q
  unfolding write array_as_root fetch
  array-Returns fill w Q run = record {
    value = (e.new_array w.heap).0;
    after = run.after.world;
    is = ap (root_or_error e) run.is ∙ ap (λ v. (ok v, run.after.world)) run.same_root;
    told = run.told;
  }

  pub object-Returns :
      (fill : Value → M e (Unit {0})) (w : World e) (Q : Value → Heap → Type 0)
      → Runs e
          (fill (e.new_object w.heap).0)
          (rooted e e.new_object w)
          (λ u. Q (e.new_object w.heap).0)
      → Returns (object_root fill) w Q
  unfolding write object_as_root fetch
  object-Returns fill w Q run = record {
    value = (e.new_object w.heap).0;
    after = run.after.world;
    is = ap (root_or_error e) run.is ∙ ap (λ v. (ok v, run.after.world)) run.same_root;
    told = run.told;
  }

  pub null-Returns :
      (w : World e) (Q : Value → Heap → Type 0) → Q e.null w.heap → Returns null_root w Q
  unfolding write null_as_root
  null-Returns w Q q = record { value = e.null; after = w; is = refl; told = q }

  pub value-Returns :
      (b : Basic e) (w : World e) (Q : Value → Heap → Type 0)
      → (let (v, h) = from_basic_type e b w.heap in Q v h)
      → Returns (value_root b) w Q
  unfolding write value_as_root fetch
  value-Returns b w Q q = record {
    value = (from_basic_type e b w.heap).0;
    after = (fetch e (from_basic_type e b) w).1;
    is = refl;
    told = q;
  }
