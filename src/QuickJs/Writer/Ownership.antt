-- ===== src/QuickJs/Writer/Ownership.antt =====
-- Who holds the references of src/qjs/Writer.hpp: each goes to a parent, and the root to the caller.
use mathlib.Core.Path.{subst}
use rpcpp.Base.{◌≡◌, refl, sym, ap, Text, false, List, [], ◌++◌, ◌⊎◌, inl, inr}
use rpcpp.Codec.{Result, ok, error}
use rpcpp.QuickJs.{Engine, World, Ref, refs_of, fetch, Holds, fetch-Holds}
use rpcpp.QuickJs.Writer.{
  Basic, from_basic_type, Array, Writer, M, pure, ◌>>=◌, add_array_to_array, add_array_to_object,
  add_object_to_array, add_object_to_object, add_value_to_array, add_value_to_object,
  add_null_to_array, add_null_to_object, array_as_root, object_as_root, null_as_root, value_as_root,
  Root, array_root, object_root, null_root, value_root, write_root, write, root_or_error,
  empty_array,
}
use rpcpp.QuickJs.Writer.Attaching.{
  held_after, Spec, Attaches, pure-Attaches, >>=-Spec, set_in_array-Spec, set_in_object-Spec,
  add_to_array-Attaches, add_to_object-Attaches,
}

module _ (e : Engine) where
  open e use {Value, Heap, null, has_ref_count}

  -- What the parser does below the root: a program whose steps are the writer's methods.
  pub data Builds : (A : Type 0) → M e A → Type 1 where
    returns : (A : Type 0) (a : A) → Builds A (pure e a)
    bind :
        (A B : Type 0) (m : M e A) (f : A → M e B)
        → Builds A m
        → ((a : A) → Builds B (f a))
        → Builds B (◌>>=◌ e m f)
    array_to_array : (parent : Array e) → Builds (Array e × Array e) (add_array_to_array e parent)
    array_to_object :
        (name : Text) (parent : Value) → Builds (Array e) (add_array_to_object e name parent)
    object_to_array : (parent : Array e) → Builds (Value × Array e) (add_object_to_array e parent)
    object_to_object :
        (name : Text) (parent : Value) → Builds Value (add_object_to_object e name parent)
    value_to_array :
        (b : Basic e) (parent : Array e) → Builds (Value × Array e) (add_value_to_array e b parent)
    value_to_object :
        (name : Text) (b : Basic e) (parent : Value)
        → Builds Value (add_value_to_object e name b parent)
    null_to_array : (parent : Array e) → Builds (Value × Array e) (add_null_to_array e parent)
    null_to_object :
        (name : Text) (parent : Value) → Builds Value (add_null_to_object e name parent)

  -- The part of the parser that a root is given.
  abbrev pub BuildsRoot : Root e → Type 1
  BuildsRoot (array_root fill) = (a : Array e) → Builds (Unit {0}) (fill a)
  BuildsRoot (object_root fill) = (v : Value) → Builds (Unit {0}) (fill v)
  BuildsRoot null_root = Unit
  BuildsRoot (value_root b) = Unit

  -- `JS_NULL` has no reference count.
  module _ (plain_null : has_ref_count null ≡ false) where
    null_refs : refs_of e null ≡ []
    null_refs = rw plain_null refl

    null-Spec : {A : Type 0} {m : M e A} → Spec e (refs_of e null) m (λ a. []) → Attaches e m
    null-Spec {m = m} spec = subst (λ rs. Spec e rs m (λ a. [])) null_refs spec

    pub Builds-Attaches : {A : Type 0} {m : M e A} → Builds A m → Attaches e m
    unfolding add_array_to_array add_array_to_object add_object_to_array add_object_to_object
        add_value_to_array add_value_to_object add_null_to_array add_null_to_object
    Builds-Attaches (returns A a) = pure-Attaches e a
    Builds-Attaches (bind A B m f u next) =
        >>=-Spec e (Builds-Attaches u) λ a. Builds-Attaches (next a)
    Builds-Attaches (array_to_array parent) =
        >>=-Spec e (add_to_array-Attaches e e.new_array parent)
          λ q. pure-Attaches e (empty_array e q.0, q.1)
    Builds-Attaches (array_to_object name parent) =
        >>=-Spec e (add_to_object-Attaches e e.new_array name parent)
          λ v. pure-Attaches e (empty_array e v)
    Builds-Attaches (object_to_array parent) = add_to_array-Attaches e e.new_object parent
    Builds-Attaches (object_to_object name parent) =
        add_to_object-Attaches e e.new_object name parent
    Builds-Attaches (value_to_array b parent) = add_to_array-Attaches e (from_basic_type e b) parent
    Builds-Attaches (value_to_object name b parent) =
        add_to_object-Attaches e (from_basic_type e b) name parent
    Builds-Attaches (null_to_array parent) =
        >>=-Spec e (null-Spec (set_in_array-Spec e parent null))
          λ parent'. pure-Attaches e (null, parent')
    Builds-Attaches (null_to_object name parent) =
        >>=-Spec e (null-Spec (set_in_object-Spec e parent name null)) λ u. pure-Attaches e null

  -- The value that becomes the root.
  abbrev pub made_root : Root e → World e → Value
  made_root (array_root fill) w = (e.new_array w.heap).0
  made_root (object_root fill) w = (e.new_object w.heap).0
  made_root null_root w = null
  made_root (value_root b) w = (from_basic_type e b w.heap).0

  -- The state in which the parser starts to fill the root.
  abbrev pub rooted : (Heap → Value × Heap) → World e → Writer e
  rooted op w = record { world = (fetch e op w).1; root = (fetch e op w).0 }

  -- How a root that was made and filled leaves the writer.
  record Filled (v : Value) (held : List (Ref e)) (q : Result (Unit {0}) × Writer e) : Type 0 where
    balance : Holds e (refs_of e v ++ held) q.1.world
    same_root : q.1.root ≡ v

  fill-Filled :
      (fill : M e (Unit {0})) (op : Heap → Value × Heap) (held : List (Ref e)) (w : World e)
      → Attaches e fill
      → Holds e held w
      → Filled (fetch e op w).0 held (fill (rooted op w))
  fill-Filled fill op held w a h = record {
    balance = filled_balance;
    same_root = a.same_root (rooted op w);
  }
    where
      no_more :
          (r : Result (Unit {0})) (u : World e)
          → Holds e (held_after e (λ a. []) r ++ (refs_of e (fetch e op w).0 ++ held)) u
          → Holds e (refs_of e (fetch e op w).0 ++ held) u
      no_more (ok x) u k = k
      no_more (error what) u k = k

      filled_balance : Holds e (refs_of e (fetch e op w).0 ++ held) (fill (rooted op w)).1.world
      filled_balance =
          no_more (fill (rooted op w)).0 (fill (rooted op w)).1.world (
            a.balance (refs_of e (fetch e op w).0 ++ held) (rooted op w)
              (fetch-Holds e op held w h))

  module _ (plain_null : has_ref_count null ≡ false) where
    write_root-Filled :
        (r : Root e) (held : List (Ref e)) (w : World e)
        → BuildsRoot r
        → Holds e held w
        → Filled (made_root r w) held (write_root e r (record { world = w; root = e.undefined }))
    unfolding write_root array_as_root object_as_root null_as_root value_as_root fetch
    write_root-Filled (array_root fill) held w b h =
        fill-Filled (fill (empty_array e (e.new_array w.heap).0)) e.new_array held w
          (Builds-Attaches plain_null (b (empty_array e (e.new_array w.heap).0))) h
    write_root-Filled (object_root fill) held w b h =
        fill-Filled (fill (e.new_object w.heap).0) e.new_object held w
          (Builds-Attaches plain_null (b (e.new_object w.heap).0)) h
    write_root-Filled null_root held w b h = record {
      balance = subst (λ rs. Holds e (rs ++ held) w) (sym (null_refs plain_null)) h;
      same_root = refl;
    }
    write_root-Filled (value_root b) held w u h =
        fill-Filled (pure e tt) (from_basic_type e b) held w (pure-Attaches e tt) h

    returned_or_thrown :
        (v : Value) (held : List (Ref e)) (q : Result (Unit {0}) × Writer e)
        → Filled v held q
        → Holds e (refs_of e v ++ held) (root_or_error e q).1
          × (((root_or_error e q).0 ≡ ok v)
              ⊎ ((what : Text) × ((root_or_error e q).0 ≡ error what)))
    returned_or_thrown v held (ok u, s) f = (f.balance, inl (ap ok f.same_root))
    returned_or_thrown v held (error what, s) f = (f.balance, inr (what, refl))

    -- `qjs::write`, for any parser that makes a root and fills it by the writer's methods, and an
    -- engine in which `JS_NULL` has no reference count: every reference that the engine gave to the
    -- writer has gone to a parent but for the one on the root, which is held beside what was held
    -- before. Either the root is returned, for the caller to free, or an exception is thrown.
    pub write-Holds :
        (r : Root e) (held : List (Ref e)) (w : World e)
        → BuildsRoot r
        → Holds e held w
        → Holds e (refs_of e (made_root r w) ++ held) (write e r w).1
          × (((write e r w).0 ≡ ok (made_root r w))
              ⊎ ((what : Text) × ((write e r w).0 ≡ error what)))
    unfolding write
    write-Holds r held w b h =
        returned_or_thrown (made_root r w) held
          (write_root e r (record { world = w; root = e.undefined }))
          (write_root-Filled r held w b h)
