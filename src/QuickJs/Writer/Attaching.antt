-- ===== src/QuickJs/Writer/Attaching.antt =====
-- What a method of src/qjs/Writer.hpp holds before and after it; a child goes to its parent.
use rpcpp.Base.{◌≡◌, refl, ◌∙◌, Text, Bool, true, false, List, [], ◌++◌}
use rpcpp.Codec.{Result, ok, error}
use rpcpp.QuickJs.{c_str, Engine, Ref, refs_of, fetch, give, Holds, fetch-Holds, give-Holds}
use rpcpp.QuickJs.Writer.{
  Array, Writer, M, pure, throw, and_then, ◌>>=◌, lift, set_in_array, set_in_object, add_to_array,
  add_to_object, throw_unless, no_append, no_set, longer,
}

module _ (e : Engine) where
  open e use {Value, Heap, null, has_ref_count}

  -- What a method holds after it, which depends on its result.
  abbrev pub held_after : {A : Type 0} → (A → List (Ref e)) → Result A → List (Ref e)
  held_after post (ok a) = post a
  held_after post (error what) = []

  -- From `pre` in the hands of a method to `post`, or to nothing if it throws; the root stays.
  pub record Spec {A : Type 0} (pre : List (Ref e)) (m : M e A) (post : A → List (Ref e))
      : Type 0 where
    pub balance :
        (held : List (Ref e)) (s : Writer e)
        → Holds e (pre ++ held) s.world
        → Holds e (held_after post (m s).0 ++ held) (m s).1.world
    pub same_root : (s : Writer e) → (m s).1.root ≡ s.root

  -- A method that attaches whatever it makes.
  abbrev pub Attaches : {A : Type 0} → M e A → Type 0
  Attaches m = Spec [] m (λ a. [])

  pub pure-Spec : {A : Type 0} (post : A → List (Ref e)) (a : A) → Spec (post a) (pure e a) post
  pure-Spec post a = record { balance = λ held s h. h; same_root = λ s. refl }

  pub pure-Attaches : {A : Type 0} (a : A) → Attaches (pure e a)
  pure-Attaches a = pure-Spec (λ a. []) a

  pub throw-Attaches : {A : Type 0} (what : Text) → Attaches (throw e {A = A} what)
  throw-Attaches what = record { balance = λ held s h. h; same_root = λ s. refl }

  pub and_then-balance :
      {A B : Type 0} {f : A → M e B} {mid : A → List (Ref e)} {post : B → List (Ref e)}
      (r : Result A) (s : Writer e) (held : List (Ref e))
      → ((a : A) → Spec (mid a) (f a) post)
      → Holds e (held_after mid r ++ held) s.world
      → Holds e (held_after post (and_then e r f s).0 ++ held) (and_then e r f s).1.world
  and_then-balance (ok a) s held next h = (next a).balance held s h
  and_then-balance (error what) s held next h = h

  pub and_then-root :
      {A B : Type 0} {f : A → M e B} {mid : A → List (Ref e)} {post : B → List (Ref e)}
      (r : Result A) (s : Writer e)
      → ((a : A) → Spec (mid a) (f a) post)
      → (and_then e r f s).1.root ≡ s.root
  and_then-root (ok a) s next = (next a).same_root s
  and_then-root (error what) s next = refl

  pub >>=-Spec :
      {A B : Type 0} {m : M e A} {f : A → M e B} {pre : List (Ref e)} {mid : A → List (Ref e)}
      {post : B → List (Ref e)}
      → Spec pre m mid
      → ((a : A) → Spec (mid a) (f a) post)
      → Spec pre (◌>>=◌ e m f) post
  >>=-Spec {m = m} first next = record {
    balance = λ held s h. and_then-balance (m s).0 (m s).1 held next (first.balance held s h);
    same_root = λ s. and_then-root (m s).0 (m s).1 next ∙ first.same_root s;
  }

  pub fetch-Spec : (op : Heap → Value × Heap) → Spec [] (lift e (fetch e op)) (refs_of e)
  fetch-Spec op = record {
    balance = λ held s h. fetch-Holds e op held s.world h;
    same_root = λ s. refl;
  }

  pub give-Spec :
      (v : Value) (op : Heap → Bool × Heap) → Spec (refs_of e v) (lift e (give e v op)) (λ b. [])
  give-Spec v op = record {
    balance = λ held s h. give-Holds e v op held s.world h;
    same_root = λ s. refl;
  }

  pub throw_unless-Attaches :
      {A : Type 0} (b : Bool) (what : Text) (a : A) → Attaches (throw_unless e b what a)
  throw_unless-Attaches true what a = pure-Attaches a
  throw_unless-Attaches false what a = throw-Attaches what

  pub set_in_array-Spec :
      (parent : Array e) (v : Value) → Spec (refs_of e v) (set_in_array e parent v) (λ a. [])
  unfolding set_in_array
  set_in_array-Spec parent v =
      >>=-Spec (give-Spec v (e.set_index parent.val parent.length v))
        λ done. throw_unless-Attaches done no_append (longer e parent)

  pub set_in_object-Spec :
      (parent : Value) (name : Text) (v : Value)
      → Spec (refs_of e v) (set_in_object e parent name v) (λ a. [])
  unfolding set_in_object
  set_in_object-Spec parent name v =
      >>=-Spec (give-Spec v (e.set_named parent (c_str name) v))
        λ done. throw_unless-Attaches done (no_set name) tt

  pub add_to_array-Attaches :
      (op : Heap → Value × Heap) (parent : Array e) → Attaches (add_to_array e op parent)
  add_to_array-Attaches op parent =
      >>=-Spec (fetch-Spec op)
        λ child. >>=-Spec (set_in_array-Spec parent child) λ parent'. pure-Attaches (child, parent')

  pub add_to_object-Attaches :
      (op : Heap → Value × Heap) (name : Text) (parent : Value)
      → Attaches (add_to_object e op name parent)
  add_to_object-Attaches op name parent =
      >>=-Spec (fetch-Spec op)
        λ child. >>=-Spec (set_in_object-Spec parent name child) λ u. pure-Attaches child
