-- ===== src/QuickJs/Writer/Setting.antt =====
-- Runs of the methods of src/qjs/Writer.hpp that give a child to its parent, and what the parent has then.
use rpcpp.Base.{
  none, ◌+◌, ◌^◌, ◌<◌, ◌≡◌, ◌≢◌, refl, sym, ap, ◌∙◌, Text, true, false, some, [], ◌∷◌, ◌++◌, length,
  arith, inl,
}
use mathlib.Core.Path.{subst}
use native.Mathlib.Nat.{mod-eq_of_lt}
use rpcpp.QuickJs.{Engine, c_str}
use rpcpp.QuickJs.Writer.{
  Array, Writer, set_in_array, set_in_object, add_to_array, add_to_object, no_append, no_set,
  longer,
}
use rpcpp.QuickJs.Laws.{
  digit_first, View, Change, Untouched, Laws, proto, Change-trans, Untouched-Change,
}
use rpcpp.QuickJs.Writer.Runs.{Runs, pure-Runs, >>=-Runs, fetch-Runs, give-Runs, throw_unless-Runs}

module _ (e : Engine) (w : View e) (laws : Laws e w) where
  open e use {Value, Heap}
  open w use {items, field, keys, number, made}

  -- An array that the writer fills, with its next index.
  pub record Open (a : Array e) (h : Heap) : Type 0 where
    pub array : e.is_array a.val ≡ true
    pub known : number a.val < made h
    pub next : a.length ≡ length (items a.val h)

  abbrev pub Room : Array e → Type 0
  Room a = a.length + 1 < 2 ^ 32

  -- An object that the writer fills.
  abbrev pub OpenObject : Value → Heap → Type 0
  OpenObject v h = (e.is_object v ≡ true) × (e.is_array v ≡ false) × (number v < made h)

  -- From `h` to `h'`, the array has got `c` as its next item, whatever containers were made for it.
  pub record Appended (a : Array e) (h : Heap) (c : Value) (a' : Array e) (h' : Heap) : Type 0 where
    pub same : a'.val ≡ a.val
    pub more : a'.length ≡ a.length + 1
    pub change : Change e w (number a.val) h h'
    pub appended : items a.val h' ≡ items a.val h ++ c ∷ []

  -- The same of the field of an object.
  pub record Attached (v : Value) (n : Text) (h : Heap) (c : Value) (h' : Heap) : Type 0 where
    pub change : Change e w (number v) h h'
    pub attached : field v (c_str n) h' ≡ some c
    pub keyed :
        digit_first (c_str n) ≡ false
        → field v (c_str n) h ≡ none
        → keys v h' ≡ keys v h ++ c_str n ∷ []
    pub others : (m : Text) → c_str n ≢ m → field v m h' ≡ field v m h

  pub set_in_array-Runs :
      (a : Array e) (c : Value) (s : Writer e)
      → Open a s.world.heap
      → Room a
      → Runs e (set_in_array e a c) s (λ a' h'. Appended a s.world.heap c a' h')
  unfolding set_in_array
  set_in_array-Runs a c s o room =
      let law = laws.set_index_law a.val a.length c s.world.heap o.array o.known o.next room in
      >>=-Runs e
        (give-Runs e c (e.set_index a.val a.length c) s
          (λ done h'. (done ≡ true) × Appended a s.world.heap c (longer e a) h')
          (
            law.0,
            record { same = refl; more = mod-eq_of_lt room; change = law.1; appended = law.2 },
          ))
        (λ done s' (set, q). throw_unless-Runs e done no_append (longer e a) s' _ set q)

  pub set_in_object-Runs :
      (v : Value) (n : Text) (c : Value) (s : Writer e)
      → OpenObject v s.world.heap
      → c_str n ≢ proto
      → Runs e (set_in_object e v n c) s (λ u h'. Attached v n s.world.heap c h')
  unfolding set_in_object
  set_in_object-Runs v n c s (object, array, known) ne =
      let law = laws.set_named_law v (c_str n) c s.world.heap object array known ne in
      >>=-Runs e
        (give-Runs e c (e.set_named v (c_str n) c) s
          (λ done h'. (done ≡ true) × Attached v n s.world.heap c h')
          (
            law.0,
            record {
              change = law.1;
              attached = law.2;
              keyed = laws.set_named_keys_law v (c_str n) c s.world.heap object array known ne;
              others = law.3;
            },
          ))
        (λ done s' (set, q). throw_unless-Runs e done (no_set n) tt s' _ set q)

  below : (v : Value) (h : Heap) → number v < made h → number v ≢ made h
  below v h lt same = absurd (omega arith)

  -- Whatever was made since `h` without a change of what there was, the container is as it was.
  Open-kept : (a : Array e) (h h1 : Heap) → Untouched e w h h1 → Open a h → Open a h1
  Open-kept a h h1 u o = record {
    array = o.array;
    known = omega (arith, o.known, u.grows);
    next = o.next ∙ ap length (sym (u.items_kept a.val o.known (below a.val h o.known)));
  }

  -- A value that was made and then given to its parent.
  abbrev pub Added : (Heap → Value × Heap) → Array e → Heap → Value × Array e → Heap → Type 0
  Added op a h q h' =
      (q.0 ≡ (op h).0) × Appended a h q.0 q.1 h' × Change e w (number a.val) (op h).1 h'

  abbrev pub AddedAt : (Heap → Value × Heap) → Value → Text → Heap → Value → Heap → Type 0
  AddedAt op v n h c h' = (c ≡ (op h).0) × Attached v n h c h' × Change e w (number v) (op h).1 h'

  Appended-since :
      (a : Array e) (h h1 h' : Heap) (c : Value) (a' : Array e)
      → Untouched e w h h1
      → number a.val < made h
      → Appended a h1 c a' h'
      → Appended a h c a' h'
  Appended-since a h h1 h' c a' u known ap1 = record {
    same = ap1.same;
    more = ap1.more;
    change =
        Change-trans e w laws (number a.val) (number a.val) h h1 h'
          (Untouched-Change e w laws (number a.val) h h1 u) ap1.change (inl refl);
    appended =
        ap1.appended ∙ ap (λ is. is ++ c ∷ []) (u.items_kept a.val known (below a.val h known));
  }

  Attached-since :
      (v : Value) (n : Text) (h h1 h' : Heap) (c : Value)
      → Untouched e w h h1
      → number v < made h
      → Attached v n h1 c h'
      → Attached v n h c h'
  Attached-since v n h h1 h' c u known at = record {
    change =
        Change-trans e w laws (number v) (number v) h h1 h'
          (Untouched-Change e w laws (number v) h h1 u) at.change (inl refl);
    attached = at.attached;
    keyed = λ word absent.
        at.keyed word (u.fields_kept v (c_str n) known (below v h known) ∙ absent)
        ∙ ap (λ ks. ks ++ c_str n ∷ []) (u.keys_kept v known (below v h known));
    others = λ m ne. at.others m ne ∙ u.fields_kept v m known (below v h known);
  }

  pub add_to_array-Runs :
      (op : Heap → Value × Heap) (a : Array e) (s : Writer e)
      → Untouched e w s.world.heap (op s.world.heap).1
      → Open a s.world.heap
      → Room a
      → Runs e (add_to_array e op a) s (Added op a s.world.heap)
  add_to_array-Runs op a s u o room =
      >>=-Runs e
        (fetch-Runs e op s (λ c h1. (c ≡ (op s.world.heap).0) × (h1 ≡ (op s.world.heap).1))
          (refl, refl))
        λ c s1 (is, there).
          let v = subst (Untouched e w s.world.heap) (sym there) u in
          >>=-Runs e (set_in_array-Runs a c s1 (Open-kept a s.world.heap s1.world.heap v o) room)
            λ a' s2 done.
              pure-Runs e (c, a') s2 _
                (
                  is,
                  Appended-since a s.world.heap s1.world.heap s2.world.heap c a' v o.known done,
                  subst (λ h1. Change e w (number a.val) h1 s2.world.heap) there done.change,
                )

  pub add_to_object-Runs :
      (op : Heap → Value × Heap) (n : Text) (v : Value) (s : Writer e)
      → Untouched e w s.world.heap (op s.world.heap).1
      → OpenObject v s.world.heap
      → c_str n ≢ proto
      → Runs e (add_to_object e op n v) s (AddedAt op v n s.world.heap)
  add_to_object-Runs op n v s u (object, array, known) ne =
      >>=-Runs e
        (fetch-Runs e op s (λ c h1. (c ≡ (op s.world.heap).0) × (h1 ≡ (op s.world.heap).1))
          (refl, refl))
        λ c s1 (is, there).
          let u1 = subst (Untouched e w s.world.heap) (sym there) u in
          >>=-Runs e
            (set_in_object-Runs v n c s1 (object, array, omega (arith, known, u1.grows)) ne)
            λ x s2 done. pure-Runs e c s2 _ (
              is,
              Attached-since v n s.world.heap s1.world.heap s2.world.heap c u1 known done,
              subst (λ h1. Change e w (number v) h1 s2.world.heap) there done.change,
            )
