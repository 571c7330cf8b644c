-- ===== src/QuickJs/Reader/Objects.antt =====
-- `read_object` (src/qjs/Reader.hpp) where it succeeds: the callback sees each property in the engine's order.
use rpcpp.Base.{
  ◌<◌, ◌≡◌, refl, ◌∙◌, Text, Bool, true, false, not, none, some, List, [], ◌∷◌, Each, arith,
  if◌then◌else◌,
}
use rpcpp.QuickJs.{Engine, fetch, query, free}
use rpcpp.QuickJs.Laws.{View, Plain, Names, Untouched, Laws, Change-refl, Untouched-trans}
use rpcpp.QuickJs.Reader.{
  Reader, M, pure, ◌>>=◌, ◌>>◌, lift, act, track, visit, drop_text, read_property, read_properties,
  read_object, properties_or_error, fetch_names, release_names,
}
use rpcpp.QuickJs.Reader.Gets.{
  Gets, >>=-Gets, then-Gets, fetch-Gets, fetch_text-Gets, pure-Gets, track-Gets,
}

module _ (e : Engine) (w : View e) (laws : Laws e w) where
  open e use {Value, Heap, Atom}
  open w use {field, keys, number, made}

  -- The callback takes the properties of these names one by one, from the state `x` to the state `z`.
  pub data Sees {X : Type 0} (read : Text → Value → X → M e X) (v : Value) (h : Heap)
      : List Text → X → X → Type 0 where
    seen : (x : X) → Sees read v h [] x x
    seen_more :
        (n : Text) (ns : List Text) (c : Value) (x y z : X)
        → field v n h ≡ some c
        → Plain e c
        → ((s : Reader e) → Untouched e w h s.world.heap → Gets e w laws (read n c x) y s)
        → Sees read v h ns y z
        → Sees read v h (n ∷ ns) x z

  visit-Gets :
      {X : Type 0} (read : Text → Value → X → M e X) (n : Text) (c : Value) (x y : X) (s : Reader e)
      → Plain e c
      → ((s' : Reader e)
          → Untouched e w s.world.heap s'.world.heap
          → Gets e w laws (read n c x) y s')
      → Gets e w laws (visit e read (some n) c x) y s
  visit-Gets read n c x y s plain takes = taken (not (e.is_exception c)) (rw plain.0 refl)
    where
      taken :
          (b : Bool)
          → b ≡ true
          → Gets e w laws
              (if b
                then (◌>>=◌ e (track e c) (λ v. read n v x))
                else (◌>>◌ e (act e (free e c)) (pure e x)))
              y
              s
      taken true is =
          >>=-Gets e w laws (λ v. read n v x) (track-Gets e w laws c s) λ s1 u. takes s1 u
      taken false is = cc

  read_property-Gets :
      {X : Type 0} (read : Text → Value → X → M e X) (v : Value) (a : Atom) (n : Text) (c : Value)
      (h : Heap) (x y : X) (s : Reader e)
      → e.is_object v ≡ true
      → number v < made h
      → Names e w a n h
      → field v n h ≡ some c
      → Plain e c
      → Untouched e w h s.world.heap
      → ((s' : Reader e) → Untouched e w h s'.world.heap → Gets e w laws (read n c x) y s')
      → Gets e w laws (read_property e read v a x) y s
  unfolding read_property
  read_property-Gets read v a n c h x y s object known (gives, gets) there plain u takes =
      >>=-Gets e w laws
        (λ name.
          ◌>>=◌ e (lift e (fetch e (e.get_atom v a)))
            λ c. ◌>>=◌ e (visit e read name c x) λ y. ◌>>◌ e (drop_text e name) (pure e y))
        (fetch_text-Gets e w laws (e.atom_text a) (some n) s (gives s.world.heap u.later)
          (laws.atom_text_law a s.world.heap))
        λ s1 u1.
          let v1 = Untouched-trans e w laws h s.world.heap s1.world.heap u u1 in
          let law =
            gets v c s1.world.heap v1.later object
              (v1.fields_kept v n known (λ same. absurd (omega (arith, known))) ∙ there) in
          >>=-Gets e w laws
            (λ c. ◌>>=◌ e (visit e read (some n) c x) λ y. ◌>>◌ e (drop_text e (some n)) (pure e y))
            (fetch-Gets e w laws (e.get_atom v a) c s1 law.0 law.1)
            λ s2 u2.
              let v2 = Untouched-trans e w laws h s1.world.heap s2.world.heap v1 u2 in
              >>=-Gets e w laws (λ y. ◌>>◌ e (drop_text e (some n)) (pure e y))
                (visit-Gets read n c x y s2 plain
                  λ s3 u3. takes s3 (Untouched-trans e w laws h s2.world.heap s3.world.heap v2 u3))
                λ s3 u3.
                  >>=-Gets e w laws {m = drop_text e (some n)} (λ t. pure e y)
                    (record { value = refl; same = laws.free_text_law n s3.world.heap })
                    λ s4 u4. pure-Gets e w laws y s4

  read_properties-Gets :
      {X : Type 0} (read : Text → Value → X → M e X) (v : Value) (h : Heap) (atoms : List Atom)
      (ns : List Text) (x y : X) (s : Reader e)
      → e.is_object v ≡ true
      → number v < made h
      → Each (λ a n. Names e w a n h) atoms ns
      → Untouched e w h s.world.heap
      → Sees read v h ns x y
      → Gets e w laws (read_properties e read v atoms x) y s
  unfolding read_properties
  read_properties-Gets read v h [] _ _ _ s object known each u (seen x) = pure-Gets e w laws x s
  read_properties-Gets read v h (a ∷ atoms) _ _ _ s object known each u (seen x) = absurd each
  read_properties-Gets read v h [] _ _ _ s object known each u
        (seen_more n ns c x y z there plain takes rest) =
      absurd each
  read_properties-Gets read v h (a ∷ atoms) _ _ _ s object known each u
        (seen_more n ns c x y z there plain takes rest) =
      >>=-Gets e w laws (read_properties e read v atoms)
        (read_property-Gets read v a n c h x y s object known each.0 there plain u takes)
        λ s1 u1.
          read_properties-Gets read v h atoms ns y z s1 object known each.1
            (Untouched-trans e w laws h s.world.heap s1.world.heap u u1) rest

  pub read_object-Gets :
      {X : Type 0} (read : Text → Value → X → M e X) (v : Value) (x y : X) (s : Reader e)
      → e.is_object v ≡ true
      → number v < made s.world.heap
      → ((h : Heap) → Untouched e w s.world.heap h → Sees read v h (keys v s.world.heap) x y)
      → Gets e w laws (read_object e read x v) (none, y) s
  unfolding read_object query
  read_object-Gets read v x y s object known sees =
      let h = s.world.heap in
      let law = laws.own_names_law v h object known in
      let h1 = (e.own_names v h).1 in
      let atoms = law.0 in
      then-Gets e w laws {m = lift e (fetch_names e (e.own_names v))}
        (properties_or_error e read x v) (record { value = law.1; same = law.3 })
        (>>=-Gets e w laws {m = read_properties e read v atoms x}
          (λ y. ◌>>◌ e (act e (release_names e atoms)) (pure e (none, y)))
          (read_properties-Gets read v h1 atoms (keys v h) x y _ object
            (omega (arith, known, law.3.grows)) law.2 (Change-refl e w laws (made h1) h1)
            (sees h1 law.3))
          λ s2 u2.
            >>=-Gets e w laws {m = act e (release_names e atoms)} (λ t. pure e (none, y))
              (record { value = refl; same = laws.free_names_law atoms s2.world.heap })
              λ s3 u3. pure-Gets e w laws (none, y) s3)
