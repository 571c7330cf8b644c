-- ===== src/QuickJs/Reader/Holding.antt =====
-- Which references a method of src/qjs/Reader.hpp holds before and after, as a logic of specifications.
use mathlib.Core.List.{append-nil, append_assoc}
use rpcpp.Base.{
  tally, tally-append, ◌+◌, ◌≡◌, refl, sym, ap, ◌∙◌, Text, Bool, true, false, Option, List, [], ◌∷◌,
  ◌++◌, if◌then◌else◌, arith,
}
use rpcpp.QuickJs.{
  Engine, World, Ref, string, names, refs_of, fetch, query, free, Holds, fetch-Holds, free-Holds,
  begin-Holds, end-Holds,
}
use rpcpp.QuickJs.Reader.{
  Reader, M, pure, ◌>>=◌, lift, act, fetch_text, fetch_names, release_text, release_names, track,
  text_ref, names_ref,
}

module _ (e : Engine) where
  open e use {Value, Heap, Atom, is_exception}

  abbrev pub refs_all : List Value → List (Ref e)
  refs_all [] = []
  refs_all (v ∷ vs) = refs_of e v ++ refs_all vs

  -- From `pre` in the hands of a method to `post`, beside what the reader owns and whatever else is held.
  -- The list `owned_` is only added to.
  pub record Spec {A : Type 0} (pre : List (Ref e)) (m : M e A) (post : A → List (Ref e))
      : Type 0 where
    pub balance :
        (others : List (Ref e)) (s : Reader e)
        → Holds e (pre ++ (refs_all s.owned ++ others)) s.world
        → Holds e (post (m s).0 ++ (refs_all (m s).1.owned ++ others)) (m s).1.world
    pub grows : (s : Reader e) → (more : List Value) × ((m s).1.owned ≡ s.owned ++ more)

  -- A method that ends with no reference in hand but those that the reader owns.
  abbrev pub Keeps : {A : Type 0} → M e A → Type 0
  Keeps m = Spec [] m (λ a. [])

  pub pure-Spec : {A : Type 0} (post : A → List (Ref e)) (a : A) → Spec (post a) (pure e a) post
  pure-Spec post a = record {
    balance = λ others s h. h;
    grows = λ s. ([], sym (append-nil s.owned));
  }

  pub >>=-Spec :
      {A B : Type 0} {m : M e A} {f : A → M e B} {pre : List (Ref e)} {mid : A → List (Ref e)}
      {post : B → List (Ref e)}
      → Spec pre m mid
      → ((a : A) → Spec (mid a) (f a) post)
      → Spec pre (◌>>=◌ e m f) post
  >>=-Spec {m = m} {f = f} first next = record {
    balance = λ others s h. (next (m s).0).balance others (m s).1 (first.balance others s h);
    grows = λ s.
        let (xs, p) = first.grows s in
        let (ys, q) = (next (m s).0).grows (m s).1 in
        (xs ++ ys, q ∙ ap (λ zs. zs ++ ys) p ∙ append_assoc s.owned xs ys);
  }

  pub frame-Spec :
      {A : Type 0} {m : M e A} {pre : List (Ref e)} {post : A → List (Ref e)} (kept : List (Ref e))
      → Spec pre m post
      → Spec (pre ++ kept) m (λ a. post a ++ kept)
  frame-Spec {m = m} {pre = pre} {post = post} kept spec = record {
    balance = λ others s h p.
        let here = refs_all s.owned in
        let there = refs_all (m s).1.owned in
        omega (
          arith,
          spec.balance (kept ++ others) s
              (λ q. omega (
                arith,
                h q,
                tally-append q (pre ++ kept) (here ++ others),
                tally-append q pre kept,
                tally-append q here others,
                tally-append q pre (here ++ (kept ++ others)),
                tally-append q here (kept ++ others),
                tally-append q kept others,
              ))
              p,
          tally-append p (post (m s).0 ++ kept) (there ++ others),
          tally-append p (post (m s).0) kept,
          tally-append p there others,
          tally-append p (post (m s).0) (there ++ (kept ++ others)),
          tally-append p there (kept ++ others),
          tally-append p kept others,
        );
    grows = spec.grows;
  }

  pub if-Spec :
      {A : Type 0} {m n : M e A} {pre : List (Ref e)} {post : A → List (Ref e)} (b : Bool)
      → Spec pre m post
      → Spec pre n post
      → Spec pre (if b then m else n) post
  if-Spec true p q = p
  if-Spec false p q = q

  -- What leaves `owned_` alone has the specification that it has on the world.
  pub lift-Spec :
      {A : Type 0} (op : World e → A × World e) (pre : List (Ref e)) (post : A → List (Ref e))
      → ((held : List (Ref e)) (w : World e)
          → Holds e (pre ++ held) w
          → Holds e (post (op w).0 ++ held) (op w).1)
      → Spec pre (lift e op) post
  lift-Spec op pre post law = record {
    balance = λ others s h. law (refs_all s.owned ++ others) s.world h;
    grows = λ s. ([], sym (append-nil s.owned));
  }

  pub fetch-Spec : (op : Heap → Value × Heap) → Spec [] (lift e (fetch e op)) (refs_of e)
  fetch-Spec op = lift-Spec (fetch e op) [] (refs_of e) (fetch-Holds e op)

  pub query-Spec : {A : Type 0} (op : Heap → A × Heap) → Keeps (lift e (query e op))
  unfolding query
  query-Spec op = lift-Spec (query e op) [] (λ a. []) (λ held w h. h)

  pub free-Spec : (v : Value) → Spec (refs_of e v) (act e (free e v)) (λ u. [])
  free-Spec v = lift-Spec (λ w. (tt, free e v w)) (refs_of e v) (λ u. []) (free-Holds e v)

  pub fetch_text-Spec :
      (op : Heap → Option Text × Heap) → Spec [] (lift e (fetch_text e op)) (text_ref e)
  unfolding query
  fetch_text-Spec op =
      lift-Spec (fetch_text e op) [] (text_ref e)
        λ held w h. begin-Holds e (text_ref e (op w.heap).0) held w h

  pub fetch_names-Spec :
      (op : Heap → Option (List Atom) × Heap) → Spec [] (lift e (fetch_names e op)) (names_ref e)
  unfolding query
  fetch_names-Spec op =
      lift-Spec (fetch_names e op) [] (names_ref e)
        λ held w h. begin-Holds e (names_ref e (op w.heap).0) held w h

  pub release_text-Spec : (s : Text) → Spec (string s ∷ []) (act e (release_text e s)) (λ u. [])
  release_text-Spec s =
      lift-Spec (λ w. (tt, release_text e s w)) (string s ∷ []) (λ u. [])
        λ held w h. end-Holds e (string s ∷ []) held w h

  pub release_names-Spec :
      (ns : List Atom) → Spec (names ns ∷ []) (act e (release_names e ns)) (λ u. [])
  release_names-Spec ns =
      lift-Spec (λ w. (tt, release_names e ns w)) (names ns ∷ []) (λ u. [])
        λ held w h. end-Holds e (names ns ∷ []) held w h

  pub refs_all-snoc :
      (p : Ref e → Bool) (vs : List Value) (v : Value)
      → tally p (refs_all (vs ++ v ∷ [])) ≡ tally p (refs_of e v) + tally p (refs_all vs)
  refs_all-snoc p [] v = rw (append-nil (refs_of e v)) (omega arith)
  refs_all-snoc p (x ∷ vs) v = omega (
    arith,
    refs_all-snoc p vs v,
    tally-append p (refs_of e x) (refs_all (vs ++ v ∷ [])),
    tally-append p (refs_of e x) (refs_all vs),
  )

  pub track-Spec : (v : Value) → Spec (refs_of e v) (track e v) (λ u. [])
  unfolding track
  track-Spec v = record {
    balance = λ others s h p. omega (
      arith,
      h p,
      refs_all-snoc p s.owned v,
      tally-append p (refs_of e v) (refs_all s.owned ++ others),
      tally-append p (refs_all s.owned) others,
      tally-append p (refs_all (s.owned ++ v ∷ [])) others,
    );
    grows = λ s. (v ∷ [], refl);
  }

  pub pure-Keeps : {A : Type 0} (a : A) → Keeps (pure e a)
  pure-Keeps a = pure-Spec (λ a. []) a
