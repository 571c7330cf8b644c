-- ===== src/Transport/QuickJs/Drain.antt =====
-- `QuickJSTransport::drain`: it ends, and every value that it builds is handed out once and freed.
use mathlib.Core.Path.{subst}
use rpcpp.Base.{
  ℕ, zero, suc, ◌+◌, ◌<◌, ◌≡◌, refl, sym, ap, ◌∙◌, Bool, true, false, ◌&&◌, none, some, List, [],
  ◌∷◌, ◌++◌, bit, tally, tally-append, arith, Text, ◌≢◌, ◌⊎◌, inl, inr, Option-cases,
}
use rpcpp.Codec.{ok-injective, Result, ok, error}
use rpcpp.QuickJs.{Engine, World, Ref, refs_of, Holds, free-Holds}
use rpcpp.QuickJs.Writer.{Root, write}
use rpcpp.QuickJs.Writer.Ownership.{BuildsRoot, made_root, write-Holds}
use rpcpp.Transport.Concurrent.{ConcurrentQueue}
use rpcpp.Transport.Queue.Exchange.{received-cases}
use rpcpp.Transport.QuickJs.{
  Thunk, QuickJsOut, Callback, Draining, deliver, hand_out, drain, after_callback,
}

module _ (e : Engine) where
  open e use {Value, has_ref_count, null}

  -- A thunk that returns, with the reference on the value that it has built.
  abbrev pub Returns : Thunk e → Type 0
  Returns thunk =
      (held : List (Ref e)) (w : World e)
      → Holds e held w
      → (v : Value) × ((thunk w).0 ≡ ok v) × Holds e (refs_of e v ++ held) (thunk w).1

  -- A callback that returns, and neither frees the value nor keeps a reference that it does not take.
  pub record Borrows {H : Type 0} (f : Callback e H) : Type 0 where
    pub returns : (v : Value) (h : H) (w : World e) → (f v h w).threw ≡ false
    pub balanced :
        (v : Value) (h : H) (w : World e) (held : List (Ref e))
        → Holds e held w
        → Holds e held (f v h w).world

  -- A written value is such a thunk, where `qjs::write` does not throw.
  pub write-Returns :
      (r : Root e)
      → has_ref_count null ≡ false
      → BuildsRoot e r
      → ((w : World e) (what : Text) → (write e r w).0 ≢ error what)
      → Returns (write e r)
  write-Returns r plain_null b calm held w h = built (write-Holds e plain_null r held w b h)
    where
      built :
          Holds e (refs_of e (made_root e r w) ++ held) (write e r w).1
            × (((write e r w).0 ≡ ok (made_root e r w))
                ⊎ ((what : Text) × ((write e r w).0 ≡ error what)))
          → (v : Value) × ((write e r w).0 ≡ ok v) × Holds e (refs_of e v ++ held) (write e r w).1
      built (k, inl done) = (made_root e r w, done, k)
      built (k, inr (what, thrown)) = absurd (calm w what thrown)

  abbrev pub has_thunk : QuickJsOut e → Bool
  has_thunk o = elim o.materialize [ none ↦ false | some t ↦ true ]

  module _ {A : Type 0} (out : A → QuickJsOut e) (cq : ConcurrentQueue A) (H : Type 0)
      (on_response : Callback e H)
      (sound : (a : A) (t : Thunk e) → (out a).materialize ≡ some t → Returns t)
      (borrows : Borrows on_response) where
    open cq use {Queue, contents}

    abbrev State : Type 0
    State = Draining e out cq H on_response

    abbrev passes : (A → Bool) → A → Bool
    passes p a = has_thunk (out a) && p a

    -- What a round does with its item, seen on the references and on what was delivered.
    record Delivered (held : List (Ref e)) (a : A) (s s' : State) : Type 0 where
      calm : s'.raised ≡ s.raised
      balanced : Holds e held s'.world
      same_queue : s'.queue ≡ s.queue
      counted : (p : A → Bool) → tally p s'.delivered ≡ tally p s.delivered + bit (passes p a)

    hand_out-ok :
        (a : A) (q : Result Value × World e) (s : State) (v : Value)
        → q.0 ≡ ok v
        → hand_out e out cq H on_response a q s
          ≡ after_callback e out cq H on_response a v (on_response v s.host q.1) s
    hand_out-ok a (error what, w) s v same = cc
    hand_out-ok a (ok x, w) s v same =
        ap (λ (y : Value). after_callback e out cq H on_response a y (on_response y s.host w) s)
          (ok-injective x v same)

    passes-some :
        (p : A → Bool) (a : A) (t : Thunk e) → (out a).materialize ≡ some t → passes p a ≡ p a
    passes-some p a t e = rw e

    passes-none : (p : A → Bool) (a : A) → (out a).materialize ≡ none → passes p a ≡ false
    passes-none p a e = rw e

    called :
        (held : List (Ref e)) (a : A) (t : Thunk e) (v : Value) (w : World e) (s : State)
        → (out a).materialize ≡ some t
        → s.raised ≡ false
        → Holds e (refs_of e v ++ held) w
        → Delivered held a s (after_callback e out cq H on_response a v (on_response v s.host w) s)
    called held a t v w s e calm h = rw (borrows.returns v s.host w) (record {
      calm = sym calm;
      balanced =
          free-Holds _ v held (on_response v s.host w).world
            (borrows.balanced v s.host w (refs_of _ v ++ held) h);
      same_queue = refl;
      counted =
          λ p. omega (arith, tally-append p s.delivered (a ∷ []), ap bit (passes-some p a t e));
    })

    deliver-Delivered :
        (held : List (Ref e)) (a : A) (s : State)
        → s.raised ≡ false
        → Holds e held s.world
        → Delivered held a s (deliver e out cq H on_response a (out a).materialize s)
    unfolding deliver
    deliver-Delivered held a s calm h = elim (Option-cases (out a).materialize) [
      | inl nothing ↦
          rw (nothing, deliver)
            (record {
              calm = refl;
              balanced = h;
              same_queue = refl;
              counted = λ p. omega (arith, ap bit (passes-none p a nothing));
            })
      | inr (t, found) ↦
          let (v, built, h') = sound a t found held s.world h in
          rw (found, deliver)
            (subst (Delivered held a s) (sym (hand_out-ok a (t s.world) s v built))
              (called held a t v (t s.world).1 s found calm h'))
    ]

    -- Where no thunk throws, each builds its value with one new reference, and the callback never throws,
    -- keeps no reference and frees none: `drain` gets to its end, with more rounds than there are items, the
    -- queue is empty, and nothing was thrown. Every item with a thunk was handed to the callback once, and no other; and exactly the
    -- references that were held before are held, so each value that was built has been freed.
    pub drain_lem :
        (fuel : ℕ) (held : List (Ref e)) (s : State)
        → tally (λ a. true) (contents s.queue) < fuel
        → s.raised ≡ false
        → Holds e held s.world
        → let s' = drain e out cq H on_response fuel s in
          (contents s'.queue ≡ [])
          × (s'.raised ≡ false)
          × ((p : A → Bool)
              → tally p s'.delivered
                ≡ tally p s.delivered + tally (λ a. has_thunk (out a) && p a) (contents s.queue))
          × Holds e held s'.world
    unfolding drain
    drain_lem zero held s few calm h = absurd (omega arith)
    drain_lem (suc fuel) held s few calm h = elim (received-cases cq (cq.try_dequeue s.queue)) [
      | inl (q', none_left) ↦
          let (before, after) = cq.contents-none s.queue q' none_left in
          rw (none_left, drain) (after, calm, λ p. omega (arith, ap (tally (passes p)) before), h)
      | inr (a, q', got_one) ↦
          let s1 : State = record s { queue = q' } in
          let d = deliver-Delivered held a s1 calm h in
          let s2 = deliver e out cq H on_response a (out a).materialize s1 in
          let fewer : tally (λ x. true) (contents s2.queue) < fuel = omega (
            arith,
            cq.contents-some (λ x. true) s.queue q' a got_one,
            ap (λ (q : Queue). tally (λ x. true) (contents q)) d.same_queue,
          ) in
          let (empty, still, counts, balanced) =
            drain_lem fuel held s2 fewer (d.calm ∙ calm) d.balanced in
          rw (got_one, drain, d.calm ∙ calm)
            (
              empty,
              still,
              λ p. omega (
                arith,
                counts p,
                d.counted p,
                cq.contents-some (passes p) s.queue q' a got_one,
                ap (λ (q : Queue). tally (passes p) (contents q)) d.same_queue,
              ),
              balanced,
            )
    ]
