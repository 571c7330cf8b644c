-- ===== src/Net/Invariant.antt =====
-- What holds of the shared state of src/RpcServer.h between any two steps.
use mathlib.Core.Path.{subst}
use mathlib.Core.List.{append-nil, append_assoc}
use rpcpp.Base.{
  bit, ℕ, zero, suc, ◌+◌, ◌≤◌, ◌≡◌, refl, ◌≢◌, true, false, some, List, [], ◌∷◌, ◌++◌, arith,
  length, get_elem?, set, ℕ_discrete, sym, ◌∙◌, length-set, get_elem?-lt, get_elem?-set_ne,
  get_elem?-set_self, ◌==◌,
}
use rpcpp.Codec.{Codec}
use rpcpp.Net.{
  Origin, server, context, Sent, Port, Context, Net, is_alive, context_state, send, empty_net,
}

abbrev pub sent_by : ℕ → Origin → ℕ
sent_by k server = 0
sent_by k (context j) = bit (j == k)

module _ {Out : Type 0} where
  -- How many payloads context `k` has sent.
  unfoldable pub answers : ℕ → List (Sent Out) → ℕ
  answers k [] = 0
  answers k (s ∷ ss) = sent_by k s.origin + answers k ss

  pub answers-append :
      (k : ℕ) (xs ys : List (Sent Out)) → answers k (xs ++ ys) ≡ answers k xs + answers k ys
  unfolding answers
  answers-append k [] ys = omega arith
  answers-append k (s ∷ xs) ys = omega (arith, answers-append k xs ys)

  -- A payload counts for its origin.
  pub answers-send :
      (j : ℕ) (o : Origin) (bytes : Out) (p : Port Out)
      → answers j (send o bytes p).sent ≡ answers j p.sent + sent_by j o
  unfolding answers
  answers-send j o bytes p =
      omega (arith, answers-append j p.sent (record { origin = o; bytes = bytes } ∷ []))

  pub answers-server :
      (k : ℕ) (bytes : Out) → answers k (record { origin = server; bytes = bytes } ∷ []) ≡ 0
  unfolding answers
  answers-server k bytes = refl

  -- The log of what was sent is only ever added to.
  abbrev pub Grows : Port Out → Port Out → Type 0
  Grows p p' = (extra : List (Sent Out)) × (p'.sent ≡ p.sent ++ extra)

  pub Grows-refl : (p : Port Out) → Grows p p
  Grows-refl p = ([], sym (append-nil p.sent))

  pub Grows-trans : (p q r : Port Out) → Grows p q → Grows q r → Grows p r
  Grows-trans p q r (xs, e) (ys, f) = (xs ++ ys, rw (f, e) (append_assoc p.sent xs ys))

  -- How many contexts are not destroyed yet.
  pub live : List (Context Out) → ℕ
  live [] = 0
  live (cx ∷ cs) = bit (is_alive cx) + live cs

  pub live-snoc :
      (cs : List (Context Out)) (cx : Context Out)
      → live (cs ++ cx ∷ []) ≡ live cs + bit (is_alive cx)
  unfolding live
  live-snoc [] cx = omega arith
  live-snoc (x ∷ cs) cx = omega (arith, live-snoc cs cx)

  pub live-set :
      (cs : List (Context Out)) (k : ℕ) (cx cx' : Context Out)
      → get_elem? cs k ≡ some cx
      → live (set cs k cx') + bit (is_alive cx) ≡ live cs + bit (is_alive cx')
  unfolding live
  live-set [] k cx cx' e = cc
  live-set (x ∷ cs) zero cx cx' e = ground arith
  live-set (x ∷ cs) (suc k) cx cx' e = omega (arith, live-set cs k cx cx' e)

  pub live-pos :
      (cs : List (Context Out)) (k : ℕ) (cx : Context Out)
      → get_elem? cs k ≡ some cx
      → is_alive cx ≡ true
      → 1 ≤ live cs
  unfolding live
  live-pos [] k cx e h = cc
  live-pos (x ∷ cs) zero cx e h = ground arith
  live-pos (x ∷ cs) (suc k) cx e h = omega (arith, live-pos cs k cx e h)

pub answers-nil : (Out : Type 0) (k : ℕ) → answers {Out = Out} k [] ≡ 0
unfolding answers
answers-nil Out k = refl

module _ (c : Codec) where
  open c use {Output, Generic}

  -- One context: its callbacks are the ones that it was made with; it has answered if and only if it is
  -- done, and then once; and a state that is destroyed is done.
  pub record Good (k : ℕ) (p : Port Output) (cx : Context Output) : Type 0 where
    pub id : Generic
    pub wired : cx.state ≡ record (context_state c k id) { done = cx.state.done }
    pub answered : answers k p.sent ≡ bit cx.state.done
    pub settled : is_alive cx ≡ false → cx.state.done ≡ true

  pub Good-other :
      (j : ℕ) (p p' : Port Output) (cy : Context Output)
      → answers j p'.sent ≡ answers j p.sent
      → Good j p cy
      → Good j p' cy
  Good-other j p p' cy e g = record {
    id = g.id;
    wired = g.wired;
    answered = e ∙ g.answered;
    settled = g.settled;
  }

  pub record Inv (n : Net Output) : Type 0 where
    pub good : (k : ℕ) (cx : Context Output) → get_elem? n.contexts k ≡ some cx → Good k n.port cx
    pub counted : n.port.inflight ≡ live n.contexts
    pub fresh : (k : ℕ) → length n.contexts ≤ k → answers k n.port.sent ≡ 0

  pub Inv-empty : Inv empty_net
  unfolding live answers
  Inv-empty = record { good = λ k cx e. cc; counted = refl; fresh = λ k h. refl }

  -- A step that touches context `k` alone keeps the invariant if it keeps that context good.
  pub Inv-set :
      (n : Net Output) (k : ℕ) (cx cx' : Context Output) (p' : Port Output)
      → Inv n
      → get_elem? n.contexts k ≡ some cx
      → Good k p' cx'
      → ((j : ℕ) → j ≢ k → answers j p'.sent ≡ answers j n.port.sent)
      → p'.inflight + bit (is_alive cx) ≡ n.port.inflight + bit (is_alive cx')
      → Inv (record { port = p'; contexts = set n.contexts k cx' })
  Inv-set n k cx cx' p' inv e g others count = record {
    good = λ j cy f. elim (ℕ_discrete j k) [
      | yes same ↦
          let now : get_elem? (set n.contexts k cx') k ≡ some cx' =
            get_elem?-set_self n.contexts k cx' (get_elem?-lt n.contexts k e) in
          let eq : cx' ≡ cy = cc in rw same (subst (Good k p') eq g)
      | no other ↦
          Good-other j n.port p' cy (others j other)
            (inv.good j cy (sym (get_elem?-set_ne n.contexts k j cx' other) ∙ f))
    ];
    counted = omega (arith, live-set n.contexts k cx cx' e, inv.counted);
    fresh = λ j h.
        let lt = get_elem?-lt n.contexts k e in
        let len = length-set n.contexts k cx' in
        others j (λ eq. absurd (omega arith)) ∙ inv.fresh j (omega arith);
  }

  -- A step from one state to the next.
  pub record Next (n n' : Net Output) : Type 0 where
    pub inv : Inv n'
    pub grows : Grows n.port n'.port

  pub Next-refl : {n : Net Output} → Inv n → Next n n
  Next-refl {n} inv = record { inv = inv; grows = Grows-refl n.port }

  pub Next-trans : {n m k : Net Output} → Next n m → Next m k → Next n k
  Next-trans {n} {m} {k} a b = record {
    inv = b.inv;
    grows = Grows-trans n.port m.port k.port a.grows b.grows;
  }
