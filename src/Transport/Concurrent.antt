-- ===== src/Transport/Concurrent.antt =====
-- `moodycamel::ConcurrentQueue`, which is not part of the repository: what the transports use of it.
--
-- The operations come one after another. An item that was enqueued comes out once; items come out in any
-- order; and a dequeue that nothing else overlaps fails only if the queue is empty.
use rpcpp.Base.{
  ◌+◌, ◌≡◌, refl, Bool, List, [], ◌∷◌, ◌++◌, Option, none, some, bit, tally, arith, tally-append,
}

pub record ConcurrentQueue (A : Type 0) : Type 1 where
  pub Queue : Type 0
  pub contents : Queue → List A
  pub empty : Queue
  pub enqueue : A → Queue → Queue
  pub try_dequeue : Queue → Option A × Queue
  pub contents-empty : contents empty ≡ []
  pub contents-enqueue :
      (p : A → Bool) (a : A) (q : Queue)
      → tally p (contents (enqueue a q)) ≡ bit (p a) + tally p (contents q)
  pub contents-some :
      (p : A → Bool) (q q' : Queue) (a : A)
      → try_dequeue q ≡ (some a, q')
      → tally p (contents q) ≡ bit (p a) + tally p (contents q')
  pub contents-none :
      (q q' : Queue) → try_dequeue q ≡ (none, q') → (contents q ≡ []) × (contents q' ≡ [])

module _ {A : Type 0} where
  unfoldable pub first_of : List A → Option A × List A
  first_of [] = (none, [])
  first_of (x ∷ xs) = (some x, xs)

  pub first_of-some :
      (p : A → Bool) (q q' : List A) (a : A)
      → first_of q ≡ (some a, q')
      → tally p q ≡ bit (p a) + tally p q'
  unfolding first_of
  first_of-some p [] q' a e = cc
  first_of-some p (x ∷ xs) q' a e = ground arith

  pub first_of-none : (q q' : List A) → first_of q ≡ (none, q') → (q ≡ []) × (q' ≡ [])
  unfolding first_of
  first_of-none [] q' e = (refl, cc)
  first_of-none (x ∷ xs) q' e = cc

-- A queue that is first-in first-out is one.
abbrev pub fifo : (A : Type 0) → ConcurrentQueue A
fifo A = record {
  Queue = List A;
  contents = λ q. q;
  empty = [];
  enqueue = λ a q. q ++ a ∷ [];
  try_dequeue = first_of;
  contents-empty = refl;
  contents-enqueue = λ p a q. omega (arith, tally-append p q (a ∷ []));
  contents-some = first_of-some;
  contents-none = first_of-none;
}
