-- ===== src/Transport/Queue/Exchange.antt =====
-- What src/transports/QueueTransport.h keeps of the payloads, whatever the order of the threads' steps.
use rpcpp.Base.{
  ◌+◌, ◌≡◌, refl, ap, Bool, List, [], ◌∷◌, Option, none, some, tally, arith, ◌⊎◌, inl, inr,
}
use rpcpp.Transport.Concurrent.{ConcurrentQueue}
use rpcpp.Transport.Queue.{send, try_receive, Use, sends, receives, got, exchange, sent_in}

module _ {A : Type 0} (cq : ConcurrentQueue A) where
  open cq use {Queue, contents}

  pub received-cases :
      (r : Option A × Queue)
      → ((q' : Queue) × (r ≡ (none, q'))) ⊎ ((a : A) × (q' : Queue) × (r ≡ (some a, q')))
  received-cases (none, q') = inl (q', refl)
  received-cases (some a, q') = inr (a, q', refl)

  pub try_receive-tally :
      (p : A → Bool) (q : Queue)
      → tally p (contents q)
        ≡ tally p (got cq (try_receive cq q).0 []) + tally p (contents (try_receive cq q).1)
  unfolding try_receive
  try_receive-tally p q = elim (received-cases (cq.try_dequeue q)) [
    | inl (q', e) ↦
        let (before, after) = cq.contents-none q q' e in rw (e, before, after) (omega arith)
    | inr (a, q', e) ↦ rw (cq.contents-some p q q' a e, e) (omega arith)
  ]

  got-tally :
      (p : A → Bool) (x : Option A) (rest : List A)
      → tally p (got cq x rest) ≡ tally p (got cq x []) + tally p rest
  got-tally p none rest = omega arith
  got-tally p (some a) rest = omega arith

  -- In whatever order the threads send and receive: each payload that was in the queue or was sent is
  -- received once or is still in the queue, and nothing else is.
  pub exchange-tally :
      (us : List (Use cq)) (q : Queue) (p : A → Bool)
      → tally p (exchange cq us q).0 + tally p (contents (exchange cq us q).1)
        ≡ tally p (contents q) + tally p (sent_in cq us)
  unfolding exchange sent_in send
  exchange-tally [] q p = omega arith
  exchange-tally (sends a ∷ us) q p =
      omega (arith, exchange-tally us (cq.enqueue a q) p, cq.contents-enqueue p a q)
  exchange-tally (receives ∷ us) q p = omega (
    arith,
    exchange-tally us (try_receive cq q).1 p,
    try_receive-tally p q,
    got-tally p (try_receive cq q).0 (exchange cq us (try_receive cq q).1).0,
  )

  -- After any such steps on a new transport, a `tryReceive` that gets nothing says that everything that was
  -- sent has been received, each payload as often as it was sent.
  pub receive_nothing :
      (us : List (Use cq)) (q' : Queue)
      → try_receive cq (exchange cq us cq.empty).1 ≡ (none, q')
      → (p : A → Bool) → tally p (exchange cq us cq.empty).0 ≡ tally p (sent_in cq us)
  unfolding try_receive
  receive_nothing us q' e p = omega (
    arith,
    exchange-tally us cq.empty p,
    ap (tally p) cq.contents-empty,
    ap (tally p) (cq.contents-none _ q' e).0,
  )
