-- ===== src/Transport/Stdio/Stranded.antt =====
-- The exit sentinel of src/transports/StdioTransport.h, with the order that the queue documents.
--
-- `moodycamel::ConcurrentQueue` keeps the order of the items of one producer thread, and no order
-- between the items of different producers. `DequeueOrder` says so; it is what the queue is known to
-- guarantee, and nothing here needs more.
use mathlib.Core.List.Perm
use rpcpp.Base.{
  ℕ, ◌≡◌, refl, ◌≢◌, ap, none, some, List, [], ◌∷◌, ◌++◌, map, arith, ◌==◌, if◌then◌else◌,
}
use mathlib.Core.List.{Perm}
use rpcpp.Framer.{Bytes, Framer}
use rpcpp.Framer.Stream.{write_all}
use rpcpp.Codec.{Codec}
use rpcpp.Net.{Sent}
use rpcpp.Transport.Stdio.{Item, responder}
use rpcpp.Transport.Stdio.Output.{responder-sentinel}

module _ {A : Type 0} where
  -- What thread `p` enqueued, in its order.
  unfoldable pub from_producer : ℕ → List (ℕ × A) → List A
  from_producer p [] = []
  from_producer p ((q, a) ∷ xs) = let rest = from_producer p xs in if q == p then a ∷ rest else rest

  -- `order` is a way in which the items of `history` may come out.
  pub record DequeueOrder (history order : List (ℕ × A)) : Type 0 where
    pub same_items : Perm order history
    pub in_order : (p : ℕ) → from_producer p order ≡ from_producer p history

  abbrev pub items_of : List (ℕ × A) → List A
  items_of = map (λ x. x.1)

  abbrev pub by_thread : ℕ → List A → List (ℕ × A)
  by_thread p = map (λ a. (p, a))

  pub from_producer-append :
      (p : ℕ) (xs ys : List (ℕ × A))
      → from_producer p (xs ++ ys) ≡ from_producer p xs ++ from_producer p ys
  unfolding from_producer
  from_producer-append p [] ys = refl
  from_producer-append p ((q, a) ∷ xs) ys = ground (arith, from_producer-append p xs ys)

  -- Two items of different threads that were enqueued last may come out the other way round.
  pub swap_last :
      (xs : List (ℕ × A)) (p q : ℕ) (a b : A)
      → p ≢ q
      → DequeueOrder (xs ++ (p, a) ∷ (q, b) ∷ []) (xs ++ (q, b) ∷ (p, a) ∷ [])
  unfolding from_producer
  swap_last xs p q a b ne = record {
    same_items = Perm.append_left xs (Perm.swap _ _ _);
    in_order = λ r. ground (
      arith,
      from_producer-append r xs ((p, a) ∷ (q, b) ∷ []),
      from_producer-append r xs ((q, b) ∷ (p, a) ∷ []),
    );
  }

  items_of-by_thread :
      (p : ℕ) (xs : List A) (ys : List (ℕ × A))
      → items_of (by_thread p xs ++ ys) ≡ xs ++ items_of ys
  items_of-by_thread p [] ys = refl
  items_of-by_thread p (x ∷ xs) ys = ap (◌∷◌ x) (items_of-by_thread p xs ys)

module _ (c : Codec) (H : Type 0) (view : Bytes → c.Input) (payload : c.Output → Bytes)
    (in_framer out_framer : Framer) where
  open c use {Output}

  -- The loop's thread 0 has enqueued its replies, another thread the answer of an asynchronous request,
  -- and then thread 0 enqueues the sentinel, as `run` does after `waitForInflight`. There is an order
  -- that the queue allows in which the responder ends with every reply written and the answer not.
  pub answer_stranded :
      (replies : List (Sent Output)) (answer : Sent Output) (worker : ℕ) (out : Bytes)
      → worker ≢ 0
      → let history = by_thread 0 (map some replies) ++ (worker, some answer) ∷ (0, none) ∷ [] in
        (order : List (ℕ × Item c H view payload in_framer out_framer)) × DequeueOrder history order
        × (responder c H view payload in_framer out_framer (items_of order) out
            ≡ some (write_all out_framer out (map (λ x. payload x.bytes) replies)))
  answer_stranded replies answer worker out other = (
    by_thread 0 (map some replies) ++ (0, none) ∷ (worker, some answer) ∷ [],
    swap_last (by_thread 0 (map some replies)) worker 0 (some answer) none other,
    rw (items_of-by_thread 0 (map some replies) ((0, none) ∷ (worker, some answer) ∷ []))
        (responder-sentinel c H view payload in_framer out_framer replies (some answer ∷ []) out),
  )
