-- ===== src/Transport/Queue.antt =====
-- src/transports/QueueTransport.h: the server's output in a queue that its owner polls.
pub mod Exchange
use rpcpp.Base.{List, [], ◌∷◌, ◌++◌, Option, none, some}
use rpcpp.Transport.Concurrent.{ConcurrentQueue}

module _ {A : Type 0} (cq : ConcurrentQueue A) where
  open cq use {Queue, enqueue, try_dequeue}

  unfoldable pub send : A → Queue → Queue
  send bytes q = enqueue bytes q

  unfoldable pub try_receive : Queue → Option A × Queue
  try_receive q = try_dequeue q

  -- What the threads do with the transport, in one order.
  pub data Use : Type 0 where
    sends : A → Use
    receives : Use

  abbrev pub got : Option A → List A → List A
  got none rest = rest
  got (some a) rest = a ∷ rest

  -- The received payloads, in their order, and the queue after the steps.
  unfoldable pub exchange : List Use → Queue → List A × Queue
  unfolding send try_receive
  exchange [] q = ([], q)
  exchange (sends a ∷ us) q = exchange us (send a q)
  exchange (receives ∷ us) q =
      let (x, q') = try_receive q in let (rest, last) = exchange us q' in (got x rest, last)

  pub sent_in : List Use → List A
  sent_in [] = []
  sent_in (sends a ∷ us) = a ∷ sent_in us
  sent_in (receives ∷ us) = sent_in us
