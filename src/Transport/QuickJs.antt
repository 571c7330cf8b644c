-- ===== src/Transport/QuickJs.antt =====
-- src/codecs/QuickJSCodec.h and src/transports/QuickJSTransport.h: output as deferred QuickJS values.
--
-- The host's callback is code of the host program: a function of the value, the host's state `H` and the
-- world, which may throw. An exception of a thunk or of the callback leaves `drain`. What was handed to the
-- callback is kept in `delivered` for the theorems.
pub mod Drain
pub mod Answers
use rpcpp.Base.{
  ℕ, zero, suc, Bool, true, false, Option, none, some, List, [], ◌∷◌, ◌++◌, if◌then◌else◌,
}
use rpcpp.Codec.{Result, ok, error}
use rpcpp.QuickJs.{Engine, World, free}
use rpcpp.QuickJs.Writer.{Root, write}
use rpcpp.Transport.Concurrent.{ConcurrentQueue}

-- What a callback leaves behind.
pub record Reply (H W : Type 0) : Type 0 where
  pub host : H
  pub world : W
  pub threw : Bool

module _ {A : Type 0} (cq : ConcurrentQueue A) where
  open cq use {Queue, enqueue}

  unfoldable pub send : A → Queue → Queue
  send item q = enqueue item q

  -- What a server sends, one item after another.
  pub send_all : List A → Queue → Queue
  unfolding send
  send_all [] q = q
  send_all (x ∷ xs) q = send_all xs (send x q)

module _ (e : Engine) where
  open e use {Value}

  -- `std::function<JSValue(JSContext*)>`
  abbrev pub Thunk : Type 0
  Thunk = World e → Result Value × World e

  pub record QuickJsOut : Type 0 where
    pub materialize : Option Thunk

  -- `QuickJSCodec::write`
  unfoldable pub deferred : Root e → QuickJsOut
  deferred r = record { materialize = some (write e r) }

  abbrev pub Callback : Type 0 → Type 0
  Callback H = Value → H → World e → Reply H (World e)

  -- A queue of items with an output each.
  module _ {A : Type 0} (out : A → QuickJsOut) (cq : ConcurrentQueue A) (H : Type 0)
      (on_response : Callback H) where
    open cq use {Queue, try_dequeue}

    pub record Draining : Type 0 where
      pub queue : Queue
      pub host : H
      pub world : World e
      pub delivered : List A
      pub raised : Bool

    -- After the callback: the value is freed, unless an exception goes past the call that frees it.
    abbrev after_callback : A → Value → Reply H (World e) → Draining → Draining
    after_callback a v r s = record s {
      host = r.host;
      world = if r.threw then r.world else free e v r.world;
      delivered = s.delivered ++ a ∷ [];
      raised = r.threw;
    }

    abbrev pub hand_out : A → Result Value × World e → Draining → Draining
    hand_out a (error what, w) s = record s { world = w; raised = true }
    hand_out a (ok v, w) s = after_callback a v (on_response v s.host w) s

    -- The body of the loop of `drain`.
    pub deliver : A → Option Thunk → Draining → Draining
    deliver a none s = s
    deliver a (some thunk) s = hand_out a (thunk s.world) s

    abbrev pub unless_raised : (Draining → Draining) → Draining → Draining
    unless_raised more s = if s.raised then s else more s

    abbrev pub next_item : (Draining → Draining) → Option A × Queue → Draining → Draining
    next_item more (none, q) s = record s { queue = q }
    next_item more (some a, q) s =
        unless_raised more (deliver a (out a).materialize (record s { queue = q }))

    -- `drain`, on fuel for its rounds.
    pub drain : ℕ → Draining → Draining
    unfolding deliver
    drain zero s = s
    drain (suc fuel) s = next_item (drain fuel) (try_dequeue s.queue) s
