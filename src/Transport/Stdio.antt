-- ===== src/Transport/Stdio.antt =====
-- src/transports/StdioTransport.h: the dispatch loop between two streams, and the responder thread.
--
-- `_pending` is a `moodycamel::BlockingConcurrentQueue`, which is not part of the repository. Here it is
-- the history of what was enqueued, oldest first, which is not the order in which the items come out if more
-- than one thread enqueues; the responder is a function of the order in which the queue hands them out. An item is `none` for the exit sentinel; a payload keeps its origin.
-- A reply of `processMessage` is enqueued by the loop itself, with the origin `server`.
pub mod Output
pub mod Answers
pub mod Delivery
pub mod Input
pub mod Rounds
pub mod Order
pub mod Stranded
use rpcpp.Base.{
  ℕ, zero, suc, Bool, true, false, Option, none, some, List, [], ◌∷◌, ◌++◌, map, length, drop,
}
use rpcpp.Framer.{Bytes, Framer}
use rpcpp.Codec.{Codec}
use rpcpp.Net.{Origin, server, Sent, Net, Call, run_calls}
use rpcpp.Server.{Server, Answer, reply, silent, raises, process_message, wait_for_inflight}

-- How `run` ends, with what was enqueued: after the sentinel; never, since some request stays in
-- flight; or by an exception that `processMessage` let through, which enqueues no sentinel.
pub data Ending (S A : Type 0) : Type 0 where
  finished : S → List A → Ending S A
  blocked : List A → Ending S A
  unwinding : List A → Ending S A

-- `view` makes the codec's input from a frame; `payload` is what a framer writes of an output.
module _ (c : Codec) (H : Type 0) (view : Bytes → c.Input) (payload : c.Output → Bytes)
    (in_framer out_framer : Framer) where
  open c use {Input, Output, Generic, Ty, El}

  abbrev pub Item : Type 0
  Item = Option (Sent Output)

  abbrev pub Calls : Type 0
  Calls = List (Call Output Generic Ty El)

  pub record Loop : Type 0 where
    pub server : Server c H
    pub pending : List Item

  -- What the server has handed to `send` since then.
  abbrev pub news : Net Output → Net Output → List Item
  news before after = map some (drop (length before.port.sent) after.port.sent)

  -- The loop goes on with a new server; all that it sent is in the queue.
  abbrev pub advance : Server c H → Loop → Loop
  advance s l = record { server = s; pending = l.pending ++ news l.server.net s.net }

  -- The calls of other threads between two frames.
  abbrev pub meanwhile : Calls → Loop → Loop
  meanwhile ops l = advance (record l.server { net = run_calls c ops l.server.net }) l

  unfoldable pub enqueue_reply : Answer Output → Loop → Loop
  enqueue_reply (reply bytes) l = record l {
    pending = l.pending ++ some (record { origin = server; bytes = bytes }) ∷ [];
  }
  enqueue_reply silent l = l
  enqueue_reply raises l = l

  abbrev pub is_raised : Answer Output → Bool
  is_raised raises = true
  is_raised _ = false

  -- The body of the loop; the flag says that an exception leaves it.
  unfoldable pub on_frame : Bytes → Loop → Loop × Bool
  unfolding enqueue_reply
  on_frame frame l =
      let (s, answer) = process_message c H (view frame) l.server in
      (enqueue_reply answer (advance s l), is_raised answer)

  abbrev go_on : (Loop → Loop × Bool) → Loop × Bool → Loop × Bool
  go_on more (l, true) = (l, true)
  go_on more (l, false) = more l

  abbrev next_calls : List Calls → Calls
  next_calls [] = []
  next_calls (ops ∷ later) = ops

  abbrev later_calls : List Calls → List Calls
  later_calls [] = []
  later_calls (ops ∷ later) = later

  abbrev next_round : (Bytes → Loop → Loop × Bool) → Option Bytes × Bytes → Loop → Loop × Bool
  next_round more (none, rest) l = (l, false)
  next_round more (some frame, rest) l = go_on (more rest) (on_frame frame l)

  -- `while (auto frame = InF::read(in))`, on fuel for its rounds. The schedule has the calls that the
  -- other threads make before each round.
  unfoldable pub serve : ℕ → List Calls → Bytes → Loop → Loop × Bool
  unfolding on_frame
  serve zero schedule input l = (l, false)
  serve (suc fuel) schedule input l =
      next_round (serve fuel (later_calls schedule)) (in_framer.read input)
        (meanwhile (next_calls schedule) l)

  abbrev after_wait : Loop → Option (Server c H × Calls) → Ending (Server c H) Item
  after_wait l none = blocked l.pending
  after_wait l (some (s, rest)) = finished s ((advance s l).pending ++ none ∷ [])

  -- The end of `run`: `waitForInflight`, then the sentinel.
  abbrev shut_down : Calls → Loop × Bool → Ending (Server c H) Item
  shut_down ops (l, true) = unwinding l.pending
  shut_down ops (l, false) = after_wait l (wait_for_inflight c H ops l.server)

  unfoldable pub run : List Calls → Calls → Bytes → Server c H → Ending (Server c H) Item
  unfolding serve
  run schedule ops input s =
      shut_down ops
        (serve (suc (length input)) schedule input (record { server = s; pending = [] }))

  -- The responder thread, over the order in which it dequeues; `none` if it waits for ever.
  pub responder : List Item → Bytes → Option Bytes
  responder [] out = none
  responder (none ∷ rest) out = some out
  responder (some item ∷ rest) out = responder rest (out_framer.write out (payload item.bytes))
