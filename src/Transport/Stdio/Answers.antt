-- ===== src/Transport/Stdio/Answers.antt =====
-- What `run` of src/transports/StdioTransport.h puts into its queue.
use mathlib.Core.Path.{subst₂}
use mathlib.Core.List.{map-append}
use rpcpp.Base.{
  ℕ, zero, suc, ◌+◌, ◌≡◌, refl, sym, ap, Bool, true, false, Option, none, some, List, [], ◌∷◌, ◌++◌,
  map, length, drop, drop-append, arith, inl, inr, Option-cases,
}
use rpcpp.Framer.{Bytes, Framer}
use rpcpp.Codec.{Codec}
use rpcpp.Net.{server, Sent}
use rpcpp.Net.Invariant.{answers, answers-append, answers-nil, answers-server}
use rpcpp.Net.Calls.{run_calls-Next}
use rpcpp.Server.{
  Server, Answer, reply, silent, raises, process_message, wait_for_inflight, has_inflight,
}
use rpcpp.Server.Inflight.{Holds, Goes, process_message-Goes}
use rpcpp.Server.Waiting.{Waited, wait-Waited}
use rpcpp.Transport.Stdio.{
  Loop, Item, Calls, advance, meanwhile, enqueue_reply, on_frame, go_on, next_round, serve, run,
  shut_down, after_wait, next_calls, later_calls, Ending, finished,
}

module _ (c : Codec) (H : Type 0) (view : Bytes → c.Input) (payload : c.Output → Bytes)
    (in_framer out_framer : Framer) where
  open c use {Input, Output, Generic}

  abbrev LoopState : Type 0
  LoopState = Loop c H view payload in_framer out_framer

  -- The queue holds payloads alone, and for each context as many as it has sent since `base`.
  pub record Tracked (base : List (Sent Output)) (l : LoopState) : Type 0 where
    pub items : List (Sent Output)
    pub queued : l.pending ≡ map some items
    pub counted : (k : ℕ) → answers k items + answers k base ≡ answers k l.server.net.port.sent
    pub holds : Holds c H l.server

  module _ (base : List (Sent Output)) where
    advance-Tracked :
        (s : Server c H) (l : LoopState)
        → Goes c H l.server s
        → Tracked base l
        → Tracked base (advance c H view payload in_framer out_framer s l)
    advance-Tracked s l goes t = record {
      items = t.items ++ extra;
      queued = rw (fresh, t.queued) (sym (map-append some t.items extra));
      counted = λ k. omega (
        arith,
        t.counted k,
        ap (answers k) grown,
        answers-append k l.server.net.port.sent extra,
        answers-append k t.items extra,
      );
      holds = goes.inv;
    }
      where
        extra : List (Sent Output)
        extra = goes.grows.0

        grown : s.net.port.sent ≡ l.server.net.port.sent ++ extra
        grown = goes.grows.1

        fresh : drop (length l.server.net.port.sent) s.net.port.sent ≡ extra
        fresh = rw grown (drop-append l.server.net.port.sent extra)

    enqueue_reply-Tracked :
        (a : Answer Output) (l : LoopState)
        → Tracked base l
        → Tracked base (enqueue_reply c H view payload in_framer out_framer a l)
    unfolding enqueue_reply
    enqueue_reply-Tracked (reply bytes) l t = record {
      items = t.items ++ record { origin = server; bytes = bytes } ∷ [];
      queued = rw t.queued (sym (map-append some t.items _));
      counted = λ k. omega (
        arith,
        t.counted k,
        answers-append k t.items (record { origin = server; bytes = bytes } ∷ []),
        answers-server k bytes,
      );
      holds = t.holds;
    }
    enqueue_reply-Tracked silent l t = t
    enqueue_reply-Tracked raises l t = t

    on_frame-Tracked :
        (frame : Bytes) (l : LoopState)
        → Tracked base l
        → Tracked base (on_frame c H view payload in_framer out_framer frame l).0
    unfolding on_frame
    on_frame-Tracked frame l t =
        enqueue_reply-Tracked (process_message c H (view frame) l.server).1 _ (
          advance-Tracked (process_message c H (view frame) l.server).0 l
            (process_message-Goes c H (view frame) l.server t.holds) t)

    meanwhile-Tracked :
        (ops : Calls c H view payload in_framer out_framer) (l : LoopState)
        → Tracked base l
        → Tracked base (meanwhile c H view payload in_framer out_framer ops l)
    meanwhile-Tracked ops l t = advance-Tracked _ l (run_calls-Next c ops l.server.net t.holds) t

    -- What is in the queue when `run` is over.
    pub record Delivered (s' : Server c H)
        (items : List (Item c H view payload in_framer out_framer)) : Type 0 where
      pub outs : List (Sent Output)
      pub queued : items ≡ map some outs ++ none ∷ []
      pub counted : (k : ℕ) → answers k outs + answers k base ≡ answers k s'.net.port.sent
      pub holds : Holds c H s'
      pub quiet : has_inflight c H s' ≡ false

    go_on-Tracked :
        (more : LoopState → LoopState × Bool) (r : LoopState × Bool)
        → ((l : LoopState) → Tracked base l → Tracked base (more l).0)
        → Tracked base r.0
        → Tracked base (go_on c H view payload in_framer out_framer more r).0
    go_on-Tracked more (l, true) keep t = t
    go_on-Tracked more (l, false) keep t = keep l t

    next_round-Tracked :
        (more : Bytes → LoopState → LoopState × Bool) (r : Option Bytes × Bytes) (l : LoopState)
        → ((rest : Bytes) (l' : LoopState) → Tracked base l' → Tracked base (more rest l').0)
        → Tracked base l
        → Tracked base (next_round c H view payload in_framer out_framer more r l).0
    next_round-Tracked more (none, rest) l keep t = t
    next_round-Tracked more (some frame, rest) l keep t =
        go_on-Tracked (more rest) (on_frame c H view payload in_framer out_framer frame l)
          (keep rest) (on_frame-Tracked frame l t)

    serve-Tracked :
        (fuel : ℕ) (schedule : List (Calls c H view payload in_framer out_framer)) (input : Bytes)
        (l : LoopState)
        → Tracked base l
        → Tracked base (serve c H view payload in_framer out_framer fuel schedule input l).0
    unfolding serve
    serve-Tracked zero schedule input l t = t
    serve-Tracked (suc fuel) schedule input l t =
        next_round-Tracked
          (serve c H view payload in_framer out_framer fuel
            (later_calls c H view payload in_framer out_framer schedule))
          (in_framer.read input) _
          (serve-Tracked fuel (later_calls c H view payload in_framer out_framer schedule))
          (meanwhile-Tracked (next_calls c H view payload in_framer out_framer schedule) l t)

    finish-Delivered :
        (ops rest : Calls c H view payload in_framer out_framer) (l : LoopState) (s : Server c H)
        → Tracked base l
        → Waited c H l.server s ops rest
        → Delivered s ((advance c H view payload in_framer out_framer s l).pending ++ none ∷ [])
    finish-Delivered ops rest l s t w =
        let last = advance-Tracked s l (w.goes t.holds) t in
        record {
          outs = last.items;
          queued = ap (λ xs. xs ++ none ∷ []) last.queued;
          counted = last.counted;
          holds = last.holds;
          quiet = w.quiet;
        }

    shut_down-Delivered :
        (ops : Calls c H view payload in_framer out_framer) (r : LoopState × Bool) (s' : Server c H)
        (items : List (Item c H view payload in_framer out_framer))
        → Tracked base r.0
        → shut_down c H view payload in_framer out_framer ops r ≡ finished s' items
        → Delivered s' items
    shut_down-Delivered ops (l, true) s' items t e = cc
    shut_down-Delivered ops (l, false) s' items t e =
        elim (Option-cases (wait_for_inflight c H ops l.server)) [
          | inl never ↦ cc (rw (never, after_wait) at e)
          | inr ((s, rest), done) ↦
              let ended : Ending.finished s
                    ((advance c H view payload in_framer out_framer s l).pending ++ none ∷ [])
                  ≡ finished s' items =
                rw (done, after_wait) at e in
              let same : s ≡ s' = cc in
              let queue : (advance c H view payload in_framer out_framer s l).pending ++ none ∷ []
                  ≡ items =
                cc in
              subst₂ Delivered same queue
                (finish-Delivered ops rest l s t (wait-Waited c H ops l.server s rest done))
        ]

    pub run-Delivered :
        (schedule : List (Calls c H view payload in_framer out_framer))
        (ops : Calls c H view payload in_framer out_framer) (input : Bytes) (s s' : Server c H)
        (items : List (Item c H view payload in_framer out_framer))
        → base ≡ s.net.port.sent
        → Holds c H s
        → run c H view payload in_framer out_framer schedule ops input s ≡ finished s' items
        → Delivered s' items
    unfolding run
    run-Delivered schedule ops input s s' items start holds e =
        shut_down-Delivered ops _ s' items
          (serve-Tracked (suc (length input)) schedule input (record { server = s; pending = [] })
            (record {
              items = [];
              queued = refl;
              counted = λ k. omega (arith, answers-nil Output k, ap (answers k) start);
              holds = holds;
            }))
          e
