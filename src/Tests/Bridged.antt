-- ===== src/Tests/Bridged.antt =====
-- The theorems on src/transports/QueueTransport.h and src/transports/QuickJSTransport.h with a first-in
-- first-out queue, and on the threads of src/RpcServer.h and src/Resolver.h, at concrete inputs.
use mathlib.Core.Path.{subst}
use rpcpp.Base.{
  some-injective, ℕ, ◌≤◌, ◌+◌, ◌<◌, ◌≡◌, ◌≢◌, refl, Text, Bool, true, false, ◌&&◌, none, some, List,
  [], ◌∷◌, ◌++◌, length, ltb, tally, arith, find, assign, text_eq,
}
use rpcpp.Codec.{error}
use rpcpp.Async.{respond_bytes, respond_error, destroy}
use rpcpp.Async.Race
use rpcpp.Async.Race.{Race, at_phase, over, dispatched}
use rpcpp.Async.Race.Once.{OneAnswer, answered_once}
use rpcpp.Net.{
  run_call, run_calls, context_state, on_context, on_pinned, set_owners, drop_handle, unpin,
  allocate, Sent,
}
use rpcpp.Server.{
  step, on_input, on_request, route, dispatch, dispatch_async, finish_async, finish_sync,
  add_handler, add_async_handler, run, process_message,
}
use rpcpp.Server.Inflight.{after}
use rpcpp.Server.Wakeup
use rpcpp.Server.Wakeup.{
  Waiting, begins, Reach, at_start, lock_to_wait, doze, sleep, complete_last, Steps, unlocked,
  by_waiter, dozing, asleep, returned,
}
use rpcpp.Server.Wakeup.Progress.{Ends, wait-Ends, returns_before_notify}
use rpcpp.QuickJs.{World, Holds}
use rpcpp.QuickJs.Writer.{value_root, string, write, write_root, value_as_root}
use rpcpp.Transport.Concurrent.{fifo, first_of}
use rpcpp.Transport.Queue.{Use, sends, receives, exchange, send, try_receive}
use rpcpp.Transport.QuickJs.{Callback, QuickJsOut, Thunk, deferred, drain, Draining}
use rpcpp.Transport.QuickJs.Drain.{Borrows, Returns, has_thunk, drain_lem, write-Returns}
use rpcpp.Transport.QuickJs.Answers.{by_context, Deferred, full, drain_answers}
use rpcpp.Tests.{plain, history}
use rpcpp.Tests.Requests.{history_ends}
use rpcpp.Tests.Bridge.{toy, world, held, world-Holds}

abbrev uses : List (Use (fifo ℕ))
uses = sends 4 ∷ receives ∷ receives ∷ sends 5 ∷ sends 4 ∷ receives ∷ []

nothing_left :
    try_receive (fifo ℕ) (exchange (fifo ℕ) (uses ++ receives ∷ []) (fifo ℕ).empty).1 ≡ (none, [])
unfolding exchange try_receive send first_of
nothing_left = refl

-- The host counts the calls of its callback.
abbrev on_response : Callback toy ℕ
on_response v n w = record { host = n + 1; world = w; threw = false }

on_response-Borrows : Borrows toy on_response
on_response-Borrows = record { returns = λ v n w. refl; balanced = λ v n w rs h. h }

abbrev out : Text → QuickJsOut toy
out o = deferred toy (value_root (string o))

string-returns :
    (o : Text) (w : World toy) (what : Text) → (write toy (value_root (string o)) w).0 ≢ error what
unfolding write write_root value_as_root
string-returns o w what e = cc

out-Deferred : Deferred plain ℕ toy ℕ on_response (fifo (Sent Text)) out
out-Deferred o = (value_root (string o), tt, refl, string-returns o)

abbrev history_sent : List (Sent Text)
history_sent = (after plain ℕ 0 history).net.port.sent

few_sent : tally (λ (x : Sent Text). true) history_sent < 9
unfolding run step process_message on_input on_request route dispatch dispatch_async finish_async
    finish_sync add_handler add_async_handler run_call run_calls allocate context_state on_context
    on_pinned set_owners drop_handle unpin respond_bytes respond_error destroy find assign text_eq
few_sent = omega arith

abbrev start : Draining toy (λ (x : Sent Text). out x.bytes) (fifo (Sent Text)) ℕ on_response
start = full plain ℕ toy ℕ on_response (fifo (Sent Text)) out history_sent 0 world

abbrev drained : Draining toy (λ (x : Sent Text). out x.bytes) (fifo (Sent Text)) ℕ on_response
drained = drain toy (λ (x : Sent Text). out x.bytes) (fifo (Sent Text)) ℕ on_response 9 start

drain_answers_example :
    ((k : ℕ)
      → k < length (after plain ℕ 0 history).net.contexts
      → tally (by_context k) drained.delivered ≡ 1)
    × (drained.queue ≡ [])
    × (drained.raised ≡ false)
    × Holds toy held drained.world
drain_answers_example =
    drain_answers plain ℕ toy ℕ on_response (fifo (Sent Text)) out 0 history 9 0 world held refl
      out-Deferred on_response-Borrows history_ends.0 few_sent world-Holds

-- Two items, of which the second has no thunk.
abbrev item_if : Bool → ℕ → QuickJsOut toy
item_if true n = deferred toy (value_root (string (n ∷ [])))
item_if false n = record { materialize = none }

abbrev item_out : ℕ → QuickJsOut toy
item_out n = item_if (ltb n 5) n

written :
    (n : ℕ) (t : Thunk toy)
    → (deferred toy (value_root (string (n ∷ [])))).materialize ≡ some t
    → Returns toy t
unfolding deferred
written n t found =
    subst (Returns toy) (some-injective (write toy (value_root (string (n ∷ [])))) t found)
      (write-Returns toy (value_root (string (n ∷ []))) refl tt (string-returns (n ∷ [])))

item_if-Returns :
    (b : Bool) (n : ℕ) (t : Thunk toy) → (item_if b n).materialize ≡ some t → Returns toy t
item_if-Returns true n t found = written n t found
item_if-Returns false n t found = cc

item_out-Returns : (n : ℕ) (t : Thunk toy) → (item_out n).materialize ≡ some t → Returns toy t
item_out-Returns n t found = item_if-Returns (ltb n 5) n t found

abbrev items : Draining toy item_out (fifo ℕ) ℕ on_response
items = record { queue = 4 ∷ 6 ∷ 4 ∷ []; host = 0; world = world; delivered = []; raised = false }

drain_lem_example :
    let s' = drain toy item_out (fifo ℕ) ℕ on_response 4 items in
    (s'.queue ≡ [])
    × (s'.raised ≡ false)
    × ((p : ℕ → Bool)
        → tally p s'.delivered
          ≡ 0 + tally (λ n. has_thunk toy (item_out n) && p n) (4 ∷ 6 ∷ 4 ∷ []))
    × Holds toy held s'.world
drain_lem_example =
    drain_lem toy item_out (fifo ℕ) ℕ on_response item_out-Returns on_response-Borrows 4 held items
      (omega arith) refl world-Holds

-- One request, which completes after the waiting thread has seen it and before that thread sleeps.
abbrev dozer : Waiting
dozer = record { inflight = 1; pending = 0; lock = by_waiter; waiter = dozing }

abbrev last_done : Waiting
last_done = record { inflight = 0; pending = 1; lock = unlocked; waiter = asleep }

last_done-Reach : Reach (begins 1) last_done
last_done-Reach =
    Wakeup.step
      (Wakeup.step
        (Wakeup.step (Wakeup.step at_start (lock_to_wait (begins 1) refl refl))
          (doze _ refl (omega arith)))
        (complete_last dozer refl))
      (sleep _ refl)

wait-Ends_example : Ends last_done
wait-Ends_example = wait-Ends 1 last_done last_done-Reach refl

returns_before_notify_example :
    (t : Waiting) × Steps (begins 1) t
    × (t.waiter ≡ returned)
    × (0 < t.pending)
    × (t.lock ≡ unlocked)
returns_before_notify_example = returns_before_notify (begins 1) refl refl refl

-- Two threads answer one request; the second wins, and sends its answer after the first has lost.
abbrev raced : Race ℕ 0
raced = record {
  done = true;
  callers = at_phase ℕ 0 over 3 ∷ at_phase ℕ 0 over 4 ∷ [];
  sent = 4 ∷ [];
  completed = true;
}

raced-Reach : Race.Reach ℕ 0 (dispatched ℕ 0) raced
raced-Reach =
    Race.next
      (Race.next
        (Race.next
          (Race.next (Race.next (Race.next Race.here (Race.join _ 3 refl)) (Race.join _ 4 refl))
            (Race.win _ 1 4 refl refl))
          (Race.lose _ 0 3 refl refl))
        (Race.answer _ 1 4 refl))
      (Race.destroy_done _ refl refl refl)

answered_once_example : (length raced.sent ≤ 1) × (raced.completed ≡ true → OneAnswer ℕ 0 raced)
answered_once_example = answered_once ℕ 0 raced raced-Reach
