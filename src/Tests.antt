-- ===== src/Tests.antt =====
-- Inputs for the tests: a codec over lists of numbers, a synchronous handler, and asynchronous handlers
-- that answer at once, that keep their handle, and that drop it.
pub mod Requests
pub mod Wire
pub mod Methods
pub mod Bridge
pub mod Bridged
pub mod Dispatches
pub mod Store
pub mod Lawful
pub mod Shaped
pub mod Signatures
use rpcpp.Base.{
  ℕ, zero, suc, ◌+◌, ◌<◌, ◌≤◌, ◌≡◌, ◌≢◌, refl, Text, text, Bool, true, false, Option, none, some,
  List, [], ◌∷◌, ◌++◌, map, All, length, arith,
}
use rpcpp.Envelope.{RpcRequest, RpcRequestHead, version}
use rpcpp.Codec.{
  Codec, Result, ok, error, Message, failure, notification, typed_notification, generic_response,
  response,
}
use rpcpp.Async.{respond_bytes, respond_error, destroy}
use rpcpp.Base.{find, assign, text_eq}
use rpcpp.Net.{
  run_call, run_calls, context_state, on_context, on_pinned, set_owners, drop_handle, unpin, Call,
  respond, copy, drop, allocate, send,
}
use rpcpp.Net.Invariant.{answers}
use rpcpp.Server.{
  Outcome, returned, threw, escaped, ParamsArg, raw, decoded, Handler, AsyncHandler, Server, init,
  Event, message, call, step, on_input, on_request, route, dispatch, dispatch_async, finish_async,
  finish_sync, add_handler, add_async_handler, register, register_async, run, process_message,
  has_inflight,
}
use rpcpp.Server.Inflight.{after, answered_exactly_once, answered_at_most_once, inflight-live}
use rpcpp.Net.Invariant.{live}
use rpcpp.Server.Waiting.{wait_answers_all, wait-returns}
use rpcpp.Server.Settled.{dispatch_async_settled}
use rpcpp.Server.Routing.{
  add_handler_serves, unserved_is_refused, silent_is_async, add_handler_frame,
}
use rpcpp.Base.{ℤ, pos, ◌⊎◌, inr, text_eq_ne}
use rpcpp.Server.{wait_for_inflight, silent, absorb, refuse, invalid_request, method_not_found}
use rpcpp.Framer.{Bytes, line_framer, line_read, line_loop}
use rpcpp.Framer.Line.{NoNewline, line_framer-IsFraming}
use rpcpp.Framer.Stream.{read_all}
use rpcpp.Transport.Stdio
use rpcpp.Transport.Stdio.{Calls, Item, Ending, finished, serve, on_frame, enqueue_reply, responder}
use rpcpp.Transport.Stdio.Delivery.{run_delivers}
use rpcpp.Net.{empty_net, Sent, context, Net, write_error}

abbrev pub read_plain : Text → Result (RpcRequest ℕ)
read_plain (m ∷ id ∷ p ∷ []) =
    ok (record { method = m ∷ []; id = some id; params = some p; jsonrpc = version })
read_plain _ = error (text "bad")

abbrev pub read_plain_head : Text → Result (RpcRequestHead ℕ)
read_plain_head (m ∷ id ∷ _ ∷ []) = ok (record { method = m ∷ []; id = some id; jsonrpc = version })
read_plain_head _ = error (text "bad")

abbrev pub write_plain : Message ℕ Bool (λ _. ℕ) → Text
write_plain (failure e) = 1 ∷ e.id ∷ e.error.message
write_plain (notification n) = 2 ∷ n.params ∷ n.method
write_plain (typed_notification t n) = 3 ∷ n.params ∷ n.method
write_plain (generic_response r) = 4 ∷ r.id ∷ r.result ∷ []
write_plain (response t r) = 5 ∷ r.id ∷ r.result ∷ []

abbrev pub plain : Codec
plain = record {
  Input = Text;
  Output = Text;
  Generic = ℕ;
  null = 0;
  Ty = Bool;
  El = λ _. ℕ;
  native = false;
  read_request = read_plain;
  read_head = read_plain_head;
  write = write_plain;
}

-- The host's state counts the handlers' runs.
abbrev pub echo : Handler plain ℕ
echo id params n = record {
  host = n + 1;
  calls = [];
  outcome =
      returned
        (write_plain (generic_response (record { id = id; result = id; jsonrpc = version })));
}

abbrev pub at_once : AsyncHandler plain ℕ
at_once id params k n = record {
  host = n + 1;
  calls = respond k (9 ∷ id ∷ []) ∷ drop k ∷ [];
  outcome = returned tt;
}

abbrev pub keeping : AsyncHandler plain ℕ
keeping id params k n = record { host = n + 1; calls = []; outcome = returned tt }

abbrev pub failing : AsyncHandler plain ℕ
failing id params k n = record { host = n + 1; calls = drop k ∷ []; outcome = threw (text "no") }

abbrev pub registrations : List (Event plain ℕ)
registrations =
    register (text "e") echo
    ∷ register_async (text "a") at_once
    ∷ register_async (text "k") keeping
    ∷ register_async (text "f") failing
    ∷ []

-- Requests 7, 8 and 9; the handle of 8 is kept, answered from elsewhere, answered again, and dropped.
abbrev pub history : List (Event plain ℕ)
history =
    registrations
    ++ message (97 ∷ 7 ∷ 0 ∷ [])
      ∷ message (107 ∷ 8 ∷ 0 ∷ [])
      ∷ message (102 ∷ 9 ∷ 0 ∷ [])
      ∷ call (respond 1 (9 ∷ 8 ∷ []))
      ∷ call (respond 1 (9 ∷ 9 ∷ []))
      ∷ call (drop 1)
      ∷ []
