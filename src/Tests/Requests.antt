-- ===== src/Tests/Requests.antt =====
-- The theorems on src/RpcServer.h at concrete requests.
use rpcpp.Base.{
  ℕ, ◌<◌, ◌≤◌, ◌≡◌, ◌≢◌, refl, Text, text, Bool, false, none, some, List, [], ◌∷◌, ◌++◌, length,
  arith,
}
use rpcpp.Envelope.{version}
use rpcpp.Async.{respond_bytes, respond_error, destroy}
use rpcpp.Base.{find, assign, text_eq}
use rpcpp.Net.{
  run_call, run_calls, context_state, on_context, on_pinned, set_owners, drop_handle, unpin, Call,
  respond, drop, allocate,
}
use rpcpp.Net.Invariant.{answers}
use rpcpp.Server.{
  reply, decoded, Server, init, Event, message, step, on_input, on_request, route, dispatch,
  dispatch_async, finish_async, finish_sync, add_handler, add_async_handler, run, process_message,
  has_inflight,
}
use rpcpp.Server.Inflight.{after, answered_exactly_once, answered_at_most_once, inflight-live}
use rpcpp.Net.Invariant.{live}
use rpcpp.Server.Waiting.{wait_answers_all, wait-returns}
use rpcpp.Server.Settled.{dispatch_async_settled}
use rpcpp.Server.Routing.{add_handler_serves, unserved_is_refused}
use rpcpp.Base.{ℤ, pos, ◌⊎◌, inr}
use rpcpp.Server.{wait_for_inflight, silent, refuse, invalid_request, method_not_found}
use rpcpp.Net.{context, Net, write_error}
use rpcpp.Tests.{plain, echo, failing, registrations, history}

-- Nothing is in flight at the end, and three requests were dispatched.
pub history_ends :
    (has_inflight plain ℕ (after plain ℕ 0 history) ≡ false)
    × (length (after plain ℕ 0 history).net.contexts ≡ 3)
unfolding run step process_message on_input on_request route dispatch dispatch_async finish_async
    finish_sync add_handler add_async_handler has_inflight run_call run_calls allocate context_state
    on_context on_pinned set_owners drop_handle unpin respond_bytes respond_error destroy find
    assign text_eq
history_ends = (refl, refl)

answered_exactly_once_example : answers 1 (after plain ℕ 0 history).net.port.sent ≡ 1
answered_exactly_once_example =
    answered_exactly_once plain ℕ 0 history 1 history_ends.0 (omega (arith, history_ends.1))

answered_at_most_once_example : answers 1 (after plain ℕ 0 history).net.port.sent ≤ 1
answered_at_most_once_example = answered_at_most_once plain ℕ 0 history 1

inflight-live_example :
    (after plain ℕ 0 history).net.port.inflight ≡ live (after plain ℕ 0 history).net.contexts
inflight-live_example = inflight-live plain ℕ 0 history

-- One request is in flight, and another thread answers it and then drops the last handle.
abbrev started : List (Event plain ℕ)
started = registrations ++ message (107 ∷ 8 ∷ 0 ∷ []) ∷ []

abbrev last_calls : List (Call Text ℕ Bool (λ _. ℕ))
last_calls = respond 0 (9 ∷ 8 ∷ []) ∷ drop 0 ∷ write_error 3 (pos 0) [] ∷ []

abbrev waited_net : Net Text
waited_net = run_calls plain (respond 0 (9 ∷ 8 ∷ []) ∷ drop 0 ∷ []) (after plain ℕ 0 started).net

-- The wait ends before the last of the calls; with all of them made nothing is in flight either.
started_ends :
    (wait_for_inflight plain ℕ last_calls (after plain ℕ 0 started)
      ≡ some (record (after plain ℕ 0 started) { net = waited_net }, write_error 3 (pos 0) [] ∷ []))
    × (has_inflight plain ℕ (record (after plain ℕ 0 started) {
      net = run_calls plain last_calls (after plain ℕ 0 started).net;
    })
        ≡ false)
unfolding wait_for_inflight run step process_message on_input on_request route dispatch
    dispatch_async finish_async finish_sync add_handler add_async_handler has_inflight run_call
    run_calls allocate context_state on_context on_pinned set_owners drop_handle unpin respond_bytes
    respond_error destroy find assign text_eq
started_ends = (refl, refl)

wait_answers_all_example :
    ((k : ℕ)
      → k < length (after plain ℕ 0 started).net.contexts
      → answers k waited_net.port.sent ≡ 1)
    × ((k : ℕ) → answers k waited_net.port.sent ≤ 1)
wait_answers_all_example =
    wait_answers_all plain ℕ 0 started last_calls (write_error 3 (pos 0) [] ∷ [])
      (record (after plain ℕ 0 started) { net = waited_net }) started_ends.0

wait-returns_example :
    (r : Server plain ℕ × List (Call Text ℕ Bool (λ _. ℕ))) × (wait_for_inflight plain ℕ last_calls
        (after plain ℕ 0 started)
      ≡ some r)
wait-returns_example = wait-returns plain ℕ last_calls (after plain ℕ 0 started) started_ends.1

dispatch_async_settled_example :
    ((dispatch_async plain ℕ 9 (decoded 0) failing (init plain ℕ 0)).0.net.port.sent
      ≡ record { origin = context 0; bytes = 1 ∷ 9 ∷ text "no" } ∷ [])
    × ((dispatch_async plain ℕ 9 (decoded 0) failing (init plain ℕ 0)).0.net.port.inflight ≡ 0)
    × ((dispatch_async plain ℕ 9 (decoded 0) failing (init plain ℕ 0)).1 ≡ silent)
dispatch_async_settled_example =
    dispatch_async_settled plain ℕ (init plain ℕ 0) 9 (decoded 0) failing refl

add_handler_serves_example :
    let s = after plain ℕ 0 registrations in
    let s' = add_handler plain ℕ (text "a") echo s in
    let q = route plain ℕ (text "a") 5 version (decoded 0) s' in
    (q.0.net ≡ run_calls plain (echo 5 (decoded 0) s.host).calls s.net)
    × (q.0.host ≡ (echo 5 (decoded 0) s.host).host)
    × (q.0.handlers ≡ s'.handlers)
    × (q.0.async_handlers ≡ s.async_handlers)
    × (q.1 ≡ reply (4 ∷ 5 ∷ 5 ∷ []))
    × (q.1 ≢ silent)
add_handler_serves_example =
    add_handler_serves plain ℕ (after plain ℕ 0 registrations) (text "a") echo 5 (decoded 0)

unknown_method :
    (find (text "x") (after plain ℕ 0 registrations).handlers ≡ none)
    × (find (text "x") (after plain ℕ 0 registrations).async_handlers ≡ none)
unfolding find assign text_eq run step add_handler add_async_handler
unknown_method = (refl, refl)

unserved_is_refused_example :
    (code : ℤ) × (message : Text) × (route plain ℕ
        (text "x")
        5
        version
        (decoded 0)
        (after plain ℕ 0 registrations)
      ≡ (after plain ℕ 0 registrations, refuse plain ℕ 5 code message))
    × (((version ≢ version) × (code ≡ invalid_request))
        ⊎ ((version ≡ version) × (code ≡ method_not_found)))
unserved_is_refused_example =
    unserved_is_refused plain ℕ (after plain ℕ 0 registrations) (text "x") 5 version (decoded 0)
      (inr unknown_method)

is_silent :
    (route plain ℕ (text "a") 5 version (decoded 0) (after plain ℕ 0 registrations)).1 ≡ silent
unfolding run step process_message on_input on_request route dispatch dispatch_async finish_async
    finish_sync add_handler add_async_handler has_inflight run_call run_calls allocate context_state
    on_context on_pinned set_owners drop_handle unpin respond_bytes respond_error destroy find
    assign text_eq
is_silent = refl
