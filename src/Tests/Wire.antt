-- ===== src/Tests/Wire.antt =====
-- The theorems on src/Framer.h and src/transports/StdioTransport.h at concrete streams.
use rpcpp.Base.{
  ℕ, ◌+◌, ◌<◌, ◌≡◌, refl, Text, none, some, List, [], ◌∷◌, ◌++◌, map, All, length, arith,
}
use rpcpp.Async.{respond_bytes, respond_error, destroy}
use rpcpp.Base.{find, assign, text_eq}
use rpcpp.Net.{
  run_call, run_calls, context_state, on_context, on_pinned, set_owners, drop_handle, unpin,
  respond, drop, allocate,
}
use rpcpp.Net.Invariant.{answers}
use rpcpp.Server.{
  Server, message, step, on_input, on_request, route, dispatch, dispatch_async, finish_async,
  finish_sync, add_handler, add_async_handler, run, process_message, has_inflight,
}
use rpcpp.Server.Inflight.{after}
use rpcpp.Server.{wait_for_inflight}
use rpcpp.Framer.{Bytes, line_framer, line_read, line_loop}
use rpcpp.Framer.Line.{NoNewline, line_framer-IsFraming}
use rpcpp.Framer.Stream.{read_all}
use rpcpp.Transport.Stdio
use rpcpp.Transport.Stdio.{Calls, Item, Ending, finished, serve, on_frame, enqueue_reply, responder}
use rpcpp.Transport.Stdio.Delivery.{run_delivers}
use rpcpp.Net.{empty_net, Sent, context}
use rpcpp.Framer.{length32_read, length32_write, header, header_len, byte_of, line_write}
use rpcpp.Framer.Length32.{length32_truncated, header_len-byte_of}
use rpcpp.Framer.Stream.{write_all}
use rpcpp.Transport.Stdio.{Loop}
use rpcpp.Base.{false, Bool}
use rpcpp.Transport.Stdio.Rounds.{Serves, serve-Serves}
use rpcpp.Transport.Stdio.Input.{run_finishes, serve-write_all, serve_list}
use rpcpp.Transport.Stdio.Stranded.{
  answer_stranded, DequeueOrder, items_of, from_producer, swap_last,
}
use rpcpp.Transport.Stdio.Order.{payloads, sentinel, values, history_of}
use rpcpp.Base.{Option}
use rpcpp.Net.{Origin}
use rpcpp.Tests.{plain, registrations}

-- The peer's bytes are the codec's numbers plus 11, so that no newline is among them.
abbrev on_wire : Text → Text
on_wire = map (λ (n : ℕ). n + 11)

on_wire-NoNewline : (o : Text) → NoNewline (on_wire o)
on_wire-NoNewline [] = tt
on_wire-NoNewline (n ∷ o) = (λ e. omega (arith, e), on_wire-NoNewline o)

abbrev same_bytes : Bytes → Text
same_bytes b = b

abbrev ready : Server plain ℕ
ready = after plain ℕ 0 registrations

-- Two requests: the first is answered at once, the second by another thread at the end.
abbrev requests : List Bytes
requests = (97 ∷ 7 ∷ 0 ∷ []) ∷ (107 ∷ 8 ∷ 0 ∷ []) ∷ []

abbrev input : Bytes
input = 97 ∷ 7 ∷ 0 ∷ 10 ∷ 107 ∷ 8 ∷ 0 ∷ 10 ∷ []

abbrev closing_calls : Calls plain ℕ same_bytes on_wire line_framer line_framer
closing_calls = respond 1 (9 ∷ 8 ∷ []) ∷ drop 1 ∷ []

abbrev whole_run : Ending (Server plain ℕ) (Item plain ℕ same_bytes on_wire line_framer line_framer)
whole_run =
    Stdio.run plain ℕ same_bytes on_wire line_framer line_framer [] closing_calls input ready

abbrev last_server : Server plain ℕ
last_server = record ready {
  net =
      run_calls plain closing_calls
        (after plain ℕ 0
          (registrations ++ message (97 ∷ 7 ∷ 0 ∷ []) ∷ message (107 ∷ 8 ∷ 0 ∷ []) ∷ [])).net;
  host = 2;
}

abbrev last_items : List (Item plain ℕ same_bytes on_wire line_framer line_framer)
last_items =
    some (record { origin = context 0; bytes = 9 ∷ 7 ∷ [] })
    ∷ some (record { origin = context 1; bytes = 9 ∷ 8 ∷ [] })
    ∷ none
    ∷ []

ready_net : ready.net ≡ empty_net
unfolding run step add_handler add_async_handler
ready_net = refl

it_finishes : whole_run ≡ finished last_server last_items
unfolding Stdio.run serve on_frame enqueue_reply line_framer line_read line_loop wait_for_inflight
    run step process_message on_input on_request route dispatch dispatch_async finish_async
    finish_sync add_handler add_async_handler has_inflight run_call run_calls allocate context_state
    on_context on_pinned set_owners drop_handle unpin respond_bytes respond_error destroy find
    assign text_eq
it_finishes = refl

-- The first answer comes of the loop's thread, the second of another one, and it comes out behind the sentinel.
abbrev enqueued : List (ℕ × Sent Text)
enqueued =
    (0, record { origin = context 0; bytes = 9 ∷ 7 ∷ [] })
    ∷ (3, record { origin = context 1; bytes = 9 ∷ 8 ∷ [] })
    ∷ []

abbrev overtaking : List (ℕ × Option (Sent Text))
overtaking =
    (0, some (record { origin = context 0; bytes = 9 ∷ 7 ∷ [] }))
    ∷ (0, none)
    ∷ (3, some (record { origin = context 1; bytes = 9 ∷ 8 ∷ [] }))
    ∷ []

overtaking-DequeueOrder : DequeueOrder (history_of enqueued) overtaking
overtaking-DequeueOrder =
    swap_last ((0, some (record { origin = context 0; bytes = 9 ∷ 7 ∷ [] })) ∷ []) 3 0 _ none
      (λ e. omega (arith, e))

run_delivers_example :
    (written : List (ℕ × Sent Text)) × (rest : List (ℕ × Sent Text)) × (out : Bytes) × (overtaking
      ≡ payloads written ++ sentinel ∷ payloads rest)
    × (responder plain ℕ same_bytes on_wire line_framer line_framer (items_of overtaking) []
        ≡ some out)
    × (read_all line_framer out ≡ map (λ x. on_wire x.bytes) (values written))
    × (from_producer 0 written ≡ from_producer 0 enqueued)
    × (from_producer 0 rest ≡ [])
    × ((k : ℕ)
        → k < length last_server.net.contexts
        → answers k (values written) + answers k (values rest) ≡ 1)
run_delivers_example =
    run_delivers plain ℕ same_bytes on_wire line_framer line_framer line_framer-IsFraming
      on_wire-NoNewline [] closing_calls input ready last_server last_items enqueued overtaking
      ready_net it_finishes refl overtaking-DequeueOrder

requests-NoNewline : All NoNewline requests
requests-NoNewline = (
  (λ e. omega (arith, e), (λ e. omega (arith, e), (λ e. omega (arith, e), tt))),
  ((λ e. omega (arith, e), (λ e. omega (arith, e), (λ e. omega (arith, e), tt))), tt),
)

abbrev replied : Sent Text
replied = record { origin = Origin.server; bytes = 1 ∷ [] }

abbrev late : Sent Text
late = record { origin = context 0; bytes = 2 ∷ [] }

two_bytes : length32_write [] (5 ∷ 6 ∷ []) ≡ (0 ∷ 0 ∷ 0 ∷ 2 ∷ 5 ∷ []) ++ 6 ∷ []
unfolding length32_write header
two_bytes = refl

serve-write_all_example :
    serve plain ℕ same_bytes on_wire line_framer line_framer 9 []
      (write_all line_framer [] requests)
      (record { server = ready; pending = [] })
    ≡ serve_list plain ℕ same_bytes on_wire line_framer line_framer line_framer-IsFraming []
        requests
        (record { server = ready; pending = [] })
unfolding write_all line_framer line_write
serve-write_all_example =
    serve-write_all plain ℕ same_bytes on_wire line_framer line_framer line_framer-IsFraming 9 []
      requests (record { server = ready; pending = [] }) requests-NoNewline (omega arith)

answer_stranded_example :
    (order : List (ℕ × Item plain ℕ same_bytes on_wire line_framer line_framer)) × DequeueOrder
      ((0, some replied) ∷ (3, some late) ∷ (0, none) ∷ [])
      order
    × (responder plain ℕ same_bytes on_wire line_framer line_framer (items_of order) []
        ≡ some (write_all line_framer [] (on_wire replied.bytes ∷ [])))
answer_stranded_example =
    answer_stranded plain ℕ same_bytes on_wire line_framer line_framer (replied ∷ []) late 3 []
      (λ e. omega (arith, e))

length32_truncated_example : length32_read (0 ∷ 0 ∷ 0 ∷ 2 ∷ 5 ∷ []) ≡ (none, [])
length32_truncated_example =
    length32_truncated (5 ∷ 6 ∷ []) (0 ∷ 0 ∷ 0 ∷ 2 ∷ 5 ∷ []) (6 ∷ []) (omega arith) (λ e. cc)
      two_bytes

header_len-byte_of_example :
    header_len (byte_of 66051 24) (byte_of 66051 16) (byte_of 66051 8) (byte_of 66051 0) ≡ 66051
header_len-byte_of_example = header_len-byte_of 66051 (omega arith)

serve-Serves_example :
    let start : Loop plain ℕ same_bytes on_wire line_framer line_framer = record {
      server = ready;
      pending = [];
    } in
    let served = serve plain ℕ same_bytes on_wire line_framer line_framer 9 [] input start in
    Serves plain ℕ same_bytes on_wire line_framer line_framer [] input start served
    × ((result : Loop plain ℕ same_bytes on_wire line_framer line_framer × Bool)
        → Serves plain ℕ same_bytes on_wire line_framer line_framer [] input start result
        → served ≡ result)
serve-Serves_example =
    serve-Serves plain ℕ same_bytes on_wire line_framer line_framer line_framer-IsFraming 9 [] input
      (record { server = ready; pending = [] }) (omega arith)

abbrev served_loop : Loop plain ℕ same_bytes on_wire line_framer line_framer
served_loop = record {
  server = record ready {
    net =
        (after plain ℕ 0
          (registrations ++ message (97 ∷ 7 ∷ 0 ∷ []) ∷ message (107 ∷ 8 ∷ 0 ∷ []) ∷ [])).net;
    host = 2;
  };
  pending = some (record { origin = context 0; bytes = 9 ∷ 7 ∷ [] }) ∷ [];
}

both_served :
    (serve_list plain ℕ same_bytes on_wire line_framer line_framer line_framer-IsFraming [] requests
        (record { server = ready; pending = [] })
      ≡ (served_loop, false))
    × (has_inflight plain ℕ
          (record served_loop.server { net = run_calls plain closing_calls served_loop.server.net })
        ≡ false)
unfolding serve_list on_frame enqueue_reply run step process_message on_input on_request route
    dispatch dispatch_async finish_async finish_sync add_handler add_async_handler has_inflight
    run_call run_calls allocate context_state on_context on_pinned set_owners drop_handle unpin
    respond_bytes respond_error destroy find assign text_eq
both_served = (refl, refl)

run_finishes_example :
    (s' : Server plain ℕ) × (items : List (Item plain ℕ same_bytes on_wire line_framer line_framer))
    × (Stdio.run plain ℕ same_bytes on_wire line_framer line_framer [] closing_calls
          (write_all line_framer [] requests)
          ready
        ≡ finished s' (items ++ none ∷ []))
run_finishes_example =
    run_finishes plain ℕ same_bytes on_wire line_framer line_framer line_framer-IsFraming []
      closing_calls requests ready served_loop requests-NoNewline both_served.0 both_served.1
