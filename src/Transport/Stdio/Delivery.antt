-- ===== src/Transport/Stdio/Delivery.antt =====
-- From the requests on the input stream to the bytes on the output stream, through
-- src/transports/StdioTransport.h, with the order that its queue documents.
use rpcpp.Base.{
  sym, ◌∙◌, ◌+◌, ◌++◌, Option, ℕ, ◌<◌, ◌≡◌, refl, ap, List, [], ◌∷◌, some, map, length, All, arith,
}
use rpcpp.Framer.{Bytes, Framer, IsFraming}
use rpcpp.Framer.Stream.{write_all, read_all, read_all-write_all}
use rpcpp.Codec.{Codec}
use rpcpp.Net.{Sent, empty_net}
use rpcpp.Net.Invariant.{answers, answers-nil, Inv-empty}
use rpcpp.Server.{Server}
use rpcpp.Server.Inflight.{answers-eq-one}
use rpcpp.Transport.Stdio.{Item, Calls, run, responder, finished}
use rpcpp.Transport.Stdio.Output.{responder-sentinel}
use rpcpp.Transport.Stdio.Stranded.{from_producer, DequeueOrder, items_of}
use rpcpp.Transport.Stdio.Order.{
  payloads, sentinel, values, history_of, Split, order-Split, same_place, items_of-payloads,
}
use rpcpp.Transport.QuickJs.Answers.{by_context, answers-tally}
use rpcpp.Transport.Stdio.Answers.{Delivered, run-Delivered}

module _ {ℓ} {A : Type 0} (P : Bytes → Type ℓ) (f : A → Bytes) (good : (a : A) → P (f a)) where
  All-map : (xs : List A) → All P (map f xs)
  All-map [] = tt
  All-map (x ∷ xs) = (good x, All-map xs)

module _ {ℓ} (c : Codec) (H : Type 0) (view : Bytes → c.Input) (payload : c.Output → Bytes)
    (in_framer out_framer : Framer) {Accepts : Bytes → Type ℓ} (law : IsFraming Accepts out_framer)
    (accepted : (o : c.Output) → Accepts (payload o)) where
  open c use {Output}

  -- `run` on a server that nothing was sent to yet, with an output framing that accepts what the codec
  -- writes, from any number of threads that enqueue, and with only the order that the queue documents: it
  -- hands out what was enqueued, and what one thread enqueued in that thread's order. If `run` gets to
  -- its end, with the sentinel enqueued last and by the loop's thread 0, then in every such order
  -- the responder ends too, and the peer reads back exactly the payloads that came out before the
  -- sentinel, whole and in their order. Among them are all payloads that the loop's own thread has
  -- enqueued, in their order; and of each asynchronous request that was dispatched there is exactly one
  -- answer, either among them or left in the queue behind the sentinel.
  pub run_delivers :
      (schedule : List (Calls c H view payload in_framer out_framer))
      (ops : Calls c H view payload in_framer out_framer) (input : Bytes) (s s' : Server c H)
      (items : List (Item c H view payload in_framer out_framer)) (earlier : List (ℕ × Sent Output))
      (order : List (ℕ × Option (Sent Output)))
      → s.net ≡ empty_net
      → run c H view payload in_framer out_framer schedule ops input s ≡ finished s' items
      → items_of (history_of earlier) ≡ items
      → DequeueOrder (history_of earlier) order
      → (written : List (ℕ × Sent Output)) × (rest : List (ℕ × Sent Output)) × (out : Bytes)
        × (order ≡ payloads written ++ sentinel ∷ payloads rest)
        × (responder c H view payload in_framer out_framer (items_of order) [] ≡ some out)
        × (read_all out_framer out ≡ map (λ x. payload x.bytes) (values written))
        × (from_producer 0 written ≡ from_producer 0 earlier)
        × (from_producer 0 rest ≡ [])
        × ((k : ℕ)
            → k < length s'.net.contexts
            → answers k (values written) + answers k (values rest) ≡ 1)
  run_delivers schedule ops input s s' items earlier order start e enqueued allowed = (
    cut.written,
    cut.rest,
    write_all out_framer [] (map (λ x. payload x.bytes) (values cut.written)),
    cut.parts,
    ap (λ o. responder c H view payload in_framer out_framer (items_of o) []) cut.parts
        ∙ ap (λ o. responder c H view payload in_framer out_framer o [])
            (items_of-payloads cut.written (sentinel ∷ payloads cut.rest))
        ∙ responder-sentinel c H view payload in_framer out_framer (values cut.written)
            (items_of (payloads cut.rest)) [],
    read_all-write_all law _ (
        All-map Accepts (λ (x : Sent Output). payload x.bytes) (λ x. accepted x.bytes)
          (values cut.written)),
    cut.own_written,
    cut.own_rest,
    λ k lt. omega (
      arith,
      answers-tally k (values cut.written),
      answers-tally k (values cut.rest),
      answers-tally k (values earlier),
      cut.counted (by_context k),
      ap (answers k) same_items,
      d.counted k,
      ap (answers k) (ap (λ n. n.port.sent) start),
      answers-nil Output k,
      answers-eq-one c H s' k d.holds d.quiet lt,
    ),
  )
    where
      cut : Split earlier order
      cut = order-Split earlier order allowed

      d : Delivered c H view payload in_framer out_framer s.net.port.sent s' items
      d =
          run-Delivered c H view payload in_framer out_framer s.net.port.sent schedule ops input s
            s' items refl (rw start (Inv-empty c)) e

      same_items : values earlier ≡ d.outs
      same_items =
          (same_place (values earlier) [] d.outs
            (sym (items_of-payloads earlier (sentinel ∷ [])) ∙ enqueued ∙ d.queued)).0
