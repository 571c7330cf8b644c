-- ===== src/Transport/Stdio/Input.antt =====
-- The frames that the loop of src/transports/StdioTransport.h handles.
use rpcpp.Base.{ℕ, zero, suc, ◌<◌, ◌≡◌, refl, Bool, true, false, List, [], ◌∷◌, length, All, arith}
use rpcpp.Framer.{Bytes, Framer, IsFraming}
use rpcpp.Framer.Stream.{write_all, write_all-nil, write_all_shrinks, read-write_all}
use rpcpp.Codec.{Codec}
use rpcpp.Server.Waiting.{wait-returns}
use rpcpp.Server.{has_inflight, Server}
use rpcpp.Net.{run_calls}
use rpcpp.Base.{◌∙◌, ap, none, ◌++◌}
use rpcpp.Transport.Stdio.{
  run, finished, shut_down, after_wait, advance, Item, Loop, Calls, meanwhile, on_frame, go_on,
  next_calls, later_calls, serve,
}

module _ (c : Codec) (H : Type 0) (view : Bytes → c.Input) (payload : c.Output → Bytes)
    (in_framer out_framer : Framer) where
  go_on-cong :
      (more more' : Loop c H view payload in_framer out_framer
        → Loop c H view payload in_framer out_framer × Bool)
      (r : Loop c H view payload in_framer out_framer × Bool)
      → ((l : Loop c H view payload in_framer out_framer) → more l ≡ more' l)
      → go_on c H view payload in_framer out_framer more r
        ≡ go_on c H view payload in_framer out_framer more' r
  go_on-cong more more' (l, true) e = refl
  go_on-cong more more' (l, false) e = e l

module _ {ℓ} (c : Codec) (H : Type 0) (view : Bytes → c.Input) (payload : c.Output → Bytes)
    (in_framer out_framer : Framer) {Accepts : Bytes → Type ℓ}
    (law : IsFraming Accepts in_framer) where
  abbrev LoopState : Type 0
  LoopState = Loop c H view payload in_framer out_framer

  -- The requests one after another, each after the calls that the schedule puts before it; after the
  -- last of them the calls of one more round.
  unfoldable pub serve_list :
      List (Calls c H view payload in_framer out_framer) → List Bytes → LoopState → LoopState × Bool
  serve_list schedule [] l = (
    meanwhile c H view payload in_framer out_framer
        (next_calls c H view payload in_framer out_framer schedule) l,
    false,
  )
  serve_list schedule (b ∷ bs) l =
      go_on c H view payload in_framer out_framer
        (serve_list (later_calls c H view payload in_framer out_framer schedule) bs)
        (on_frame c H view payload in_framer out_framer b (
          meanwhile c H view payload in_framer out_framer
            (next_calls c H view payload in_framer out_framer schedule) l))

  -- For an input framer that obeys the framing law, and payloads that the law accepts, written to the
  -- stream one after another and nothing else: with more rounds than the stream has bytes, the loop
  -- handles exactly those payloads, whole, in their order, up to one whose handling raises, and then ends.
  pub serve-write_all :
      (fuel : ℕ) (schedule : List (Calls c H view payload in_framer out_framer)) (bs : List Bytes)
      (l : LoopState)
      → All Accepts bs
      → length (write_all in_framer [] bs) < fuel
      → serve c H view payload in_framer out_framer fuel schedule (write_all in_framer [] bs) l
        ≡ serve_list schedule bs l
  unfolding serve serve_list
  serve-write_all zero schedule bs l h k = absurd (omega arith)
  serve-write_all (suc fuel) schedule [] l h k = rw (write_all-nil in_framer, law.read-nil)
  serve-write_all (suc fuel) schedule (b ∷ bs) l h k = rw (read-write_all law b bs h.0) (
      go_on-cong c H view payload in_framer out_framer _ _
        (on_frame c H view payload in_framer out_framer b (
          meanwhile c H view payload in_framer out_framer
            (next_calls c H view payload in_framer out_framer schedule) l))
        (λ l'.
          serve-write_all fuel (later_calls c H view payload in_framer out_framer schedule) bs l'
            h.1 (omega (arith, write_all_shrinks law b bs h.0))))

  -- `run` returns: on a stream of accepted payloads, if no handling of them raises, and the calls that the
  -- other threads make after the last of them leave nothing in flight, then `run` gets to its end and
  -- enqueues the sentinel last.
  pub run_finishes :
      (schedule : List (Calls c H view payload in_framer out_framer))
      (ops : Calls c H view payload in_framer out_framer) (bs : List Bytes) (s : Server c H)
      (l : LoopState)
      → All Accepts bs
      → serve_list schedule bs (record { server = s; pending = [] }) ≡ (l, false)
      → has_inflight c H (record l.server { net = run_calls c ops l.server.net }) ≡ false
      → (s' : Server c H) × (items : List (Item c H view payload in_framer out_framer)) × (run c H
            view payload in_framer out_framer schedule ops
            (write_all in_framer [] bs)
            s
          ≡ finished s' (items ++ none ∷ []))
  unfolding run
  run_finishes schedule ops bs s l accepted served drained =
      let input = write_all in_framer [] bs in
      let (r, waited) = wait-returns c H ops l.server drained in
      (
        r.0,
        (advance c H view payload in_framer out_framer r.0 l).pending,
        ap (shut_down c H view payload in_framer out_framer ops) (
              serve-write_all (suc (length input)) schedule bs (record { server = s; pending = [] })
                accepted (omega arith)
              ∙ served)
            ∙ ap (after_wait c H view payload in_framer out_framer l) waited,
      )
