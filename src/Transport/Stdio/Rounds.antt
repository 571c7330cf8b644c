-- ===== src/Transport/Stdio/Rounds.antt =====
-- The loop `while (auto frame = InF::read(in))` of src/transports/StdioTransport.h on any stream, without fuel.
use rpcpp.Base.{
  ℕ, zero, suc, ◌<◌, ◌≡◌, refl, Bool, true, false, none, some, List, length, inl, inr, arith,
}
use rpcpp.Framer.{Bytes, Framer, IsFraming}
use rpcpp.Framer.Stream.{read-cases}
use rpcpp.Codec.{Codec}
use rpcpp.Transport.Stdio.{Loop, Calls, meanwhile, on_frame, go_on, next_calls, later_calls, serve}

module _ (c : Codec) (H : Type 0) (view : Bytes → c.Input) (payload : c.Output → Bytes)
    (in_framer out_framer : Framer) where
  abbrev LoopState : Type 0
  LoopState = Loop c H view payload in_framer out_framer

  abbrev Schedule : Type 0
  Schedule = List (Calls c H view payload in_framer out_framer)

  -- The state when the other threads have made their calls before the next frame.
  abbrev pub before_frame : Schedule → LoopState → LoopState
  before_frame schedule l =
      meanwhile c H view payload in_framer out_framer
        (next_calls c H view payload in_framer out_framer schedule) l

  -- The loop on a stream, from a state, comes to its end with a result.
  pub data Serves : Schedule → Bytes → LoopState → LoopState × Bool → Type 0 where
    stream_ended :
        (schedule : Schedule) (input rest : Bytes) (l : LoopState)
        → in_framer.read input ≡ (none, rest)
        → Serves schedule input l (before_frame schedule l, false)
    handling_raised :
        (schedule : Schedule) (input frame rest : Bytes) (l l' : LoopState)
        → in_framer.read input ≡ (some frame, rest)
        → on_frame c H view payload in_framer out_framer frame (before_frame schedule l)
          ≡ (l', true)
        → Serves schedule input l (l', true)
    one_round :
        (schedule : Schedule) (input frame rest : Bytes) (l l' : LoopState)
        (result : LoopState × Bool)
        → in_framer.read input ≡ (some frame, rest)
        → on_frame c H view payload in_framer out_framer frame (before_frame schedule l)
          ≡ (l', false)
        → Serves (later_calls c H view payload in_framer out_framer schedule) rest l' result
        → Serves schedule input l result

  after_frame :
      (schedule : Schedule) (input frame rest : Bytes) (l : LoopState)
      (more : LoopState → LoopState × Bool) (outcome : LoopState × Bool)
      → in_framer.read input ≡ (some frame, rest)
      → on_frame c H view payload in_framer out_framer frame (before_frame schedule l) ≡ outcome
      → ((l' : LoopState)
          → Serves (later_calls c H view payload in_framer out_framer schedule) rest l' (more l'))
      → Serves schedule input l (go_on c H view payload in_framer out_framer more outcome)
  after_frame schedule input frame rest l more (l', true) e done further =
      handling_raised schedule input frame rest l l' e done
  after_frame schedule input frame rest l more (l', false) e done further =
      one_round schedule input frame rest l l' (more l') e done (further l')

  module _ {ℓ} {Accepts : Bytes → Type ℓ} (law : IsFraming Accepts in_framer) where
    comes_to_end :
        (fuel : ℕ) (schedule : Schedule) (input : Bytes) (l : LoopState)
        → length input < fuel
        → Serves schedule input l
            (serve c H view payload in_framer out_framer fuel schedule input l)
    unfolding serve
    comes_to_end zero schedule input l few = absurd (omega arith)
    comes_to_end (suc fuel) schedule input l few = elim (read-cases (in_framer.read input)) [
      | inl (rest, e) ↦ rw e (stream_ended schedule input rest l e)
      | inr (frame, rest, e) ↦
          let shorter = law.read_shrinks input frame rest e in
          rw e (
            after_frame schedule input frame rest l _ _ e refl (λ l'.
              comes_to_end fuel (later_calls c H view payload in_framer out_framer schedule) rest l'
                (omega arith)))
    ]

    one_end :
        (fuel : ℕ) (schedule : Schedule) (input : Bytes) (l : LoopState) (result : LoopState × Bool)
        → length input < fuel
        → Serves schedule input l result
        → serve c H view payload in_framer out_framer fuel schedule input l ≡ result
    unfolding serve
    one_end zero schedule input l result few s = absurd (omega arith)
    one_end (suc fuel) schedule input l _ few (stream_ended _ _ rest _ e) = rw e refl
    one_end (suc fuel) schedule input l _ few (handling_raised _ _ frame rest _ l' e done) =
        rw (e, done) refl
    one_end (suc fuel) schedule input l result few
          (one_round _ _ frame rest _ l' _ e done further) =
        let shorter = law.read_shrinks input frame rest e in
        rw (e, done)
          (one_end fuel (later_calls c H view payload in_framer out_framer schedule) rest l' result
            (omega arith) further)

    -- For an input framer that obeys the framing law, and any stream at all, well formed or not: the
    -- loop terminates, also in its description without fuel, and with one round more than the stream
    -- has bytes, or any larger number, `serve` gives the one result that this description has.
    pub serve-Serves :
        (fuel : ℕ) (schedule : Schedule) (input : Bytes) (l : LoopState)
        → length input < fuel
        → Serves schedule input l
            (serve c H view payload in_framer out_framer fuel schedule input l)
          × ((result : LoopState × Bool)
              → Serves schedule input l result
              → serve c H view payload in_framer out_framer fuel schedule input l ≡ result)
    serve-Serves fuel schedule input l few = (
      comes_to_end fuel schedule input l few,
      λ result s. one_end fuel schedule input l result few s,
    )
