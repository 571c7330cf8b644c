-- ===== src/Transport/Stdio/Output.antt =====
-- The responder of src/transports/StdioTransport.h, over the order in which its queue hands the items out.
use rpcpp.Base.{◌≡◌, refl, Option, none, some, List, [], ◌∷◌, ◌++◌, map}
use rpcpp.Framer.{Bytes, Framer}
use rpcpp.Framer.Stream.{write_all}
use rpcpp.Codec.{Codec}
use rpcpp.Net.{Sent}
use rpcpp.Transport.Stdio.{responder}

module _ (c : Codec) (H : Type 0) (view : Bytes → c.Input) (payload : c.Output → Bytes)
    (in_framer out_framer : Framer) where
  open c use {Output}

  pub responder-sentinel :
      (xs : List (Sent Output)) (later : List (Option (Sent Output))) (out : Bytes)
      → responder c H view payload in_framer out_framer (map some xs ++ none ∷ later) out
        ≡ some (write_all out_framer out (map (λ x. payload x.bytes) xs))
  unfolding responder write_all
  responder-sentinel [] later out = refl
  responder-sentinel (x ∷ xs) later out =
      responder-sentinel xs later (out_framer.write out (payload x.bytes))
