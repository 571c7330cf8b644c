-- ===== src/Framer/Line.antt =====
-- LineFramer of src/Framer.h: a payload with no newline comes back as it was written.
use mathlib.Core.List.{append_assoc, append-nil}
use rpcpp.Base.{◌+◌, ◌<◌, ◌≡◌, refl, ◌≢◌, [], ◌∷◌, ◌++◌, none, some}
use rpcpp.Base.{All, length, length-append, arith}
use rpcpp.Framer.{Bytes, IsFraming, newline, line_loop, line_read, line_write, line_framer}

abbrev pub NoNewline : Bytes → Type 0
NoNewline = All (λ c. c ≢ newline)

-- The loop collects up to the newline, and leaves what stands behind it.
line_loop-newline :
    (buf b rest : Bytes)
    → NoNewline b
    → line_loop buf (b ++ newline ∷ rest) ≡ (some (buf ++ b), rest)
unfolding line_loop
line_loop-newline buf [] rest h = rw (append-nil buf)
line_loop-newline buf (c ∷ b) rest h =
    ground (arith, line_loop-newline (buf ++ c ∷ []) b rest h.1, append_assoc buf (c ∷ []) b)

line_loop_nil : line_loop [] [] ≡ (none, [])
unfolding line_loop
line_loop_nil = refl

-- A frame that is found has taken a byte off the stream, or the buffer held one before.
line_loop_shrinks :
    (buf s b s' : Bytes) → line_loop buf s ≡ (some b, s') → length s' < length s + length buf
unfolding line_loop
line_loop_shrinks [] [] b s' e = cc
line_loop_shrinks (x ∷ buf) [] b s' e = ground arith
line_loop_shrinks buf (c ∷ s) b s' e =
    ground (arith, line_loop_shrinks (buf ++ c ∷ []) s b s', length-append buf (c ∷ []))

-- LineFramer is a framing for the payloads that hold no newline byte: a payload written is read back
-- whole and alone, and a frame that is read has taken at least one byte off the stream.
pub line_framer-IsFraming : IsFraming NoNewline line_framer
unfolding line_framer line_read line_write
line_framer-IsFraming = record {
  read-write = λ b rest h. rw (append_assoc b (newline ∷ []) rest) (line_loop-newline [] b rest h);
  write-append = λ out b. append_assoc out b (newline ∷ []);
  read-nil = line_loop_nil;
  read_shrinks = λ s b s' e. omega (arith, line_loop_shrinks [] s b s' e);
}
