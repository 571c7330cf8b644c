-- ===== src/Framer.antt =====
-- src/Framer.h: how a frame is cut out of an input stream and put on an output stream.
-- An `std::istream` is the list of the bytes that are left in it, an `std::ostream` the list of the
-- bytes written so far. `flush` changes neither.
pub mod Line
pub mod Length32
pub mod Stream
use rpcpp.Base.{ℕ, ◌%◌, ◌/◌, ◌*◌, ◌^◌, ◌<◌, ◌≡◌, List, [], ◌∷◌, ◌++◌, Option, none, some, bit_or}
use rpcpp.Base.{length, is_empty, take, drop, if◌then◌else◌, ◌==◌}

abbrev pub Bytes : Type 0
Bytes = List ℕ

-- `read` hands back the frame, if there is one, and what is left of the stream.
pub record Framer : Type 0 where
  pub read : Bytes → Option Bytes × Bytes
  pub write : Bytes → Bytes → Bytes

abbrev pub newline : ℕ
newline = 10

-- The loop `while (in.get(ch))` of `LineFramer::read`, over the buffer and the stream.
unfoldable pub line_loop : Bytes → Bytes → Option Bytes × Bytes
line_loop buf [] = (if is_empty buf then none else some buf, [])
line_loop buf (ch ∷ s) =
    let rest = line_loop (buf ++ ch ∷ []) s in if ch == newline then (some buf, s) else rest

unfoldable pub line_read : Bytes → Option Bytes × Bytes
unfolding line_loop
line_read s = line_loop [] s

unfoldable pub line_write : Bytes → Bytes → Bytes
line_write out bytes = (out ++ bytes) ++ newline ∷ []

unfoldable pub line_framer : Framer
unfolding line_read line_write
line_framer = record { read = line_read; write = line_write }

-- `static_cast<std::uint32_t>(b) << k`
abbrev pub shl32 : ℕ → ℕ → ℕ
shl32 b k = b * 2 ^ k % 2 ^ 32

-- The four bytes of the header as one number, the first one highest.
pub header_len : ℕ → ℕ → ℕ → ℕ → ℕ
header_len b0 b1 b2 b3 = bit_or (bit_or (bit_or (shl32 b0 24) (shl32 b1 16)) (shl32 b2 8)) b3

-- `in.read(buf, len)` and the test of `in.gcount()`: what is there is consumed also if it is short.
pub length32_body : ℕ → Bytes → Option Bytes × Bytes
length32_body len s =
    if len == 0
    then (some [], s)
    else if length (take len s) == len
    then (some (take len s), drop len s)
    else (none, drop len s)

pub length32_read : Bytes → Option Bytes × Bytes
unfolding header_len length32_body
length32_read (b0 ∷ b1 ∷ b2 ∷ b3 ∷ s) = length32_body (header_len b0 b1 b2 b3) s
length32_read s = (none, [])

-- `(len >> k) & 0xFF`
abbrev pub byte_of : ℕ → ℕ → ℕ
byte_of len k = len / 2 ^ k % 256

unfoldable pub header : ℕ → Bytes
header len = byte_of len 24 ∷ byte_of len 16 ∷ byte_of len 8 ∷ byte_of len 0 ∷ []

-- The size is cut to 32 bits, the payload is not.
unfoldable pub length32_write : Bytes → Bytes → Bytes
unfolding header
length32_write out bytes = (out ++ header (length bytes % 2 ^ 32)) ++ bytes

pub length32_framer : Framer
unfolding length32_read length32_write
length32_framer = record { read = length32_read; write = length32_write }

-- What a transport needs of its framing: payloads that satisfy `Accepts` come back whole, whatever
-- follows them, and a frame that is read takes something off the stream.
pub record IsFraming {ℓ} (Accepts : Bytes → Type ℓ) (f : Framer) : Type ℓ where
  pub read-write : (b rest : Bytes) → Accepts b → f.read (f.write [] b ++ rest) ≡ (some b, rest)
  pub write-append : (out b : Bytes) → f.write out b ≡ out ++ f.write [] b
  pub read-nil : f.read [] ≡ (none, [])
  pub read_shrinks : (s b s' : Bytes) → f.read s ≡ (some b, s') → length s' < length s
