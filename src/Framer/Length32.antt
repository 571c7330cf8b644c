-- ===== src/Framer/Length32.antt =====
-- Length32Framer of src/Framer.h: every payload below 2^32 bytes comes back as it was written.
use mathlib.Core.List.{append_assoc}
use native.Mathlib.Nat.{mod-eq_of_lt}
use rpcpp.Base.{ℕ, ◌+◌, ◌*◌, ◌%◌, ◌^◌, ◌<◌, ◌≤◌, ◌≡◌, ◌≢◌, refl, ap, [], ◌∷◌, ◌++◌, none, some}
use rpcpp.Base.{
  length, arith, take-append, drop-append, length-drop, length-append, length-pos, length-take,
  drop-nil, bit_or,
}
use rpcpp.Base.Bits.{bit_or-shift}
use rpcpp.Framer.{
  Bytes, IsFraming, shl32, byte_of, header_len, header, length32_body, length32_read,
  length32_write, length32_framer,
}

shl32-fits : (b k : ℕ) → b * 2 ^ k < 2 ^ 32 → shl32 b k ≡ b * 2 ^ k
shl32-fits b k h = mod-eq_of_lt h

-- The header is read back as the big-endian number that it spells.
pub header_len-sum :
    (b0 b1 b2 b3 : ℕ)
    → b0 < 256
    → b1 < 256
    → b2 < 256
    → b3 < 256
    → header_len b0 b1 b2 b3 ≡ b0 * 2 ^ 24 + b1 * 2 ^ 16 + b2 * 2 ^ 8 + b3
unfolding header_len
header_len-sum b0 b1 b2 b3 h0 h1 h2 h3 = omega (
  arith,
  ap (λ (t : ℕ). bit_or (bit_or t (shl32 b2 8)) b3) first,
  ap (λ (t : ℕ). bit_or t b3) second,
  bit_or-shift 8 (b0 * 65536 + b1 * 256 + b2) b3 h3,
)
  where
    first : bit_or (shl32 b0 24) (shl32 b1 16) ≡ (b0 * 256 + b1) * 2 ^ 16
    first =
        rw (shl32-fits b0 24 (omega arith), shl32-fits b1 16 (omega arith))
          (omega (arith, bit_or-shift 24 b0 (b1 * 2 ^ 16) (omega arith)))

    second : bit_or ((b0 * 256 + b1) * 2 ^ 16) (shl32 b2 8) ≡ (b0 * 65536 + b1 * 256 + b2) * 2 ^ 8
    second =
        rw (shl32-fits b2 8 (omega arith))
          (omega (arith, bit_or-shift 16 (b0 * 256 + b1) (b2 * 2 ^ 8) (omega arith)))

-- The four header bytes of a length below 2^32 spell that length.
pub header_len-byte_of :
    (n : ℕ) → n < 2 ^ 32 → header_len (byte_of n 24) (byte_of n 16) (byte_of n 8) (byte_of n 0) ≡ n
header_len-byte_of n h = omega (
  arith,
  header_len-sum (byte_of n 24) (byte_of n 16) (byte_of n 8) (byte_of n 0) (omega arith)
      (omega arith) (omega arith) (omega arith),
)

-- A body of the announced length is cut off exactly, what follows stays.
length32_body-append : (b rest : Bytes) → length32_body (length b) (b ++ rest) ≡ (some b, rest)
unfolding length32_body
length32_body-append [] rest = refl
length32_body-append (c ∷ b) rest =
    ground (arith, take-append (c ∷ b) rest, drop-append (c ∷ b) rest)

abbrev pub FitsHeader : Bytes → Type 0
FitsHeader b = length b < 2 ^ 32

length32_read-write :
    (b rest : Bytes) → FitsHeader b → length32_read (length32_write [] b ++ rest) ≡ (some b, rest)
unfolding length32_read length32_write
length32_read-write b rest h =
    rw (mod-eq_of_lt h, header_len-byte_of (length b) h) (length32_body-append b rest)

length32_body_shrinks :
    (len : ℕ) (s b s' : Bytes) → length32_body len s ≡ (some b, s') → length s' ≤ length s
unfolding length32_body
length32_body_shrinks len s b s' e = ground (arith, length-drop len s)

length32_read_shrinks : (s b s' : Bytes) → length32_read s ≡ (some b, s') → length s' < length s
unfolding length32_read
length32_read_shrinks (b0 ∷ b1 ∷ b2 ∷ b3 ∷ s) b s' e =
    omega (arith, length32_body_shrinks (header_len b0 b1 b2 b3) s b s' e)
length32_read_shrinks _ b s' e = cc

-- Length32Framer is a framing for the payloads below 2^32 bytes: a payload written is read back whole
-- and alone, and a frame that is read has taken at least one byte off the stream.
pub length32_framer-IsFraming : IsFraming FitsHeader length32_framer
unfolding length32_framer length32_read length32_write
length32_framer-IsFraming = record {
  read-write = length32_read-write;
  write-append = λ out b. append_assoc out (header (length b % 2 ^ 32)) b;
  read-nil = refl;
  read_shrinks = length32_read_shrinks;
}

-- A body that is cut short is refused, and what there is of it is consumed.
length32_body_short : (len : ℕ) (s : Bytes) → length s < len → length32_body len s ≡ (none, [])
unfolding length32_body
length32_body_short len s h = ground (arith, length-take len s, drop-nil len s)

-- For a payload below 2^32 bytes, a stream that ends anywhere inside its frame, in the header or in the
-- payload, gives no frame, and nothing is left of the stream.
pub length32_truncated :
    (b p q : Bytes)
    → FitsHeader b
    → q ≢ []
    → length32_write [] b ≡ p ++ q
    → length32_read p ≡ (none, [])
unfolding length32_read length32_write
length32_truncated b (b0 ∷ b1 ∷ b2 ∷ b3 ∷ p) q h ne e =
    length32_body_short (header_len b0 b1 b2 b3) p
      (omega (arith, announced, ap length body, length-append p q, length-pos q ne))
  where
    body : b ≡ p ++ q
    body = cc

    announced : header_len b0 b1 b2 b3 ≡ length b
    announced = cc (header_len-byte_of (length b) h, mod-eq_of_lt h)
length32_truncated b _ q h ne e = refl
