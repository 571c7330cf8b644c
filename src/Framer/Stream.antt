-- ===== src/Framer/Stream.antt =====
-- A whole stream of frames: the reading loop `while (auto frame = InF::read(in))` of
-- src/transports/StdioTransport.h over any framing, and the writer that it undoes.
use mathlib.Core.List.{append_assoc, append-nil}
use rpcpp.Base.{
  ℕ, zero, suc, ◌<◌, ◌≡◌, refl, sym, ap, ◌⊎◌, List, [], ◌∷◌, ◌++◌, Option, none, some, inl, inr,
}
use rpcpp.Base.{All, length, arith}
use rpcpp.Framer.{Bytes, Framer, IsFraming}

abbrev next_frame : (Bytes → List Bytes) → Option Bytes × Bytes → List Bytes
next_frame more (none, s) = []
next_frame more (some b, s) = b ∷ more s

-- What a peer with the same framing reads off a stream, on fuel for its rounds.
pub frames : Framer → ℕ → Bytes → List Bytes
frames f zero s = []
frames f (suc fuel) s = next_frame (frames f fuel) (f.read s)

-- The stream after the payloads were written to it one after another.
unfoldable pub write_all : Framer → Bytes → List Bytes → Bytes
write_all f out [] = out
write_all f out (b ∷ bs) = write_all f (f.write out b) bs

-- The whole stream: more rounds than it has bytes. The peer is no code of the repository; its loop is taken
-- to be that of `StdioTransport::run`.
pub read_all : Framer → Bytes → List Bytes
unfolding frames
read_all f s = frames f (suc (length s)) s

pub write_all-nil : (f : Framer) → write_all f [] [] ≡ []
unfolding write_all
write_all-nil f = refl

pub read-cases :
    (r : Option Bytes × Bytes)
    → ((s : Bytes) × (r ≡ (none, s))) ⊎ ((b : Bytes) × (s : Bytes) × (r ≡ (some b, s)))
read-cases (none, s) = inl (s, refl)
read-cases (some b, s) = inr (b, s, refl)

module _ {ℓ} {Accepts : Bytes → Type ℓ} {f : Framer} (law : IsFraming Accepts f) where
  pub write_all-append :
      (out : Bytes) (bs : List Bytes) → write_all f out bs ≡ out ++ write_all f [] bs
  unfolding write_all
  write_all-append out [] = sym (append-nil out)
  write_all-append out (b ∷ bs) =
      rw
        (
          write_all-append (f.write out b) bs,
          write_all-append (f.write [] b) bs,
          law.write-append out b,
        )
        (append_assoc out (f.write [] b) (write_all f [] bs))

  -- The first payload of a stream is read, and the others are left.
  pub read-write_all :
      (b : Bytes) (bs : List Bytes)
      → Accepts b
      → f.read (write_all f [] (b ∷ bs)) ≡ (some b, write_all f [] bs)
  unfolding write_all
  read-write_all b bs h =
      rw (write_all-append (f.write [] b) bs) (law.read-write b (write_all f [] bs) h)

  pub write_all_shrinks :
      (b : Bytes) (bs : List Bytes)
      → Accepts b
      → length (write_all f [] bs) < length (write_all f [] (b ∷ bs))
  write_all_shrinks b bs h = law.read_shrinks _ b _ (read-write_all b bs h)

  frames-write_all :
      (fuel : ℕ) (bs : List Bytes)
      → All Accepts bs
      → length (write_all f [] bs) < fuel
      → frames f fuel (write_all f [] bs) ≡ bs
  unfolding frames
  frames-write_all zero bs h k = absurd (omega arith)
  frames-write_all (suc n) [] h k = rw (write_all-nil f, law.read-nil) refl
  frames-write_all (suc n) (b ∷ bs) h k =
      rw (read-write_all b bs h.0)
        (ap (◌∷◌ b) (frames-write_all n bs h.1 (omega (arith, write_all_shrinks b bs h.0))))

  pub read_all-write_all : (bs : List Bytes) → All Accepts bs → read_all f (write_all f [] bs) ≡ bs
  unfolding read_all
  read_all-write_all bs h = frames-write_all (suc (length (write_all f [] bs))) bs h (omega arith)
