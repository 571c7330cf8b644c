-- ===== src/Typed/Schema/Replace.antt =====
-- The loop of `replaceAll` of src/TypedRpcServer.h ends.
use rpcpp.Base.{
  some-injective, ℕ, zero, suc, ◌+◌, ◌<◌, ◌≤◌, ◌≡◌, ◌≢◌, Text, true, some, [], ◌∷◌, ◌++◌, length,
  drop, take, arith, length-drop, length-take, length-append, length-pos, Bool-cases, Option-cases,
  inl, inr,
}
use rpcpp.Typed.Names.{starts_with}
use rpcpp.Typed.Schema.{find_at, replace_loop, replaced}

starts_with-length : (s m : Text) → starts_with s m ≡ true → length m ≤ length s
unfolding starts_with
starts_with-length s [] e = omega arith
starts_with-length [] (p ∷ ps) e = cc
starts_with-length (c ∷ s) (p ∷ ps) e = ground (arith, starts_with-length s ps)

pub find_at-length : (m s : Text) (i : ℕ) → find_at m s ≡ some i → i + length m ≤ length s
unfolding find_at
find_at-length [] [] i e = ground arith
find_at-length (p ∷ ps) [] i e = cc
find_at-length m (c ∷ s) i e = elim (Bool-cases (starts_with (c ∷ s) m)) [
  | inl here ↦
      omega (arith, starts_with-length (c ∷ s) m here, some-injective 0 i (rw (here, find_at) at e))
  | inr later ↦ elim (Option-cases (find_at m s)) [
    | inl nothing ↦ cc (rw (later, nothing, find_at) at e)
    | inr (j, found) ↦ omega (
      arith,
      find_at-length m s j found,
      some-injective (suc j) i (rw (later, found, find_at) at e),
    )
  ]
]

-- What is left to search after a replacement.
left-length :
    (old new str : Text) (pos i : ℕ)
    → pos + i + length old ≤ length str
    → length (drop (pos + i + length new) (replaced old new str (pos + i))) + (pos + i + length old)
      ≡ length str
left-length old new str pos i fits = ground (
  arith,
  length-drop (pos + i + length new) (replaced old new str (pos + i)),
  length-append (take (pos + i) str) (new ++ drop (pos + i + length old) str),
  length-append new (drop (pos + i + length old) str),
  length-take (pos + i) str,
  length-drop (pos + i + length old) str,
)

-- For a nonempty text to replace, rounds beyond the length of what is left to search change nothing:
-- the loop of `replaceAll` has ended by then.
pub replace_loop_fuel :
    (old new str : Text) (pos m n : ℕ)
    → old ≢ []
    → length (drop pos str) < m
    → length (drop pos str) < n
    → replace_loop m old new str pos ≡ replace_loop n old new str pos
unfolding replace_loop
replace_loop_fuel old new str pos zero n ne h k = absurd (omega arith)
replace_loop_fuel old new str pos (suc m) zero ne h k = absurd (omega arith)
replace_loop_fuel old new str pos (suc m) (suc n) ne h k =
    elim (Option-cases (find_at old (drop pos str))) [
      | inl nothing ↦ rw (nothing, replace_loop)
      | inr (i, found) ↦
          rw (found, replace_loop)
            (let fits = find_at-length old (drop pos str) i found in
              let less =
                left-length old new str pos i
                  (omega (arith, fits, length-drop pos str, length-pos old ne)) in
              replace_loop_fuel old new (replaced old new str (pos + i)) (pos + i + length new) m n
                ne (omega (arith, less, fits, length-drop pos str, length-pos old ne))
                (omega (arith, less, fits, length-drop pos str, length-pos old ne)))
    ]
