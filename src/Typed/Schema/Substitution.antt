-- ===== src/Typed/Schema/Substitution.antt =====
-- What `replaceAll` of src/TypedRpcServer.h computes, against a description by one pass over the text.
use mathlib.Core.List.{append_assoc}
use rpcpp.Base.{
  some-injective, ℕ, zero, suc, ◌+◌, ◌-◌, ◌<◌, ◌≤◌, ◌≡◌, ◌≢◌, refl, sym, ap, ◌∙◌, Text, none, some,
  List, [], ◌∷◌, ◌++◌, length, drop, take, arith, length-drop, length-take, length-append,
  length-pos, drop-append, Bool-cases, Option-cases, inl, inr, if◌then◌else◌,
}
use rpcpp.Typed.Names.{starts_with}
use rpcpp.Typed.Schema.{find_at, replace_loop, replaced, replace_all}
use rpcpp.Typed.Schema.Replace.{find_at-length}

-- One pass: `skip` characters belong to an occurrence that has been replaced; the leftmost occurrence that
-- does not overlap it is replaced next.
pub substitute : Text → Text → ℕ → Text → Text
unfolding starts_with
substitute old new skip [] = []
substitute old new (suc skip) (c ∷ s) = substitute old new skip s
substitute old new zero (c ∷ s) =
    let inside = substitute old new (length old - 1) s in
    let past = substitute old new zero s in
    if starts_with (c ∷ s) old then new ++ inside else (c ∷ past)

module _ {ℓ} {A : Type ℓ} where
  take-beyond : (xs ys : List A) (i n : ℕ) → n ≡ length xs + i → take n (xs ++ ys) ≡ xs ++ take i ys
  take-beyond [] ys i n e = ap (λ m. take m ys) (omega (arith, e))
  take-beyond (x ∷ xs) ys i zero e = absurd (omega arith)
  take-beyond (x ∷ xs) ys i (suc n) e = ap (◌∷◌ x) (take-beyond xs ys i n (omega (arith, e)))

  drop-beyond : (xs ys : List A) (i n : ℕ) → n ≡ length xs + i → drop n (xs ++ ys) ≡ drop i ys
  drop-beyond [] ys i n e = ap (λ m. drop m ys) (omega (arith, e))
  drop-beyond (x ∷ xs) ys i zero e = absurd (omega arith)
  drop-beyond (x ∷ xs) ys i (suc n) e = drop-beyond xs ys i n (omega (arith, e))

substitute-skip :
    (old new : Text) (skip : ℕ) (s : Text)
    → substitute old new skip s ≡ substitute old new 0 (drop skip s)
unfolding substitute
substitute-skip old new zero s = refl
substitute-skip old new (suc skip) [] = refl
substitute-skip old new (suc skip) (c ∷ s) = substitute-skip old new skip s

substitute-none : (old new s : Text) → find_at old s ≡ none → substitute old new 0 s ≡ s
unfolding substitute find_at
substitute-none old new [] e = refl
substitute-none old new (c ∷ s) e = elim (Bool-cases (starts_with (c ∷ s) old)) [
  | inl here ↦ cc (rw (here, find_at) at e)
  | inr later ↦ elim (Option-cases (find_at old s)) [
    | inl nothing ↦ rw later (ap (◌∷◌ c) (substitute-none old new s nothing))
    | inr (j, found) ↦ cc (rw (later, found, find_at) at e)
  ]
]

substitute-some :
    (old new s : Text) (i : ℕ)
    → old ≢ []
    → find_at old s ≡ some i
    → substitute old new 0 s ≡ take i s ++ (new ++ substitute old new 0 (drop (i + length old) s))
unfolding substitute find_at
substitute-some [] new s i ne e = absurd (ne refl)
substitute-some (p ∷ ps) new [] i ne e = cc
substitute-some (p ∷ ps) new (c ∷ s) i ne e = elim (Bool-cases (starts_with (c ∷ s) (p ∷ ps))) [
  | inl here ↦
      rw (here, ← some-injective 0 i (rw (here, find_at) at e))
        (ap (◌++◌ new) (
          substitute-skip (p ∷ ps) new (suc (length ps) - 1) s
          ∙ ap (λ n. substitute (p ∷ ps) new 0 (drop n (c ∷ s))) taken))
  | inr later ↦ elim (Option-cases (find_at (p ∷ ps) s)) [
    | inl nothing ↦ cc (rw (later, nothing, find_at) at e)
    | inr (j, found) ↦
        rw (later, ← some-injective (suc j) i (rw (later, found, find_at) at e))
          (ap (◌∷◌ c) (substitute-some (p ∷ ps) new s j ne found)
            ∙ ap (λ n. c ∷ (take j s ++ (new ++ substitute (p ∷ ps) new 0 (drop n (c ∷ s)))))
                (further j))
  ]
]
  where
    taken : suc (suc (length ps) - 1) ≡ 0 + suc (length ps)
    taken = omega arith

    further : (j : ℕ) → suc (j + suc (length ps)) ≡ suc j + suc (length ps)
    further j = omega arith

-- The string and the position after a replacement, behind a part that is done.
replaced-done :
    (old new done rest : Text) (i : ℕ)
    → replaced old new (done ++ rest) (length done + i)
      ≡ (done ++ (take i rest ++ new)) ++ drop (i + length old) rest
replaced-done old new done rest i =
    rw
      (
        take-beyond done rest i (length done + i) refl,
        drop-beyond done rest (i + length old) (length done + i + length old) (omega arith),
        append_assoc done (take i rest) (new ++ drop (i + length old) rest),
        append_assoc done (take i rest ++ new) (drop (i + length old) rest),
        append_assoc (take i rest) new (drop (i + length old) rest),
      )
      refl

position-done :
    (new done rest : Text) (i : ℕ)
    → i ≤ length rest
    → length done + i + length new ≡ length (done ++ (take i rest ++ new))
position-done new done rest i fits = ground (
  arith,
  length-append done (take i rest ++ new),
  length-append (take i rest) new,
  length-take i rest,
)

regroup : (w x y z : Text) → (w ++ (x ++ y)) ++ z ≡ w ++ (x ++ (y ++ z))
regroup w x y z = rw (append_assoc w (x ++ y) z, append_assoc x y z) refl

loop-substitute :
    (old new done rest : Text) (fuel : ℕ)
    → old ≢ []
    → length rest < fuel
    → replace_loop fuel old new (done ++ rest) (length done) ≡ done ++ substitute old new 0 rest
unfolding replace_loop
loop-substitute old new done rest zero ne h = absurd (omega arith)
loop-substitute old new done rest (suc fuel) ne h = elim (Option-cases (find_at old rest)) [
  | inl nothing ↦
      rw (ap (find_at old) (drop-append done rest) ∙ nothing, replace_loop)
        (ap (◌++◌ done) (sym (substitute-none old new rest nothing)))
  | inr (i, found) ↦
      let fits = find_at-length old rest i found in
      let done' = done ++ (take i rest ++ new) in
      let rest' = drop (i + length old) rest in
      rw
        (
          ap (find_at old) (drop-append done rest) ∙ found,
          replace_loop,
          substitute-some old new rest i ne found,
        )
        (ap (λ str. replace_loop fuel old new str (length done + i + length new))
            (replaced-done old new done rest i)
          ∙ ap (replace_loop fuel old new (done' ++ rest'))
              (position-done new done rest i (omega (arith, fits)))
          ∙ loop-substitute old new done' rest' fuel ne
              (omega (arith, h, fits, length-drop (i + length old) rest, length-pos old ne))
          ∙ regroup done (take i rest) new (substitute old new 0 rest'))
]

-- `replaceAll` of a nonempty text replaces exactly the occurrences that one pass from left to right finds,
-- none of which overlaps the one before, and never looks into what it has put in.
pub replace_all-substitute :
    (str old new : Text) → old ≢ [] → replace_all str old new ≡ substitute old new 0 str
unfolding replace_all
replace_all-substitute str old new ne =
    loop-substitute old new [] str (suc (length str)) ne (omega arith)
