-- ===== src/Async/Race/Once.antt =====
-- However the threads of one request interleave (src/Resolver.h), it is answered once.
use rpcpp.Base.{
  set-other, still-there, no-items, bit-le, ℕ, ◌+◌, ◌≤◌, ◌≡◌, ◌≢◌, refl, ap, true, false, not, some,
  [], ◌∷◌, ◌++◌, get_elem?, length, bit, arith, ◌⊎◌, inl, inr, get_elem?-set_self, get_elem?-lt,
}
use rpcpp.Async.Race.{
  Phase, starting, won, over, is_starting, is_won, is_over, Caller, Race, at_phase, busy, Step,
  join, win, lose, answer, destroy_open, destroy_done, Reach, here, next, dispatched,
}
use rpcpp.Async.Race.Fair.{Callers, wins, moved, Fair, Step-Fair, counts}

module _ (A : Type 0) (gone : A) where
  -- Where the one answer is from.
  data Source (s : Race A gone) : Type 0 where
    nothing : s.sent ≡ [] → Source s
    by_caller :
        (i : ℕ) (a : A)
        → get_elem? s.callers i ≡ some (at_phase A gone over a)
        → s.sent ≡ a ∷ []
        → Source s
    by_destructor : s.callers ≡ [] → s.sent ≡ gone ∷ [] → s.completed ≡ true → Source s

  starting-ne-over : (a b : A) → at_phase A gone starting a ≢ at_phase A gone over b
  starting-ne-over a b e = cc (ap (λ (t : Caller A gone). t.phase) e)

  -- A caller is not starting, or not over.
  length-le-moved : (cs : Callers A gone) → length cs ≤ moved A gone cs + busy A gone cs
  length-le-moved [] = omega arith
  length-le-moved (t ∷ cs) = omega (arith, length-le-moved cs, some_count t.phase)
    where
      some_count : (p : Phase) → 1 ≤ bit (not (is_starting p)) + bit (not (is_over p))
      some_count starting = omega arith
      some_count won = omega arith
      some_count over = omega arith

  -- A caller between the exchange and the callback is not over.
  wins-le-busy : (cs : Callers A gone) → wins A gone cs ≤ busy A gone cs
  wins-le-busy [] = omega arith
  wins-le-busy (t ∷ cs) = omega (arith, wins-le-busy cs, not_over t.phase)
    where
      not_over : (p : Phase) → bit (is_won p) ≤ bit (not (is_over p))
      not_over starting = omega arith
      not_over won = omega arith
      not_over over = omega arith

  unsent : (s : Race A gone) → Fair A gone s → s.done ≡ false → s.sent ≡ []
  unsent s v free = no-items s.sent (omega (arith, v.one, ap bit free))

  Step-Source : {s t : Race A gone} → Step A gone s t → Fair A gone s → Source s → Source t
  Step-Source (join s a alive) v (nothing e) = nothing e
  Step-Source (join s a alive) v (by_caller j b found e) =
      by_caller j b (still-there s.callers _ j _ found) e
  Step-Source (join s a alive) v (by_destructor n e f) = cc
  Step-Source (win s i a found free) v q = nothing (unsent s v free)
  Step-Source (lose s i a found taken) v (nothing e) = nothing e
  Step-Source (lose s i a found taken) v (by_caller j b there e) =
      by_caller j b
        (set-other s.callers i j (at_phase A gone starting a) (at_phase A gone over b) _ found there
          (starting-ne-over a b))
        e
  Step-Source (lose s i a found taken) v (by_destructor n e f) = cc (rw n at found)
  Step-Source (answer s i a found) v q =
      let k = counts A gone s.callers i won over a found in
      let before : s.sent ≡ [] =
        no-items s.sent (omega (arith, v.one, k.won_count, bit-le s.done)) in
      by_caller i a (get_elem?-set_self s.callers i _ (get_elem?-lt s.callers i found))
        (ap (λ xs. xs ++ a ∷ []) before)
  Step-Source (destroy_open s alive idle free) v q =
      by_destructor
        (no-items s.callers (omega (arith, length-le-moved s.callers, idle, v.unmoved free)))
        (ap (λ xs. xs ++ gone ∷ []) (unsent s v free)) refl
  Step-Source (destroy_done s alive idle taken) v (nothing e) = nothing e
  Step-Source (destroy_done s alive idle taken) v (by_caller j b there e) = by_caller j b there e
  Step-Source (destroy_done s alive idle taken) v (by_destructor n e f) = by_destructor n e refl

  Reach-Fair : {t : Race A gone} → Reach A gone (dispatched A gone) t → Fair A gone t × Source t
  Reach-Fair here = (record { one = refl; unmoved = λ e. refl; finished = λ e. cc }, nothing refl)
  Reach-Fair (next r st) = let (v, q) = Reach-Fair r in (Step-Fair A gone st v, Step-Source st v q)

  -- When the destructor of the state is done, the one answer that was sent.
  abbrev pub OneAnswer : Race A gone → Type 0
  OneAnswer s =
      ((i : ℕ) × (a : A) × (get_elem? s.callers i ≡ some (at_phase A gone over a))
        × (s.sent ≡ a ∷ []))
      ⊎ ((s.callers ≡ []) × (s.sent ≡ gone ∷ []))

  one_answer : (s : Race A gone) → Fair A gone s → Source s → s.completed ≡ true → OneAnswer s
  one_answer s v (nothing e) c = absurd (
      omega (
        arith,
        v.one,
        ap bit (v.finished c).0,
        ap length e,
        wins-le-busy s.callers,
        (v.finished c).1,
      ))
  one_answer s v (by_caller i a found e) c = inl (i, a, found, e)
  one_answer s v (by_destructor n e f) c = inr (n, e)

  -- A request whose threads answer it in any interleaving, each stopped where it may be between the
  -- exchange of `done` and its callback: at no time was more than one answer sent. When `onComplete` is
  -- called, exactly one was sent: the answer of one of the threads if any thread answered at all, and
  -- else that the request was abandoned.
  pub answered_once :
      (s : Race A gone)
      → Reach A gone (dispatched A gone) s
      → (length s.sent ≤ 1) × (s.completed ≡ true → OneAnswer s)
  answered_once s r =
      let (v, q) = Reach-Fair r in (omega (arith, v.one, bit-le s.done), one_answer s v q)
