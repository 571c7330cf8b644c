-- ===== src/Async/Race/Fair.antt =====
-- What each step of the threads of one request (src/Resolver.h) keeps: the exchange of `done` is found false
-- once, and the destructor comes last.
use rpcpp.Base.{
  tally-set, ℕ, ◌+◌, ◌≡◌, refl, ap, true, false, not, some, List, [], ◌∷◌, get_elem?, set, length,
  length-append, tally, tally-append, bit, arith,
}
use rpcpp.Async.Race.{
  Phase, starting, won, over, is_starting, is_won, is_over, Caller, Race, at_phase, busy, Step,
  join, win, lose, answer, destroy_open, destroy_done,
}

module _ (A : Type 0) (gone : A) where
  abbrev pub Callers : Type 0
  Callers = List (Caller A gone)

  abbrev pub wins : Callers → ℕ
  wins cs = tally (λ (t : Caller A gone). is_won t.phase) cs

  abbrev pub moved : Callers → ℕ
  moved cs = tally (λ (t : Caller A gone). not (is_starting t.phase)) cs

  pub record Fair (s : Race A gone) : Type 0 where
    pub one : length s.sent + wins s.callers ≡ bit s.done
    pub unmoved : s.done ≡ false → moved s.callers ≡ 0
    pub finished : s.completed ≡ true → (s.done ≡ true) × (busy A gone s.callers ≡ 0)

  -- The counts after a caller goes from one phase to another.
  pub record Counts (cs : Callers) (i : ℕ) (p q : Phase) (a : A) : Type 0 where
    pub won_count :
        wins (set cs i (at_phase A gone q a)) + bit (is_won p) ≡ wins cs + bit (is_won q)
    pub moved_count :
        moved (set cs i (at_phase A gone q a)) + bit (not (is_starting p))
        ≡ moved cs + bit (not (is_starting q))
    pub busy_count :
        busy A gone (set cs i (at_phase A gone q a)) + bit (not (is_over p))
        ≡ busy A gone cs + bit (not (is_over q))

  pub counts :
      (cs : Callers) (i : ℕ) (p q : Phase) (a : A)
      → get_elem? cs i ≡ some (at_phase A gone p a)
      → Counts cs i p q a
  counts cs i p q a found = record {
    won_count =
        tally-set (λ (t : Caller A gone). is_won t.phase) cs i (at_phase A gone p a)
          (at_phase A gone q a) found;
    moved_count =
        tally-set (λ (t : Caller A gone). not (is_starting t.phase)) cs i (at_phase A gone p a)
          (at_phase A gone q a) found;
    busy_count =
        tally-set (λ (t : Caller A gone). not (is_over t.phase)) cs i (at_phase A gone p a)
          (at_phase A gone q a) found;
  }

  pub Step-Fair : {s t : Race A gone} → Step A gone s t → Fair s → Fair t
  Step-Fair (join s a alive) v = record {
    one = omega (
      arith,
      v.one,
      tally-append (λ (t : Caller A gone). is_won t.phase) s.callers
          (at_phase A gone starting a ∷ []),
    );
    unmoved = λ e. omega (
      arith,
      v.unmoved e,
      tally-append (λ (t : Caller A gone). not (is_starting t.phase)) s.callers
          (at_phase A gone starting a ∷ []),
    );
    finished = λ e. cc;
  }
  Step-Fair (win s i a found free) v =
      let k = counts s.callers i starting won a found in
      record {
        one = omega (arith, v.one, k.won_count, ap bit free);
        unmoved = λ e. cc;
        finished = λ e. (refl, omega (arith, (v.finished e).1, k.busy_count));
      }
  Step-Fair (lose s i a found taken) v =
      let k = counts s.callers i starting over a found in
      record {
        one = omega (arith, v.one, k.won_count);
        unmoved = λ e. cc;
        finished = λ e. (taken, omega (arith, (v.finished e).1, k.busy_count));
      }
  Step-Fair (answer s i a found) v =
      let k = counts s.callers i won over a found in
      record {
        one = omega (arith, v.one, k.won_count, length-append s.sent (a ∷ []));
        unmoved = λ e. omega (arith, v.unmoved e, k.moved_count);
        finished = λ e. ((v.finished e).0, omega (arith, (v.finished e).1, k.busy_count));
      }
  Step-Fair (destroy_open s alive idle free) v = record {
    one = omega (arith, v.one, ap bit free, length-append s.sent (gone ∷ []));
    unmoved = λ e. cc;
    finished = λ e. (refl, idle);
  }
  Step-Fair (destroy_done s alive idle taken) v = record {
    one = v.one;
    unmoved = v.unmoved;
    finished = λ e. (taken, idle);
  }
