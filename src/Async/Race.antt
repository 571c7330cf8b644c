-- ===== src/Async/Race.antt =====
-- `AsyncContext<C>` of src/Resolver.h with its operations split: several threads answer one request, and each
-- may be stopped between the exchange of `done` and its callback.
--
-- A thread is a call of `respondBytes` or `respondError` with its answer. It holds a handle until it is
-- over, so `~State()` comes when all are over; the destructor owes the answer `gone` if `done` is false.
-- A thread that has a handle may copy it for another. What is sent is a log.
pub mod Fair
pub mod Once
use rpcpp.Base.{
  ℕ, ◌≡◌, Bool, true, false, Option, some, List, [], ◌∷◌, ◌++◌, get_elem?, set, tally, not,
}

pub data Phase : Type 0 where
  -- before the exchange, between the exchange that found false and the callback, and after it
  starting won over : Phase

abbrev pub is_starting : Phase → Bool
is_starting starting = true
is_starting won = false
is_starting over = false

abbrev pub is_won : Phase → Bool
is_won starting = false
is_won won = true
is_won over = false

abbrev pub is_over : Phase → Bool
is_over starting = false
is_over won = false
is_over over = true

module _ (A : Type 0) (gone : A) where
  pub record Caller : Type 0 where
    pub phase : Phase
    pub answer : A

  pub record Race : Type 0 where
    pub done : Bool
    pub callers : List Caller
    pub sent : List A
    -- `onComplete` was called
    pub completed : Bool

  abbrev pub at_phase : Phase → A → Caller
  at_phase p a = record { phase = p; answer = a }

  -- How many callers are in a phase.
  abbrev pub busy : List Caller → ℕ
  busy cs = tally (λ (t : Caller). not (is_over t.phase)) cs

  pub data Step : Race → Race → Type 0 where
    -- another thread starts with a handle
    join :
        (s : Race) (a : A)
        → s.completed ≡ false
        → Step s (record s { callers = s.callers ++ at_phase starting a ∷ [] })
    -- `done.exchange(true)` that finds false
    win :
        (s : Race) (i : ℕ) (a : A)
        → get_elem? s.callers i ≡ some (at_phase starting a)
        → s.done ≡ false
        → Step s (record s { done = true; callers = set s.callers i (at_phase won a) })
    -- `done.exchange(true)` that finds true
    lose :
        (s : Race) (i : ℕ) (a : A)
        → get_elem? s.callers i ≡ some (at_phase starting a)
        → s.done ≡ true
        → Step s (record s { callers = set s.callers i (at_phase over a) })
    -- the callback
    answer :
        (s : Race) (i : ℕ) (a : A)
        → get_elem? s.callers i ≡ some (at_phase won a)
        → Step s (record s { callers = set s.callers i (at_phase over a); sent = s.sent ++ a ∷ [] })
    -- `~State()`, when nothing was answered and when something was
    destroy_open :
        (s : Race)
        → s.completed ≡ false
        → busy s.callers ≡ 0
        → s.done ≡ false
        → Step s (record s { done = true; sent = s.sent ++ gone ∷ []; completed = true })
    destroy_done :
        (s : Race)
        → s.completed ≡ false
        → busy s.callers ≡ 0
        → s.done ≡ true
        → Step s (record s { completed = true })

  pub data Reach (s : Race) : Race → Type 0 where
    here : Reach s s
    next : {t u : Race} → Reach s t → Step t u → Reach s u

  -- A request that was dispatched.
  abbrev pub dispatched : Race
  dispatched = record { done = false; callers = []; sent = []; completed = false }
