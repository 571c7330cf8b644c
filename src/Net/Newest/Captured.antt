-- ===== src/Net/Newest/Captured.antt =====
-- The newest context while a resolver's callbacks hold handles of it: the calls of one such run.
use rpcpp.Base.{ℕ, ◌+◌, ◌-◌, ◌≡◌, refl, ◌∙◌, ℤ, Text, Bool, true, false, ltb, List, [], ◌∷◌, length}
use rpcpp.Envelope.{rpc_error}
use rpcpp.Codec.{Codec, failure}
use rpcpp.Async.{respond_bytes, respond_error}
use rpcpp.Net.{
  has_handle, one_less, one_more, Port, Context, Net, Call, context, send, context_state,
  on_context, copy_handle, drop_handle, respond, respond_with_error, copy, drop, run_call,
  run_calls, allocate,
}
use rpcpp.Net.Newest.{with_newest, through-newest, re_own-newest, set_owners-newest, pinned_context}

module _ (c : Codec) where
  open c use {Output, Generic, Ty, El, write}

  -- The newest context while the host has `held` handles of it.
  abbrev held_context : ℕ → Bool → ℕ → Generic → Context Output
  held_context held done k id = record {
    held = held;
    pinned = true;
    state = record (context_state c k id) { done = done };
  }

  -- An answer through a handle: what is sent, for a call that answers.
  pub data Answers (k : ℕ) (id : Generic) : Call Output Generic Ty El → Output → Type 0 where
    bytes_answer : (bytes : Output) → Answers k id (respond k bytes) bytes
    error_answer :
        (code : ℤ) (message : Text)
        → Answers k id
            (respond_with_error k code message)
            (write (failure (rpc_error id code message)))

  module _ (cs : List (Context Output)) (id : Generic) where
    abbrev at : ℕ → Bool → Port Output → Net Output
    at held done p = with_newest c p cs (held_context held done (length cs) id)

    copy-newest :
        (held : ℕ) (done : Bool) (p : Port Output)
        → ltb 0 held ≡ true
        → copy_handle (length cs) (at held done p) ≡ at (held + 1) done p
    unfolding copy_handle
    copy-newest held done p mine =
        re_own-newest c has_handle one_more p cs (held_context held done (length cs) id) mine
        ∙ set_owners-newest c (held + 1) true p cs (held_context held done (length cs) id)

    drop-held :
        (held : ℕ) (done : Bool) (p : Port Output)
        → ltb 0 held ≡ true
        → drop_handle (length cs) (at held done p) ≡ at (held - 1) done p
    unfolding drop_handle
    drop-held held done p mine =
        re_own-newest c has_handle one_less p cs (held_context held done (length cs) id) mine
        ∙ set_owners-newest c (held - 1) true p cs (held_context held done (length cs) id)

    answer-newest :
        (op : Call Output Generic Ty El) (bytes : Output) (held : ℕ) (p : Port Output)
        → Answers (length cs) id op bytes
        → ltb 0 held ≡ true
        → run_call c op (at held false p) ≡ at held true (send (context (length cs)) bytes p)
    unfolding run_call on_context context_state respond_bytes respond_error
    answer-newest op bytes held p (bytes_answer b) mine =
        through-newest c has_handle (respond_bytes b) p cs (held_context held false (length cs) id)
          mine
    answer-newest op bytes held p (error_answer code message) mine =
        through-newest c has_handle (respond_error code message) p cs
          (held_context held false (length cs) id) mine

    three_drops :
        (p : Port Output)
        → run_calls c (drop (length cs) ∷ drop (length cs) ∷ drop (length cs) ∷ []) (at 3 true p)
          ≡ at 0 true p
    unfolding run_calls run_call
    three_drops p =
        rw (drop-held 3 true p refl, drop-held 2 true p refl, drop-held 1 true p refl) refl

    answer_and_drop :
        (op : Call Output Generic Ty El) (bytes : Output) (p : Port Output)
        → Answers (length cs) id op bytes
        → run_calls c
            (copy (length cs)
              ∷ copy (length cs)
              ∷ op
              ∷ drop (length cs)
              ∷ drop (length cs)
              ∷ drop (length cs)
              ∷ [])
            (at 1 false p)
          ≡ at 0 true (send (context (length cs)) bytes p)
    unfolding run_calls run_call
    answer_and_drop op bytes p answers =
        rw
          (
            copy-newest 1 false p refl,
            copy-newest 2 false p refl,
            answer-newest op bytes 3 p answers refl,
          )
          (three_drops (send (context (length cs)) bytes p))

  -- A dispatch whose handler copies its handle twice, answers, and lets go of all three.
  pub answer-allocate :
      (id : Generic) (n : Net Output) (op : Call Output Generic Ty El) (bytes : Output)
      → Answers (length n.contexts) id op bytes
      → let k = length n.contexts in
        run_calls c (copy k ∷ copy k ∷ op ∷ drop k ∷ drop k ∷ drop k ∷ []) (allocate c id k n)
        ≡ with_newest c
            (send (context k) bytes (record n.port { inflight = n.port.inflight + 1 }))
            n.contexts
            (pinned_context c true k id)
  unfolding allocate context_state
  answer-allocate id n op bytes answers =
      answer_and_drop n.contexts id op bytes (record n.port { inflight = n.port.inflight + 1 })
        answers
