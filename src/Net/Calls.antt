-- ===== src/Net/Calls.antt =====
-- Every call on the shared state, and the start and end of a dispatch, keep its invariant.
use mathlib.Core.Path.{subst}
use rpcpp.Base.{
  ℕ, ◌+◌, ◌≡◌, refl, ℤ, Text, Bool, true, List, [], ◌∷◌, arith, length, get_elem?, get_elem?-snoc,
  ltb, Bool-cases, Option-cases, inl, inr, length-append,
}
use rpcpp.Envelope.{rpc_error}
use rpcpp.Codec.{Codec, failure}
use rpcpp.Async.{ContextState, respond_bytes, respond_error}
use rpcpp.Net.{
  has_handle, is_pinned, one_more, one_less, unpinned, server, Port, Context, Net, is_alive,
  fresh_context, send, through, on_context, on_pinned, re_own, copy_handle, drop_handle, unpin,
  allocate, Call, run_call, run_calls, respond, respond_with_error, copy, drop, write_response,
  write_notification, write_typed_notification, write_error,
}
use rpcpp.Net.Steps.{Keeps, answer-Keeps, respond_bytes_wired, respond_error_wired, set_owners-Next}
use rpcpp.Net.Invariant.{
  answers-send, live-snoc, Good, Grows-refl, Inv, Next, Next-refl, Next-trans, Inv-set, Good-other,
}

module _ (c : Codec) where
  open c use {Output, Generic, Ty, El, write}

  -- An operation of a context's state keeps the invariant, whoever calls it.
  through-Next :
      (owner : Context Output → Bool) (k : ℕ)
      (f : ContextState Output (Port Output)
        → Port Output
        → ContextState Output (Port Output) × Port Output)
      (n : Net Output)
      → ((cx : Context Output)
          → Good c k n.port cx
          → Keeps c k n.port cx (f cx.state n.port).1 (record cx { state = (f cx.state n.port).0 }))
      → Inv c n
      → Next c n (through owner k f n)
  through-Next owner k f n keep inv = elim (Option-cases (get_elem? n.contexts k)) [
    | inl e ↦ rw (e, through) (Next-refl c inv)
    | inr (cx, e) ↦
        rw (e, through)
          (elim (Bool-cases (owner cx)) [
            | inl yours ↦
                let it = keep cx (inv.good k cx e) in
                rw yours (record {
                  inv = Inv-set c n k cx _ _ inv e it.good it.others it.count;
                  grows = it.grows;
                })
            | inr none_left ↦ rw none_left (Next-refl c inv)
          ])
  ]

  respond-Next :
      (k : ℕ) (bytes : Output) (n : Net Output)
      → Inv c n
      → Next c n (on_context k (respond_bytes bytes) n)
  unfolding on_context
  respond-Next k bytes n inv =
      through-Next _ k (respond_bytes bytes) n
        (λ cx g.
          rw (respond_bytes_wired c k n.port cx bytes g) (answer-Keeps c k n.port cx bytes g))
        inv

  fail-Next :
      (owner : Context Output → Bool) (k : ℕ) (code : ℤ) (message : Text) (n : Net Output)
      → Inv c n
      → Next c n (through owner k (respond_error code message) n)
  fail-Next owner k code message n inv =
      through-Next owner k (respond_error code message) n
        (λ cx g.
          rw (respond_error_wired c k n.port cx code message g)
            (answer-Keeps c k n.port cx (write (failure (rpc_error g.id code message))) g))
        inv

  -- A payload that no context sends changes nothing that the invariant speaks of.
  send-Next :
      (bytes : Output) (n : Net Output)
      → Inv c n
      → Next c n (record n { port = send server bytes n.port })
  send-Next bytes n inv = record {
    inv = record {
      good = λ k cx e.
          Good-other c k n.port _ cx (omega (arith, answers-send k server bytes n.port))
            (inv.good k cx e);
      counted = inv.counted;
      fresh = λ k h. omega (arith, answers-send k server bytes n.port, inv.fresh k h);
    };
    grows = (record { origin = server; bytes = bytes } ∷ [], refl);
  }

  re_own-Next :
      (owner : Context Output → Bool) (k : ℕ) (owners : Context Output → ℕ × Bool) (n : Net Output)
      → ((cx : Context Output) → owner cx ≡ true → is_alive cx ≡ true)
      → Inv c n
      → Next c n (re_own owner k owners n)
  re_own-Next owner k owners n alive inv = elim (Option-cases (get_elem? n.contexts k)) [
    | inl e ↦ rw (e, re_own) (Next-refl c inv)
    | inr (cx, e) ↦
        rw (e, re_own)
          (elim (Bool-cases (owner cx)) [
            | inl yours ↦ rw yours (set_owners-Next c k cx _ _ n e (alive cx yours) inv)
            | inr not_yours ↦ rw not_yours (Next-refl c inv)
          ])
  ]

  held-alive : (cx : Context Output) → ltb 0 cx.held ≡ true → is_alive cx ≡ true
  held-alive cx h = ground arith

  pub unpin-Next : (k : ℕ) (n : Net Output) → Inv c n → Next c n (unpin k n)
  unfolding unpin
  unpin-Next k n inv = re_own-Next is_pinned k unpinned n (λ cx h. ground arith) inv

  pub on_pinned-Next :
      (k : ℕ) (code : ℤ) (message : Text) (n : Net Output)
      → Inv c n
      → Next c n (on_pinned k (respond_error code message) n)
  unfolding on_pinned
  on_pinned-Next k code message n inv = fail-Next _ k code message n inv

  -- No call of the host breaks the invariant.
  pub run_call-Next :
      (op : Call Output Generic Ty El) (n : Net Output) → Inv c n → Next c n (run_call c op n)
  unfolding run_call on_context copy_handle drop_handle
  run_call-Next (respond k bytes) n inv = respond-Next k bytes n inv
  run_call-Next (respond_with_error k code message) n inv = fail-Next _ k code message n inv
  run_call-Next (copy k) n inv = re_own-Next has_handle k one_more n held-alive inv
  run_call-Next (drop k) n inv = re_own-Next has_handle k one_less n held-alive inv
  run_call-Next (write_response bytes) n inv = send-Next bytes n inv
  run_call-Next (write_notification method params) n inv = send-Next _ n inv
  run_call-Next (write_typed_notification method t params) n inv = send-Next _ n inv
  run_call-Next (write_error id code message) n inv = send-Next _ n inv

  pub run_calls-Next :
      (ops : List (Call Output Generic Ty El)) (n : Net Output)
      → Inv c n
      → Next c n (run_calls c ops n)
  unfolding run_calls
  run_calls-Next [] n inv = Next-refl c inv
  run_calls-Next (op ∷ ops) n inv =
      let first = run_call-Next op n inv in
      Next-trans c first (run_calls-Next ops (run_call c op n) first.inv)

  -- A dispatch starts a context of its own, with no answer sent and one more in flight.
  pub allocate-Next :
      (id : Generic) (n : Net Output) → Inv c n → Next c n (allocate c id (length n.contexts) n)
  unfolding allocate
  allocate-Next id n inv = record {
    inv = record {
      good = λ k cx e. elim (get_elem?-snoc n.contexts _ k e) [
        | inl old ↦ Good-other c k n.port _ cx refl (inv.good k cx old)
        | inr (last, same) ↦ rw last (subst (Good c (length n.contexts) _) same fresh_good)
      ];
      counted =
          omega (arith, live-snoc n.contexts (fresh_context c (length n.contexts) id), inv.counted);
      fresh = λ k h.
          inv.fresh k
            (omega (arith, length-append n.contexts (fresh_context c (length n.contexts) id ∷ [])));
    };
    grows = Grows-refl n.port;
  }
    where
      fresh_good :
          Good c
            (length n.contexts)
            (record n.port { inflight = n.port.inflight + 1 })
            (fresh_context c (length n.contexts) id)
      fresh_good = record {
        id = id;
        wired = refl;
        answered = inv.fresh (length n.contexts) (omega arith);
        settled = λ dead. cc;
      }
