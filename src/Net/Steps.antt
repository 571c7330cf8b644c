-- ===== src/Net/Steps.antt =====
-- Every operation on the shared state keeps its invariant.
use rpcpp.Base.{
  bit, ℕ, ◌+◌, ◌-◌, ◌≤◌, ◌≡◌, refl, ap, ◌≢◌, ℤ, Text, Bool, true, false, ◌||◌, some, [], ◌∷◌, arith,
  get_elem?, if◌then◌else◌, ltb, Bool-cases, inl, inr,
}
use rpcpp.Envelope.{rpc_error}
use rpcpp.Codec.{Codec, failure}
use rpcpp.Async.{ContextState, respond_bytes, respond_error, destroy, internal_error, abandoned}
use rpcpp.Net.{context, Port, Context, Net, is_alive, context_state, send, set_owners}
use rpcpp.Net.Invariant.{
  answers, answers-send, live-pos, Good, Grows, Grows-refl, Inv, Next, Inv-set,
}

module _ (c : Codec) where
  open c use {Output, Generic, Ty, El, write}

  -- What a step that touches context `k` alone has to keep.
  pub record Keeps (k : ℕ) (p : Port Output) (cx : Context Output) (p' : Port Output)
      (cx' : Context Output) : Type 0 where
    pub good : Good c k p' cx'
    pub others : (j : ℕ) → j ≢ k → answers j p'.sent ≡ answers j p.sent
    pub count : p'.inflight + bit (is_alive cx) ≡ p.inflight + bit (is_alive cx')
    pub grows : Grows p p'

  -- What a state that is wired does with an answer: it is sent unless one was sent before.
  abbrev answered_port : ℕ → Output → Context Output → Port Output → Port Output
  answered_port k bytes cx p = if cx.state.done then p else send (context k) bytes p

  abbrev marked : Context Output → Context Output
  marked cx = record cx { state = record cx.state { done = true } }

  pub respond_bytes_wired :
      (k : ℕ) (p : Port Output) (cx : Context Output) (bytes : Output)
      → Good c k p cx
      → respond_bytes bytes cx.state p ≡ ((marked cx).state, answered_port k bytes cx p)
  unfolding respond_bytes context_state
  respond_bytes_wired k p cx bytes g = ground (arith, g.wired)

  pub respond_error_wired :
      (k : ℕ) (p : Port Output) (cx : Context Output) (code : ℤ) (message : Text)
      → (g : Good c k p cx)
      → respond_error code message cx.state p
        ≡ ((marked cx).state, answered_port k (write (failure (rpc_error g.id code message))) cx p)
  unfolding respond_error context_state
  respond_error_wired k p cx code message g = ground (arith, g.wired)

  answered_port-Grows :
      (k : ℕ) (p : Port Output) (cx : Context Output) (bytes : Output)
      → Grows p (answered_port k bytes cx p)
  answered_port-Grows k p cx bytes = elim (Bool-cases cx.state.done) [
    | inl done ↦ rw done (Grows-refl p)
    | inr waiting ↦ rw waiting (record { origin = context k; bytes = bytes } ∷ [], refl)
  ]

  pub answer-Keeps :
      (k : ℕ) (p : Port Output) (cx : Context Output) (bytes : Output)
      → Good c k p cx
      → Keeps k p cx (answered_port k bytes cx p) (marked cx)
  unfolding context_state
  answer-Keeps k p cx bytes g = record {
    good = record {
      id = g.id;
      wired =
          let mark : ContextState Output (Port Output) → ContextState Output (Port Output) =
            λ s. record s { done = true } in
          ap mark g.wired;
      answered = ground (arith, answers-send k (context k) bytes p, g.answered);
      settled = λ _. refl;
    };
    others = λ j ne. ground (arith, answers-send j (context k) bytes p);
    count = ground arith;
    grows = answered_port-Grows k p cx bytes;
  }

  -- `~State()` at a state that is wired.
  destroy_wired :
      (k : ℕ) (p : Port Output) (cx : Context Output)
      → (g : Good c k p cx)
      → let q = answered_port k (write (failure (rpc_error g.id internal_error abandoned))) cx p in
        destroy cx.state p ≡ ((marked cx).state, record q { inflight = q.inflight - 1 })
  unfolding destroy context_state
  destroy_wired k p cx g = ground (arith, g.wired)

  -- What is left when a wired state is destroyed: the answer that it owed, and one fewer in flight.
  abbrev final_port : ℕ → Generic → Context Output → Port Output → Port Output
  final_port k id cx p =
      let q = answered_port k (write (failure (rpc_error id internal_error abandoned))) cx p in
      record q { inflight = q.inflight - 1 }

  stays-Good :
      (k held : ℕ) (pinned : Bool) (p : Port Output) (cx : Context Output)
      → pinned || ltb 0 held ≡ true
      → Good c k p cx
      → Good c k p (record cx { held = held; pinned = pinned })
  stays-Good k held pinned p cx stays g = record {
    id = g.id;
    wired = g.wired;
    answered = g.answered;
    settled = λ dead. cc;
  }

  gone-Keeps :
      (k held : ℕ) (pinned : Bool) (p : Port Output) (cx : Context Output)
      → pinned || ltb 0 held ≡ false
      → is_alive cx ≡ true
      → 1 ≤ p.inflight
      → (g : Good c k p cx)
      → Keeps k p cx
          (final_port k g.id cx p)
          (record { held = held; pinned = pinned; state = (marked cx).state })
  gone-Keeps k held pinned p cx gone alive some_left g = record {
    good = record {
      id = last.good.id;
      wired = last.good.wired;
      answered = last.good.answered;
      settled = λ _. refl;
    };
    others = last.others;
    count = ground arith;
    grows = last.grows;
  }
    where
      last :
          Keeps k p cx
            (answered_port k (write (failure (rpc_error g.id internal_error abandoned))) cx p)
            (marked cx)
      last = answer-Keeps k p cx _ g

  -- The owners of a live context change, and the state goes with the last one.
  pub set_owners-Next :
      (k : ℕ) (cx : Context Output) (held : ℕ) (pinned : Bool) (n : Net Output)
      → get_elem? n.contexts k ≡ some cx
      → is_alive cx ≡ true
      → Inv c n
      → Next c n (set_owners k cx held pinned n)
  unfolding set_owners
  set_owners-Next k cx held pinned n e alive inv = elim (Bool-cases (pinned || ltb 0 held)) [
    | inl stays ↦ rw stays (record {
      inv =
          Inv-set c n k cx _ n.port inv e (stays-Good k held pinned n.port cx stays g)
            (λ j ne. refl) (rw (alive, stays));
      grows = Grows-refl n.port;
    })
    | inr gone ↦
        let it = gone-Keeps k held pinned n.port cx gone alive some_left g in
        rw (gone, destroy_wired k n.port cx g)
          (record {
            inv = Inv-set c n k cx _ (final_port k g.id cx n.port) inv e it.good it.others it.count;
            grows = it.grows;
          })
  ]
    where
      g : Good c k n.port cx
      g = inv.good k cx e

      some_left : 1 ≤ n.port.inflight
      some_left = omega (arith, live-pos n.contexts k cx e alive, inv.counted)
