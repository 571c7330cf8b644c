-- ===== src/Net/Newest.antt =====
-- The operations at the context that was started last.
pub mod Captured
use rpcpp.Base.{
  ℕ, ◌+◌, ◌-◌, ◌≡◌, refl, ◌∙◌, ℤ, Text, Bool, true, false, ◌||◌, ltb, List, [], ◌∷◌, ◌++◌, length,
  get_elem?-last, set-last, if◌then◌else◌,
}
use rpcpp.Envelope.{rpc_error}
use rpcpp.Codec.{Codec, failure}
use rpcpp.Async.{ContextState, respond_error, destroy, internal_error, abandoned}
use rpcpp.Net.{
  has_handle, is_pinned, one_less, unpinned, Port, Context, Net, context, send, context_state,
  fresh_context, on_pinned, drop_handle, unpin, through, re_own, set_owners, drop, run_call,
  run_calls, allocate,
}

module _ (c : Codec) where
  open c use {Output, Generic, write}

  abbrev pub with_newest : Port Output → List (Context Output) → Context Output → Net Output
  with_newest p cs cx = record { port = p; contexts = cs ++ cx ∷ [] }

  through-newest :
      (owner : Context Output → Bool)
      (f : ContextState Output (Port Output)
        → Port Output
        → ContextState Output (Port Output) × Port Output)
      (p : Port Output) (cs : List (Context Output)) (cx : Context Output)
      → owner cx ≡ true
      → through owner (length cs) f (with_newest p cs cx)
        ≡ with_newest (f cx.state p).1 cs (record cx { state = (f cx.state p).0 })
  through-newest owner f p cs cx mine =
      rw (get_elem?-last cs cx, through)
        (rw (mine, set-last cs cx (record cx { state = (f cx.state p).0 })) refl)

  set_owners-newest :
      (held : ℕ) (pinned : Bool) (p : Port Output) (cs : List (Context Output))
      (cx : Context Output)
      → set_owners (length cs) cx held pinned (with_newest p cs cx) ≡ (
          if pinned || ltb 0 held
          then with_newest p cs (record cx { held = held; pinned = pinned })
          else with_newest
              (destroy cx.state p).1
              cs
              (record { held = held; pinned = pinned; state = (destroy cx.state p).0 }))
  unfolding set_owners
  set_owners-newest held pinned p cs cx =
      rw
        (
          set-last cs cx (record cx { held = held; pinned = pinned }),
          set-last cs cx (record { held = held; pinned = pinned; state = (destroy cx.state p).0 }),
        )
        refl

  re_own-newest :
      (owner : Context Output → Bool) (owners : Context Output → ℕ × Bool) (p : Port Output)
      (cs : List (Context Output)) (cx : Context Output)
      → owner cx ≡ true
      → re_own owner (length cs) owners (with_newest p cs cx)
        ≡ set_owners (length cs) cx (owners cx).0 (owners cx).1 (with_newest p cs cx)
  re_own-newest owner owners p cs cx mine = rw (get_elem?-last cs cx, re_own) (rw mine)

  -- The newest context with no handle left but the pinned one, answered or not.
  abbrev pub pinned_context : Bool → ℕ → Generic → Context Output
  pinned_context done k id = record {
    held = 0;
    pinned = true;
    state = record (context_state c k id) { done = done };
  }

  abbrev pub closed_context : ℕ → Generic → Context Output
  closed_context k id = record {
    held = 0;
    pinned = false;
    state = record (context_state c k id) { done = true };
  }

  pub drop-newest :
      (p : Port Output) (cs : List (Context Output)) (id : Generic)
      → drop_handle (length cs) (with_newest p cs (fresh_context c (length cs) id))
        ≡ with_newest p cs (pinned_context false (length cs) id)
  unfolding drop_handle context_state
  drop-newest p cs id =
      re_own-newest has_handle one_less p cs (fresh_context c (length cs) id) refl
      ∙ set_owners-newest 0 true p cs (fresh_context c (length cs) id)

  pub fail-newest :
      (p : Port Output) (cs : List (Context Output)) (id : Generic) (code : ℤ) (message : Text)
      → on_pinned
          (length cs)
          (respond_error code message)
          (with_newest p cs (pinned_context false (length cs) id))
        ≡ with_newest
            (send (context (length cs)) (write (failure (rpc_error id code message))) p)
            cs
            (pinned_context true (length cs) id)
  unfolding on_pinned context_state respond_error
  fail-newest p cs id code message =
      through-newest is_pinned (respond_error code message) p cs
        (pinned_context false (length cs) id) refl

  -- The answer that `~State()` still owes.
  abbrev pub settled_port : ℕ → Generic → Bool → Port Output → Port Output
  settled_port k id true p = p
  settled_port k id false p =
      send (context k) (write (failure (rpc_error id internal_error abandoned))) p

  pub unpin-newest :
      (p : Port Output) (cs : List (Context Output)) (id : Generic) (done : Bool)
      → unpin (length cs) (with_newest p cs (pinned_context done (length cs) id))
        ≡ with_newest
            (record (settled_port (length cs) id done p) { inflight = p.inflight - 1 })
            cs
            (closed_context (length cs) id)
  unfolding unpin context_state destroy
  unpin-newest p cs id true =
      re_own-newest is_pinned unpinned p cs (pinned_context true (length cs) id) refl
      ∙ set_owners-newest 0 false p cs (pinned_context true (length cs) id)
  unpin-newest p cs id false =
      re_own-newest is_pinned unpinned p cs (pinned_context false (length cs) id) refl
      ∙ set_owners-newest 0 false p cs (pinned_context false (length cs) id)

  -- A dispatch whose handler only lets go of its handle.
  pub drop-allocate :
      (id : Generic) (n : Net Output)
      → run_calls c (drop (length n.contexts) ∷ []) (allocate c id (length n.contexts) n)
        ≡ with_newest
            (record n.port { inflight = n.port.inflight + 1 })
            n.contexts
            (pinned_context false (length n.contexts) id)
  unfolding run_calls run_call allocate
  drop-allocate id n = drop-newest (record n.port { inflight = n.port.inflight + 1 }) n.contexts id
