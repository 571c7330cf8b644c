-- ===== src/Typed/Async/Kept.antt =====
-- A resolver that a method of src/TypedRpcServer.h keeps: its uses while the method runs and those that
-- come later from other threads, until its last copy is gone.
use mathlib.Core.List.{append-nil, append_assoc}
use mathlib.Core.Path.{subst}
use rpcpp.Base.{ℕ, ◌≡◌, refl, sym, ap, ◌∙◌, some, List, [], ◌∷◌, ◌++◌}
use rpcpp.Codec.{Codec, ok}
use rpcpp.Async.{resolve, reject, abandon, internal_error}
use rpcpp.Net.{Call, copy, drop}
use rpcpp.Server.{Outcome, returned, threw, escaped, ParamsArg}
use rpcpp.Typed.{Args, Reflection, decode_params}
use rpcpp.Typed.Async.{
  Use, resolves, rejects, Calls, Resolver, AsyncMethod, resolver_state, apply_use, apply_uses,
  catch_thrown, stored, closed, release, decoded_run, finish_method, async_method_handler,
  apply_uses-closed, calls_server, Uses, others, transcript, ended-closed, ended-transcript,
}

-- What the `catch` block does is a use like any other.
abbrev pub thrown : {Op R : Type 0} → Outcome (Unit {0}) → List (Use Op R)
thrown (threw what) = rejects internal_error what ∷ []
thrown (returned _) = []
thrown escaped = []

module _ (c : Codec) (r : Reflection c) (H : Type 0) where
  open c use {Generic, Ty, El}

  -- The later uses, and the end of the last copy: `~State()` of the resolver, and the two handles that its
  -- callbacks have captured.
  pub end_later : {R : Type 0} → ℕ → Uses c r H R → Resolver c r H R → Calls c r H
  unfolding apply_uses
  end_later k us s =
      let q = apply_uses c r H us (s, []) in (abandon q.0 q.1).1 ++ drop k ∷ drop k ∷ []

  apply_uses-append :
      {R : Type 0} (us vs : Uses c r H R) (q : Resolver c r H R × Calls c r H)
      → apply_uses c r H (us ++ vs) q ≡ apply_uses c r H vs (apply_uses c r H us q)
  unfolding apply_uses
  apply_uses-append [] vs q = refl
  apply_uses-append (u ∷ us) vs q = apply_uses-append us vs (apply_use c r H u q)

  catch-thrown :
      {R : Type 0} (o : Outcome (Unit {0})) (q : Resolver c r H R × Calls c r H)
      → catch_thrown c r H o q ≡ apply_uses c r H (thrown o) q
  unfolding apply_uses
  catch-thrown (threw what) q = refl
  catch-thrown (returned _) q = refl
  catch-thrown escaped q = refl

  others-append :
      {R : Type 0} (us vs : Uses c r H R)
      → others c r H (us ++ vs) ≡ others c r H us ++ others c r H vs
  others-append [] vs = refl
  others-append (resolves v ∷ us) vs = others-append us vs
  others-append (rejects code message ∷ us) vs = others-append us vs
  others-append (calls_server op ∷ us) vs = ap (λ ops. op ∷ ops) (others-append us vs)

  -- The calls before and after the method has ended: one answer in all.
  record Split (k : ℕ) (id : Generic) (t : Ty) (vs us : Uses c r H (El t)) (ops : Calls c r H)
      (q : Resolver c r H (El t) × Calls c r H) : Type 0 where
    before : Calls c r H
    after : Calls c r H
    made : q.1 ≡ ops ++ before
    left : end_later k us q.0 ≡ after ++ drop k ∷ drop k ∷ []
    together : before ++ after ≡ transcript c r H k id t (vs ++ us) (returned tt)

  end_later-closed :
      {R : Type 0} (k : ℕ) (us : Uses c r H R) (s : Resolver c r H R)
      → end_later k us (closed c r H s) ≡ others c r H us ++ drop k ∷ drop k ∷ []
  unfolding end_later
  end_later-closed k us s =
      ap (λ ops. ops ++ drop k ∷ drop k ∷ []) (ended-closed c r H us (returned tt) s [])

  end_later-open :
      (k : ℕ) (id : Generic) (t : Ty) (us : Uses c r H (El t))
      → end_later k us (resolver_state c r H k id t)
        ≡ transcript c r H k id t us (returned tt) ++ drop k ∷ drop k ∷ []
  unfolding end_later
  end_later-open k id t us =
      ap (λ ops. ops ++ drop k ∷ drop k ∷ []) (ended-transcript c r H k id t us (returned tt) [])

  -- The first use has answered.
  answered :
      (k : ℕ) (id : Generic) (t : Ty) (u : Use (Call c.Output Generic Ty El) (El t))
      (vs us : Uses c r H (El t)) (ops : Calls c r H) (op : Call c.Output Generic Ty El)
      → transcript c r H k id t (u ∷ vs ++ us) (returned tt) ≡ op ∷ others c r H (vs ++ us)
      → Split k id t
          (u ∷ vs)
          us
          ops
          (apply_uses c r H vs (closed c r H (resolver_state c r H k id t), ops ++ op ∷ []))
  answered k id t u vs us ops op e =
      let state = resolver_state c r H k id t in
      let same = apply_uses-closed c r H vs state (ops ++ op ∷ []) in
      record {
        before = op ∷ others c r H vs;
        after = others c r H us;
        made = ap (λ q. q.1) same ∙ append_assoc ops (op ∷ []) (others c r H vs);
        left = ap (λ q. end_later k us q.0) same ∙ end_later-closed k us state;
        together = ap (λ ops. op ∷ ops) (sym (others-append vs us)) ∙ sym e;
      }

  split :
      (k : ℕ) (id : Generic) (t : Ty) (vs us : Uses c r H (El t)) (ops : Calls c r H)
      → Split k id t vs us ops (apply_uses c r H vs (resolver_state c r H k id t, ops))
  unfolding apply_uses resolve reject
  split k id t [] us ops = record {
    before = [];
    after = transcript c r H k id t us (returned tt);
    made = sym (append-nil ops);
    left = end_later-open k id t us;
    together = refl;
  }
  split k id t (resolves v ∷ vs) us ops = answered k id t (resolves v) vs us ops _ refl
  split k id t (rejects code message ∷ vs) us ops =
      answered k id t (rejects code message) vs us ops _ refl
  split k id t (calls_server op ∷ vs) us ops =
      let later = split k id t vs us (ops ++ op ∷ []) in
      record {
        before = op ∷ later.before;
        after = later.after;
        made = later.made ∙ append_assoc ops (op ∷ []) later.before;
        left = later.left;
        together = ap (λ ops. op ∷ ops) later.together;
      }

  -- A method whose params decode and that keeps its resolver, later uses of it in any number and
  -- order, and the end of its last copy, with any other calls of the server between them: over the two
  -- parts exactly one answer is given through the resolver, in the handler or after it. It is the first
  -- use of all, where an exception of the method counts as a use after those that it has made, and
  -- -32603 for an abandoned request if there was no use. The other calls are made in their places, all
  -- three handles have ended, and the host keeps the resolver as the method left it.
  pub kept_settles :
      (m : AsyncMethod c r H) (id : Generic) (params : ParamsArg c.Input Generic) (k : ℕ) (h : H)
      (args : Args c m.params) (f : Resolver c r H (El m.result) → H → H)
      (us : Uses c r H (El m.result))
      → decode_params c r m.params params ≡ ok args
      → (m.invoke args h).keep ≡ some f
      → let a = m.invoke args h in
        let ran = async_method_handler c r H m id params k h in
        (s : Resolver c r H (El m.result)) × (before : Calls c r H) × (after : Calls c r H)
        × (ran.host ≡ f s a.host)
        × (ran.calls ≡ (copy k ∷ copy k ∷ before) ++ drop k ∷ [])
        × (end_later k us s ≡ after ++ drop k ∷ drop k ∷ [])
        × (before ++ after
            ≡ transcript c r H k id m.result ((a.uses ++ thrown a.outcome) ++ us) (returned tt))
  unfolding async_method_handler finish_method
  kept_settles m id params k h args f us decodes kept =
      let a = m.invoke args h in
      let start : Resolver c r H (El m.result) × Calls c r H =
        (resolver_state c r H k id m.result, copy k ∷ copy k ∷ []) in
      let q = catch_thrown c r H a.outcome (apply_uses c r H a.uses start) in
      let same =
        apply_uses-append a.uses (thrown a.outcome) start
        ∙ sym (catch-thrown a.outcome (apply_uses c r H a.uses start)) in
      let parts =
        subst (Split k id m.result (a.uses ++ thrown a.outcome) us (copy k ∷ copy k ∷ [])) same
          (split k id m.result (a.uses ++ thrown a.outcome) us (copy k ∷ copy k ∷ [])) in
      let run = ap (decoded_run c r H m id k h) decodes in
      (
        q.0,
        parts.before,
        parts.after,
        ap (λ x. x.host) run ∙ ap (λ o. stored c r H o q.0 a.host) kept,
        ap (λ x. x.calls) run
            ∙ ap (λ o. release c r H k o q) kept
            ∙ ap (λ ops. ops ++ drop k ∷ []) parts.made,
        parts.left,
        parts.together,
      )
