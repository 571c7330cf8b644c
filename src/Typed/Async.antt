-- ===== src/Typed/Async.antt =====
-- src/TypedRpcServer.h: `addAsyncMethod`, and the resolver that it hands to a method.
--
-- A method is code of the host program. While it runs it may use its resolver and call the server, in any
-- order, which covers the sending of notifications and the answers to other requests; it keeps the resolver
-- for later or lets it end; and it returns or throws. What the resolver's callbacks do is the calls they make
-- on the handles of the context that they have captured.
pub mod Kept
use mathlib.Core.List.{append-nil, append_assoc}
use rpcpp.Base.{
  sym, ℕ, ℤ, negsuc, ◌≡◌, refl, ap, ◌∙◌, Text, Bool, true, false, Option, none, some, List, [], ◌∷◌,
  ◌++◌,
}
use rpcpp.Envelope.{rpc_response}
use rpcpp.Codec.{Codec, Result, ok, error, response}
use rpcpp.Async.{ResolverState, resolve, reject, abandon, internal_error, abandoned}
use rpcpp.Net.{Call, respond, respond_with_error, copy, drop}
use rpcpp.Server.{
  ParamsArg, Outcome, returned, threw, escaped, Ran, AsyncHandler, add_async_handler,
}
use rpcpp.Typed.{Args, Reflection, TypedServer, decode_params, add_params, add_return}

abbrev pub invalid_params : ℤ
invalid_params = negsuc 32601

-- `resolve` and `reject` of a `Resolver<R>`, and any other call of the server.
pub data Use (Op R : Type 0) : Type 0 where
  resolves : R → Use Op R
  rejects : ℤ → Text → Use Op R
  calls_server : Op → Use Op R

-- A use of the resolver itself.
abbrev pub is_own : {Op R : Type 0} → Use Op R → Bool
is_own (resolves _) = true
is_own (rejects _ _) = true
is_own (calls_server _) = false

abbrev pub Own : {Op R : Type 0} → Use Op R → Type 0
Own u = is_own u ≡ true

module _ (c : Codec) (r : Reflection c) (H : Type 0) where
  open c use {Output, Generic, Ty, El, write}

  abbrev pub Calls : Type 0
  Calls = List (Call Output Generic Ty El)

  -- What a method does with a `Resolver<R>` and with the server.
  abbrev pub Uses : Type 0 → Type 0
  Uses R = List (Use (Call Output Generic Ty El) R)

  abbrev pub Resolver : Type 0 → Type 0
  Resolver R = ResolverState R Calls

  -- One run of a method: `keep` stores the resolver in the host's state.
  pub record AsyncRun (R : Type 0) : Type 0 where
    pub host : H
    pub uses : Uses R
    pub keep : Option (Resolver R → H → H)
    pub outcome : Outcome (Unit {0})

  pub record AsyncMethod : Type 0 where
    pub params : List Ty
    pub result : Ty
    pub invoke : Args c params → H → AsyncRun (El result)

  -- The state with the two callbacks; each has captured a handle of its own.
  abbrev pub resolver_state : ℕ → Generic → (t : Ty) → Resolver (El t)
  resolver_state k id t = record {
    done = false;
    on_resolve = some (λ v ops. ops ++ respond k (write (response t (rpc_response id v))) ∷ []);
    on_reject = some (λ e ops. ops ++ respond_with_error k e.0 e.1 ∷ []);
  }

  abbrev pub apply_use :
      {R : Type 0} → Use (Call Output Generic Ty El) R → Resolver R × Calls → Resolver R × Calls
  apply_use (resolves v) q = resolve v q.0 q.1
  apply_use (rejects code message) q = reject code message q.0 q.1
  apply_use (calls_server op) q = (q.0, q.1 ++ op ∷ [])

  pub apply_uses : {R : Type 0} → Uses R → Resolver R × Calls → Resolver R × Calls
  apply_uses [] q = q
  apply_uses (u ∷ us) q = apply_uses us (apply_use u q)

  -- The `catch` block: the test of `done` and the call of `onReject` are those of `reject`.
  abbrev catch_thrown : {R : Type 0} → Outcome (Unit {0}) → Resolver R × Calls → Resolver R × Calls
  catch_thrown (threw what) q = reject internal_error what q.0 q.1
  catch_thrown (returned _) q = q
  catch_thrown escaped q = q

  abbrev pub caught : Outcome (Unit {0}) → Outcome (Unit {0})
  caught (threw what) = returned tt
  caught (returned _) = returned tt
  caught escaped = escaped

  -- The end of the lambda. If nobody keeps the resolver its state is destroyed, and with it the two
  -- callbacks with their handles; the lambda's own handle ends in either case.
  abbrev release : {R : Type 0} → ℕ → Option (Resolver R → H → H) → Resolver R × Calls → Calls
  release k none q = (abandon q.0 q.1).1 ++ drop k ∷ drop k ∷ drop k ∷ []
  release k (some _) q = q.1 ++ drop k ∷ []

  abbrev pub stored : {R : Type 0} → Option (Resolver R → H → H) → Resolver R → H → H
  stored none s h = h
  stored (some keep) s h = keep s h

  -- From the run of the method to the end of the lambda.
  unfoldable pub finish_method : {R : Type 0} → ℕ → Resolver R → AsyncRun R → Ran c H (Unit {0})
  unfolding apply_uses
  finish_method k state a =
      let q = catch_thrown a.outcome (apply_uses a.uses (state, copy k ∷ copy k ∷ [])) in
      record {
        host = stored a.keep q.0 a.host;
        calls = release k a.keep q;
        outcome = caught a.outcome;
      }

  abbrev undecoded_run : ℕ → Text → H → Ran c H (Unit {0})
  undecoded_run k what h = record {
    host = h;
    calls = respond_with_error k invalid_params what ∷ drop k ∷ [];
    outcome = returned tt;
  }

  -- The lambda, after the decoding.
  abbrev pub decoded_run :
      (m : AsyncMethod) → Generic → ℕ → H → Result (Args c m.params) → Ran c H (Unit {0})
  decoded_run m id k h (error what) = undecoded_run k what h
  decoded_run m id k h (ok args) = finish_method k (resolver_state k id m.result) (m.invoke args h)

  -- The lambda that `addAsyncMethod` registers.
  unfoldable pub async_method_handler : AsyncMethod → AsyncHandler c H
  unfolding finish_method
  async_method_handler m id params k h = decoded_run m id k h (decode_params c r m.params params)

  -- `addAsyncMethod<MemFn>(instance, name)`
  unfoldable pub add_async_method : Text → AsyncMethod → TypedServer c r H → TypedServer c r H
  unfolding async_method_handler
  add_async_method name m s =
      let s' = add_return c r H name m.result (add_params c r H name m.params s) in
      record s' { server = add_async_handler c H name (async_method_handler m) s'.server }

  -- The calls of the server that are no uses of the resolver.
  abbrev pub others : {R : Type 0} → Uses R → Calls
  others [] = []
  others (calls_server op ∷ us) = op ∷ others us
  others (resolves _ ∷ us) = others us
  others (rejects _ _ ∷ us) = others us

  -- The calls that come of the uses of a resolver up to its end: the first use of the resolver answers and the
  -- later ones do nothing; without one the answer is what was thrown, or that the request was abandoned. The
  -- other calls stay in their places.
  abbrev pub transcript : ℕ → Generic → (t : Ty) → Uses (El t) → Outcome (Unit {0}) → Calls
  transcript k id t (calls_server op ∷ us) o = op ∷ transcript k id t us o
  transcript k id t (resolves v ∷ us) o =
      respond k (write (response t (rpc_response id v))) ∷ others us
  transcript k id t (rejects code message ∷ us) o = respond_with_error k code message ∷ others us
  transcript k id t [] (threw what) = respond_with_error k (negsuc 32602) what ∷ []
  transcript k id t [] (returned _) = respond_with_error k (negsuc 32602) abandoned ∷ []
  transcript k id t [] escaped = respond_with_error k (negsuc 32602) abandoned ∷ []

  abbrev pub closed : {R : Type 0} → Resolver R → Resolver R
  closed s = record s { done = true }

  -- A resolver that is done stays as it is.
  pub apply_uses-closed :
      {R : Type 0} (us : Uses R) (s : Resolver R) (ops : Calls)
      → apply_uses us (closed s, ops) ≡ (closed s, ops ++ others us)
  unfolding apply_uses resolve reject
  apply_uses-closed [] s ops = ap (λ o. (closed s, o)) (sym (append-nil ops))
  apply_uses-closed (resolves v ∷ us) s ops = apply_uses-closed us s ops
  apply_uses-closed (rejects code message ∷ us) s ops = apply_uses-closed us s ops
  apply_uses-closed (calls_server op ∷ us) s ops =
      apply_uses-closed us s (ops ++ op ∷ [])
      ∙ ap (λ o. (closed s, o)) (append_assoc ops (op ∷ []) (others us))

  -- The calls when the last copy of the resolver is gone.
  abbrev pub ended : {R : Type 0} → Resolver R × Calls → Calls
  ended q = (abandon q.0 q.1).1

  pub ended-closed :
      {R : Type 0} (us : Uses R) (o : Outcome (Unit {0})) (s : Resolver R) (ops : Calls)
      → ended (catch_thrown o (apply_uses us (closed s, ops))) ≡ ops ++ others us
  unfolding abandon reject
  ended-closed us (returned _) s ops = rw (apply_uses-closed us s ops) refl
  ended-closed us (threw what) s ops = rw (apply_uses-closed us s ops) refl
  ended-closed us escaped s ops = rw (apply_uses-closed us s ops) refl

  pub ended-transcript :
      (k : ℕ) (id : Generic) (t : Ty) (us : Uses (El t)) (o : Outcome (Unit {0})) (ops : Calls)
      → ended (catch_thrown o (apply_uses us (resolver_state k id t, ops)))
        ≡ ops ++ transcript k id t us o
  unfolding apply_uses resolve reject abandon
  ended-transcript k id t (resolves v ∷ us) o ops =
      ended-closed us o (resolver_state k id t) _ ∙ append_assoc ops (_ ∷ []) (others us)
  ended-transcript k id t (rejects code message ∷ us) o ops =
      ended-closed us o (resolver_state k id t) _ ∙ append_assoc ops (_ ∷ []) (others us)
  ended-transcript k id t (calls_server op ∷ us) o ops =
      ended-transcript k id t us o (ops ++ op ∷ [])
      ∙ append_assoc ops (op ∷ []) (transcript k id t us o)
  ended-transcript k id t [] (returned _) ops = refl
  ended-transcript k id t [] (threw what) ops = refl
  ended-transcript k id t [] escaped ops = refl

  finish-unkept :
      (k : ℕ) (id : Generic) (t : Ty) (a : AsyncRun (El t))
      → a.keep ≡ none
      → ((finish_method k (resolver_state k id t) a).calls
          ≡ (copy k ∷ copy k ∷ transcript k id t a.uses a.outcome) ++ drop k ∷ drop k ∷ drop k ∷ [])
        × ((finish_method k (resolver_state k id t) a).host ≡ a.host)
  unfolding finish_method
  finish-unkept k id t a unkept =
      let q =
        catch_thrown a.outcome (apply_uses a.uses (resolver_state k id t, copy k ∷ copy k ∷ [])) in
      (
        ap (λ o. release k o q) unkept
            ∙ ap (λ ops. ops ++ drop k ∷ drop k ∷ drop k ∷ [])
                (ended-transcript k id t a.uses a.outcome (copy k ∷ copy k ∷ [])),
        ap (λ o. stored o q.0 a.host) unkept,
      )

  -- A method with a `Resolver` whose params decode and that does not keep its resolver, whatever it does
  -- with the resolver and with the server: it runs once on the decoded arguments, and by the end of its
  -- handler exactly one answer was given through the resolver, at the first `resolve` or `reject`, else
  -- at the end as -32603 with what the method threw, else as -32603 for an abandoned request. The
  -- method's other calls are carried out in their places, all three handles have ended, and only what is
  -- not a `std::exception` leaves the handler.
  pub method_settles :
      (m : AsyncMethod) (id : Generic) (params : ParamsArg c.Input Generic) (k : ℕ) (h : H)
      (args : Args c m.params)
      → decode_params c r m.params params ≡ ok args
      → (m.invoke args h).keep ≡ none
      → let a = m.invoke args h in
        let ran = async_method_handler m id params k h in
        (ran.calls
          ≡ (copy k ∷ copy k ∷ transcript k id m.result a.uses a.outcome)
            ++ drop k ∷ drop k ∷ drop k ∷ [])
        × (ran.host ≡ a.host)
        × (ran.outcome ≡ caught a.outcome)
  unfolding async_method_handler
  method_settles m id params k h args e unkept =
      let run = ap (decoded_run m id k h) e in
      let (sent, kept) = finish-unkept k id m.result (m.invoke args h) unkept in
      (ap (λ q. q.calls) run ∙ sent, ap (λ q. q.host) run ∙ kept, ap (λ q. q.outcome) run)
