-- ===== src/Server/Waiting.antt =====
-- `waitForInflight` of src/RpcServer.h: when it returns, and what holds then.
use mathlib.Core.Path.{subst₂}
use rpcpp.Base.{
  ℕ, ◌≤◌, ◌<◌, ◌≡◌, refl, ap, ◌∙◌, false, Option, some, List, [], ◌∷◌, ◌++◌, length, arith,
  Bool-cases, inl, inr,
}
use rpcpp.Codec.{Codec}
use rpcpp.Net.{Net, Call, run_call, run_calls}
use rpcpp.Net.Invariant.{answers, Next-refl, Next-trans}
use rpcpp.Net.Calls.{run_call-Next}
use rpcpp.Net.Lengths.{run_call-length}
use rpcpp.Server.{Server, has_inflight, Event, wait_for_inflight}
use rpcpp.Server.Inflight.{Holds, Goes, after, after-Inv, answers-eq-one, answers-le-one}

module _ (c : Codec) (H : Type 0) where
  open c use {Output, Generic, Ty, El}

  abbrev with_net : Server c H → Net Output → Server c H
  with_net s n = record s { net = n }

  -- What `waitForInflight` hands back: nothing is in flight, and the calls so far have been made.
  pub record Waited (s s' : Server c H) (ops rest : List (Call Output Generic Ty El)) : Type 0 where
    pub quiet : has_inflight c H s' ≡ false
    pub goes : Holds c H s → Goes c H s s'
    pub same : length s'.net.contexts ≡ length s.net.contexts
    pub made :
        (done : List (Call Output Generic Ty El)) × (ops ≡ done ++ rest)
        × (s' ≡ with_net s (run_calls c done s.net))

  here :
      (ops : List (Call Output Generic Ty El)) (s s' : Server c H)
      (rest : List (Call Output Generic Ty El))
      → has_inflight c H s ≡ false
      → ◌≡◌ {A = Option (Server c H × List (Call Output Generic Ty El))}
          (some (s, ops))
          (some (s', rest))
      → Waited s s' ops rest
  unfolding run_calls
  here ops s s' rest quiet e =
      subst₂ (λ t r. Waited s t ops r) (ap (λ p. p.0) pair) (ap (λ p. p.1) pair)
        (record { quiet = quiet; goes = Next-refl c; same = refl; made = ([], refl, refl) })
    where
      pair : ◌≡◌ {A = Server c H × List (Call Output Generic Ty El)} (s, ops) (s', rest)
      pair = cc

  more :
      (op : Call Output Generic Ty El) (ops : List (Call Output Generic Ty El)) (s s' : Server c H)
      (rest : List (Call Output Generic Ty El))
      → Waited (with_net s (run_call c op s.net)) s' ops rest
      → Waited s s' (op ∷ ops) rest
  unfolding run_calls
  more op ops s s' rest w = record {
    quiet = w.quiet;
    goes = λ inv. let first = run_call-Next c op s.net inv in Next-trans c first (w.goes first.inv);
    same = w.same ∙ run_call-length c op s.net;
    made = (op ∷ w.made.0, ap (◌∷◌ op) w.made.1, w.made.2);
  }

  pub wait-Waited :
      (ops : List (Call Output Generic Ty El)) (s s' : Server c H)
      (rest : List (Call Output Generic Ty El))
      → wait_for_inflight c H ops s ≡ some (s', rest)
      → Waited s s' ops rest
  unfolding wait_for_inflight run_calls
  wait-Waited [] s s' rest e = elim (Bool-cases (has_inflight c H s)) [
    | inl busy ↦ cc (rw (busy, wait_for_inflight) at e)
    | inr quiet ↦ here [] s s' rest quiet (rw (quiet, wait_for_inflight) at e)
  ]
  wait-Waited (op ∷ ops) s s' rest e = elim (Bool-cases (has_inflight c H s)) [
    | inl busy ↦ more op ops s s' rest (
        wait-Waited ops (with_net s (run_call c op s.net)) s' rest
          (rw (busy, wait_for_inflight) at e))
    | inr quiet ↦ here (op ∷ ops) s s' rest quiet (rw (quiet, wait_for_inflight) at e)
  ]

  -- `waitForInflight` returns if the calls that the other threads make while it waits bring the number in
  -- flight to zero.
  pub wait-returns :
      (ops : List (Call Output Generic Ty El)) (s : Server c H)
      → has_inflight c H (with_net s (run_calls c ops s.net)) ≡ false
      → (r : Server c H × List (Call Output Generic Ty El)) × (wait_for_inflight c H ops s ≡ some r)
  unfolding wait_for_inflight run_calls
  wait-returns [] s quiet = ((s, []), rw quiet)
  wait-returns (op ∷ ops) s quiet = elim (Bool-cases (has_inflight c H s)) [
    | inl busy ↦
        let (r, e) = wait-returns ops (with_net s (run_call c op s.net)) quiet in (r, rw busy e)
    | inr now ↦ ((s, op ∷ ops), rw now)
  ]

  -- When `waitForInflight` returns after any history, whatever the other threads did meanwhile, every
  -- asynchronous request dispatched before has had exactly one answer, and none has had two.
  pub wait_answers_all :
      (h : H) (es : List (Event c H)) (ops rest : List (Call Output Generic Ty El))
      (s' : Server c H)
      → wait_for_inflight c H ops (after c H h es) ≡ some (s', rest)
      → ((k : ℕ) → k < length (after c H h es).net.contexts → answers k s'.net.port.sent ≡ 1)
        × ((k : ℕ) → answers k s'.net.port.sent ≤ 1)
  wait_answers_all h es ops rest s' e = (
    λ k lt. answers-eq-one c H s' k inv w.quiet (omega (arith, w.same)),
    λ k. answers-le-one c H s' k inv,
  )
    where
      w : Waited (after c H h es) s' ops rest
      w = wait-Waited ops (after c H h es) s' rest e

      inv : Holds c H s'
      inv = (w.goes (after-Inv c H h es)).inv
