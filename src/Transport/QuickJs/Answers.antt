-- ===== src/Transport/QuickJs/Answers.antt =====
-- A server over the QuickJS transport: what the host's callback gets for the asynchronous requests.
use mathlib.Core.Path.{subst}
use rpcpp.Base.{
  some-injective, ℕ, ◌+◌, ◌<◌, ◌≡◌, ◌≢◌, refl, sym, ap, ◌∙◌, Text, Bool, true, false, ◌&&◌, some,
  List, [], ◌∷◌, bit, tally, arith, length, ◌==◌,
}
use rpcpp.Codec.{Codec, error}
use rpcpp.Net.{Origin, server, context, Sent}
use rpcpp.Net.Invariant.{answers, sent_by}
use rpcpp.Server.{Event, has_inflight}
use rpcpp.Server.Inflight.{after, answered_exactly_once}
use rpcpp.QuickJs.{Engine, World, Ref, Holds}
use rpcpp.QuickJs.Writer.{Root, write}
use rpcpp.QuickJs.Writer.Ownership.{BuildsRoot}
use rpcpp.Transport.Concurrent.{ConcurrentQueue}
use rpcpp.Transport.QuickJs.{Thunk, QuickJsOut, deferred, Callback, Draining, drain, send, send_all}
use rpcpp.Transport.QuickJs.Drain.{Borrows, Returns, has_thunk, drain_lem, write-Returns}

-- The test for the payloads of context `k`.
abbrev pub by_context : {Out : Type 0} → ℕ → Sent Out → Bool
by_context k x = elim x.origin [ server ↦ false | context j ↦ j == k ]

sent_by-bit :
    (k : ℕ) (o : Origin) → sent_by k o ≡ bit (elim o [ server ↦ false | context j ↦ j == k ])
sent_by-bit k server = refl
sent_by-bit k (context j) = refl

module _ {A : Type 0} (cq : ConcurrentQueue A) where
  open cq use {Queue, contents}

  send_all-tally :
      (xs : List A) (q : Queue) (p : A → Bool)
      → tally p (contents (send_all cq xs q)) ≡ tally p xs + tally p (contents q)
  unfolding send_all send
  send_all-tally [] q p = omega arith
  send_all-tally (x ∷ xs) q p =
      omega (arith, send_all-tally xs (cq.enqueue x q) p, cq.contents-enqueue p x q)

module _ {Out : Type 0} where
  pub answers-tally : (k : ℕ) (xs : List (Sent Out)) → answers k xs ≡ tally (by_context k) xs
  unfolding answers
  answers-tally k [] = refl
  answers-tally k (x ∷ xs) = omega (arith, answers-tally k xs, sent_by-bit k x.origin)

module _ (e : Engine) where
  deferred-thunk :
      (o : QuickJsOut e) (r : Root e) (t : Thunk e)
      → o ≡ deferred e r
      → o.materialize ≡ some t
      → write e r ≡ t
  unfolding deferred
  deferred-thunk o r t same found =
      some-injective (write e r) t (sym (ap (λ (q : QuickJsOut e). q.materialize) same) ∙ found)

  has_thunk-deferred : (o : QuickJsOut e) (r : Root e) → o ≡ deferred e r → has_thunk e o ≡ true
  unfolding deferred
  has_thunk-deferred o r same = ap (has_thunk e) same

module _ (c : Codec) (H : Type 0) (e : Engine) (J : Type 0) (on_response : Callback e J)
    (cq : ConcurrentQueue (Sent c.Output)) where
  open c use {Output}

  -- What a QuickJS codec writes: a deferred `qjs::write` that does not throw.
  abbrev pub Deferred : (Output → QuickJsOut e) → Type 1
  Deferred out =
      (o : Output)
      → (r : Root e) × BuildsRoot e r
        × (out o ≡ deferred e r)
        × ((w : World e) (what : Text) → (write e r w).0 ≢ error what)

  -- The transport after everything that the server has sent, and the world in which `drain` is called.
  abbrev pub full :
      (out : Output → QuickJsOut e)
      → List (Sent Output)
      → J
      → World e
      → Draining e (λ (x : Sent Output). out x.bytes) cq J on_response
  full out xs j w = record {
    queue = send_all cq xs cq.empty;
    host = j;
    world = w;
    delivered = [];
    raised = false;
  }

  -- A server over the QuickJS transport, after any history that leaves `hasInflight()` false: one
  -- `drain`, with more rounds than payloads were sent, hands the callback exactly one answer of
  -- each asynchronous request that was dispatched. It empties the queue, throws nothing, and leaves
  -- exactly those references held that were held before. The conditions are that `JS_NULL` has no
  -- reference count, that the codec's deferred writes and the callback do not throw, and that the
  -- callback takes no reference that it was not given.
  pub drain_answers :
      (out : Output → QuickJsOut e) (h : H) (es : List (Event c H)) (fuel : ℕ) (j : J) (w : World e)
      (held : List (Ref e))
      → e.has_ref_count e.null ≡ false
      → Deferred out
      → Borrows e on_response
      → has_inflight c H (after c H h es) ≡ false
      → tally (λ (x : Sent Output). true) (after c H h es).net.port.sent < fuel
      → Holds e held w
      → let start = full out (after c H h es).net.port.sent j w in
        let s' = drain e (λ (x : Sent Output). out x.bytes) cq J on_response fuel start in
        ((k : ℕ) → k < length (after c H h es).net.contexts → tally (by_context k) s'.delivered ≡ 1)
        × (cq.contents s'.queue ≡ [])
        × (s'.raised ≡ false)
        × Holds e held s'.world
  drain_answers out h es fuel j w held plain_null defers borrows quiet few balanced =
      let xs = (after c H h es).net.port.sent in
      let (empty, calm, counts, still) =
        drain_lem e (λ (x : Sent Output). out x.bytes) cq J on_response thunks borrows fuel held
          (full out xs j w) (omega (arith, few, queued (λ x. true))) refl balanced in
      (
        λ k lt. omega (
          arith,
          answered_exactly_once c H h es k quiet lt,
          answers-tally k xs,
          counts (by_context k),
          queued (λ x. has_thunk e (out x.bytes) && by_context k x),
          all_thunks k xs,
        ),
        empty,
        calm,
        still,
      )
    where
      queued :
          (p : Sent Output → Bool)
          → tally p (cq.contents (send_all cq (after c H h es).net.port.sent cq.empty))
            ≡ tally p (after c H h es).net.port.sent
      queued p = omega (
        arith,
        send_all-tally cq (after c H h es).net.port.sent cq.empty p,
        ap (tally p) cq.contents-empty,
      )

      thunks : (x : Sent Output) (t : Thunk e) → (out x.bytes).materialize ≡ some t → Returns e t
      thunks x t found =
          let (r, b, same, calm) = defers x.bytes in
          subst (Returns e) (deferred-thunk e (out x.bytes) r t same found)
            (write-Returns e r plain_null b calm)

      all_thunks :
          (k : ℕ) (xs : List (Sent Output))
          → tally (λ x. has_thunk e (out x.bytes) && by_context k x) xs ≡ tally (by_context k) xs
      all_thunks k [] = refl
      all_thunks k (x ∷ xs) =
          let (r, b, same, calm) = defers x.bytes in
          omega (
            arith,
            all_thunks k xs,
            ap (λ b. bit (b && by_context k x)) (has_thunk-deferred e (out x.bytes) r same),
          )
