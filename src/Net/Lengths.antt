-- ===== src/Net/Lengths.antt =====
-- The calls of the host start no context and lose none.
use rpcpp.Base.{
  ℕ, suc, Option-cases, inl, inr, ◌≡◌, refl, ◌∙◌, Bool, List, [], ◌∷◌, arith, length, length-set,
  length-append, get_elem?,
}
use rpcpp.Codec.{Codec}
use rpcpp.Async.{ContextState, respond_bytes, respond_error}
use rpcpp.Net.{
  has_handle, is_pinned, one_more, one_less, unpinned, Port, Context, Net, fresh_context, through,
  on_context, on_pinned, set_owners, re_own, copy_handle, drop_handle, unpin, allocate, Call,
  run_call, run_calls, respond, respond_with_error, copy, drop,
}

module _ {Out : Type 0} where
  through-length :
      (owner : Context Out → Bool) (k : ℕ)
      (f : ContextState Out (Port Out) → Port Out → ContextState Out (Port Out) × Port Out)
      (n : Net Out)
      → length (through owner k f n).contexts ≡ length n.contexts
  through-length owner k f n = elim (Option-cases (get_elem? n.contexts k)) [
    | inl e ↦ rw (e, through) refl
    | inr (cx, e) ↦
        rw (e, through)
          (ground (arith, length-set n.contexts k (record cx { state = (f cx.state n.port).0 })))
  ]

  set_owners-length :
      (k : ℕ) (cx : Context Out) (held : ℕ) (pinned : Bool) (n : Net Out)
      → length (set_owners k cx held pinned n).contexts ≡ length n.contexts
  unfolding set_owners
  set_owners-length k cx held pinned n = grind (arith, length-set)

  re_own-length :
      (owner : Context Out → Bool) (k : ℕ) (owners : Context Out → ℕ × Bool) (n : Net Out)
      → length (re_own owner k owners n).contexts ≡ length n.contexts
  re_own-length owner k owners n = elim (Option-cases (get_elem? n.contexts k)) [
    | inl e ↦ rw (e, re_own) refl
    | inr (cx, e) ↦
        rw (e, re_own) (ground (arith, set_owners-length k cx (owners cx).0 (owners cx).1 n))
  ]

  pub unpin-length : (k : ℕ) (n : Net Out) → length (unpin k n).contexts ≡ length n.contexts
  unfolding unpin
  unpin-length k n = re_own-length is_pinned k unpinned n

  pub on_pinned-length :
      (k : ℕ) (f : ContextState Out (Port Out) → Port Out → ContextState Out (Port Out) × Port Out)
      (n : Net Out)
      → length (on_pinned k f n).contexts ≡ length n.contexts
  unfolding on_pinned
  on_pinned-length k f n = through-length is_pinned k f n

module _ (c : Codec) where
  open c use {Output, Generic, Ty, El}

  pub run_call-length :
      (op : Call Output Generic Ty El) (n : Net Output)
      → length (run_call c op n).contexts ≡ length n.contexts
  unfolding run_call on_context copy_handle drop_handle
  run_call-length (respond k bytes) n = through-length _ k (respond_bytes bytes) n
  run_call-length (respond_with_error k code message) n =
      through-length _ k (respond_error code message) n
  run_call-length (copy k) n = re_own-length has_handle k one_more n
  run_call-length (drop k) n = re_own-length has_handle k one_less n
  run_call-length _ n = refl

  pub run_calls-length :
      (ops : List (Call Output Generic Ty El)) (n : Net Output)
      → length (run_calls c ops n).contexts ≡ length n.contexts
  unfolding run_calls
  run_calls-length [] n = refl
  run_calls-length (op ∷ ops) n = run_calls-length ops (run_call c op n) ∙ run_call-length op n

  pub allocate-length :
      (id : Generic) (k : ℕ) (n : Net Output)
      → length (allocate c id k n).contexts ≡ suc (length n.contexts)
  unfolding allocate
  allocate-length id k n = omega (arith, length-append n.contexts (fresh_context c k id ∷ []))
