-- ===== src/Async.antt =====
-- src/Resolver.h: the one-shot states behind `AsyncContext<C>` and `Resolver<R>`. `W` is whatever the
-- stored callbacks act on; a callback that is not set is `none`. `done.exchange(true)` is one atomic
-- step, so of several calls the first in the order of the steps finds it false.
pub mod Race
use rpcpp.Base.{ℤ, negsuc, Text, text, Bool, true, Option, none, some, if◌then◌else◌}

abbrev pub internal_error : ℤ
internal_error = negsuc 32602

abbrev pub abandoned : Text
abandoned = text "Async request was abandoned"

-- A callback runs if it is set.
abbrev pub call_if : {A W : Type 0} → Option (A → W → W) → A → W → W
call_if none a w = w
call_if (some f) a w = f a w

abbrev complete : {W : Type 0} → Option (W → W) → W → W
complete none w = w
complete (some f) w = f w

-- `AsyncContext<C>::State`, with `Out` for `C::output_t`.
pub record ContextState (Out W : Type 0) : Type 0 where
  pub done : Bool
  pub on_bytes : Option (Out → W → W)
  pub on_error : Option (ℤ × Text → W → W)
  pub on_complete : Option (W → W)

module _ {Out W : Type 0} where
  unfoldable pub respond_bytes : Out → ContextState Out W → W → ContextState Out W × W
  respond_bytes bytes s w =
      if s.done then (s, w) else (record s { done = true }, call_if s.on_bytes bytes w)

  unfoldable pub respond_error : ℤ → Text → ContextState Out W → W → ContextState Out W × W
  respond_error code message s w =
      if s.done then (s, w) else (record s { done = true }, call_if s.on_error (code, message) w)

  -- `resolved()`
  pub resolved : ContextState Out W → Bool
  resolved s = s.done

  -- `~State()`
  unfoldable pub destroy : ContextState Out W → W → ContextState Out W × W
  destroy s w =
      let w' = if s.done then w else call_if s.on_error (internal_error, abandoned) w in
      (record s { done = true }, complete s.on_complete w')

-- `Resolver<R>::State`
pub record ResolverState (R W : Type 0) : Type 0 where
  pub done : Bool
  pub on_resolve : Option (R → W → W)
  pub on_reject : Option (ℤ × Text → W → W)

module _ {R W : Type 0} where
  unfoldable pub resolve : R → ResolverState R W → W → ResolverState R W × W
  resolve value s w =
      if s.done then (s, w) else (record s { done = true }, call_if s.on_resolve value w)

  unfoldable pub reject : ℤ → Text → ResolverState R W → W → ResolverState R W × W
  reject code message s w =
      if s.done then (s, w) else (record s { done = true }, call_if s.on_reject (code, message) w)

  -- `resolved()`
  pub is_resolved : ResolverState R W → Bool
  is_resolved s = s.done

  -- the body of `~State()`
  unfoldable pub abandon : ResolverState R W → W → ResolverState R W × W
  abandon s w =
      if s.done
      then (s, w)
      else (record s { done = true }, call_if s.on_reject (internal_error, abandoned) w)
