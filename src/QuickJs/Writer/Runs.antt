-- ===== src/QuickJs/Writer/Runs.antt =====
-- Runs of the methods of src/qjs/Writer.hpp that throw nothing, and what they leave behind them.
use rpcpp.Base.{◌≡◌, refl, ap, ◌∙◌, Text, Bool, true, false}
use rpcpp.Codec.{ok}
use rpcpp.QuickJs.{Engine, fetch, give}
use rpcpp.QuickJs.Writer.{Writer, M, pure, and_then, ◌>>=◌, lift, throw_unless}

module _ (e : Engine) where
  open e use {Value, Heap}

  -- The method throws nothing and keeps the root; its result and the heap after it are as told.
  pub record Runs {A : Type 0} (m : M e A) (s : Writer e) (Q : A → Heap → Type 0) : Type 0 where
    pub result : A
    pub after : Writer e
    pub is : m s ≡ (ok result, after)
    pub same_root : after.root ≡ s.root
    pub told : Q result after.world.heap

  pub pure-Runs :
      {A : Type 0} (a : A) (s : Writer e) (Q : A → Heap → Type 0)
      → Q a s.world.heap
      → Runs (pure e a) s Q
  pure-Runs a s Q q = record { result = a; after = s; is = refl; same_root = refl; told = q }

  pub >>=-Runs :
      {A B : Type 0} {m : M e A} {f : A → M e B} {s : Writer e} {P : A → Heap → Type 0}
      {Q : B → Heap → Type 0}
      → Runs m s P
      → ((a : A) (s' : Writer e) → P a s'.world.heap → Runs (f a) s' Q)
      → Runs (◌>>=◌ e m f) s Q
  >>=-Runs {m = m} {f = f} {s = s} {Q = Q} first next =
      go (next first.result first.after first.told)
    where
      go : Runs (f first.result) first.after Q → Runs (◌>>=◌ e m f) s Q
      go second = record {
        result = second.result;
        after = second.after;
        is = ap (λ r. and_then e r.0 f r.1) first.is ∙ second.is;
        same_root = second.same_root ∙ first.same_root;
        told = second.told;
      }

  pub weaken :
      {A : Type 0} {m : M e A} {s : Writer e} {P Q : A → Heap → Type 0}
      → Runs m s P
      → ((a : A) (h : Heap) → P a h → Q a h)
      → Runs m s Q
  weaken run f = record {
    result = run.result;
    after = run.after;
    is = run.is;
    same_root = run.same_root;
    told = f run.result run.after.world.heap run.told;
  }

  pub fetch-Runs :
      (op : Heap → Value × Heap) (s : Writer e) (Q : Value → Heap → Type 0)
      → Q (op s.world.heap).0 (op s.world.heap).1
      → Runs (lift e (fetch e op)) s Q
  unfolding fetch
  fetch-Runs op s Q q = record {
    result = (op s.world.heap).0;
    after = (lift e (fetch e op) s).1;
    is = refl;
    same_root = refl;
    told = q;
  }

  pub give-Runs :
      (v : Value) (op : Heap → Bool × Heap) (s : Writer e) (Q : Bool → Heap → Type 0)
      → Q (op s.world.heap).0 (op s.world.heap).1
      → Runs (lift e (give e v op)) s Q
  unfolding give
  give-Runs v op s Q q = record {
    result = (op s.world.heap).0;
    after = (lift e (give e v op) s).1;
    is = refl;
    same_root = refl;
    told = q;
  }

  pub throw_unless-Runs :
      {A : Type 0} (b : Bool) (what : Text) (a : A) (s : Writer e) (Q : A → Heap → Type 0)
      → b ≡ true
      → Q a s.world.heap
      → Runs (throw_unless e b what a) s Q
  throw_unless-Runs true what a s Q done q = pure-Runs a s Q q
  throw_unless-Runs false what a s Q done q = cc
