-- ===== src/QuickJs/Shapes/Kept.antt =====
-- What stands for a tree of src/qjs goes on standing for it while other containers change.
use rpcpp.Base.{
  All-map, Each, Each-map, ◌<◌, ◌≤◌, ◌≡◌, ◌≢◌, sym, ◌∙◌, ℕ, Text, none, some, ◌⊎◌, inl, inr, false,
  arith,
}
use mathlib.Core.Path.{subst}
use rpcpp.QuickJs.{Engine, c_str}
use rpcpp.QuickJs.Laws.{View, Gives, Plain, Solid, Change, Laws}
use rpcpp.QuickJs.Shapes.{
  Shape, Members, a_string, a_bytestring, a_boolean, a_double, an_integer, an_optional, a_vector,
  a_map, a_struct, no_members, member, El, Els, is_optional,
}
use rpcpp.QuickJs.Shapes.Represents.{From, Rep, RepMembers}

module _ (e : Engine) (w : View e) (laws : Laws e w) where
  open e use {Value, Heap}
  open w use {items, field, number, made}

  Gives-later :
      {X : Type 0} (op : Heap → X × Heap) (x : X) (p : ℕ) (h h' : Heap)
      → Change e w p h h'
      → Gives e w op x h
      → Gives e w op x h'
  Gives-later op x p h h' c gives h2 later = gives h2 (laws.later_trans h h' h2 c.later later)

  From-kept :
      (lo lo' p : ℕ) (v : Value) (h h' : Heap)
      → lo' ≤ lo
      → Change e w p h h'
      → From e w lo v h
      → From e w lo' v h'
  From-kept lo lo' p v h h' low c from =
      (omega (arith, from.0, low), omega (arith, from.1, c.grows))

  other :
      (lo p : ℕ) (v : Value) (h : Heap) → (p < lo) ⊎ (made h ≤ p) → From e w lo v h → number v ≢ p
  other lo p v h (inl below) from same = absurd (omega (arith, from.0, from.1))
  other lo p v h (inr above) from same = absurd (omega (arith, from.0, from.1))

  mutual
    -- The container that changes is an older one, or a new one.
    pub Rep-kept :
        (s : Shape) (x : El e s) (v : Value) (lo lo' p : ℕ) (h h' : Heap)
        → lo' ≤ lo
        → Change e w p h h'
        → (p < lo) ⊎ (made h ≤ p)
        → Rep e w lo s x v h
        → Rep e w lo' s x v h'
    Rep-kept a_string x v lo lo' p h h' low c out (a, b, g) =
        (a, b, Gives-later (e.to_text v) (some x) p h h' c g)
    Rep-kept a_bytestring x v lo lo' p h h' low c out (a, b, g) =
        (a, b, Gives-later (e.uint8_array v) (some x) p h h' c g)
    Rep-kept a_boolean x v lo lo' p h h' low c out rep = rep
    Rep-kept a_double x v lo lo' p h h' low c out (a, b, g) =
        (a, b, Gives-later (e.to_float64 v) x p h h' c g)
    Rep-kept (an_integer t) x v lo lo' p h h' low c out (a, b, g) =
        (a, b, Gives-later (e.to_int64 v) x p h h' c g)
    Rep-kept (an_optional s) none v lo lo' p h h' low c out rep = rep
    Rep-kept (an_optional s) (some x) v lo lo' p h h' low c out rep =
        Rep-kept s x v lo lo' p h h' low c out rep
    Rep-kept (a_vector s) xs v lo lo' p h h' low c out (a, b, from, each) = (
      a,
      b,
      From-kept lo lo' p v h h' low c from,
      subst (Each (λ x i. Rep e w lo' s x i h') xs)
          (sym (c.items_kept v from.1 (other lo p v h out from)))
          (Each-map _ _ xs (items v h) (λ x i. Rep-kept s x i lo lo' p h h' low c out) each),
    )
    Rep-kept (a_map s) xs v lo lo' p h h' low c out (a, b, d, from, names, entries) = (
      a,
      b,
      d,
      From-kept lo lo' p v h h' low c from,
      c.keys_kept v from.1 (other lo p v h out from) ∙ names,
      All-map _ _ xs
          (λ q r. (
            r.0,
            c.fields_kept v q.0 from.1 (other lo p v h out from) ∙ r.1,
            Rep-kept s q.1 r.0 lo lo' p h h' low c out r.2,
          ))
          entries,
    )
    Rep-kept (a_struct ms) x v lo lo' p h h' low c out (a, b, d, from, reps) = (
      a,
      b,
      d,
      From-kept lo lo' p v h h' low c from,
      RepMembers-kept ms x v lo lo' p h h' low c out
          (λ n. c.fields_kept v n from.1 (other lo p v h out from)) reps,
    )

    pub RepMembers-kept :
        (ms : Members) (x : Els e ms) (v : Value) (lo lo' p : ℕ) (h h' : Heap)
        → lo' ≤ lo
        → Change e w p h h'
        → (p < lo) ⊎ (made h ≤ p)
        → ((n : Text) → field v n h' ≡ field v n h)
        → RepMembers e w lo ms x v h
        → RepMembers e w lo' ms x v h'
    RepMembers-kept no_members x v lo lo' p h h' low c out same reps = tt
    RepMembers-kept (member n s ms) x v lo lo' p h h' low c out same ((d, there, rep), reps) = (
      (d, same (c_str n) ∙ there, Rep-kept s x.0 d lo lo' p h h' low c out rep),
      RepMembers-kept ms x.1 v lo lo' p h h' low c out same reps,
    )

  -- Only an optional is written as null.
  pub Rep-Solid :
      (s : Shape) (x : El e s) (v : Value) (lo : ℕ) (h : Heap)
      → is_optional s ≡ false
      → Rep e w lo s x v h
      → Solid e v
  Rep-Solid a_string x v lo h not rep = rep.0
  Rep-Solid a_bytestring x v lo h not rep = rep.0
  Rep-Solid a_boolean x v lo h not rep = rep.0
  Rep-Solid a_double x v lo h not rep = rep.0
  Rep-Solid (an_integer t) x v lo h not rep = rep.0
  Rep-Solid (an_optional s) x v lo h not rep = cc
  Rep-Solid (a_vector s) x v lo h not rep = rep.0
  Rep-Solid (a_map s) x v lo h not rep = rep.0
  Rep-Solid (a_struct ms) x v lo h not rep = rep.0

  pub Rep-Plain :
      (s : Shape) (x : El e s) (v : Value) (lo : ℕ) (h : Heap) → Rep e w lo s x v h → Plain e v
  Rep-Plain a_string x v lo h rep = rep.0.0
  Rep-Plain a_bytestring x v lo h rep = rep.0.0
  Rep-Plain a_boolean x v lo h rep = rep.0.0
  Rep-Plain a_double x v lo h rep = rep.0.0
  Rep-Plain (an_integer t) x v lo h rep = rep.0.0
  Rep-Plain (an_optional s) none v lo h rep = rep.0
  Rep-Plain (an_optional s) (some x) v lo h rep = Rep-Plain s x v lo h rep
  Rep-Plain (a_vector s) x v lo h rep = rep.0.0
  Rep-Plain (a_map s) x v lo h rep = rep.0.0
  Rep-Plain (a_struct ms) x v lo h rep = rep.0.0
