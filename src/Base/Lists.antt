-- ===== src/Base/Lists.antt =====
-- Lists measured by native numbers, under the library's names, and predicates over all items.
use Prim.Native.Nat.{ℕ, zero, suc, ◌+◌, ◌-◌, ◌≤◌, ◌<◌, min}
use mathlib.Core.Logic.{◌≢◌, ◌⊎◌, inl, inr}
use mathlib.Core.Path.{◌≡◌, refl, ap, sym, ◌∙◌}
use mathlib.Core.Bool.{Bool, true, false}
use mathlib.Core.List.{List, [], ◌∷◌, ◌++◌}
use mathlib.Core.Option.{Option, none, some}
use native.Mathlib.Omega.{arith}
use rpcpp.Base.Tests.{bit, some-injective}

module _ {ℓ} {A : Type ℓ} where
  abbrev pub length : List A → ℕ
  length [] = 0
  length (x ∷ xs) = suc (length xs)

  abbrev pub is_empty : List A → Bool
  is_empty [] = true
  is_empty (x ∷ xs) = false

  abbrev pub get_elem? : List A → ℕ → Option A
  get_elem? [] i = none
  get_elem? (x ∷ xs) zero = some x
  get_elem? (x ∷ xs) (suc i) = get_elem? xs i

  -- A write out of bounds changes nothing.
  abbrev pub set : List A → ℕ → A → List A
  set [] i v = []
  set (x ∷ xs) zero v = v ∷ xs
  set (x ∷ xs) (suc i) v = x ∷ set xs i v

  abbrev pub take : ℕ → List A → List A
  take zero xs = []
  take (suc n) [] = []
  take (suc n) (x ∷ xs) = x ∷ take n xs

  abbrev pub drop : ℕ → List A → List A
  drop zero xs = xs
  drop (suc n) [] = []
  drop (suc n) (x ∷ xs) = drop n xs

  pub length-append : (xs ys : List A) → length (xs ++ ys) ≡ length xs + length ys
  length-append [] ys = omega arith
  length-append (x ∷ xs) ys = omega (arith, length-append xs ys)

  pub length-drop : (n : ℕ) (xs : List A) → length (drop n xs) ≡ length xs - n
  length-drop zero xs = omega arith
  length-drop (suc n) [] = omega arith
  length-drop (suc n) (x ∷ xs) = omega (arith, length-drop n xs)

  pub length-take : (n : ℕ) (xs : List A) → length (take n xs) ≡ min n (length xs)
  length-take zero xs = omega arith
  length-take (suc n) [] = omega arith
  length-take (suc n) (x ∷ xs) = omega (arith, length-take n xs)

  -- A list is cut off exactly in front of another.
  pub take-append : (xs ys : List A) → take (length xs) (xs ++ ys) ≡ xs
  take-append [] ys = refl
  take-append (x ∷ xs) ys = ap (◌∷◌ x) (take-append xs ys)

  pub drop-append : (xs ys : List A) → drop (length xs) (xs ++ ys) ≡ ys
  drop-append [] ys = refl
  drop-append (x ∷ xs) ys = drop-append xs ys

  pub length-pos : (xs : List A) → xs ≢ [] → 0 < length xs
  length-pos [] h = absurd (h refl)
  length-pos (x ∷ xs) h = omega arith

  -- Nothing is left behind the end.
  pub drop-nil : (n : ℕ) (xs : List A) → length xs ≤ n → drop n xs ≡ []
  drop-nil zero [] h = refl
  drop-nil zero (x ∷ xs) h = absurd (omega arith)
  drop-nil (suc n) [] h = refl
  drop-nil (suc n) (x ∷ xs) h = drop-nil n xs (omega arith)

module _ {ℓ} {A : Type ℓ} where
  pub length-set : (xs : List A) (i : ℕ) (v : A) → length (set xs i v) ≡ length xs
  length-set [] i v = refl
  length-set (x ∷ xs) zero v = refl
  length-set (x ∷ xs) (suc i) v = ap suc (length-set xs i v)

  pub get_elem?-lt : (xs : List A) (i : ℕ) {v : A} → get_elem? xs i ≡ some v → i < length xs
  get_elem?-lt [] i e = cc
  get_elem?-lt (x ∷ xs) zero e = omega arith
  get_elem?-lt (x ∷ xs) (suc i) e = omega (arith, get_elem?-lt xs i e)

  pub length-le_of_none : (xs : List A) (i : ℕ) → get_elem? xs i ≡ none → length xs ≤ i
  length-le_of_none [] i e = omega arith
  length-le_of_none (x ∷ xs) zero e = cc
  length-le_of_none (x ∷ xs) (suc i) e = omega (arith, length-le_of_none xs i e)

  pub get_elem?-set_self :
      (xs : List A) (i : ℕ) (v : A) → i < length xs → get_elem? (set xs i v) i ≡ some v
  get_elem?-set_self [] i v h = elim h [ ]
  get_elem?-set_self (x ∷ xs) zero v h = refl
  get_elem?-set_self (x ∷ xs) (suc i) v h = get_elem?-set_self xs i v (omega arith)

  pub get_elem?-set_ne :
      (xs : List A) (i j : ℕ) (v : A) → j ≢ i → get_elem? (set xs i v) j ≡ get_elem? xs j
  get_elem?-set_ne [] i j v h = refl
  get_elem?-set_ne (x ∷ xs) zero zero v h = absurd (h refl)
  get_elem?-set_ne (x ∷ xs) zero (suc j) v h = refl
  get_elem?-set_ne (x ∷ xs) (suc i) zero v h = refl
  get_elem?-set_ne (x ∷ xs) (suc i) (suc j) v h = get_elem?-set_ne xs i j v (λ e. h (ap suc e))

  pub get_elem?-last : (xs : List A) (a : A) → get_elem? (xs ++ a ∷ []) (length xs) ≡ some a
  get_elem?-last [] a = refl
  get_elem?-last (x ∷ xs) a = get_elem?-last xs a

  pub set-last : (xs : List A) (a b : A) → set (xs ++ a ∷ []) (length xs) b ≡ xs ++ b ∷ []
  set-last [] a b = refl
  set-last (x ∷ xs) a b = ap (◌∷◌ x) (set-last xs a b)

  -- An item of a list with one more at its end is an old one, or that one.
  pub get_elem?-snoc :
      (xs : List A) (a : A) (i : ℕ) {v : A}
      → get_elem? (xs ++ a ∷ []) i ≡ some v
      → (get_elem? xs i ≡ some v) ⊎ ((i ≡ length xs) × (a ≡ v))
  get_elem?-snoc [] a zero e = inr (refl, cc)
  get_elem?-snoc [] a (suc i) e = cc
  get_elem?-snoc (x ∷ xs) a zero e = inl e
  get_elem?-snoc (x ∷ xs) a (suc i) e = ground (arith, get_elem?-snoc xs a i e)

module _ {ℓ κ} {A : Type ℓ} (P : A → Type κ) where
  -- A predicate by recursion computes to tuples, which the tactics read and build.
  abbrev pub All : List A → Type κ
  All [] = Unit
  All (x ∷ xs) = P x × All xs

  pub All-append : (xs ys : List A) → All xs → All ys → All (xs ++ ys)
  All-append [] ys hx hy = hy
  All-append (x ∷ xs) ys hx hy = (hx.0, All-append xs ys hx.1 hy)

pub All-map :
    {A : Type 0} (P Q : A → Type 0) (xs : List A) → ((x : A) → P x → Q x) → All P xs → All Q xs
All-map P Q [] f a = tt
All-map P Q (x ∷ xs) f a = (f x a.0, All-map P Q xs f a.1)

pub All-both :
    {A : Type 0} (P Q R : A → Type 0) (xs : List A)
    → ((x : A) → P x → Q x → R x)
    → All P xs
    → All Q xs
    → All R xs
All-both P Q R [] f a b = tt
All-both P Q R (x ∷ xs) f a b = (f x a.0 b.0, All-both P Q R xs f a.1 b.1)

-- How many of the elements pass a test.
module _ {ℓ} {A : Type ℓ} (p : A → Bool) where
  abbrev pub tally : List A → ℕ
  tally [] = 0
  tally (x ∷ xs) = bit (p x) + tally xs

  pub tally-append : (xs ys : List A) → tally (xs ++ ys) ≡ tally xs + tally ys
  tally-append [] ys = omega arith
  tally-append (x ∷ xs) ys = omega (arith, tally-append xs ys)

pub tally-set :
    {A : Type 0} (p : A → Bool) (xs : List A) (i : ℕ) (x y : A)
    → get_elem? xs i ≡ some x
    → tally p (set xs i y) + bit (p x) ≡ tally p xs + bit (p y)
tally-set p [] i x y e = cc
tally-set p (z ∷ xs) zero x y e = omega (arith, ap (λ u. bit (p u)) (some-injective z x e))
tally-set p (z ∷ xs) (suc i) x y e = omega (arith, tally-set p xs i x y e)

-- An item of a list is still there when another one is set, and when the list grows.
pub set-other :
    {A : Type 0} (xs : List A) (i j : ℕ) (x y z : A)
    → get_elem? xs i ≡ some x
    → get_elem? xs j ≡ some y
    → x ≢ y
    → get_elem? (set xs i z) j ≡ some y
set-other [] i j x y z e f ne = cc
set-other (w ∷ ws) zero zero x y z e f ne =
    absurd (ne (sym (some-injective w x e) ∙ some-injective w y f))
set-other (w ∷ ws) zero (suc j) x y z e f ne = f
set-other (w ∷ ws) (suc i) zero x y z e f ne = f
set-other (w ∷ ws) (suc i) (suc j) x y z e f ne = set-other ws i j x y z e f ne

pub still-there :
    {A : Type 0} (xs ys : List A) (i : ℕ) (x : A)
    → get_elem? xs i ≡ some x
    → get_elem? (xs ++ ys) i ≡ some x
still-there [] ys i x e = cc
still-there (w ∷ ws) ys zero x e = e
still-there (w ∷ ws) ys (suc i) x e = still-there ws ys i x e

pub no-items : {A : Type 0} (xs : List A) → length xs ≤ 0 → xs ≡ []
no-items [] h = refl
no-items (x ∷ xs) h = absurd (omega arith)

-- Two lists of one length, with a relation between the items at each place.
abbrev pub Each : {X Y : Type 0} → (X → Y → Type 0) → List X → List Y → Type 0
Each R [] [] = Unit
Each R [] (y ∷ ys) = ⊥
Each R (x ∷ xs) [] = ⊥
Each R (x ∷ xs) (y ∷ ys) = R x y × Each R xs ys

pub Each-append :
    {X Y : Type 0} (R : X → Y → Type 0) (xs xs' : List X) (ys ys' : List Y)
    → Each R xs ys
    → Each R xs' ys'
    → Each R (xs ++ xs') (ys ++ ys')
Each-append R [] xs' [] ys' a b = b
Each-append R [] xs' (y ∷ ys) ys' a b = absurd a
Each-append R (x ∷ xs) xs' [] ys' a b = absurd a
Each-append R (x ∷ xs) xs' (y ∷ ys) ys' a b = (a.0, Each-append R xs xs' ys ys' a.1 b)

pub Each-map :
    {X Y : Type 0} (R S : X → Y → Type 0) (xs : List X) (ys : List Y)
    → ((x : X) (y : Y) → R x y → S x y)
    → Each R xs ys
    → Each S xs ys
Each-map R S [] [] f a = tt
Each-map R S [] (y ∷ ys) f a = absurd a
Each-map R S (x ∷ xs) [] f a = absurd a
Each-map R S (x ∷ xs) (y ∷ ys) f a = (f x y a.0, Each-map R S xs ys f a.1)
