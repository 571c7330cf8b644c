-- ===== src/Transport/Stdio/Order.antt =====
-- What the documented order of the queue of src/transports/StdioTransport.h says of a history that ends with
-- the exit sentinel.
use mathlib.Core.List.{Perm, Permᴰ}
use mathlib.Core.Logic.{∥∥₁_elim}
use native.Mathlib.Nat.{ℕ_set}
use rpcpp.Base.{
  ℕ, ◌+◌, ◌≡◌, refl, sym, ap, ◌∙◌, Bool, true, false, ◌&&◌, Option, none, some, List, [], ◌∷◌, ◌++◌,
  map, arith, ◌==◌, tally, tally-append, bit, ==_iff,
}
use rpcpp.Transport.Stdio.Stranded.{from_producer, from_producer-append, items_of, DequeueOrder}

bit-true : (b : Bool) → bit b ≡ 1 → b ≡ true
bit-true true e = refl
bit-true false e = cc

module _ {A : Type 0} (p : A → Bool) where
  Permᴰ-tally : {xs ys : List A} → Permᴰ xs ys → tally p xs ≡ tally p ys
  Permᴰ-tally Permᴰ.nil = refl
  Permᴰ-tally (Permᴰ.cons e d) = omega (arith, ap (λ x. bit (p x)) e, Permᴰ-tally d)
  Permᴰ-tally (Permᴰ.swap e f) = omega (arith, ap (λ x. bit (p x)) e, ap (λ x. bit (p x)) f)
  Permᴰ-tally (Permᴰ.trans d f) = Permᴰ-tally d ∙ Permᴰ-tally f

  pub Perm-tally : (xs ys : List A) → Perm xs ys → tally p xs ≡ tally p ys
  Perm-tally xs ys q = ∥∥₁_elim q (ℕ_set _ _) Permᴰ-tally

module _ {A : Type 0} where
  -- Payloads, each with the thread that enqueues it, as items of the queue.
  abbrev pub payloads : List (ℕ × A) → List (ℕ × Option A)
  payloads = map (λ x. (x.0, some x.1))

  -- The sentinel, which the thread of the loop enqueues.
  abbrev pub sentinel : ℕ × Option A
  sentinel = (0, none)

  abbrev pub values : List (ℕ × A) → List A
  values = map (λ x. x.1)

  abbrev is_none : Option A → Bool
  is_none none = true
  is_none (some _) = false

  abbrev no_payload : ℕ × Option A → Bool
  no_payload x = is_none x.1

  abbrev is_sentinel : ℕ × Option A → Bool
  is_sentinel x = is_none x.1 && (x.0 == 0)

  no_payload-payloads : (xs : List (ℕ × A)) → tally no_payload (payloads xs) ≡ 0
  no_payload-payloads [] = refl
  no_payload-payloads (x ∷ xs) = omega (arith, no_payload-payloads xs)

  is_sentinel-payloads : (xs : List (ℕ × A)) → tally is_sentinel (payloads xs) ≡ 0
  is_sentinel-payloads [] = refl
  is_sentinel-payloads (x ∷ xs) = omega (arith, is_sentinel-payloads xs)

  -- A list of items either has payloads alone, or it has payloads before some item that is none.
  record Cut (order : List (ℕ × Option A)) : Type 0 where
    written : List (ℕ × A)
    thread : ℕ
    later : List (ℕ × Option A)
    parts : order ≡ payloads written ++ (thread, none) ∷ later

  only_payloads :
      (order : List (ℕ × Option A))
      → tally no_payload order ≡ 0
      → (xs : List (ℕ × A)) × (order ≡ payloads xs)
  only_payloads [] e = ([], refl)
  only_payloads ((p, none) ∷ order) e = absurd (omega (arith, e))
  only_payloads ((p, some a) ∷ order) e =
      let (xs, same) = only_payloads order (omega (arith, e)) in
      ((p, a) ∷ xs, ap (◌∷◌ (p, some a)) same)

  cut : (order : List (ℕ × Option A)) → tally no_payload order ≡ 1 → Cut order
  cut [] e = absurd (omega (arith, e))
  cut ((p, none) ∷ order) e = record { written = []; thread = p; later = order; parts = refl }
  cut ((p, some a) ∷ order) e =
      let c = cut order (omega (arith, e)) in
      record {
        written = (p, a) ∷ c.written;
        thread = c.thread;
        later = c.later;
        parts = ap (◌∷◌ (p, some a)) c.parts;
      }

  from_producer-payloads :
      (p : ℕ) (xs : List (ℕ × A)) → from_producer p (payloads xs) ≡ map some (from_producer p xs)
  unfolding from_producer
  from_producer-payloads p [] = refl
  from_producer-payloads p ((q, a) ∷ xs) = ground (arith, from_producer-payloads p xs)

  pub items_of-payloads :
      (xs : List (ℕ × A)) (later : List (ℕ × Option A))
      → items_of (payloads xs ++ later) ≡ map some (values xs) ++ items_of later
  items_of-payloads [] later = refl
  items_of-payloads (x ∷ xs) later = ap (◌∷◌ (some x.1)) (items_of-payloads xs later)

  -- One none in each of two equal lists stands at the same place.
  pub same_place :
      (xs ys zs : List A)
      → map some xs ++ none ∷ map some ys ≡ map some zs ++ none ∷ []
      → (xs ≡ zs) × (ys ≡ [])
  same_place [] [] [] e = (refl, refl)
  same_place [] (y ∷ ys) [] e = cc
  same_place [] ys (z ∷ zs) e = cc
  same_place (x ∷ xs) ys [] e = cc
  same_place (x ∷ xs) ys (z ∷ zs) e =
      let tails : map some xs ++ none ∷ map some ys ≡ map some zs ++ none ∷ [] = cc in
      let heads : x ≡ z = cc in
      let (same, nothing) = same_place xs ys zs tails in (rw (heads, same) refl, nothing)

  -- The test for the payloads.
  abbrev on_payload : (A → Bool) → ℕ × Option A → Bool
  on_payload p x = elim x.1 [ none ↦ false | some a ↦ p a ]

  on_payload-payloads :
      (p : A → Bool) (xs : List (ℕ × A)) → tally (on_payload p) (payloads xs) ≡ tally p (values xs)
  on_payload-payloads p [] = refl
  on_payload-payloads p (x ∷ xs) = omega (arith, on_payload-payloads p xs)

  -- The payloads that come out before the sentinel, and those behind it.
  pub record Split (earlier : List (ℕ × A)) (order : List (ℕ × Option A)) : Type 0 where
    pub written : List (ℕ × A)
    pub rest : List (ℕ × A)
    pub parts : order ≡ payloads written ++ sentinel ∷ payloads rest
    pub own_written : from_producer 0 written ≡ from_producer 0 earlier
    pub own_rest : from_producer 0 rest ≡ []
    pub counted :
        (p : A → Bool) → tally p (values written) + tally p (values rest) ≡ tally p (values earlier)

  abbrev pub history_of : List (ℕ × A) → List (ℕ × Option A)
  history_of earlier = payloads earlier ++ sentinel ∷ []

  module _ (earlier : List (ℕ × A)) (order : List (ℕ × Option A))
      (allowed : DequeueOrder (history_of earlier) order) where
    same_tally :
        (p : ℕ × Option A → Bool)
        → tally p order ≡ tally p (payloads earlier) + (bit (p sentinel) + 0)
    same_tally p =
        Perm-tally p order (history_of earlier) allowed.same_items
        ∙ tally-append p (payloads earlier) (sentinel ∷ [])

    one_none : tally no_payload order ≡ 1
    one_none = omega (arith, same_tally no_payload, no_payload-payloads earlier)

    -- How the order is cut at its one sentinel.
    parted :
        (written : List (ℕ × A)) (thread : ℕ) (later : List (ℕ × Option A))
        → order ≡ payloads written ++ (thread, none) ∷ later
        → (rest : List (ℕ × A)) × (order ≡ payloads written ++ sentinel ∷ payloads rest)
    parted written thread later parts =
        let nothing : tally no_payload later ≡ 0 = omega (
          arith,
          one_none,
          ap (tally no_payload) parts,
          tally-append no_payload (payloads written) ((thread, none) ∷ later),
          no_payload-payloads written,
        ) in
        let (rest, same) = only_payloads later nothing in
        let ours : bit (thread == 0) ≡ 1 = omega (
          arith,
          same_tally is_sentinel,
          is_sentinel-payloads earlier,
          ap (tally is_sentinel) parts,
          tally-append is_sentinel (payloads written) ((thread, none) ∷ later),
          is_sentinel-payloads written,
          ap (tally is_sentinel) same,
          is_sentinel-payloads rest,
        ) in
        let zero_thread : thread ≡ 0 = (==_iff thread 0).0 (bit-true (thread == 0) ours) in
        (
          rest,
          parts
              ∙ ap (λ (xs : List (ℕ × Option A)). payloads written ++ (thread, none) ∷ xs) same
              ∙ ap (λ (t : ℕ). payloads written ++ (t, none) ∷ payloads rest) zero_thread,
        )

    own-producer :
        (written rest : List (ℕ × A))
        → order ≡ payloads written ++ sentinel ∷ payloads rest
        → (from_producer 0 written ≡ from_producer 0 earlier) × (from_producer 0 rest ≡ [])
    unfolding from_producer
    own-producer written rest parts =
        same_place (from_producer 0 written) (from_producer 0 rest) (from_producer 0 earlier) (
          sym (
            ap (from_producer 0) parts
            ∙ from_producer-append 0 (payloads written) (sentinel ∷ payloads rest)
            ∙ ap (λ xs. xs ++ none ∷ from_producer 0 (payloads rest))
                (from_producer-payloads 0 written)
            ∙ ap (λ xs. map some (from_producer 0 written) ++ none ∷ xs)
                (from_producer-payloads 0 rest))
          ∙ allowed.in_order 0
          ∙ from_producer-append 0 (payloads earlier) (sentinel ∷ [])
          ∙ ap (λ xs. xs ++ none ∷ []) (from_producer-payloads 0 earlier))

    pub order-Split : Split earlier order
    order-Split =
        let c = cut order one_none in
        let (rest, parts) = parted c.written c.thread c.later c.parts in
        let (own_written, own_rest) = own-producer c.written rest parts in
        record {
          written = c.written;
          rest = rest;
          parts = parts;
          own_written = own_written;
          own_rest = own_rest;
          counted = λ p. omega (
            arith,
            same_tally (on_payload p),
            on_payload-payloads p earlier,
            ap (tally (on_payload p)) parts,
            tally-append (on_payload p) (payloads c.written) (sentinel ∷ payloads rest),
            on_payload-payloads p c.written,
            on_payload-payloads p rest,
          );
        }
