-- ===== src/QuickJs/Integers.antt =====
-- The C++ integers of src/qjs: `static_cast` between an integral type and `std::int64_t`, which wraps.
use rpcpp.Base.{
  ℕ, ◌-◌, ◌*◌, ◌%◌, ◌^◌, ◌≤◌, ◌<◌, ◌≡◌, refl, ℤ, pos, negsuc, Bool, true, false, ltb, if◌then◌else◌,
  arith, ◌⊎◌, sym, inl, inr,
}
use native.Mathlib.Nat.{mod-eq_of_lt, one-le-pow, mod-lt, pow-le-pow_right}
use mathlib.Core.Path.{subst}

-- An integral type: the size of its values in bits, without the sign bit, and whether there is one.
pub record IntType : Type 0 where
  pub magnitude : ℕ
  pub signed : Bool

abbrev pub int64 : IntType
int64 = record { magnitude = 63; signed = true }

abbrev pub uint64 : IntType
uint64 = record { magnitude = 64; signed = false }

abbrev pub uint32 : IntType
uint32 = record { magnitude = 32; signed = false }

-- The number of values.
abbrev pub modulus : IntType → ℕ
modulus t = if t.signed then 2 * 2 ^ t.magnitude else 2 ^ t.magnitude

abbrev pub InRange : IntType → ℤ → Type 0
InRange t (pos n) = n < 2 ^ t.magnitude
InRange t (negsuc n) = (t.signed ≡ true) × (n < 2 ^ t.magnitude)

-- The two's complement pattern, of `m` values in all.
pub pattern_of : ℕ → ℤ → ℕ
pattern_of m (pos n) = n % m
pattern_of m (negsuc n) = m - 1 - n % m

-- The value of a pattern; the upper half is negative in a signed type.
pub value_of : IntType → ℕ → ℤ
value_of t w =
    if t.signed
    then (if ltb w (2 ^ t.magnitude) then pos w else negsuc (2 * 2 ^ t.magnitude - 1 - w))
    else pos w

-- `static_cast<T>(n)`
pub cast : IntType → ℤ → ℤ
unfolding pattern_of value_of
cast t n = value_of t (pattern_of (modulus t) n)

half_below : (h n : ℕ) → n < h → (n % (2 * h) ≡ n) × (n % h ≡ n)
half_below h n lt = (mod-eq_of_lt (omega arith), mod-eq_of_lt lt)

-- A value that the type has is kept.
pub cast-InRange : (t : IntType) (n : ℤ) → InRange t n → cast t n ≡ n
unfolding cast pattern_of value_of
cast-InRange t (pos n) h = ground (arith, half_below (2 ^ t.magnitude) n)
cast-InRange t (negsuc n) h = ground (arith, half_below (2 ^ t.magnitude) n)

pow_pos : (t : IntType) → 0 < 2 ^ t.magnitude
pow_pos t = one-le-pow t.magnitude 2 (omega arith)

below :
    (t : IntType) (n : ℕ)
    → (n % (2 * 2 ^ t.magnitude) < 2 * 2 ^ t.magnitude) × (n % 2 ^ t.magnitude < 2 ^ t.magnitude)
below t n = (mod-lt n (omega (arith, pow_pos t)), mod-lt n (pow_pos t))

-- Whatever the number, what `static_cast` gives is a value of the type.
pub cast_bounds : (t : IntType) (n : ℤ) → InRange t (cast t n)
unfolding cast pattern_of value_of
cast_bounds t (pos n) = ground (arith, pow_pos t, below t n)
cast_bounds t (negsuc n) = ground (arith, pow_pos t, below t n)

unsigned_back : (m : ℕ) → m < 2 ^ 64 → cast uint64 (cast int64 (pos m)) ≡ pos m
unfolding cast pattern_of value_of
unsigned_back m h = ground arith

-- A value of a type of at most 64 bits comes back from `std::int64_t` as it was.
pub cast_round_trip :
    (t : IntType) (n : ℤ)
    → (t.magnitude ≤ 63) ⊎ (t ≡ uint64)
    → InRange t n
    → cast t (cast int64 n) ≡ n
cast_round_trip t n (inl fits) h = rw (cast-InRange int64 n (wider n h)) (cast-InRange t n h)
  where
    larger : 2 ^ t.magnitude ≤ 2 ^ 63
    larger = pow-le-pow_right (omega arith) fits

    wider : (m : ℤ) → InRange t m → InRange int64 m
    wider (pos m) k = omega (arith, larger)
    wider (negsuc m) k = (refl, omega (arith, larger))
cast_round_trip t n (inr same) h =
    subst (λ u. InRange u n → cast u (cast int64 n) ≡ n) (sym same) (there n) h
  where
    there : (m : ℤ) → InRange uint64 m → cast uint64 (cast int64 m) ≡ m
    there (pos m) k = unsigned_back m k
    there (negsuc m) k = cc
