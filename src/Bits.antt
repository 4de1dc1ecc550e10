-- ===== src/Bits.antt =====
-- The bit operations of the native numbers at variables: one binary digit at a time, and the laws
-- that the flags of src/uvw/enum.hpp and the hash of src/uvw/type_info.hpp need.
use Prim.Native.Nat.{digits, bitwise, differ, max, bit_and, bit_or, bit_xor}
use Prim.Native.Nat.{bit_and-bitwise, bit_or-bitwise, bit_xor-bitwise}
use native.Mathlib.Nat.{pow-suc}
use uvw.Prelude.{ap, ℕ, zero, suc, ◌+◌, ◌-◌, ◌*◌, ◌/◌, ◌%◌, ◌^◌, ◌≤◌, ◌<◌, ◌≡◌, refl, min, arith}

-- The fuel of the recursion that the operations stand for does not matter.
module _ (z : ℕ → ℕ) (f : ℕ → ℕ → ℕ) where
  same_digits : (n m a b : ℕ) → a ≤ n → a ≤ m → digits z f n a b ≡ digits z f m a b
  same_digits zero zero a b p q = refl
  same_digits zero (suc m) zero b p q = refl
  same_digits zero (suc m) (suc a) b p q = absurd (omega arith)
  same_digits (suc n) zero zero b p q = refl
  same_digits (suc n) zero (suc a) b p q = absurd (omega arith)
  same_digits (suc n) (suc m) zero b p q = refl
  same_digits (suc n) (suc m) (suc a) b p q =
      omega (arith, same_digits n m (suc a / 2) (b / 2) (omega arith) (omega arith))

  lowest :
      (a b : ℕ)
      → bitwise z f (suc a) b ≡ bitwise z f (suc a / 2) (b / 2) * 2 + f (suc a % 2) (b % 2)
  lowest a b =
      omega (arith, same_digits a (suc a / 2) (suc a / 2) (b / 2) (omega arith) (omega arith))

pub bit_and_digit : (a b : ℕ) → bit_and a b ≡ bit_and (a / 2) (b / 2) * 2 + min (a % 2) (b % 2)
bit_and_digit zero b = simp bit_and-bitwise (omega arith)
bit_and_digit (suc a) b = simp bit_and-bitwise (lowest (λ y. 0) min a b)

pub bit_or_digit : (a b : ℕ) → bit_or a b ≡ bit_or (a / 2) (b / 2) * 2 + max (a % 2) (b % 2)
bit_or_digit zero b = simp bit_or-bitwise (omega arith)
bit_or_digit (suc a) b = simp bit_or-bitwise (lowest (λ y. y) max a b)

-- The digit of a sum of two digits.
differ_digit : (a b : ℕ) → a < 2 → b < 2 → differ a b ≡ (a + b) % 2
differ_digit zero b p q = omega arith
differ_digit (suc zero) zero p q = refl
differ_digit (suc zero) (suc zero) p q = refl
differ_digit (suc zero) (suc (suc b)) p q = absurd (omega arith)
differ_digit (suc (suc a)) b p q = absurd (omega arith)

pub bit_xor_digit : (a b : ℕ) → bit_xor a b ≡ bit_xor (a / 2) (b / 2) * 2 + (a % 2 + b % 2) % 2
bit_xor_digit zero b = simp bit_xor-bitwise (omega arith)
bit_xor_digit (suc a) b =
    omega (arith, bit_xor_suc, differ_digit (suc a % 2) (b % 2) (omega arith) (omega arith))
  where
    bit_xor_suc : bit_xor (suc a) b ≡ bit_xor (suc a / 2) (b / 2) * 2 + differ (suc a % 2) (b % 2)
    bit_xor_suc = simp bit_xor-bitwise (lowest (λ y. y) differ a b)

-- The operations at any width, by recursion on a bound of what they are applied to.
bit_xor_back : (n a c : ℕ) → a ≤ n → c ≤ n → bit_xor (bit_xor a c) c ≡ a
bit_xor_back zero zero zero p q = refl
bit_xor_back zero (suc a) c p q = absurd (omega arith)
bit_xor_back zero zero (suc c) p q = absurd (omega arith)
bit_xor_back (suc n) a c p q =
    let e = bit_xor_digit a c in
    omega (
      arith,
      bit_xor_digit (bit_xor a c) c,
      e,
      halves e,
      bit_xor_back n (a / 2) (c / 2) (omega arith) (omega arith),
    )
  where
    halves :
        bit_xor a c ≡ bit_xor (a / 2) (c / 2) * 2 + (a % 2 + c % 2) % 2
        → bit_xor (bit_xor a c / 2) (c / 2) ≡ bit_xor (bit_xor (a / 2) (c / 2)) (c / 2)
    halves e = ap (λ x. bit_xor x (c / 2)) (omega (arith, e))

-- Adding the same bits twice gives the number back.
pub bit_xor-bit_xor : (a c : ℕ) → bit_xor (bit_xor a c) c ≡ a
bit_xor-bit_xor a c = bit_xor_back (a + c) a c (omega arith) (omega arith)

bit_xor_swap : (n a c : ℕ) → a ≤ n → c ≤ n → bit_xor a c ≡ bit_xor c a
bit_xor_swap zero zero zero p q = refl
bit_xor_swap zero (suc a) c p q = absurd (omega arith)
bit_xor_swap zero zero (suc c) p q = absurd (omega arith)
bit_xor_swap (suc n) a c p q = omega (
  arith,
  bit_xor_digit a c,
  bit_xor_digit c a,
  bit_xor_swap n (a / 2) (c / 2) (omega arith) (omega arith),
)

pub bit_xor_comm : (a c : ℕ) → bit_xor a c ≡ bit_xor c a
bit_xor_comm a c = bit_xor_swap (a + c) a c (omega arith) (omega arith)

pub bit_xor-lt : (k a b : ℕ) → a < 2 ^ k → b < 2 ^ k → bit_xor a b < 2 ^ k
bit_xor-lt zero zero zero p q = omega arith
bit_xor-lt zero (suc a) b p q = absurd (omega arith)
bit_xor-lt zero zero (suc b) p q = absurd (omega arith)
bit_xor-lt (suc k) a b p q = omega (
  arith,
  bit_xor_digit a b,
  pow-suc 2 k,
  bit_xor-lt k (a / 2) (b / 2) (omega (arith, pow-suc 2 k)) (omega (arith, pow-suc 2 k)),
)

-- `or` puts bits in, which `and` then finds.
bit_and-bit_or_below : (n x f : ℕ) → x ≤ n → f ≤ n → bit_and (bit_or x f) f ≡ f
bit_and-bit_or_below zero zero zero p q = refl
bit_and-bit_or_below zero (suc x) f p q = absurd (omega arith)
bit_and-bit_or_below zero zero (suc f) p q = absurd (omega arith)
bit_and-bit_or_below (suc n) x f p q =
    let e = bit_or_digit x f in
    let half : bit_or x f / 2 ≡ bit_or (x / 2) (f / 2) = omega (arith, e) in
    omega (
      arith,
      bit_and_digit (bit_or x f) f,
      e,
      ap (λ y. bit_and y (f / 2)) half,
      bit_and-bit_or_below n (x / 2) (f / 2) (omega arith) (omega arith),
    )

pub bit_and-bit_or : (x f : ℕ) → bit_and (bit_or x f) f ≡ f
bit_and-bit_or x f = bit_and-bit_or_below (x + f) x f (omega arith) (omega arith)

-- The complement in `k` bits.
abbrev pub complement : ℕ → ℕ → ℕ
complement k f = 2 ^ k - 1 - f

-- `and` with the complement of `f` leaves no bit of `f`, and keeps what is not in `f`.
pub bit_and-complement :
    (k x f : ℕ)
    → x < 2 ^ k
    → f < 2 ^ k
    → (bit_and (bit_and x (complement k f)) f ≡ 0)
      × (bit_and x (complement k f) + bit_and x f ≡ x)
      × (bit_and x f ≤ x)
bit_and-complement zero zero zero p q = (refl, refl, omega arith)
bit_and-complement zero (suc x) f p q = absurd (omega arith)
bit_and-complement zero zero (suc f) p q = absurd (omega arith)
bit_and-complement (suc k) x f p q =
    let two = pow-suc 2 k in
    let (gone, split, small) = bit_and-complement k (x / 2) (f / 2) (omega arith) (omega arith) in
    let c : ℕ = complement (suc k) f in
    let half_c : c / 2 ≡ complement k (f / 2) = omega arith in
    let digit_c : c % 2 ≡ 1 - f % 2 = omega arith in
    let e = bit_and_digit x c in
    let xs = ap (λ y. bit_and (x / 2) y) half_c in
    let half : bit_and x c / 2 ≡ bit_and (x / 2) (complement k (f / 2)) = omega (arith, e, xs) in
    (
      omega (arith, bit_and_digit (bit_and x c) f, e, ap (λ y. bit_and y (f / 2)) half, gone),
      omega (arith, e, xs, bit_and_digit x f, split),
      omega (arith, bit_and_digit x f, small),
    )
