-- ===== src/Base/Bits.antt =====
-- Laws of the native bit operations at variables: one binary digit at a time, then whole fields.
use Prim.Native.Nat.{
  ℕ, zero, suc, ◌+◌, ◌-◌, ◌*◌, ◌/◌, ◌%◌, ◌^◌, ◌≤◌, ◌<◌, min, max, bit_and, bit_or, digits,
  bit_and-bitwise, bit_or-bitwise,
}
use mathlib.Core.Path.{◌≡◌, refl}
use native.Mathlib.Omega.{arith}
use native.Mathlib.Nat.{pow-suc, div-div-eq-div-mul}

-- Both operations are `digits` with a rule for one digit, on enough fuel. One lemma serves the two:
-- whatever is left of the first operand after a halving needs no more fuel than that itself.
module _ (rest : ℕ → ℕ) (rule : ℕ → ℕ → ℕ) where
  enough_fuel : (x k y : ℕ) → x ≤ k → digits rest rule k x y ≡ digits rest rule x x y
  enough_fuel x k y small = go k x x y small (omega arith)
    where
      go : (k j x y : ℕ) → x ≤ k → x ≤ j → digits rest rule k x y ≡ digits rest rule j x y
      go zero zero zero y small small' = refl
      go zero (suc j) zero y small small' = refl
      go (suc k) zero zero y small small' = refl
      go (suc k) (suc j) zero y small small' = refl
      go zero j (suc x) y small small' = absurd (omega arith)
      go (suc k) zero (suc x) y small small' = absurd (omega arith)
      go (suc k) (suc j) (suc x) y small small' =
          omega (arith, go k j (suc x / 2) (y / 2) (omega arith) (omega arith))

  -- The lowest digit comes by the rule, the others from the halves.
  halve :
      (x y : ℕ)
      → digits rest rule (suc x) (suc x) y
        ≡ digits rest rule (suc x / 2) (suc x / 2) (y / 2) * 2 + rule (suc x % 2) (y % 2)
  halve x y = omega (arith, enough_fuel (suc x / 2) x (y / 2) (omega arith))

pub zero-bit_or : (y : ℕ) → bit_or 0 y ≡ y
zero-bit_or y = bit_or-bitwise 0 y

-- The lowest digit of each operation, and what is left of it.
pub bit_or_step : (x y : ℕ) → bit_or x y ≡ bit_or (x / 2) (y / 2) * 2 + max (x % 2) (y % 2)
bit_or_step zero y = omega (arith, zero-bit_or (y / 2), zero-bit_or y)
bit_or_step (suc x) y =
    let low = halve (λ z. z) max x y in
    omega (arith, low, bit_or-bitwise (suc x / 2) (y / 2), bit_or-bitwise (suc x) y)

zero-bit_and : (y : ℕ) → bit_and 0 y ≡ 0
zero-bit_and y = bit_and-bitwise 0 y

pub bit_and_step : (x y : ℕ) → bit_and x y ≡ bit_and (x / 2) (y / 2) * 2 + min (x % 2) (y % 2)
bit_and_step zero y = omega (arith, zero-bit_and (y / 2), zero-bit_and y)
bit_and_step (suc x) y =
    let low = halve (λ z. zero) min x y in
    omega (arith, low, bit_and-bitwise (suc x / 2) (y / 2), bit_and-bitwise (suc x) y)

-- No digit of 0 is set, and 0 sets no digit.
pub bit_and-zero : (a : ℕ) → bit_and a 0 ≡ 0
bit_and-zero a = below a a (omega arith)
  where
    below : (k x : ℕ) → x ≤ k → bit_and x 0 ≡ 0
    below k zero small = zero-bit_and 0
    below zero (suc x) small = absurd (omega arith)
    below (suc k) (suc x) small =
        omega (arith, below k (suc x / 2) (omega arith), bit_and_step (suc x) 0)

bit_or-zero : (a : ℕ) → bit_or a 0 ≡ a
bit_or-zero a = below a a (omega arith)
  where
    below : (k x : ℕ) → x ≤ k → bit_or x 0 ≡ x
    below k zero small = zero-bit_or 0
    below zero (suc x) small = absurd (omega arith)
    below (suc k) (suc x) small =
        omega (arith, below k (suc x / 2) (omega arith), bit_or_step (suc x) 0)

-- The tests of single flags, in the form that linear arithmetic reads.
pub bit_and-one : (a : ℕ) → bit_and a 1 ≡ a % 2
bit_and-one a = omega (arith, bit_and_step a 1, bit_and-zero (a / 2))

pub bit_and_two : (a : ℕ) → bit_and a 2 ≡ a / 2 % 2 * 2
bit_and_two a = omega (arith, bit_and_step a 2, bit_and-one (a / 2))

pub bit_and_four : (a : ℕ) → bit_and a 4 ≡ a / 4 % 2 * 4
bit_and_four a = omega (arith, bit_and_step a 4, bit_and_two (a / 2))

bit_or-div : (a b : ℕ) → bit_or a b / 2 ≡ bit_or (a / 2) (b / 2)
bit_or-div a b = omega (arith, bit_or_step a b)

pub bit_or-mod : (a b : ℕ) → bit_or a b % 2 ≡ max (a % 2) (b % 2)
bit_or-mod a b = omega (arith, bit_or_step a b)

pub bit_or-one : (a : ℕ) → bit_or a 1 ≡ a + (1 - a % 2)
bit_or-one a = omega (arith, bit_or_step a 1, bit_or-zero (a / 2))

-- The right operand is absorbed: all its digits are in the disjunction.
absorb_fuel : (n a b : ℕ) → b ≤ n → bit_and (bit_or a b) b ≡ b
absorb_fuel n a zero h = bit_and-zero (bit_or a 0)
absorb_fuel zero a (suc b) h = absurd (omega arith)
absorb_fuel (suc n) a (suc b) h =
    rw (bit_and_step (bit_or a (suc b)) (suc b), bit_or-div a (suc b))
      (omega (arith, absorb_fuel n (a / 2) (suc b / 2) (omega arith), bit_or-mod a (suc b)))

pub bit_and-bit_or : (a b : ℕ) → bit_and (bit_or a b) b ≡ b
bit_and-bit_or a b = absorb_fuel b a b (omega arith)

-- Fields of low digits, beside a multiple of a power of two.
pub bit_or_field :
    (k n p q : ℕ) → p < 2 ^ k → q < 2 ^ k → bit_or (n * 2 ^ k + p) q ≡ n * 2 ^ k + bit_or p q
bit_or_field zero n p q h g =
    let e : p ≡ 0 = omega arith in
    let e' : q ≡ 0 = omega arith in
    rw (e, e') (omega (arith, bit_or-zero (n * 1 + 0), bit_or-zero 0))
bit_or_field (suc k) n p q h g =
    let e : 2 ^ suc k ≡ 2 * 2 ^ k = omega (arith, pow-suc 2 k) in
    let half : (n * (2 * 2 ^ k) + p) / 2 ≡ n * 2 ^ k + p / 2 = omega arith in
    rw
      (
        e,
        bit_or_step (n * (2 * 2 ^ k) + p) q,
        half,
        bit_or_field k n (p / 2) (q / 2) (omega arith) (omega arith),
        bit_or_step p q,
      )
      (omega arith)

-- The low `k` digits, and the digits above them.
bit_and-div : (a b : ℕ) → bit_and a b / 2 ≡ bit_and (a / 2) (b / 2)
bit_and-div a b = omega (arith, bit_and_step a b)

-- Below `2 ^ k` the mask of `k` ones takes a number to itself.
bit_and_ones : (k a : ℕ) → a < 2 ^ k → bit_and a (2 ^ k - 1) ≡ a
bit_and_ones zero a h = omega (arith, bit_and-zero a)
bit_and_ones (suc k) a h =
    let q : 2 ^ suc k ≡ 2 * 2 ^ k = omega (arith, pow-suc 2 k) in
    let half : (2 * 2 ^ k - 1) / 2 ≡ 2 ^ k - 1 = omega arith in
    rw (q, bit_and_step a (2 * 2 ^ k - 1), half, bit_and_ones k (a / 2) (omega arith)) (omega arith)

pub bit_or_page :
    (n p q : ℕ) → p < 4096 → q < 4096 → bit_or (n * 4096 + p) q ≡ n * 4096 + bit_or p q
bit_or_page n p q h g = bit_or_field 12 n p q h g

bit_and-div_pow : (k a b : ℕ) → bit_and a b / 2 ^ k ≡ bit_and (a / 2 ^ k) (b / 2 ^ k)
bit_and-div_pow zero a b = let one : (n : ℕ) → n / 1 ≡ n = λ n. omega arith in simp one
bit_and-div_pow (suc k) a b =
    let q : 2 ^ suc k ≡ 2 * 2 ^ k = omega (arith, pow-suc 2 k) in
    rw
      (
        q,
        ← div-div-eq-div-mul (bit_and a b) 2 (2 ^ k),
        ← div-div-eq-div-mul a 2 (2 ^ k),
        ← div-div-eq-div-mul b 2 (2 ^ k),
        bit_and-div a b,
      )
      (bit_and-div_pow k (a / 2) (b / 2))

-- A word with none of the digits of 0xFFFFF1F8 is a number of twelve digits.
pub lt_of_masked : (a : ℕ) → a < 2 ^ 32 → bit_and a 0xFFFFF1F8 ≡ 0 → a < 4096
lt_of_masked a h e =
    omega (arith, bit_and-div_pow 12 a 0xFFFFF1F8, bit_and_ones 20 (a / 4096) (omega arith))
