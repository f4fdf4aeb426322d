-- ===== src/Common/Bits.antt =====
-- Laws of `&` with a low mask and of `^`, at every width, from the equation of the lowest digit.
use Prim.Native.Nat.{
  ℕ, zero, suc, ◌+◌, ◌-◌, ◌*◌, ◌/◌, ◌%◌, ◌^◌, ◌≤◌, ◌<◌, min, digits, bitwise, differ, bit_and,
  bit_xor, bit_and-bitwise, bit_xor-bitwise,
}
use mathlib.Core.Path.{◌≡◌, refl, ap, sym, ◌∙◌}
use mathlib.Core.Logic.{inl, inr}
use native.Mathlib.Nat.{pow-suc, one-le-pow, mul_comm, div-div-eq-div-mul, div-one}
use native.Mathlib.Omega.{arith}
use computer_system24fall.Common.Tests.{le-cases}

-- `bitwise` gives the recursion on digits as much fuel as its first argument; more changes nothing.
module _ (z : ℕ → ℕ) (op : ℕ → ℕ → ℕ) where
  one_more : (fuel x y : ℕ) → x ≤ fuel → digits z op (suc fuel) x y ≡ digits z op fuel x y
  one_more zero zero y h = refl
  one_more zero (suc x) y h = absurd (omega arith)
  one_more (suc fuel) zero y h = refl
  one_more (suc fuel) (suc x) y h = rw (one_more fuel (suc x / 2) (y / 2) (omega arith))

  any_fuel : (fuel x y : ℕ) → x ≤ fuel → digits z op fuel x y ≡ bitwise z op x y
  any_fuel zero zero y h = refl
  any_fuel zero (suc x) y h = absurd (omega arith)
  any_fuel (suc fuel) x y h = elim (le-cases x (suc fuel) h) [
    | inl whole ↦ ap (λ (t : ℕ). digits z op t x y) (sym whole)
    | inr less ↦ one_more fuel x y (omega arith) ∙ any_fuel fuel x y (omega arith)
  ]

  low_digit :
      (x y : ℕ)
      → bitwise z op (suc x) y ≡ op (suc x % 2) (y % 2) + 2 * bitwise z op (suc x / 2) (y / 2)
  low_digit x y = omega (arith, any_fuel x (suc x / 2) (y / 2) (omega arith))

bit_and_step : (x y : ℕ) → bit_and x y ≡ min (x % 2) (y % 2) + 2 * bit_and (x / 2) (y / 2)
bit_and_step zero y = simp bit_and-bitwise (omega arith)
bit_and_step (suc x) y = simp bit_and-bitwise (omega (arith, low_digit (λ t. 0) min x y))

differ_lem : (a b : ℕ) → a < 2 → b < 2 → differ a b ≡ (a + b) % 2
differ_lem zero b p q = omega arith
differ_lem (suc a) zero p q = omega arith
differ_lem (suc zero) (suc zero) p q = refl
differ_lem (suc zero) (suc (suc b)) p q = absurd (omega arith)
differ_lem (suc (suc a)) (suc b) p q = absurd (omega arith)

-- The lowest digit of `^` is the sum of the two, without the carry.
pub bit_xor_step : (a b : ℕ) → bit_xor a b ≡ bit_xor (a / 2) (b / 2) * 2 + (a + b) % 2
bit_xor_step zero b = simp bit_xor-bitwise (omega arith)
bit_xor_step (suc a) b = simp bit_xor-bitwise (
    omega (
      arith,
      low_digit (λ t. t) differ a b,
      differ_lem (suc a % 2) (b % 2) (omega arith) (omega arith),
    ))

zero_fuel : (fuel x : ℕ) → x ≤ fuel → bit_and x 0 ≡ 0
zero_fuel zero zero h = refl
zero_fuel zero (suc x) h = absurd (omega arith)
zero_fuel (suc fuel) x h = omega (arith, bit_and_step x 0, zero_fuel fuel (x / 2) (omega arith))

-- Splitting a number at bit `k`, and halving the upper part's weight.
halved_weight : (k q : ℕ) → 2 * (2 ^ k * q) ≡ 2 ^ suc k * q
halved_weight k q = omega (arith, ap (λ (t : ℕ). t * q) (pow-suc 2 k))

low_bits : (k r q : ℕ) → r < 2 ^ k → bit_and (r + 2 ^ k * q) (2 ^ k - 1) ≡ r
low_bits zero r q h = omega (arith, zero_fuel (r + 2 ^ 0 * q) (r + 2 ^ 0 * q) (omega arith))
low_bits (suc k) r q h =
    let half = low_bits k (r / 2) q in
    ground (
      arith,
      bit_and_step (r + 2 ^ suc k * q) (2 ^ suc k - 1),
      half,
      pow-suc 2 k,
      halved_weight k q,
    )

-- What `&` with `k` low bits leaves is the remainder.
pub bit_and_mask : (k a : ℕ) → bit_and a (2 ^ k - 1) ≡ a % 2 ^ k
bit_and_mask k a =
    let parts = low_bits k (a % 2 ^ k) (a / 2 ^ k) in ground (arith, parts, one-le-pow k 2)

bit_xor-half : (a b : ℕ) → bit_xor a b / 2 ≡ bit_xor (a / 2) (b / 2)
bit_xor-half a b = omega (arith, bit_xor_step a b)

undo_fuel : (n a b : ℕ) → a ≤ n → b ≤ n → bit_xor (bit_xor a b) b ≡ a
undo_fuel zero zero zero p q = refl
undo_fuel zero zero (suc b) p q = absurd (omega arith)
undo_fuel zero (suc a) b p q = absurd (omega arith)
undo_fuel (suc n) a b p q =
    rw (bit_xor_step (bit_xor a b) b, bit_xor-half a b)
      (omega (arith, bit_xor_step a b, undo_fuel n (a / 2) (b / 2) (omega arith) (omega arith)))

-- `^` with a fixed number is its own inverse.
pub bit_xor_undo : (a b : ℕ) → bit_xor (bit_xor a b) b ≡ a
bit_xor_undo a b = undo_fuel (a + b) a b (omega arith) (omega arith)

comm_fuel : (n a b : ℕ) → a ≤ n → b ≤ n → bit_xor a b ≡ bit_xor b a
comm_fuel zero zero zero p q = refl
comm_fuel zero zero (suc b) p q = absurd (omega arith)
comm_fuel zero (suc a) b p q = absurd (omega arith)
comm_fuel (suc n) a b p q = omega (
  arith,
  bit_xor_step a b,
  bit_xor_step b a,
  comm_fuel n (a / 2) (b / 2) (omega arith) (omega arith),
)

pub bit_xor_comm : (a b : ℕ) → bit_xor a b ≡ bit_xor b a
bit_xor_comm a b = comm_fuel (a + b) a b (omega arith) (omega arith)

pub bit_xor_cancel_right : (a b c : ℕ) → bit_xor a c ≡ bit_xor b c → a ≡ b
bit_xor_cancel_right a b c h =
    sym (bit_xor_undo a c) ∙ ap (λ (t : ℕ). bit_xor t c) h ∙ bit_xor_undo b c

pub bit_xor_cancel_left : (a b c : ℕ) → bit_xor c a ≡ bit_xor c b → a ≡ b
bit_xor_cancel_left a b c h = bit_xor_cancel_right a b c (bit_xor_comm a c ∙ h ∙ bit_xor_comm c b)

pub zero-bit_xor : (b : ℕ) → bit_xor 0 b ≡ b
zero-bit_xor b = bit_xor-bitwise 0 b

pub bit_xor-zero : (a : ℕ) → bit_xor a 0 ≡ a
bit_xor-zero a = bit_xor_comm a 0 ∙ zero-bit_xor a

-- `^` stays within the width of its arguments.
pub bit_xor-lt : (k a b : ℕ) → a < 2 ^ k → b < 2 ^ k → bit_xor a b < 2 ^ k
bit_xor-lt zero zero zero p q = omega (arith, zero-bit_xor 0)
bit_xor-lt zero zero (suc b) p q = absurd (omega arith)
bit_xor-lt zero (suc a) b p q = absurd (omega arith)
bit_xor-lt (suc k) a b p q =
    ground (arith, bit_xor_step a b, pow-suc 2 k, bit_xor-lt k (a / 2) (b / 2))

div-pow-suc : (a k : ℕ) → a / 2 ^ suc k ≡ a / 2 / 2 ^ k
div-pow-suc a k = rw (pow-suc 2 k, mul_comm (2 ^ k) 2) (sym (div-div-eq-div-mul a 2 (2 ^ k)))

-- A right shift goes through `^`.
pub bit_xor-div : (k a b : ℕ) → bit_xor a b / 2 ^ k ≡ bit_xor (a / 2 ^ k) (b / 2 ^ k)
bit_xor-div zero a b = rw (div-one (bit_xor a b), div-one a, div-one b)
bit_xor-div (suc k) a b =
    rw (div-pow-suc (bit_xor a b) k, div-pow-suc a k, div-pow-suc b k, bit_xor-half a b)
      (bit_xor-div k (a / 2) (b / 2))
