-- ===== src/Rtp/Seq/Ring.antt =====
-- Sequence numbers form a ring of 2 ^ 31 places: what the functions of lab2/src/util.c say of it.
use computer_system24fall.Common.{
  ℕ, zero, suc, ◌+◌, ◌-◌, ◌%◌, ◌^◌, ◌≤◌, ◌<◌, ◌≡◌, ◌≢◌, ◌↔◌, ◌⊎◌, inl, inr, lt-cases, true, arith,
}
use computer_system24fall.Common.Bits.{bit_and_mask}
use computer_system24fall.Common.Int.{ℤ, pos, negsuc, neg}
use computer_system24fall.Rtp.Seq.{seqnum_add, sqn_dis, seqnum_is_in}

abbrev pub IsSeqnum : ℕ → Type 0
IsSeqnum s = s < 2 ^ 31

-- Adding goes forward on the ring.
pub seqnum_add-pos : (s n : ℕ) → seqnum_add s (pos n) ≡ (s + n) % 2 ^ 31
unfolding seqnum_add
seqnum_add-pos s n = omega (arith, bit_and_mask 31 ((s + n % 2 ^ 32) % 2 ^ 32))

pub seqnum_add-negsuc : (s n : ℕ) → seqnum_add s (negsuc n) ≡ (s + 2 ^ 32 - 1 - n % 2 ^ 32) % 2 ^ 31
unfolding seqnum_add
seqnum_add-negsuc s n = omega (arith, bit_and_mask 31 ((s + (2 ^ 32 - 1 - n % 2 ^ 32)) % 2 ^ 32))

pub sqn_dis_lem : (l r : ℕ) → IsSeqnum l → IsSeqnum r → sqn_dis l r ≡ (r + 2 ^ 31 - l) % 2 ^ 31
unfolding sqn_dis
sqn_dis_lem l r hl hr = omega (arith, bit_and_mask 31 ((r + 2 ^ 32 - l) % 2 ^ 32))

pub seqnum_add-IsSeqnum : (s : ℕ) (a : ℤ) → IsSeqnum (seqnum_add s a)
seqnum_add-IsSeqnum s (pos n) = omega (arith, seqnum_add-pos s n)
seqnum_add-IsSeqnum s (negsuc n) = omega (arith, seqnum_add-negsuc s n)

-- Two advances are one.
pub seqnum_add_assoc :
    (s m n : ℕ) → seqnum_add (seqnum_add s (pos m)) (pos n) ≡ seqnum_add s (pos (m + n))
seqnum_add_assoc s m n =
    omega
      (arith, seqnum_add-pos s m, seqnum_add-pos (seqnum_add s (pos m)) n, seqnum_add-pos s (m + n))

-- Below the wrap the ring is the natural numbers.
pub seqnum_add_below : (s n m : ℕ) → s + n ≡ m → IsSeqnum m → seqnum_add s (pos n) ≡ m
seqnum_add_below s n m e h = omega (arith, seqnum_add-pos s n)

pub sqn_dis_below : (l n m : ℕ) → l + n ≡ m → IsSeqnum m → sqn_dis l m ≡ n
sqn_dis_below l n m e h = omega (arith, sqn_dis_lem l m)

-- Going back by `n` undoes going forward by `n`, for numbers on the ring.
pub seqnum_add_back :
    (s n : ℕ) → IsSeqnum s → IsSeqnum n → seqnum_add (seqnum_add s (pos n)) (neg n) ≡ s
seqnum_add_back s zero hs hn =
    omega (arith, seqnum_add-pos s 0, seqnum_add-pos (seqnum_add s (pos 0)) 0)
seqnum_add_back s (suc n) hs hn =
    omega (arith, seqnum_add-pos s (suc n), seqnum_add-negsuc (seqnum_add s (pos (suc n))) n)

-- The distance to the place `n` steps on is `n`, across the wrap too, for numbers on the ring.
pub sqn_dis-seqnum_add : (l n : ℕ) → IsSeqnum l → IsSeqnum n → sqn_dis l (seqnum_add l (pos n)) ≡ n
sqn_dis-seqnum_add l n hl hn = omega (
  arith,
  seqnum_add-pos l n,
  sqn_dis_lem l (seqnum_add l (pos n)) hl (seqnum_add-IsSeqnum l (pos n)),
)

-- Going the distance from `l` to `r` leads from `l` to `r`, for numbers on the ring.
pub seqnum_add-sqn_dis : (l r : ℕ) → IsSeqnum l → IsSeqnum r → seqnum_add l (pos (sqn_dis l r)) ≡ r
seqnum_add-sqn_dis l r hl hr = omega (arith, seqnum_add-pos l (sqn_dis l r), sqn_dis_lem l r hl hr)

-- For numbers on the ring and distinct ends the test is membership of the half-open arc from `l` to `r`.
pub seqnum_is_in_iff :
    (s l r : ℕ)
    → IsSeqnum s
    → IsSeqnum l
    → IsSeqnum r
    → l ≢ r
    → (seqnum_is_in s l r ≡ true) ↔ (sqn_dis l s < sqn_dis l r)
unfolding seqnum_is_in
seqnum_is_in_iff s l r hs hl hr ne = ground (arith, sqn_dis_lem l s, sqn_dis_lem l r)

-- For equal ends every number passes.
pub seqnum_is_in_same : (s l : ℕ) → seqnum_is_in s l l ≡ true
unfolding seqnum_is_in
seqnum_is_in_same s l = ground arith

-- Below the wrap the test is membership of an interval.
pub seqnum_is_in_below : (s l r : ℕ) → l < r → seqnum_is_in s l r ≡ true → (l ≤ s) × (s < r)
unfolding seqnum_is_in
seqnum_is_in_below s l r h t = ground arith

-- A number that passes lies below the right end, if the ends are in order or it is below the left.
pub seqnum_is_in_upper : (s l r : ℕ) → seqnum_is_in s l r ≡ true → (l < r) ⊎ (s < l) → s < r
unfolding seqnum_is_in
seqnum_is_in_upper s l r t h = ground arith

-- Going back by `n` below the wrap, and across it.
pub seqnum_add_back_below :
    (s n : ℕ)
    → IsSeqnum s
    → IsSeqnum n
    → ((n ≤ s) × (seqnum_add s (neg n) ≡ s - n))
      ⊎ ((s < n) × (seqnum_add s (neg n) ≡ 2 ^ 31 + s - n))
seqnum_add_back_below s zero hs hn = inl (omega arith, omega (arith, seqnum_add-pos s 0))
seqnum_add_back_below s (suc n) hs hn = elim (lt-cases s (suc n)) [
  | inl below ↦ inr (below, omega (arith, seqnum_add-negsuc s n))
  | inr above ↦ inl (above, omega (arith, seqnum_add-negsuc s n))
]
