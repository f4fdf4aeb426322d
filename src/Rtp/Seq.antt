-- ===== src/Rtp/Seq.antt =====
-- lab2/src/util.c: sequence numbers. A `uint32_t` is a number below 2 ^ 32 and an `int` argument
-- an integer; the arithmetic is modulo 2 ^ 32 and is then masked to 31 bits.
pub mod Ring
use computer_system24fall.Common.{
  ℕ, ◌+◌, ◌-◌, ◌%◌, ◌^◌, Bool, ◌&&◌, ◌||◌, bit_and, ltb, leb, if◌then◌else◌,
}
use computer_system24fall.Common.Int.{ℤ, to_u32}

-- INT32_MAX.
unfoldable pub get_random_seqnum : ℕ
get_random_seqnum = 2 ^ 31 - 1

unfoldable pub seqnum_add : ℕ → ℤ → ℕ
seqnum_add seqnum addnum = bit_and ((seqnum + to_u32 addnum) % 2 ^ 32) 0x7fffffff

unfoldable pub sqn_dis : ℕ → ℕ → ℕ
sqn_dis l r = bit_and ((r + 2 ^ 32 - l) % 2 ^ 32) 0x7fffffff

unfoldable pub seqnum_is_in : ℕ → ℕ → ℕ → Bool
seqnum_is_in seqnum l r =
    if ltb l r then leb l seqnum && ltb seqnum r else leb l seqnum || ltb seqnum r
