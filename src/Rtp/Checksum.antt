-- ===== src/Rtp/Checksum.antt =====
-- lab2/src/util.c: crc32_for_byte, crc32, compute_checksum. Bytes are numbers below 256.
pub mod Table
pub mod Detect
use computer_system24fall.Common.{
  ℕ, zero, suc, ◌+◌, ◌/◌, ◌%◌, ◌^◌, List, [], ◌∷◌, bit_xor, ◌==◌, if◌then◌else◌, get_or, take,
  replicate,
}

-- One round of `crc32_for_byte`: `r & 1` is `r % 2`.
pub crc_round : ℕ → ℕ
crc_round r = bit_xor (if r % 2 == 0 then 0xEDB88320 else 0) (r / 2)

pub crc_rounds : ℕ → ℕ → ℕ
crc_rounds zero r = r
crc_rounds (suc j) r = crc_rounds j (crc_round r)

pub crc32_for_byte : ℕ → ℕ
unfolding crc_round crc_rounds
crc32_for_byte r = bit_xor (crc_rounds 8 r) 0xFF000000

-- `for (i = …; i < 0x100; ++i) table[i] = crc32_for_byte(i)`, with the rounds that are left.
pub fill_from : ℕ → ℕ → List ℕ
fill_from i zero = []
fill_from i (suc left) = crc32_for_byte i ∷ fill_from (i + 1) left

-- The static table: zeros at program start, and filled by the first call, which finds `!*table`.
pub load_table : List ℕ → List ℕ
unfolding fill_from crc32_for_byte
load_table table = if get_or table 0 0 == 0 then fill_from 0 0x100 else table

pub crc_step : List ℕ → ℕ → ℕ → ℕ
crc_step table crc b = bit_xor (get_or table (bit_xor (crc % 2 ^ 8) b) 0) (crc / 2 ^ 8)

pub crc_loop : List ℕ → List ℕ → ℕ → ℕ
crc_loop table [] crc = crc
crc_loop table (b ∷ bytes) crc = crc_loop table bytes (crc_step table crc b)

pub crc32 : List ℕ → ℕ → ℕ → ℕ
unfolding load_table crc_step crc_loop
crc32 bytes n_bytes crc = crc_loop (load_table (replicate 0x100 0)) (take n_bytes bytes) crc

unfoldable pub compute_checksum : List ℕ → ℕ → ℕ
unfolding crc32
compute_checksum pkt n_bytes = crc32 pkt n_bytes 0
