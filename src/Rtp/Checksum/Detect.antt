-- ===== src/Rtp/Checksum/Detect.antt =====
-- What the checksum of lab2/src/util.c detects: every step of the loop loses nothing.
use computer_system24fall.Common.{
  ℕ, suc, ◌+◌, ◌/◌, ◌%◌, ◌^◌, ◌<◌, ◌≡◌, ◌≢◌, refl, sym, ap, ◌∙◌, List, [], ◌∷◌, ◌++◌, arith,
  bit_xor, get_or, take, length, All, take-all, take-append_left, ◌≤◌, length-append, set, drop,
  All-take, All-drop, All-get_or, length-take, length-drop, split_at, split_at-set,
}
use computer_system24fall.Common.Bits.{
  bit_xor-lt, bit_xor-div, bit_xor-zero, bit_xor_cancel_left, bit_xor_cancel_right,
}
use computer_system24fall.Rtp.Checksum.{crc32_for_byte, crc_step, crc_loop, compute_checksum}
use computer_system24fall.Rtp.Checksum.Table.{
  crc_table, get_or-crc_table, upper_injective, crc32_for_byte-lt,
}

abbrev pub IsByte : ℕ → Type 0
IsByte b = b < 256

abbrev pub IsBytes : List ℕ → Type 0
IsBytes bs = All IsByte bs

-- The table index that the loop reads.
abbrev index : ℕ → ℕ → ℕ
index crc b = bit_xor (crc % 2 ^ 8) b

index-lt : (crc b : ℕ) → IsByte b → index crc b < 256
index-lt crc b h = bit_xor-lt 8 (crc % 2 ^ 8) b (omega arith) h

crc_step-entry :
    (crc b : ℕ)
    → IsByte b
    → crc_step crc_table crc b ≡ bit_xor (crc32_for_byte (index crc b)) (crc / 2 ^ 8)
unfolding crc_step
crc_step-entry crc b h =
    ap (λ (t : ℕ). bit_xor t (crc / 2 ^ 8)) (get_or-crc_table (index crc b) (index-lt crc b h))

pub crc_step-lt : (crc b : ℕ) → crc < 2 ^ 32 → IsByte b → crc_step crc_table crc b < 2 ^ 32
crc_step-lt crc b hc hb = rw (crc_step-entry crc b hb) (
    bit_xor-lt 32 _ (crc / 2 ^ 8)
      (crc32_for_byte-lt (index crc b) (omega (arith, index-lt crc b hb))) (omega arith))

-- The upper byte after a step is that of the entry that was read.
upper-crc_step :
    (crc b : ℕ)
    → crc < 2 ^ 32
    → IsByte b
    → crc_step crc_table crc b / 2 ^ 24 ≡ crc32_for_byte (index crc b) / 2 ^ 24
upper-crc_step crc b hc hb =
    ap (λ (t : ℕ). t / 2 ^ 24) (crc_step-entry crc b hb)
    ∙ bit_xor-div 24 (crc32_for_byte (index crc b)) (crc / 2 ^ 8)
    ∙ ap (bit_xor (crc32_for_byte (index crc b) / 2 ^ 24)) (omega arith)
    ∙ bit_xor-zero (crc32_for_byte (index crc b) / 2 ^ 24)

index_of_crc_step :
    (c d a b : ℕ)
    → c < 2 ^ 32
    → d < 2 ^ 32
    → IsByte a
    → IsByte b
    → crc_step crc_table c a ≡ crc_step crc_table d b
    → index c a ≡ index d b
index_of_crc_step c d a b hc hd ha hb e =
    upper_injective (index c a) (index d b) (index-lt c a ha) (index-lt d b hb)
      (sym (upper-crc_step c a hc ha) ∙ ap (λ (t : ℕ). t / 2 ^ 24) e ∙ upper-crc_step d b hd hb)

-- From one state, two bytes lead to two states.
crc_step_byte :
    (c a b : ℕ)
    → c < 2 ^ 32
    → IsByte a
    → IsByte b
    → crc_step crc_table c a ≡ crc_step crc_table c b
    → a ≡ b
crc_step_byte c a b hc ha hb e =
    bit_xor_cancel_left a b (c % 2 ^ 8) (index_of_crc_step c c a b hc hc ha hb e)

-- From two states, one byte leads to two states.
crc_step_state :
    (c d b : ℕ)
    → c < 2 ^ 32
    → d < 2 ^ 32
    → IsByte b
    → crc_step crc_table c b ≡ crc_step crc_table d b
    → c ≡ d
crc_step_state c d b hc hd hb e = omega (arith, low, high)
  where
    same_index : index c b ≡ index d b
    same_index = index_of_crc_step c d b b hc hd hb hb e

    low : c % 2 ^ 8 ≡ d % 2 ^ 8
    low = bit_xor_cancel_right (c % 2 ^ 8) (d % 2 ^ 8) b same_index

    high : c / 2 ^ 8 ≡ d / 2 ^ 8
    high = bit_xor_cancel_left (c / 2 ^ 8) (d / 2 ^ 8) (crc32_for_byte (index c b)) (
        sym (crc_step-entry c b hb)
        ∙ e
        ∙ crc_step-entry d b hb
        ∙ ap (λ (t : ℕ). bit_xor (crc32_for_byte t) (d / 2 ^ 8)) (sym same_index))

pub crc_loop-lt :
    (bs : List ℕ) (crc : ℕ) → IsBytes bs → crc < 2 ^ 32 → crc_loop crc_table bs crc < 2 ^ 32
unfolding crc_loop
crc_loop-lt [] crc h hc = hc
crc_loop-lt (b ∷ bs) crc h hc = crc_loop-lt bs _ h.1 (crc_step-lt crc b hc h.0)

crc_loop_state :
    (bs : List ℕ) (c d : ℕ)
    → IsBytes bs
    → c < 2 ^ 32
    → d < 2 ^ 32
    → crc_loop crc_table bs c ≡ crc_loop crc_table bs d
    → c ≡ d
unfolding crc_loop
crc_loop_state [] c d h hc hd e = e
crc_loop_state (b ∷ bs) c d h hc hd e =
    crc_step_state c d b hc hd h.0
      (crc_loop_state bs _ _ h.1 (crc_step-lt c b hc h.0) (crc_step-lt d b hd h.0) e)

-- One byte changed among any bytes around it.
crc_loop_detects :
    (before after : List ℕ) (a b crc : ℕ)
    → IsBytes before
    → IsBytes after
    → IsByte a
    → IsByte b
    → crc < 2 ^ 32
    → crc_loop crc_table (before ++ a ∷ after) crc ≡ crc_loop crc_table (before ++ b ∷ after) crc
    → a ≡ b
unfolding crc_loop
crc_loop_detects [] after a b crc hb ha pa pb hc e =
    crc_step_byte crc a b hc pa pb
      (crc_loop_state after _ _ ha (crc_step-lt crc a hc pa) (crc_step-lt crc b hc pb) e)
crc_loop_detects (x ∷ before) after a b crc hb ha pa pb hc e =
    crc_loop_detects before after a b _ hb.1 ha pa pb (crc_step-lt crc x hc hb.0) e

pub compute_checksum-crc_loop :
    (bs : List ℕ) (n : ℕ) → compute_checksum bs n ≡ crc_loop crc_table (take n bs) 0
unfolding compute_checksum crc_table
compute_checksum-crc_loop bs n = refl

-- The checksum is a `uint32_t`.
pub compute_checksum-lt :
    (bs : List ℕ) (n : ℕ) → IsBytes (take n bs) → compute_checksum bs n < 2 ^ 32
compute_checksum-lt bs n h =
    rw (compute_checksum-crc_loop bs n) (crc_loop-lt (take n bs) 0 h (omega arith))

compute_checksum_detects :
    (before after : List ℕ) (a b n : ℕ)
    → IsBytes before
    → IsBytes after
    → IsByte a
    → IsByte b
    → length before + 1 + length after ≡ n
    → a ≢ b
    → compute_checksum (before ++ a ∷ after) n ≢ compute_checksum (before ++ b ∷ after) n
compute_checksum_detects before after a b n hb ha pa pb l ne e =
    ne (crc_loop_detects before after a b 0 hb ha pa pb (omega arith) (sym (whole a) ∙ e ∙ whole b))
  where
    whole :
        (x : ℕ)
        → compute_checksum (before ++ x ∷ after) n ≡ crc_loop crc_table (before ++ x ∷ after) 0
    whole x =
        compute_checksum-crc_loop (before ++ x ∷ after) n
        ∙ ap (λ (t : List ℕ). crc_loop crc_table t 0)
            (take-all n (before ++ x ∷ after) (omega (arith, length-append before (x ∷ after))))

-- Writing another byte at any one place of the input changes the checksum.
pub compute_checksum-set :
    (bytes : List ℕ) (i b : ℕ)
    → IsBytes bytes
    → i < length bytes
    → IsByte b
    → b ≢ get_or bytes i 0
    → compute_checksum (set bytes i b) (length bytes) ≢ compute_checksum bytes (length bytes)
compute_checksum-set bytes i b h l hb ne e =
    compute_checksum_detects (take i bytes) (drop (suc i) bytes) b (get_or bytes i 0) (length bytes)
      (All-take IsByte i bytes h) (All-drop IsByte (suc i) bytes h) hb
      (All-get_or IsByte bytes i 0 h l)
      (omega (arith, length-take i bytes, length-drop (suc i) bytes)) ne
      (sym (ap (λ (t : List ℕ). compute_checksum t (length bytes)) (split_at-set bytes i b l))
        ∙ e
        ∙ ap (λ (t : List ℕ). compute_checksum t (length bytes)) (split_at bytes i 0 l))

-- Bytes behind the first `n` do not count.
pub compute_checksum-prefix :
    (bytes rest : List ℕ) (n : ℕ)
    → n ≤ length bytes
    → compute_checksum (bytes ++ rest) n ≡ compute_checksum bytes n
compute_checksum-prefix bytes rest n h =
    compute_checksum-crc_loop (bytes ++ rest) n
    ∙ ap (λ (t : List ℕ). crc_loop crc_table t 0) (take-append_left n bytes rest h)
    ∙ sym (compute_checksum-crc_loop bytes n)
