-- ===== src/Rtp/Checksum/Table.antt =====
-- The table of lab2/src/util.c: its entries, and that their upper bytes differ.
use computer_system24fall.Common.{
  ℕ, zero, suc, ◌+◌, ◌/◌, ◌^◌, ◌<◌, ◌≡◌, ◌≢◌, refl, sym, ap, ◌∙◌, ◌⊎◌, inl, inr, Bool, true, not,
  ◌&&◌, List, [], ◌∷◌, arith, ◌==◌, get_or, length, replicate,
}
use computer_system24fall.Common.Bits.{bit_xor-lt}
use computer_system24fall.Rtp.Checksum.{
  crc32_for_byte, fill_from, load_table, crc_rounds, crc_round,
}

-- The table after the first call.
unfoldable pub crc_table : List ℕ
unfolding load_table
crc_table = load_table (replicate 0x100 0)

crc_table-fill : crc_table ≡ fill_from 0 0x100
unfolding crc_table
crc_table-fill = refl

-- A later call finds the table filled and keeps it.
pub load_table_again : load_table (load_table (replicate 0x100 0)) ≡ load_table (replicate 0x100 0)
unfolding load_table
load_table_again = refl

get_or-fill_from :
    (left i j : ℕ) → j < left → get_or (fill_from i left) j 0 ≡ crc32_for_byte (i + j)
unfolding fill_from
get_or-fill_from zero i j h = absurd (omega arith)
get_or-fill_from (suc left) i zero h = ap crc32_for_byte (omega arith)
get_or-fill_from (suc left) i (suc j) h =
    get_or-fill_from left (i + 1) j (omega arith) ∙ ap crc32_for_byte (omega arith)

pub get_or-crc_table : (i : ℕ) → i < 256 → get_or crc_table i 0 ≡ crc32_for_byte i
get_or-crc_table i h =
    ap (λ (t : List ℕ). get_or t i 0) crc_table-fill
    ∙ get_or-fill_from 0x100 0 i h
    ∙ ap crc32_for_byte (omega arith)

uppers : ℕ → ℕ → List ℕ
uppers i zero = []
uppers i (suc left) = crc32_for_byte i / 2 ^ 24 ∷ uppers (i + 1) left

fresh : ℕ → List ℕ → Bool
fresh x [] = true
fresh x (y ∷ ys) = not (x == y) && fresh x ys

distinct : List ℕ → Bool
distinct [] = true
distinct (x ∷ xs) = fresh x xs && distinct xs

uppers-distinct : distinct (uppers 0 256) ≡ true
unfolding distinct fresh uppers crc32_for_byte
uppers-distinct = refl

fresh-ne : (x : ℕ) (ys : List ℕ) (j : ℕ) → fresh x ys ≡ true → j < length ys → get_or ys j 0 ≢ x
unfolding fresh
fresh-ne x [] j f h = absurd (omega arith)
fresh-ne x (y ∷ ys) zero f h = ground arith
fresh-ne x (y ∷ ys) (suc j) f h = fresh-ne x ys j (ground arith) (omega arith)

distinct-ne :
    (xs : List ℕ) (i j : ℕ)
    → distinct xs ≡ true
    → i < j
    → j < length xs
    → get_or xs j 0 ≢ get_or xs i 0
unfolding distinct
distinct-ne [] i j d l h = absurd (omega arith)
distinct-ne (x ∷ xs) i zero d l h = absurd (omega arith)
distinct-ne (x ∷ xs) zero (suc j) d l h = fresh-ne x xs j (ground arith) (omega arith)
distinct-ne (x ∷ xs) (suc i) (suc j) d l h =
    distinct-ne xs i j (ground arith) (omega arith) (omega arith)

length-uppers : (left i : ℕ) → length (uppers i left) ≡ left
unfolding uppers
length-uppers zero i = refl
length-uppers (suc left) i = ap suc (length-uppers left (i + 1))

get_or-uppers :
    (left i j : ℕ) → j < left → get_or (uppers i left) j 0 ≡ crc32_for_byte (i + j) / 2 ^ 24
unfolding uppers
get_or-uppers zero i j h = absurd (omega arith)
get_or-uppers (suc left) i zero h = ap (λ (n : ℕ). crc32_for_byte n / 2 ^ 24) (omega arith)
get_or-uppers (suc left) i (suc j) h =
    get_or-uppers left (i + 1) j (omega arith)
    ∙ ap (λ (n : ℕ). crc32_for_byte n / 2 ^ 24) (omega arith)

upper_at : (i : ℕ) → i < 256 → get_or (uppers 0 256) i 0 ≡ crc32_for_byte i / 2 ^ 24
upper_at i h = get_or-uppers 256 0 i h ∙ ap (λ (n : ℕ). crc32_for_byte n / 2 ^ 24) (omega arith)

upper_ne : (i j : ℕ) → i < j → j < 256 → crc32_for_byte j / 2 ^ 24 ≢ crc32_for_byte i / 2 ^ 24
upper_ne i j l h e =
    distinct-ne (uppers 0 256) i j uppers-distinct l (omega (arith, length-uppers 256 0))
      (upper_at j h ∙ e ∙ sym (upper_at i (omega arith)))

ℕ-cases : (i j : ℕ) → (i ≡ j) ⊎ (i < j) ⊎ (j < i)
ℕ-cases i j = grind arith

-- The upper byte of a table entry tells its index.
pub upper_injective :
    (i j : ℕ) → i < 256 → j < 256 → crc32_for_byte i / 2 ^ 24 ≡ crc32_for_byte j / 2 ^ 24 → i ≡ j
upper_injective i j hi hj e = elim (ℕ-cases i j) [
  | inl same ↦ same
  | inr (inl l) ↦ absurd (upper_ne i j l hj (sym e))
  | inr (inr l) ↦ absurd (upper_ne j i l hi e)
]

crc_round-lt : (r : ℕ) → r < 2 ^ 32 → crc_round r < 2 ^ 32
unfolding crc_round
crc_round-lt r h = bit_xor-lt 32 _ (r / 2) (ground arith) (omega arith)

crc_rounds-lt : (j r : ℕ) → r < 2 ^ 32 → crc_rounds j r < 2 ^ 32
unfolding crc_rounds
crc_rounds-lt zero r h = h
crc_rounds-lt (suc j) r h = crc_rounds-lt j (crc_round r) (crc_round-lt r h)

-- An entry is a `uint32_t`.
pub crc32_for_byte-lt : (r : ℕ) → r < 2 ^ 32 → crc32_for_byte r < 2 ^ 32
unfolding crc32_for_byte
crc32_for_byte-lt r h =
    bit_xor-lt 32 (crc_rounds 8 r) 0xFF000000 (crc_rounds-lt 8 r h) (omega arith)
