-- ===== src/Rtp/Files.antt =====
-- read_file and write_file of lab2/src/util.c.
use computer_system24fall.Common.{
  ℕ, ◌≤◌, subst, ◌≡◌, ap, Bool, true, ◌&&◌, List, Option, none, some, arith, if◌then◌else◌,
  if-cases, length, length-take, take, take-take, take-all,
}
use mathlib.Core.Option

-- A file to read, of less than 2 GB: whether fopen succeeds, its bytes, how many of them fread gives
-- at most, and whether fclose succeeds.
pub record Source : Type 0 where
  pub opens : Bool
  pub content : List ℕ
  pub gives : ℕ
  pub closes : Bool

-- `none` leaves by exit(1). The result of fread is a `size_t` in an `int`, which is not negative
-- here, so that no failure of fread is noticed.
unfoldable pub read_file : Source → ℕ → Option (List ℕ)
read_file f size = if f.opens && f.closes then some (take f.gives (take size f.content)) else none

-- A file to write: whether fopen succeeds, how many bytes fwrite takes at most, and whether fclose
-- succeeds.
pub record Sink : Type 0 where
  pub opens : Bool
  pub takes : ℕ
  pub closes : Bool

-- What the file holds. The result of fwrite is a `size_t` and never negative, so that no failure of
-- fwrite is noticed; `none` leaves by exit(1).
unfoldable pub write_file : Sink → List ℕ → Option (List ℕ)
write_file f bytes = if f.opens && f.closes then some (take f.takes bytes) else none

-- A file that read_file reads is a beginning of the file, and fits the buffer.
pub read_file-beginning :
    (f : Source) (size : ℕ) (buf : List ℕ)
    → read_file f size ≡ some buf
    → (buf ≡ take (length buf) f.content) × (length buf ≤ size)
unfolding read_file
read_file-beginning f size buf =
    if-cases (λ o. o ≡ some buf → (buf ≡ take (length buf) f.content) × (length buf ≤ size))
      (f.opens && f.closes) (some (take f.gives (take size f.content))) none
      (λ _ e. read (Option.some-injective _ _ e)) (λ _ e. absurd (Option.none-ne-some buf e))
  where
    read :
        take f.gives (take size f.content) ≡ buf
        → (buf ≡ take (length buf) f.content) × (length buf ≤ size)
    read e =
        subst (λ b. (b ≡ take (length b) f.content) × (length b ≤ size)) e
          (
            take-take f.gives size f.content,
            omega (arith, length-take f.gives (take size f.content), length-take size f.content),
          )

-- A file that fopen opens, fread gives in full and fclose closes.
pub read_file-whole :
    (f : Source) (size : ℕ)
    → f.opens ≡ true
    → f.closes ≡ true
    → length f.content ≤ f.gives
    → read_file f size ≡ some (take size f.content)
unfolding read_file
read_file-whole f size on off all =
    rw (on, off)
      (ap some
        (take-all f.gives (take size f.content) (omega (arith, all, length-take size f.content))))

pub write_file-some :
    (f : Sink) (bytes file : List ℕ) → write_file f bytes ≡ some file → take f.takes bytes ≡ file
unfolding write_file
write_file-some f bytes file =
    if-cases (λ o. o ≡ some file → take f.takes bytes ≡ file) (f.opens && f.closes)
      (some (take f.takes bytes)) none (λ _ e. Option.some-injective _ _ e)
      (λ _ e. absurd (Option.none-ne-some file e))

pub write_file-whole :
    (f : Sink) (bytes : List ℕ)
    → f.opens ≡ true
    → f.closes ≡ true
    → length bytes ≤ f.takes
    → write_file f bytes ≡ some bytes
unfolding write_file
write_file-whole f bytes on off all = rw (on, off) (ap some (take-all f.takes bytes all))
