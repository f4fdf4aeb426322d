-- ===== src/Ftp/Files.antt =====
-- What both programs of lab1 ask of the file system and of the shell, which is not theirs; and
-- read_file and write_file of lab1/ftp_utils.hpp on it.
use computer_system24fall.Common.{
  ℕ, ◌≡◌, ap, Bool, List, [], ◌∷◌, Option, none, some, ◌==◌, if◌then◌else◌, take,
}
use computer_system24fall.Common.Int.{ℤ, pos}
use computer_system24fall.Ftp.Exec.{serror}

-- The bytes of a path or of a text, without the final zero.
abbrev pub FilePath : Type 0
FilePath = List ℕ

-- The calls, on the state of the disk and the working directory of the process.
pub record Os (Disk : Type 0) : Type 0 where
  -- fs::exists
  pub exists : Disk → FilePath → FilePath → Bool
  -- fs::canonical(fs::absolute(…))
  pub canonical : Disk → FilePath → FilePath → FilePath
  -- chdir: the new working directory
  pub enters : Disk → FilePath → FilePath → Option FilePath
  -- opening a file to read it, and its bytes
  pub reads : Disk → FilePath → FilePath → Option (List ℕ)
  -- opening a file to write it, and what the disk is then
  pub writes : Disk → FilePath → FilePath → List ℕ → Option Disk
  -- popen: what the command prints
  pub prints : Disk → FilePath → List ℕ → Option (List ℕ)

-- A C string ends at the first zero.
unfoldable pub c_string : List ℕ → List ℕ
c_string [] = []
c_string (b ∷ bytes) = if b == 0 then [] else b ∷ c_string bytes

module _ {Disk : Type 0} (os : Os Disk) where
  -- read_file: `none` if the file cannot be opened, else its first `size` bytes.
  unfoldable pub read_file : Disk → FilePath → FilePath → ℕ → Option (List ℕ)
  read_file disk cwd filename size = elim (os.reads disk cwd filename) [
    | none ↦ none
    | some content ↦ some (take size content)
  ]

  -- write_file: `none` if the file cannot be opened.
  unfoldable pub write_file : Disk → FilePath → FilePath → List ℕ → Option Disk
  write_file disk cwd filename buf = os.writes disk cwd filename buf

  pub read_file-some :
      (disk : Disk) (cwd filename content : List ℕ) (size : ℕ)
      → os.reads disk cwd filename ≡ some content
      → read_file disk cwd filename size ≡ some (take size content)
  unfolding read_file
  read_file-some disk cwd filename content size e =
      ap (λ (c : Option (List ℕ)). elim c [ none ↦ none | some x ↦ some (take size x) ]) e

  pub read_file-none :
      (disk : Disk) (cwd filename : List ℕ) (size : ℕ)
      → os.reads disk cwd filename ≡ none
      → read_file disk cwd filename size ≡ none
  unfolding read_file
  read_file-none disk cwd filename size e =
      ap (λ (c : Option (List ℕ)). elim c [ none ↦ none | some x ↦ some (take size x) ]) e

-- The result of a write of a file and the disk after it, from what the disk makes of it.
abbrev pub saved : {Disk : Type 0} → Disk → Option Disk → ℤ × Disk
saved disk none = (serror, disk)
saved disk (some disk') = (pos 0, disk')
