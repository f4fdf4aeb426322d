-- ===== src/Ftp/Client/Main.antt =====
-- lab1/ftp_client.cpp: parseline, and main with its loop over lines.
use computer_system24fall.Common.{
  ℕ, ◌+◌, Bool, true, false, ◌&&◌, List, [], ◌∷◌, ◌++◌, Option, none, some, leb, ◌==◌,
  if◌then◌else◌,
}
use computer_system24fall.Common.Int.{ℤ, pos}
use computer_system24fall.Ftp.Exec.{returned, blocked, Exec, pure, undefined_here, exit_here, ◌>>=◌}
use computer_system24fall.Ftp.Files.{Os}
use computer_system24fall.Ftp.Client.{
  Client, Numerals, split_blank, do_open, do_ls, do_cd, do_get, do_put, do_sha, do_quit,
}

pub data Command : Type 0 where
  open_ ls cd get put sha256 quit : Command

-- tolower of the C locale.
unfoldable pub to_lower : ℕ → ℕ
to_lower c = if leb b'A' c && leb c b'Z' then c + 32 else c

-- strncasecmp(cmdline, name, strlen(name)) == 0, for a name in lower case.
unfoldable pub has_prefix : List ℕ → List ℕ → Bool
unfolding to_lower
has_prefix line [] = true
has_prefix [] (n ∷ name) = false
has_prefix (c ∷ line) (n ∷ name) = (to_lower c == n) && has_prefix line name

-- cmdnames, with the entries of cmdfuncs.
abbrev pub cmdnames : List (List ℕ × Command)
cmdnames =
    (b'o' ∷ b'p' ∷ b'e' ∷ b'n' ∷ [], open_)
    ∷ (b'l' ∷ b's' ∷ [], ls)
    ∷ (b'c' ∷ b'd' ∷ [], cd)
    ∷ (b'g' ∷ b'e' ∷ b't' ∷ [], get)
    ∷ (b'p' ∷ b'u' ∷ b't' ∷ [], put)
    ∷ (b's' ∷ b'h' ∷ b'a' ∷ b'2' ∷ b'5' ∷ b'6' ∷ [], sha256)
    ∷ (b'q' ∷ b'u' ∷ b'i' ∷ b't' ∷ [], quit)
    ∷ []

-- The first name that the line begins with.
unfoldable pub find_command : List (List ℕ × Command) → List ℕ → Option Command
unfolding has_prefix
find_command [] line = none
find_command ((name, command) ∷ names) line =
    if has_prefix line name then some command else find_command names line

-- A call of fgets: it gives a line with its newline, or what fits the buffer of one, or fails and leaves the buffer as it was, or the
-- input has ended.
pub data Input : Type 0 where
  line : List ℕ → Input
  read_error end_of_input : Input

-- `cmdline[strlen(cmdline) - 1] = '\0'`, which is out of range for an empty text.
unfoldable pub strip_last : List ℕ → Option (List ℕ)
strip_last [] = none
strip_last (c ∷ []) = some []
strip_last (c ∷ d ∷ text) = elim (strip_last (d ∷ text)) [
  | none ↦ none
  | some rest ↦ some (c ∷ rest)
]

module _ {Disk : Type 0} (c : Numerals) (os : Os Disk) where
  unfoldable pub run_command : Command → Option (List ℕ) → Exec (Client Disk) ℤ
  run_command open_ args = do_open c args
  run_command ls args = do_ls
  run_command cd args = do_cd args
  run_command get args = do_get os args
  run_command put args = do_put os args
  run_command sha256 args = do_sha args
  run_command quit args = do_quit

  -- What stands behind the first blank; `none` if there is no blank.
  abbrev pub arguments : List ℕ → Option (List ℕ)
  arguments cmdline = elim (split_blank cmdline) [
    | none ↦ none
    | some (before, behind) ↦ some behind
  ]

  unfoldable pub parseline : List ℕ → Exec (Client Disk) ℤ
  unfolding find_command run_command split_blank
  parseline cmdline = elim (find_command cmdnames cmdline) [
    | none ↦ pure (pos 1)
    | some command ↦ run_command command (arguments cmdline)
  ]

  -- What parseline leaves in its buffer: do_open ends the text at the second blank.
  abbrev pub left_behind : Option Command → List ℕ → List ℕ
  left_behind (some open_) cmdline = elim (split_blank cmdline) [
    | none ↦ cmdline
    | some (before, behind) ↦ elim (split_blank behind) [
      | none ↦ cmdline
      | some (ip, port) ↦ before ++ b' ' ∷ ip
    ]
  ]
  left_behind command cmdline = cmdline

  -- The loop on what fgets gives, and on the buffer `cmdline`. At the end of the input it exits.
  unfoldable pub main_loop : List Input → List ℕ → Exec (Client Disk) ℤ
  unfolding parseline strip_last find_command split_blank
  main_loop [] cmdline s = (if s.running then blocked else returned (pos 0), s)
  main_loop (e ∷ es) cmdline s =
      let turn : List ℕ → Exec (Client Disk) ℤ = λ text. elim (strip_last text) [
        | none ↦ undefined_here
        | some command ↦ parseline command >>= λ _.
            main_loop es (left_behind (find_command cmdnames command) command)
      ] in
      let next : Exec (Client Disk) ℤ = elim e [
        | line text ↦ turn text
        | read_error ↦ turn cmdline
        | end_of_input ↦ exit_here
      ] in
      if s.running then next s else (returned (pos 0), s)

  unfoldable pub main : List Input → List ℕ → Exec (Client Disk) ℤ
  unfolding main_loop
  main es cmdline = main_loop es cmdline
