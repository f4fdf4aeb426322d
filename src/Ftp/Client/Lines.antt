-- ===== src/Ftp/Client/Lines.antt =====
-- How parseline of lab1/ftp_client.cpp reads a line.
use computer_system24fall.Common.{
  ℕ, ◌≡◌, ◌⊎◌, inl, inr, refl, ap, ◌∙◌, Bool, true, false, List, [], ◌∷◌, ◌++◌, map, some, arith,
  ◌==◌, ==_iff, if◌then◌else◌, if-cases,
}
use computer_system24fall.Ftp.Files.{Os}
use computer_system24fall.Ftp.Client.{Numerals, split_blank}
use computer_system24fall.Ftp.Client.Main.{
  Command, open_, ls, cd, get, put, sha256, quit, to_lower, has_prefix, cmdnames, find_command,
  run_command, arguments, parseline,
}

abbrev pub name_of : Command → List ℕ
name_of open_ = b'o' ∷ b'p' ∷ b'e' ∷ b'n' ∷ []
name_of ls = b'l' ∷ b's' ∷ []
name_of cd = b'c' ∷ b'd' ∷ []
name_of get = b'g' ∷ b'e' ∷ b't' ∷ []
name_of put = b'p' ∷ b'u' ∷ b't' ∷ []
name_of sha256 = b's' ∷ b'h' ∷ b'a' ∷ b'2' ∷ b'5' ∷ b'6' ∷ []
name_of quit = b'q' ∷ b'u' ∷ b'i' ∷ b't' ∷ []

-- A spelling of a name in upper and lower case.
abbrev pub Spells : List ℕ → List ℕ → Type 0
Spells spelling name = map to_lower spelling ≡ name

-- Whether the names differ at a place that both have.
differs : List ℕ → List ℕ → Bool
differs [] other = false
differs (n ∷ name) [] = false
differs (n ∷ name) (m ∷ other) = if n == m then differs name other else true

module _ (rest : List ℕ) where
  has_prefix_self :
      (spelling : List ℕ) → has_prefix (spelling ++ rest) (map to_lower spelling) ≡ true
  unfolding has_prefix
  has_prefix_self [] = refl
  has_prefix_self (c ∷ spelling) =
      rw ((==_iff (to_lower c) (to_lower c)).1 refl) (has_prefix_self spelling)

  has_prefix_other :
      (spelling other : List ℕ)
      → differs (map to_lower spelling) other ≡ true
      → has_prefix (spelling ++ rest) other ≡ false
  unfolding has_prefix differs
  has_prefix_other [] other e = ground (arith, e)
  has_prefix_other (c ∷ spelling) [] e = ground (arith, e)
  has_prefix_other (c ∷ spelling) (m ∷ other) e = ground (arith, e, has_prefix_other spelling other)

  -- The name stands in the table, behind names that differ from it.
  abbrev Leads : List (List ℕ × Command) → List ℕ → Command → Type 0
  Leads [] name command = ⊥
  Leads ((n, c) ∷ names) name command =
      ((n ≡ name) × (c ≡ command)) ⊎ ((differs name n ≡ true) × Leads names name command)

  find_command-Leads :
      (names : List (List ℕ × Command)) (spelling name : List ℕ) (command : Command)
      → Spells spelling name
      → Leads names name command
      → find_command names (spelling ++ rest) ≡ some command
  unfolding find_command
  find_command-Leads [] spelling name command e leads = absurd leads
  find_command-Leads ((n, c) ∷ names) spelling name command e (inl (same, found)) =
      rw (same, ← e, has_prefix_self spelling) (ap some found)
  find_command-Leads ((n, c) ∷ names) spelling name command e (inr (differ, leads)) =
      rw (has_prefix_other spelling n (ap (λ x. differs x n) e ∙ differ))
        (find_command-Leads names spelling name command e leads)

  cmdnames-Leads : (command : Command) → Leads cmdnames (name_of command) command
  unfolding differs
  cmdnames-Leads open_ = inl (refl, refl)
  cmdnames-Leads ls = inr (refl, inl (refl, refl))
  cmdnames-Leads cd = inr (refl, inr (refl, inl (refl, refl)))
  cmdnames-Leads get = inr (refl, inr (refl, inr (refl, inl (refl, refl))))
  cmdnames-Leads put = inr (refl, inr (refl, inr (refl, inr (refl, inl (refl, refl)))))
  cmdnames-Leads sha256 =
      inr (refl, inr (refl, inr (refl, inr (refl, inr (refl, inl (refl, refl))))))
  cmdnames-Leads quit =
      inr (refl, inr (refl, inr (refl, inr (refl, inr (refl, inr (refl, inl (refl, refl)))))))

  -- A name in any mix of upper and lower case is found, whatever follows it.
  pub find_command-spelled :
      (command : Command) (spelling : List ℕ)
      → Spells spelling (name_of command)
      → find_command cmdnames (spelling ++ rest) ≡ some command
  find_command-spelled command spelling e =
      find_command-Leads cmdnames spelling (name_of command) command e (cmdnames-Leads command)

-- Whether a blank is among the characters.
has_blank : List ℕ → Bool
has_blank [] = false
has_blank (c ∷ text) = if c == b' ' then true else has_blank text

split_blank-spelled :
    (spelling args : List ℕ)
    → has_blank (map to_lower spelling) ≡ false
    → split_blank (spelling ++ b' ' ∷ args) ≡ some (spelling, args)
unfolding has_blank split_blank to_lower
split_blank-spelled [] args e = refl
split_blank-spelled (c ∷ spelling) args e =
    if-cases (λ o. o ≡ some (c ∷ spelling, args)) (c == b' ') _ _
      (λ blank. absurd (ground (arith, blank, e)))
      (λ other. rw (split_blank-spelled spelling args (ground (arith, other, e))) refl)

no_blank : (command : Command) → has_blank (name_of command) ≡ false
unfolding has_blank
no_blank open_ = refl
no_blank ls = refl
no_blank cd = refl
no_blank get = refl
no_blank put = refl
no_blank sha256 = refl
no_blank quit = refl

module _ {Disk : Type 0} (c : Numerals) (os : Os Disk) where
  -- A line that spells the name of a command, in any mix of upper and lower case, and has a blank and
  -- arguments behind it, runs that command on just these arguments.
  pub parseline-spelled :
      (command : Command) (spelling args : List ℕ)
      → Spells spelling (name_of command)
      → parseline c os (spelling ++ b' ' ∷ args) ≡ run_command c os command (some args)
  unfolding parseline
  parseline-spelled command spelling args e =
      rw
        (
          parseline,
          find_command-spelled (b' ' ∷ args) command spelling e,
          arguments,
          split_blank-spelled spelling args (ap has_blank e ∙ no_blank command),
        )
        refl
