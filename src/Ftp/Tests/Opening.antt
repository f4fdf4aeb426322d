-- ===== src/Ftp/Tests/Opening.antt =====
-- Runs of lab1/ftp_client.cpp behind an open that fails.
use computer_system24fall.Common.{ℕ, ◌≡◌, refl, subst, List, [], ◌∷◌, map, Option, none, some}
use computer_system24fall.Ftp.Exec.{blocked}
use computer_system24fall.Ftp.Client.{Client, shut, split_blank, open_at, dial, do_open}
use computer_system24fall.Ftp.Client.Main.{
  Command, cmdnames, to_lower, has_prefix, find_command, arguments, main_loop,
}
use computer_system24fall.Ftp.Client.Stranded.{IsGiven, Harmless, entered, main_loop-stranded}
use computer_system24fall.Ftp.Tests.{small_os, numerals, name_a, client}

-- "a 1", "ls" and "quit".
abbrev address : List ℕ
address = b'a' ∷ b' ' ∷ b'1' ∷ []

abbrev list_line : List ℕ
list_line = b'l' ∷ b's' ∷ []

abbrev quit_line : List ℕ
quit_line = b'q' ∷ b'u' ∷ b'i' ∷ b't' ∷ []

abbrev refused_client : Client (List ℕ)
refused_client = record (client []) { sock = shut; dials = [] }

-- A line is harmless if the command that it names is.
by_command :
    (cmdline : List ℕ)
    → elim (find_command cmdnames cmdline) as (λ o. Type 0) [
      | none ↦ Unit
      | some command ↦ IsGiven command (arguments numerals small_os cmdline)
    ]
    → Harmless numerals small_os cmdline
by_command cmdline given command e =
    subst
      (λ (o : Option Command). elim o as (λ x. Type 0) [
        | none ↦ Unit
        | some k ↦ IsGiven k (arguments numerals small_os cmdline)
      ])
      e given

main_loop-stranded_example :
    main_loop numerals small_os (map entered (list_line ∷ quit_line ∷ [])) [] refused_client
    ≡ (blocked, refused_client)
unfolding split_blank do_open open_at dial find_command has_prefix to_lower
main_loop-stranded_example =
    main_loop-stranded numerals small_os address name_a (b'1' ∷ []) (client []) refused_client refl
      refl refl refl (list_line ∷ quit_line ∷ [])
      (by_command list_line tt, (by_command quit_line tt, tt)) []
