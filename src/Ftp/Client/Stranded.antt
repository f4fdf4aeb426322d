-- ===== src/Ftp/Client/Stranded.antt =====
-- What is left to the client of lab1/ftp_client.cpp when its socket is closed while it holds itself for
-- connected.
use computer_system24fall.Common.{
  ℕ, ◌≡◌, refl, subst, ap, ◌∙◌, Bool, true, false, not, List, [], ◌∷◌, ◌++◌, map, All, Option, none,
  some, if◌then◌else◌,
}
use computer_system24fall.Common.Int.{ℤ, pos, negsuc}
use computer_system24fall.Ftp.Exec.{
  Outcome, returned, blocked, Exec, pure, undefined_here, modify, fail_or, serror, ◌>>=◌, ◌>>◌,
  >>=-returned,
}
use computer_system24fall.Ftp.Stream.{Link}
use computer_system24fall.Ftp.Message.{quit_request}
use computer_system24fall.Ftp.Message.Open.{send_post-shut}
use computer_system24fall.Ftp.Files.{Os}
use computer_system24fall.Ftp.Client.{
  Client, Numerals, split_blank, send_post, online, do_open, do_ls, do_cd, do_sha, do_get, do_put,
  do_quit, hang_up, receive_or,
}
use computer_system24fall.Ftp.Client.Main.{
  Command, open_, ls, cd, get, put, sha256, quit, Input, cmdnames, find_command, run_command,
  arguments, parseline, line, strip_last, left_behind, main_loop,
}
use computer_system24fall.Ftp.Client.Errors.{Ends, prompt_for, do_open-Ends}

-- A command but open, with the arguments that it reads.
abbrev pub IsGiven : Command → Option (List ℕ) → Type 0
IsGiven open_ args = ⊥
IsGiven ls args = Unit
IsGiven quit args = Unit
IsGiven cd none = ⊥
IsGiven cd (some args) = Unit
IsGiven get none = ⊥
IsGiven get (some args) = Unit
IsGiven put none = ⊥
IsGiven put (some args) = Unit
IsGiven sha256 none = ⊥
IsGiven sha256 (some args) = Unit

-- A line with its newline, as fgets gives it.
abbrev pub entered : List ℕ → Input
entered cmdline = line (cmdline ++ b'\n' ∷ [])

strip_last-entered : (cmdline : List ℕ) → strip_last (cmdline ++ b'\n' ∷ []) ≡ some cmdline
unfolding strip_last
strip_last-entered [] = refl
strip_last-entered (a ∷ []) = refl
strip_last-entered (a ∷ b ∷ cmdline) = rw (strip_last-entered (b ∷ cmdline)) refl

module _ {Disk : Type 0} where
  -- The client holds itself for connected, and its socket is closed.
  pub record IsStranded (s : Client Disk) : Type 0 where
    pub connected : s.connected ≡ true
    pub shut : s.sock.is_open ≡ false

  asks_in_vain :
      (t : ℕ) (buf : List ℕ) (k : Exec (Client Disk) ℤ) (s : Client Disk)
      → IsStranded s
      → fail_or (send_post t buf) k s ≡ (returned serror, s)
  asks_in_vain t buf k s v =
      >>=-returned (send_post t buf) (λ r. elim r [ pos n ↦ k | negsuc n ↦ pure serror ]) s s serror
        (ap (λ (x : Outcome ℤ × Link). (x.0, record s { sock = x.1 }))
          (send_post-shut t 0 buf s.sock v.shut))

  on_line :
      (k : Exec (Client Disk) ℤ) (s : Client Disk)
      → IsStranded s
      → k s ≡ (returned serror, s)
      → online k s ≡ (returned serror, s)
  on_line k s v e = ap (λ (b : Bool). (if not b then pure serror else k) s) v.connected ∙ e

  module _ (c : Numerals) (os : Os Disk) where
    run_command-stranded :
        (command : Command) (args : Option (List ℕ)) (s : Client Disk)
        → IsStranded s
        → IsGiven command args
        → run_command c os command args s ≡ (returned serror, s)
    unfolding run_command do_ls do_cd do_sha do_get do_put do_quit
    run_command-stranded open_ args s v given = absurd given
    run_command-stranded ls args s v given = on_line _ s v (asks_in_vain _ _ _ s v)
    run_command-stranded cd none s v given = absurd given
    run_command-stranded cd (some args) s v given = on_line _ s v (asks_in_vain _ _ _ s v)
    run_command-stranded get none s v given = absurd given
    run_command-stranded get (some args) s v given = on_line _ s v (asks_in_vain _ _ _ s v)
    run_command-stranded put none s v given = absurd given
    run_command-stranded put (some args) s v given = on_line _ s v (asks_in_vain _ _ _ s v)
    run_command-stranded sha256 none s v given = absurd given
    run_command-stranded sha256 (some args) s v given = on_line _ s v (asks_in_vain _ _ _ s v)
    run_command-stranded quit args s v given =
        ap
          (λ (b : Bool).
            (if not b
                then (do modify (λ (u : Client Disk). record u { running = false }); pure (pos 0))
                else fail_or (send_post quit_request []) (receive_or hang_up))
              s)
          v.connected
        ∙ asks_in_vain _ _ _ s v

    -- The commands that a line names, if any.
    abbrev pub Harmless : List ℕ → Type 0
    Harmless cmdline =
        (command : Command)
        → find_command cmdnames cmdline ≡ some command
        → IsGiven command (arguments c os cmdline)

    parseline-stranded :
        (cmdline : List ℕ) (s : Client Disk)
        → IsStranded s
        → Harmless cmdline
        → (r : ℤ) × (parseline c os cmdline s ≡ (returned r, s))
    unfolding parseline
    parseline-stranded cmdline s v harmless = by_command (find_command cmdnames cmdline) harmless
      where
        run : Option Command → Exec (Client Disk) ℤ
        run found = elim found [
          | none ↦ pure (pos 1)
          | some command ↦ run_command c os command (arguments c os cmdline)
        ]

        by_command :
            (found : Option Command)
            → ((command : Command)
                → found ≡ some command
                → IsGiven command (arguments c os cmdline))
            → (r : ℤ) × (run found s ≡ (returned r, s))
        by_command none given = (pos 1, refl)
        by_command (some command) given =
            (serror, run_command-stranded command (arguments c os cmdline) s v (given command refl))

    main_loop-line :
        (cmdline kept : List ℕ) (rest : List Input) (s : Client Disk) (r : ℤ)
        → s.running ≡ true
        → parseline c os cmdline s ≡ (returned r, s)
        → main_loop c os (entered cmdline ∷ rest) kept s
          ≡ main_loop c os rest (left_behind c os (find_command cmdnames cmdline) cmdline) s
    unfolding main_loop
    main_loop-line cmdline kept rest s r on parsed =
        ap
          (λ (b : Bool).
            if b then turn (strip_last (cmdline ++ b'\n' ∷ [])) s else (returned (pos 0), s))
          on
        ∙ ap (λ (stripped : Option (List ℕ)). turn stripped s) (strip_last-entered cmdline)
        ∙ >>=-returned (parseline c os cmdline) (λ _. behind cmdline) s s r parsed
      where
        behind : List ℕ → Exec (Client Disk) ℤ
        behind command =
            main_loop c os rest (left_behind c os (find_command cmdnames command) command)

        turn : Option (List ℕ) → Exec (Client Disk) ℤ
        turn stripped = elim stripped [
          | none ↦ undefined_here
          | some command ↦ parseline c os command >>= λ _. behind command
        ]

    main_loop-waits :
        (commands : List (List ℕ)) (kept : List ℕ) (s : Client Disk)
        → IsStranded s
        → s.running ≡ true
        → All Harmless commands
        → main_loop c os (map entered commands) kept s ≡ (blocked, s)
    unfolding main_loop
    main_loop-waits [] kept s v on harmless =
        ap (λ (b : Bool). (if b then blocked else returned (pos 0), s)) on
    main_loop-waits (cmdline ∷ commands) kept s v on harmless =
        let (r, parsed) = parseline-stranded cmdline s v harmless.0 in
        main_loop-line cmdline kept (map entered commands) s r on parsed
        ∙ main_loop-waits commands _ s v on harmless.1

    -- An open, with a blank in its arguments, that fails while the client runs and holds itself for connected
    -- strands it. Whatever lines are entered behind it, each with its newline, quit among them, that name no
    -- open, and have an argument where the command reads one, the state stays as the open left it, and the
    -- loop of main goes on to wait for a line.
    pub main_loop-stranded :
        (args ip port : List ℕ) (s t : Client Disk)
        → split_blank args ≡ some (ip, port)
        → s.connected ≡ true
        → s.running ≡ true
        → do_open c (some args) s ≡ (returned serror, t)
        → (commands : List (List ℕ)) → All Harmless commands
        → (kept : List ℕ) → main_loop c os (map entered commands) kept t ≡ (blocked, t)
    main_loop-stranded args ip port s t blank connected on failed commands harmless kept =
        main_loop-waits commands kept t
          (record { connected = ends.2.connected ∙ connected; shut = ends.1 }) (ends.2.kept.0 ∙ on)
          harmless
      where
        ends : Ends (prompt_for c ip (c.atoi port)) s (returned serror, t)
        ends =
            subst (Ends (prompt_for c ip (c.atoi port)) s) failed
              (do_open-Ends c args ip port s blank)
