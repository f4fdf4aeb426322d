-- ===== src/Ftp/Server/Replies.antt =====
-- What the handlers of lab1/ftp_server.cpp send and change on a connection that stays up.
pub mod Transfers
use computer_system24fall.Common.{
  ℕ, ◌+◌, ◌≤◌, ◌<◌, ◌≡◌, refl, ap, Bool, true, false, List, [], arith, if◌then◌else◌, length, set,
}
use computer_system24fall.Common.Int.{ℤ, pos}
use computer_system24fall.Ftp.Exec.{Outcome, returned, Exec, pure, and_then, gets, ◌>>=◌, ◌>>◌}
use computer_system24fall.Ftp.Stream.{Link}
use computer_system24fall.Ftp.Message.{header_size, open_reply, cd_reply}
use computer_system24fall.Ftp.Message.Roundtrip.{message}
use computer_system24fall.Ftp.Files.{FilePath, Os}
use computer_system24fall.Ftp.Server.{Server, fd2ind, status_of, set_cwd, do_open, do_cd}
use computer_system24fall.Ftp.Server.Sent.{with_link, port, Serves}
use computer_system24fall.Ftp.Talk.{IsReady, pure-Talks, send_then-Talks}

module _ {Disk : Type 0} where
  -- The client of `fd` is in `path`.
  abbrev pub moved_to : Server Disk → ℕ → FilePath → Server Disk
  moved_to s fd path = record s { cwds = set s.cwds (fd2ind fd) path }

  pub set_cwd-in_range :
      (fd : ℕ) (path : FilePath) (s : Server Disk)
      → fd2ind fd < length s.cwds
      → set_cwd fd path s ≡ (returned tt, moved_to s fd path)
  unfolding set_cwd
  set_cwd-in_range fd path s h = ground (arith, h)

  -- An open request is answered with status 1, and the client starts in the server's directory.
  pub do_open-Serves :
      (m n fd : ℕ) (args : List ℕ) (s : Server Disk)
      → IsReady m (s.links fd)
      → header_size + n ≤ m
      → fd2ind fd < length s.cwds
      → Serves n
          (do_open fd args)
          fd
          s
          (pos 0)
          (moved_to s fd s.dft_path)
          []
          (message open_reply 1 [])
  unfolding do_open
  do_open-Serves m n fd args s ready h inside =
      send_then-Talks m n (port fd) open_reply 1 [] _ s (moved_to s fd s.dft_path) (pos 0) ready
        (omega arith)
        (λ l r.
          pure-Talks n (port fd) (with_link s fd l) (with_link (moved_to s fd s.dft_path) fd l)
            (pos 0) r refl (do set_cwd fd s.dft_path; pure (pos 0))
            (ap (λ (x : Outcome (Unit {0}) × Server Disk). and_then x.0 (λ _. pure (pos 0)) x.1)
              (set_cwd-in_range fd s.dft_path (with_link s fd l) inside)))

  -- The clients' directories after a cd request, from whether the path exists.
  abbrev pub cwds_after : Os Disk → Server Disk → ℕ → FilePath → Bool → List FilePath
  cwds_after os s fd args true = set s.cwds (fd2ind fd) (os.canonical s.disk s.cwd args)
  cwds_after os s fd args false = s.cwds

  module _ (os : Os Disk) where
    -- A cd request is answered with whether the path exists; only if it does the client moves there.
    pub do_cd-Serves :
        (m n fd : ℕ) (args : List ℕ) (s : Server Disk)
        → IsReady m (s.links fd)
        → header_size + n ≤ m
        → fd2ind fd < length s.cwds
        → Serves n
            (do_cd os fd args)
            fd
            s
            (pos 0)
            (record s { cwds = cwds_after os s fd args (os.exists s.disk s.cwd args) })
            []
            (message cd_reply (status_of (os.exists s.disk s.cwd args)) [])
    unfolding do_cd
    do_cd-Serves m n fd args s ready h inside =
        send_then-Talks m n (port fd) cd_reply (status_of (os.exists s.disk s.cwd args)) [] _ s
          (record s { cwds = cwds_after os s fd args (os.exists s.disk s.cwd args) }) (pos 0) ready
          (omega arith) (λ l r. move l r (os.exists s.disk s.cwd args))
      where
        go : Exec (Server Disk) ℤ
        go = do
          p ← gets (λ (x : Server Disk). os.canonical x.disk x.cwd args)
          set_cwd fd p
          pure (pos 0)

        path : FilePath
        path = os.canonical s.disk s.cwd args

        move :
            (l : Link)
            → IsReady n ((with_link s fd l).links fd)
            → (there : Bool)
            → Serves n
                (if there then go else pure (pos 0))
                fd
                (with_link s fd l)
                (pos 0)
                (with_link (record s { cwds = cwds_after os s fd args there }) fd l)
                []
                []
        move l r true =
            pure-Talks n (port fd) (with_link s fd l) (with_link (moved_to s fd path) fd l) (pos 0)
              r refl go
              (ap (λ (x : Outcome (Unit {0}) × Server Disk). and_then x.0 (λ _. pure (pos 0)) x.1)
                (set_cwd-in_range fd path (with_link s fd l) inside))
        move l r false =
            pure-Talks n (port fd) (with_link s fd l) (with_link s fd l) (pos 0) r refl
              (pure (pos 0)) refl
