-- ===== src/Ftp/Server/Requests.antt =====
-- One turn of the loop of lab1/ftp_server.cpp: a request, in the client's directory.
use computer_system24fall.Common.{
  append-cancel, ℕ, ◌+◌, ◌≤◌, ◌<◌, ◌≡◌, refl, sym, ap, ◌∙◌, Bool, true, false, not, List, [], ◌∷◌,
  ◌++◌, append-nil, Option, some, arith, ◌==◌, if◌then◌else◌, length, get_elem?,
}
use computer_system24fall.Common.Int.{ℤ}
use computer_system24fall.Ftp.Exec.{Outcome, returned, Exec, pure, and_then, gets, ◌>>=◌, ◌>>◌}
use computer_system24fall.Ftp.Stream.{Link}
use computer_system24fall.Ftp.Message.{header_size, max_buf}
use computer_system24fall.Ftp.Message.Roundtrip.{message}
use computer_system24fall.Ftp.Files.{FilePath, Os, c_string}
use computer_system24fall.Ftp.Server.{Server, fd2ind, recv_post}
use computer_system24fall.Ftp.Server.Main.{
  arrive, dispatch, chdir, enter, enter_cwd, serve_post, serve_request,
}
use computer_system24fall.Ftp.Server.Sent.{with_link, port, Serves}
use computer_system24fall.Ftp.Talk.{
  IsReady, bytes-Talks, same-Talks, pure-Talks, >>=-Talks, recv_post-Talks,
}

-- The zero that ends a C string hides what stands behind it.
pub c_string-append : (args rest : List ℕ) → c_string (args ++ 0 ∷ rest) ≡ c_string args
unfolding c_string
c_string-append [] rest = refl
c_string-append (b ∷ args) rest =
    ap (λ (t : List ℕ). if b == 0 then [] else b ∷ t) (c_string-append args rest)

module _ {Disk : Type 0} where
  abbrev pub in_dir : Server Disk → FilePath → Server Disk
  in_dir s path = record s { cwd = path }

  module _ (os : Os Disk) where
    -- Where a client in `path` is served.
    abbrev pub entered : Server Disk → FilePath → Option FilePath
    entered s path = if os.exists s.disk s.cwd path then os.enters s.disk s.cwd path else some s.cwd

    chdir-arrive :
        (path : FilePath) (s : Server Disk)
        → chdir os path s ≡ arrive (os.enters s.disk s.cwd path) s
    unfolding chdir
    chdir-arrive path s = refl

    enter-arrive :
        (path : FilePath) (s : Server Disk) → enter os (some path) s ≡ arrive (entered s path) s
    enter-arrive path s = either (os.exists s.disk s.cwd path)
      where
        either :
            (there : Bool)
            → (if there then chdir os path else pure true) s
              ≡ arrive (if there then os.enters s.disk s.cwd path else some s.cwd) s
        either true = chdir-arrive path s
        either false = refl

    enter_cwd-entered :
        (fd : ℕ) (path dir : FilePath) (s : Server Disk)
        → get_elem? s.cwds (fd2ind fd) ≡ some path
        → entered s path ≡ some dir
        → enter_cwd os fd s ≡ (returned true, in_dir s dir)
    unfolding enter_cwd
    enter_cwd-entered fd path dir s e e' =
        ap (λ (o : Option FilePath). enter os o s) e
        ∙ enter-arrive path s
        ∙ ap (λ (o : Option FilePath). arrive o s) e'

    -- Back to the server's directory, where each turn ends.
    abbrev go_back : Exec (Server Disk) (Unit {0})
    go_back = do dft ← gets (λ s. s.dft_path); chdir os dft; pure tt

    go_back-Serves :
        (n fd : ℕ) (s : Server Disk)
        → IsReady n (s.links fd)
        → os.enters s.disk s.cwd s.dft_path ≡ some s.dft_path
        → Serves n go_back fd s tt (in_dir s s.dft_path) [] []
    go_back-Serves n fd s ready back =
        pure-Talks n (port fd) s (in_dir s s.dft_path) tt ready refl go_back (
          ap (λ (r : Outcome Bool × Server Disk). and_then r.0 (λ _. pure tt) r.1)
            (chdir-arrive s.dft_path s ∙ ap (λ (o : Option FilePath). arrive o s) back))

    -- A request that a handler serves in the client's directory, and the way back.
    pub serve_request-Serves :
        (m k n fd t st : ℕ) (buf rest taken given : List ℕ) (path dir : FilePath) (r : ℤ)
        (s s' : Server Disk)
        → IsReady m (s.links fd)
        → (s.links fd).inbox ≡ message t st buf ++ rest
        → t < 256
        → st < 256
        → length buf ≤ max_buf
        → header_size + length buf + k ≤ m
        → get_elem? s.cwds (fd2ind fd) ≡ some path
        → entered s path ≡ some dir
        → os.enters s'.disk s'.cwd s'.dft_path ≡ some s'.dft_path
        → ((l : Link)
            → IsReady k ((with_link s fd l).links fd)
            → ((with_link s fd l).links fd).inbox ≡ rest
            → Serves n
                (dispatch os t fd (c_string buf))
                fd
                (with_link (in_dir s dir) fd l)
                r
                (with_link s' fd l)
                taken
                given)
        → Serves n
            (serve_request os fd)
            fd
            s
            tt
            (in_dir s' s'.dft_path)
            (message t st buf ++ taken)
            given
    unfolding serve_request serve_post
    serve_request-Serves m k n fd t st buf rest taken given path dir r s s' ready came ht hst fits h
          e e' back handler =
        >>=-Talks k n (port fd) (recv_post fd max_buf) (serve_post os fd) s s
          (in_dir s' s'.dft_path) (some (record { m_type = t; m_status = st; buf = buf })) tt
          (message t st buf) [] taken given
          (recv_post-Talks m k (port fd) max_buf t st buf rest s ready came ht hst fits
            (omega arith) h)
          (λ l moved.
            same-Talks n (port fd)
              (serve_post os fd (some (record { m_type = t; m_status = st; buf = buf })))
              (λ x. served (in_dir x dir)) (with_link s fd l)
              (with_link (in_dir s' s'.dft_path) fd l) tt taken given
              (ap
                (λ (x : Outcome Bool × Server Disk).
                  and_then x.0 (λ b. if not b then pure tt else served) x.1)
                (enter_cwd-entered fd path dir (with_link s fd l) e e'))
              (bytes-Talks n (port fd) served (with_link (in_dir s dir) fd l)
                (with_link (in_dir s' s'.dft_path) fd l) tt _ _ taken given (append-nil taken)
                (append-nil given)
                (>>=-Talks n n (port fd) (dispatch os t fd (c_string buf)) (λ _. go_back)
                  (with_link (in_dir s dir) fd l) (with_link s' fd l)
                  (with_link (in_dir s' s'.dft_path) fd l) r tt taken given [] []
                  (handler l moved.ready
                    (append-cancel (message t st buf) _ rest (sym moved.inbox ∙ came)))
                  (λ l' moved'.
                    go_back-Serves n fd (with_link (with_link s' fd l) fd l') moved'.ready back))))
      where
        served : Exec (Server Disk) (Unit {0})
        served = dispatch os t fd (c_string buf) >>= λ _. go_back
