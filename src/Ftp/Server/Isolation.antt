-- ===== src/Ftp/Server/Isolation.antt =====
-- What a request of one client of lab1/ftp_server.cpp leaves alone, whatever bytes it sends.
pub mod Handlers
use computer_system24fall.Common.{
  ℕ, zero, suc, ◌≢◌, Bool, true, not, List, [], ◌∷◌, Option, none, some, if◌then◌else◌, get_elem?,
  All,
}
use computer_system24fall.Common.Int.{ℤ, pos, negsuc}
use computer_system24fall.Ftp.Exec.{undefined, Exec, pure, gets, ◌>>=◌, ◌>>◌}
use computer_system24fall.Ftp.Exec.Keeps.{Keeps, >>=-Keeps, if-Keeps}
use computer_system24fall.Ftp.Stream.{Link}
use computer_system24fall.Ftp.Message
use computer_system24fall.Ftp.Message.{max_buf, Post}
use computer_system24fall.Ftp.Files.{FilePath, Os, c_string}
use computer_system24fall.Ftp.Server.{Server, fd2ind, recv_post}
use computer_system24fall.Ftp.Server.Main.{
  arrive, type2ind, Handler, funcs, handler_at, call_handler, dispatch, chdir, enter, enter_cwd,
  serve_post, serve_request,
}
use computer_system24fall.Ftp.Server.Isolation.Handlers.{
  Untouched, on-Safe, do_open-Safe, do_ls-Safe, do_cd-Safe, do_get-Safe, do_put-Safe, do_sha-Safe,
  do_quit-Safe,
}

module _ {Disk : Type 0} (os : Os Disk) (k fd : ℕ) (l : Link) (path : Option FilePath)
    (dft : FilePath) (n : ℕ) (other : fd ≢ k) (other_index : fd2ind fd ≢ fd2ind k) where
  abbrev Stays : Server Disk → Type 0
  Stays = Untouched k l path dft n

  abbrev Safe : {A : Type 0} → Exec (Server Disk) A → Type 0
  Safe m = Keeps Stays m

  call_handler-Safe :
      (handlers : List (Handler os))
      → All (λ handler. (args : List ℕ) → Safe (handler fd args)) handlers
      → (i : ℕ) (args : List ℕ) → Safe (call_handler os (get_elem? handlers i) fd args)
  call_handler-Safe [] all i args s p d = p
  call_handler-Safe (h ∷ hs) all zero args s p d = all.0 args s p d
  call_handler-Safe (h ∷ hs) all (suc i) args s p d = call_handler-Safe hs all.1 i args s p d

  dispatch-Safe : (t : ℕ) (args : List ℕ) → Safe (dispatch os t fd args)
  unfolding dispatch
  dispatch-Safe t args = by_index (type2ind t)
    where
      by_index : (i : ℤ) → Safe (call_handler os (handler_at os i) fd args)
      by_index (pos i) s p d =
          call_handler-Safe (funcs os)
            (
              (do_open-Safe os k fd l path dft n other other_index),
              (
                (do_ls-Safe os k fd l path dft n other other_index),
                (
                  (do_cd-Safe os k fd l path dft n other other_index),
                  (
                    (do_get-Safe os k fd l path dft n other other_index),
                    (
                      (do_put-Safe os k fd l path dft n other other_index),
                      (
                        (do_sha-Safe os k fd l path dft n other other_index),
                        ((do_quit-Safe os k fd l path dft n other other_index), tt),
                      ),
                    ),
                  ),
                ),
              ),
            )
            i args s p d
      by_index (negsuc i) s p d = p

  arrive-Safe : (o : Option FilePath) → Safe (arrive o)
  arrive-Safe none s p d = p
  arrive-Safe (some cwd) s p d = record {
    table = p.table;
    home = p.home;
    link = p.link;
    place = p.place;
  }

  chdir-Safe : (dir : FilePath) → Safe (chdir os dir)
  unfolding chdir
  chdir-Safe dir s = arrive-Safe (os.enters s.disk s.cwd dir) s

  enter-Safe : (dir : Option FilePath) → Safe (enter os dir)
  enter-Safe none s p d = p
  enter-Safe (some dir) s p d =
      if-Keeps Stays (os.exists s.disk s.cwd dir) (chdir os dir) (pure true) (chdir-Safe dir)
        (λ t q d. q) s p d

  serve_post-Safe : (got : Option Post) → Safe (serve_post os fd got)
  unfolding serve_post enter_cwd
  serve_post-Safe none s p d = p
  serve_post-Safe (some post) s p d =
      >>=-Keeps Stays (enter_cwd os fd) entering (λ t. enter-Safe (get_elem? t.cwds (fd2ind fd)) t)
        (λ went.
          if-Keeps Stays (not went) (pure tt) served (λ t q d. q)
            (>>=-Keeps Stays (dispatch os post.m_type fd (c_string post.buf)) (λ _. back)
              (dispatch-Safe post.m_type (c_string post.buf))
              (λ _ t.
                >>=-Keeps Stays (chdir os t.dft_path) (λ _. pure tt) (chdir-Safe t.dft_path)
                  (λ _ u q d. q) t)))
        s p d
    where
      back : Exec (Server Disk) (Unit {0})
      back = do dft ← gets (λ t. t.dft_path); chdir os dft; pure tt

      served : Exec (Server Disk) (Unit {0})
      served = do dispatch os post.m_type fd (c_string post.buf); back

      entering : Bool → Exec (Server Disk) (Unit {0})
      entering went = if not went then pure tt else served

  -- A turn of the loop for the client of `fd`, whatever bytes it sends and whatever the calls of the system
  -- do, unless it ends in what C++ leaves undefined: the table of directories keeps its length and the server
  -- its own directory, and the client of `k` keeps its connection and its directory, if `k` is another
  -- descriptor and has another entry in the table.
  pub serve_request-Untouched :
      (s : Server Disk)
      → Untouched k l path dft n s
      → (serve_request os fd s).0 ≢ undefined
      → Untouched k l path dft n (serve_request os fd s).1
  unfolding serve_request
  serve_request-Untouched =
      >>=-Keeps Stays (recv_post fd max_buf) (serve_post os fd)
        ((on-Safe os k fd l path dft n other other_index) (Message.recv_post max_buf))
        serve_post-Safe
