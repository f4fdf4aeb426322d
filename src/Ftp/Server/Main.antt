-- ===== src/Ftp/Server/Main.antt =====
-- lab1/ftp_server.cpp: the table of handlers, and main with its epoll loop.
use computer_system24fall.Common.{
  ℕ, ◌-◌, ◌/◌, Bool, true, false, not, ◌||◌, List, [], ◌∷◌, Option, none, some, ltb, ◌==◌,
  if◌then◌else◌, get_elem?, replicate,
}
use computer_system24fall.Common.Int.{ℤ, pos, negsuc, neg}
use computer_system24fall.Ftp.Exec.{
  Outcome, returned, blocked, Exec, pure, gets, modify, undefined_here, ◌>>=◌, ◌>>◌, serror,
}
use computer_system24fall.Ftp.Stream.{Link}
use computer_system24fall.Ftp.Message.{max_buf, max_conn, open_request, Post}
use computer_system24fall.Ftp.Files.{FilePath, Os, c_string}
use computer_system24fall.Ftp.Server.{
  Server, fd2ind, null_path, update, recv_post, next_call, do_open, do_ls, do_cd, do_get, do_put,
  do_sha, do_quit,
}

-- `(m_type - OPEN_REQUEST) / 2` on `int`, which rounds towards zero.
unfoldable pub type2ind : ℕ → ℤ
type2ind m_type =
    if ltb m_type open_request
    then neg ((open_request - m_type) / 2)
    else pos ((m_type - open_request) / 2)

-- One event of epoll_wait: a descriptor with input, or the listening socket, with the descriptor and
-- the connection that accept gives, if it succeeds.
pub data Event : Type 0 where
  ready : ℕ → Event
  arrives : Option (ℕ × Link) → Event

-- The new working directory, if chdir succeeds.
abbrev pub arrive : {Disk : Type 0} → Option FilePath → Exec (Server Disk) Bool
arrive none s = (returned false, s)
arrive (some cwd) s = (returned true, record s { cwd = cwd })

module _ {Disk : Type 0} (os : Os Disk) where
  abbrev pub Handler : Type 0
  Handler = ℕ → List ℕ → Exec (Server Disk) ℤ

  abbrev pub funcs : List Handler
  funcs = do_open ∷ do_ls os ∷ do_cd os ∷ do_get os ∷ do_put os ∷ do_sha os ∷ do_quit ∷ []

  -- `funcs[i]` where there is one.
  abbrev pub handler_at : ℤ → Option Handler
  handler_at (pos i) = get_elem? funcs i
  handler_at (negsuc n) = none

  abbrev pub call_handler : Option Handler → Handler
  call_handler none fd args = undefined_here
  call_handler (some handler) fd args = handler fd args

  -- `funcs[type2ind(m_type)]`, called; outside the table the behaviour is undefined.
  unfoldable pub dispatch : ℕ → Handler
  unfolding type2ind
  dispatch m_type fd args = call_handler (handler_at (type2ind m_type)) fd args

  -- chdir, and whether it succeeds.
  unfoldable pub chdir : FilePath → Exec (Server Disk) Bool
  chdir path s = arrive (os.enters s.disk s.cwd path) s

  -- Into the client's directory, if there is one; an access behind the end of cwds is undefined.
  abbrev pub enter : Option FilePath → Exec (Server Disk) Bool
  enter none s = undefined_here s
  enter (some path) s = (if os.exists s.disk s.cwd path then chdir path else pure true) s

  unfoldable pub enter_cwd : ℕ → Exec (Server Disk) Bool
  unfolding chdir
  enter_cwd fd s = enter (get_elem? s.cwds (fd2ind fd)) s

  -- The loop's body for a descriptor with a request: what recv_post gives, and what follows it.
  unfoldable pub serve_post : ℕ → Option Post → Exec (Server Disk) (Unit {0})
  unfolding dispatch chdir enter_cwd
  serve_post connfd none = pure tt
  serve_post connfd (some post) = do
    entered ← enter_cwd connfd
    if not entered then pure tt else do
      dispatch post.m_type connfd (c_string post.buf)
      dft ← gets (λ s. s.dft_path)
      chdir dft
      pure tt

  unfoldable pub serve_request : ℕ → Exec (Server Disk) (Unit {0})
  unfolding serve_post
  serve_request connfd = recv_post connfd max_buf >>= serve_post connfd

  -- The loop's body for the listening socket.
  unfoldable pub accept : Option (ℕ × Link) → Exec (Server Disk) (Unit {0})
  unfolding next_call
  accept none = pure tt
  accept (some (connfd, link)) = do
    modify (λ s. record s { links = update s.links connfd link })
    added ← next_call
    modify (λ s. if added then record s { watched = connfd ∷ s.watched } else s)

  unfoldable pub serve_event : Event → Exec (Server Disk) (Unit {0})
  unfolding serve_request accept
  serve_event (ready fd) = serve_request fd
  serve_event (arrives conn) = accept conn

  -- The events of all calls of epoll_wait, in order; then it waits.
  unfoldable pub serve : List Event → Exec (Server Disk) (Unit {0})
  serve [] s = (blocked, s)
  serve (e ∷ es) s = (serve_event e >>= λ _. serve es) s

  -- The arguments of main, and whether inet_pton, bind and listen succeed; the current path is that
  -- of the process. The listening socket is not among `links`.
  pub record Args : Type 0 where
    pub argc : ℕ
    pub address_ok : Bool
    pub binds : Bool
    pub listens : Bool
    pub cwd : FilePath
    pub disk : Disk
    pub calls : List Bool

  -- The state before the loop. The call that adds the listening socket may fail.
  unfoldable pub initial : Args → (ℕ → Link) → Server Disk
  initial a links = record {
    cwds = replicate max_conn null_path;
    dft_path = a.cwd;
    cwd = a.cwd;
    disk = a.disk;
    links = links;
    watched = [];
    calls = a.calls;
  }

  -- The result is that of main, which comes back only before its loop.
  unfoldable pub main : Args → (ℕ → Link) → List Event → Outcome ℤ × Server Disk
  unfolding initial serve next_call
  main a links es =
      let s = initial a links in
      if not (a.argc == 3)
      then (returned (pos 0), s)
      else if not a.address_ok || not a.binds || not a.listens
      then (returned serror, s)
      else (do next_call; serve es; pure (pos 0)) s
