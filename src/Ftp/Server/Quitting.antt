-- ===== src/Ftp/Server/Quitting.antt =====
-- How a client leaves lab1/ftp_server.cpp with a quit request.
use computer_system24fall.Common.{
  ℕ, ◌≡◌, ◌≢◌, Bool, false, not, ◌&&◌, ◌||◌, List, [], ◌∷◌, ◌++◌, some, ◌==◌, if◌then◌else◌,
  get_elem?,
}
use computer_system24fall.Common.Int.{ℤ}
use computer_system24fall.Ftp.Exec.{Exec, ◌>>=◌, ◌>>◌}
use computer_system24fall.Ftp.Server.{Server, fd2ind, null_path, next_call, forget}

-- Whether a descriptor stands in a list.
abbrev pub contains : ℕ → List ℕ → Bool
contains g [] = false
contains g (x ∷ xs) = (g == x) || contains g xs

module _ {Disk : Type 0} where
  -- From `s` to `t` the connection `fd` has sent `given`, is watched no more if `off`, and is closed and
  -- its directory void if `closed`; everything else is as it was, but for the calls of the system.
  pub record Leaves (off closed : Bool) (rest : List Bool) (fd : ℕ) (given : List ℕ)
      (s t : Server Disk) : Type 0 where
    pub is_open : (t.links fd).is_open ≡ (if closed then false else (s.links fd).is_open)
    pub outbox : (t.links fd).outbox ≡ (s.links fd).outbox ++ given
    pub inbox : (t.links fd).inbox ≡ (s.links fd).inbox
    pub other_links : (g : ℕ) → fd ≢ g → t.links g ≡ s.links g
    pub watched : (g : ℕ) → contains g t.watched ≡ contains g s.watched && not ((g == fd) && off)
    pub place :
        get_elem? t.cwds (fd2ind fd)
        ≡ (if closed then some null_path else get_elem? s.cwds (fd2ind fd))
    pub other_places : (i : ℕ) → fd2ind fd ≢ i → get_elem? t.cwds i ≡ get_elem? s.cwds i
    pub home : t.dft_path ≡ s.dft_path
    pub cwd : t.cwd ≡ s.cwd
    pub disk : t.disk ≡ s.disk
    pub calls : t.calls ≡ rest

  -- What epoll_ctl leaves as it was, and whom it watches then.
  record Unwatches (deleted : Bool) (fd : ℕ) (s u : Server Disk) : Type 0 where
    calls : u.calls ≡ s.calls
    cwds : u.cwds ≡ s.cwds
    links : u.links ≡ s.links
    home : u.dft_path ≡ s.dft_path
    cwd : u.cwd ≡ s.cwd
    disk : u.disk ≡ s.disk
    watched : (g : ℕ) → contains g u.watched ≡ contains g s.watched && not ((g == fd) && deleted)

  -- What do_quit does behind epoll_ctl.
  abbrev closing : ℕ → Exec (Server Disk) ℤ
  closing fd = do closed ← next_call; forget fd closed
