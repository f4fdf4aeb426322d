-- ===== src/Ftp/Server.antt =====
-- lab1/ftp_server.cpp: the handlers of requests.
pub mod Main
pub mod Sent
pub mod Replies
pub mod Requests
pub mod Printed
pub mod Closing
pub mod Quitting
pub mod Table
pub mod Isolation
pub mod Answers
pub mod History
use computer_system24fall.Common.{
  ℕ, ◌+◌, ◌-◌, Bool, true, false, not, List, [], ◌∷◌, ◌++◌, Option, none, some, ltb, ◌==◌,
  if◌then◌else◌, length, set, take,
}
use computer_system24fall.Common.Int.{ℤ, pos}
use computer_system24fall.Ftp.Exec.{
  returned, Exec, pure, gets, modify, undefined_here, ◌>>=◌, ◌>>◌, serror, fail_or,
}
use computer_system24fall.Ftp.Stream.{Link}
use computer_system24fall.Ftp.Message.{
  max_buf, open_reply, list_reply, cd_reply, get_reply, put_reply, sha_reply, quit_reply, file_data,
  Post,
}
use computer_system24fall.Ftp.Message
use computer_system24fall.Ftp.Files.{FilePath, Os, read_file, write_file}

-- The globals cwds and dft_path, the working directory of the process, its connections by
-- descriptor, the descriptors that epoll watches, and how the next calls of epoll_ctl and close
-- end, which succeed beyond this list.
pub record Server (Disk : Type 0) : Type 0 where
  pub cwds : List FilePath
  pub dft_path : FilePath
  pub cwd : FilePath
  pub disk : Disk
  pub links : ℕ → Link
  pub watched : List ℕ
  pub calls : List Bool

-- `fd - 2`; the descriptor of a connection is above 2.
abbrev pub fd2ind : ℕ → ℕ
fd2ind fd = fd - 2

-- fs::path("NULL").
abbrev pub null_path : FilePath
null_path = b'N' ∷ b'U' ∷ b'L' ∷ b'L' ∷ []

abbrev pub ls_command : List ℕ
ls_command = b'l' ∷ b's' ∷ []

-- "sha256sum ", before the path.
abbrev pub sha_command : List ℕ
sha_command = b's' ∷ b'h' ∷ b'a' ∷ b'2' ∷ b'5' ∷ b'6' ∷ b's' ∷ b'u' ∷ b'm' ∷ b' ' ∷ []

abbrev pub update {ℓ} : {A : Type ℓ} → (ℕ → A) → ℕ → A → ℕ → A
update f k v i = if k == i then v else f i

-- The bool of fs::exists as a `status`.
abbrev pub status_of : Bool → ℕ
status_of true = 1
status_of false = 0

abbrev pub without : ℕ → List ℕ → List ℕ
without fd [] = []
without fd (x ∷ xs) = let rest = without fd xs in if x == fd then rest else x ∷ rest

module _ {Disk : Type 0} where
  -- A call on the connection `fd`.
  abbrev pub on : {A : Type 0} → ℕ → Exec Link A → Exec (Server Disk) A
  on fd m s = let (r, l) = m (s.links fd) in (r, record s { links = update s.links fd l })

  abbrev pub send_post : ℕ → ℕ → List ℕ → ℕ → Exec (Server Disk) ℤ
  send_post fd m_type buf m_status = on fd (Message.send_post m_type buf m_status)

  abbrev pub recv_post : ℕ → ℕ → Exec (Server Disk) (Option Post)
  recv_post fd room = on fd (Message.recv_post room)

  -- Whether the next call of epoll_ctl or close succeeds.
  abbrev pub next_of : List Bool → Exec (Server Disk) Bool
  next_of [] s = (returned true, s)
  next_of (ok ∷ rest) s = (returned ok, record s { calls = rest })

  unfoldable pub next_call : Exec (Server Disk) Bool
  next_call s = next_of s.calls s

  -- `cwds[fd2ind(fd)] = path`.
  unfoldable pub set_cwd : ℕ → FilePath → Exec (Server Disk) (Unit {0})
  set_cwd fd path s =
      if ltb (fd2ind fd) (length s.cwds)
      then (returned tt, record s { cwds = set s.cwds (fd2ind fd) path })
      else undefined_here s

  unfoldable pub do_open : ℕ → List ℕ → Exec (Server Disk) ℤ
  unfolding set_cwd
  do_open fd args =
      fail_or (send_post fd open_reply [] 1)
        (do dft ← gets (λ s. s.dft_path); set_cwd fd dft; pure (pos 0))

  -- epoll drops a closed descriptor.
  abbrev pub close_link : ℕ → Server Disk → Server Disk
  close_link fd s = record s {
    watched = without fd s.watched;
    links = update s.links fd (record (s.links fd) { is_open = false });
  }

  -- The end of do_quit, from whether close succeeds.
  abbrev pub forget : ℕ → Bool → Exec (Server Disk) ℤ
  forget fd closed =
      if not closed
      then pure serror
      else do modify (close_link fd); set_cwd fd null_path; pure (pos 0)

  -- epoll_ctl with EPOLL_CTL_DEL, from whether it succeeds.
  abbrev pub unwatch : ℕ → Bool → Exec (Server Disk) (Unit {0})
  unwatch fd deleted =
      modify (λ s. if deleted then record s { watched = without fd s.watched } else s)

  unfoldable pub do_quit : ℕ → List ℕ → Exec (Server Disk) ℤ
  unfolding set_cwd next_call
  do_quit fd args =
      fail_or (send_post fd quit_reply [] 0)
        (do deleted ← next_call; unwatch fd deleted; closed ← next_call; forget fd closed)

  module _ (os : Os Disk) where
    -- The bytes that popen and fread give, ended by a zero, which is written behind the buffer if
    -- the bytes fill it.
    unfoldable pub send_printed : ℕ → ℕ → List ℕ → Exec (Server Disk) ℤ
    send_printed fd m_type printed =
        let nread = take max_buf printed in
        if length nread == max_buf
        then undefined_here
        else fail_or (send_post fd m_type (nread ++ 0 ∷ []) 0) (pure (pos 0))

    -- The result of popen, and what follows it.
    abbrev pub send_output : ℕ → ℕ → Option (List ℕ) → Exec (Server Disk) ℤ
    send_output fd m_type none = pure serror
    send_output fd m_type (some bytes) = send_printed fd m_type bytes

    unfoldable pub do_ls : ℕ → List ℕ → Exec (Server Disk) ℤ
    do_ls fd args = do
      printed ← gets (λ s. os.prints s.disk s.cwd ls_command)
      send_output fd list_reply printed

    unfoldable pub do_cd : ℕ → List ℕ → Exec (Server Disk) ℤ
    unfolding set_cwd
    do_cd fd args = do
      there ← gets (λ s. os.exists s.disk s.cwd args)
      fail_or (send_post fd cd_reply [] (status_of there)) (
          if there
          then (do path ← gets (λ s. os.canonical s.disk s.cwd args); set_cwd fd path; pure (pos 0))
          else pure (pos 0))

    -- The result of read_file in do_get, and what follows it.
    abbrev pub send_content : ℕ → Option (List ℕ) → Exec (Server Disk) ℤ
    send_content fd none = pure serror
    send_content fd (some buf) = fail_or (send_post fd file_data buf 0) (pure (pos 0))

    unfoldable pub send_file : ℕ → List ℕ → Exec (Server Disk) ℤ
    unfolding read_file
    send_file fd args = do
      content ← gets (λ s. read_file os s.disk s.cwd args max_buf)
      send_content fd content

    unfoldable pub do_get : ℕ → List ℕ → Exec (Server Disk) ℤ
    unfolding send_file
    do_get fd args = do
      there ← gets (λ s. os.exists s.disk s.cwd args)
      fail_or (send_post fd get_reply [] (status_of there))
          (if not there then pure (pos 0) else send_file fd args)

    -- The result of write_file in do_put, and what follows it.
    abbrev pub keep_disk : Option Disk → Exec (Server Disk) ℤ
    keep_disk none = pure serror
    keep_disk (some disk) = do modify (λ s. record s { disk = disk }); pure (pos 0)

    -- The result of recv_post in do_put, and what follows it.
    abbrev pub take_post : List ℕ → Option Post → Exec (Server Disk) ℤ
    take_post args none = pure serror
    take_post args (some post) =
        if not (post.m_type == file_data)
        then pure serror
        else do written ← gets (λ s. write_file os s.disk s.cwd args post.buf); keep_disk written

    unfoldable pub take_file : ℕ → List ℕ → Exec (Server Disk) ℤ
    unfolding write_file
    take_file fd args = do got ← recv_post fd max_buf; take_post args got

    unfoldable pub do_put : ℕ → List ℕ → Exec (Server Disk) ℤ
    unfolding take_file
    do_put fd args = fail_or (send_post fd put_reply [] 0) (take_file fd args)

    -- From `fs::canonical` on in do_sha: the command is printed to the buffer.
    unfoldable pub send_sum : ℕ → List ℕ → Exec (Server Disk) ℤ
    unfolding send_printed
    send_sum fd args = do
      p ← gets (λ s. os.canonical s.disk s.cwd args)
      if ltb max_buf (length (sha_command ++ p) + 1) then undefined_here else do
        printed ← gets (λ s. os.prints s.disk s.cwd (sha_command ++ p))
        send_output fd file_data printed

    unfoldable pub do_sha : ℕ → List ℕ → Exec (Server Disk) ℤ
    unfolding send_sum
    do_sha fd args = do
      there ← gets (λ s. os.exists s.disk s.cwd args)
      fail_or (send_post fd sha_reply [] (status_of there))
          (if not there then pure (pos 0) else send_sum fd args)
