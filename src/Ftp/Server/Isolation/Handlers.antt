-- ===== src/Ftp/Server/Isolation/Handlers.antt =====
-- What a handler of lab1/ftp_server.cpp leaves alone of the clients it does not answer.
use computer_system24fall.Common.{
  refl, ℕ, ◌+◌, ◌≡◌, ◌≢◌, ◌∙◌, Bool, true, false, not, List, [], ◌∷◌, ◌++◌, Option, none, some,
  arith, ltb, ◌==◌, if◌then◌else◌, length, length-set, get_elem?, get_elem?-set_ne, set, take,
}
use computer_system24fall.Common.Int.{ℤ, pos}
use computer_system24fall.Ftp.Exec.{
  Outcome, undefined, returned, Exec, pure, gets, undefined_here, ◌>>=◌, ◌>>◌, serror,
}
use computer_system24fall.Ftp.Exec.Keeps.{Keeps, >>=-Keeps, if-Keeps, fail_or-Keeps}
use computer_system24fall.Ftp.Stream.{Link}
use computer_system24fall.Ftp.Message
use computer_system24fall.Ftp.Message.{
  max_buf, open_reply, cd_reply, get_reply, put_reply, sha_reply, quit_reply, file_data, Post,
}
use computer_system24fall.Ftp.Files.{FilePath, Os}
use computer_system24fall.Ftp.Server.{
  Server, close_link, forget, next_of, unwatch, sha_command, fd2ind, null_path, on, next_call,
  set_cwd, do_open, do_quit, send_printed, send_output, do_ls, do_cd, send_content, send_file,
  do_get, keep_disk, take_post, take_file, do_put, send_sum, do_sha, send_post, recv_post,
}

module _ {Disk : Type 0} where
  -- The table has its length, the server its directory, and the client of `k` its connection and its
  -- directory.
  pub record Untouched (k : ℕ) (l : Link) (path : Option FilePath) (dft : FilePath) (n : ℕ)
      (s : Server Disk) : Type 0 where
    pub table : length s.cwds ≡ n
    pub home : s.dft_path ≡ dft
    pub link : s.links k ≡ l
    pub place : get_elem? s.cwds (fd2ind k) ≡ path

  module _ (os : Os Disk) (k fd : ℕ) (l : Link) (path : Option FilePath) (dft : FilePath) (n : ℕ)
      (other : fd ≢ k) (other_index : fd2ind fd ≢ fd2ind k) where
    abbrev Safe : {A : Type 0} → Exec (Server Disk) A → Type 0
    Safe m = Keeps (Untouched k l path dft n) m

    pub on-Safe : {A : Type 0} (m : Exec Link A) → Safe (on fd m)
    on-Safe m s p d = record {
      table = p.table;
      home = p.home;
      link = ground (arith, other) ∙ p.link;
      place = p.place;
    }

    set_cwd-Safe : (dir : FilePath) → Safe (set_cwd fd dir)
    unfolding set_cwd
    set_cwd-Safe dir s p = either (ltb (fd2ind fd) (length s.cwds))
      where
        moved : Outcome (Unit {0}) × Server Disk
        moved = (returned tt, record s { cwds = set s.cwds (fd2ind fd) dir })

        either :
            (b : Bool)
            → (if b then moved else undefined_here s).0 ≢ undefined
            → Untouched k l path dft n (if b then moved else undefined_here s).1
        either true d = record {
          table = length-set s.cwds (fd2ind fd) dir ∙ p.table;
          home = p.home;
          link = p.link;
          place = get_elem?-set_ne s.cwds (fd2ind fd) (fd2ind k) dir other_index ∙ p.place;
        }
        either false d = absurd (d refl)

    abbrev Stays : Server Disk → Type 0
    Stays = Untouched k l path dft n

    next_of-Safe : (calls : List Bool) → Safe (next_of calls)
    next_of-Safe [] s p d = p
    next_of-Safe (ok ∷ rest) s p d = record {
      table = p.table;
      home = p.home;
      link = p.link;
      place = p.place;
    }

    next_call-Safe : Safe next_call
    unfolding next_call
    next_call-Safe s = next_of-Safe s.calls s

    send-Safe : (t st : ℕ) (buf : List ℕ) → Safe (send_post fd t buf st)
    send-Safe t st buf = on-Safe (Message.send_post t buf st)

    pub do_open-Safe : (args : List ℕ) → Safe (do_open fd args)
    unfolding do_open
    do_open-Safe args =
        fail_or-Keeps Stays (send_post fd open_reply [] 1) _ (send-Safe open_reply 1 []) (λ s p.
          >>=-Keeps Stays (set_cwd fd s.dft_path) (λ _. pure (pos 0)) (set_cwd-Safe s.dft_path)
            (λ _ t q d. q) s p)

    send_printed-Safe : (t : ℕ) (printed : List ℕ) → Safe (send_printed os fd t printed)
    unfolding send_printed
    send_printed-Safe t printed =
        if-Keeps Stays (length (take max_buf printed) == max_buf) undefined_here _
          (λ s p d. absurd (d refl))
          (fail_or-Keeps Stays (send_post fd t (take max_buf printed ++ 0 ∷ []) 0) (pure (pos 0))
            (send-Safe t 0 (take max_buf printed ++ 0 ∷ [])) (λ s p d. p))

    send_output-Safe : (t : ℕ) (printed : Option (List ℕ)) → Safe (send_output os fd t printed)
    send_output-Safe t none s p d = p
    send_output-Safe t (some bytes) s p d = send_printed-Safe t bytes s p d

    pub do_ls-Safe : (args : List ℕ) → Safe (do_ls os fd args)
    unfolding do_ls
    do_ls-Safe args s = send_output-Safe _ _ s

    pub do_cd-Safe : (args : List ℕ) → Safe (do_cd os fd args)
    unfolding do_cd
    do_cd-Safe args s =
        fail_or-Keeps Stays (send_post fd cd_reply [] _) _ (send-Safe cd_reply _ [])
          (if-Keeps Stays (os.exists s.disk s.cwd args) _ (pure (pos 0))
            (λ t.
              >>=-Keeps Stays (set_cwd fd _) (λ _. pure (pos 0)) (set_cwd-Safe _) (λ _ u q d. q) t)
            (λ t q d. q))
          s

    send_content-Safe : (content : Option (List ℕ)) → Safe (send_content os fd content)
    send_content-Safe none s p d = p
    send_content-Safe (some buf) s p d =
        fail_or-Keeps Stays (send_post fd file_data buf 0) (pure (pos 0))
          (send-Safe file_data 0 buf) (λ t q d. q) s p d

    pub do_get-Safe : (args : List ℕ) → Safe (do_get os fd args)
    unfolding do_get send_file
    do_get-Safe args s =
        fail_or-Keeps Stays (send_post fd get_reply [] _) _ (send-Safe get_reply _ [])
          (if-Keeps Stays (not (os.exists s.disk s.cwd args)) (pure (pos 0)) (send_file os fd args)
            (λ t q d. q) (λ t. send_content-Safe _ t))
          s

    keep_disk-Safe : (written : Option Disk) → Safe (keep_disk os written)
    keep_disk-Safe none s p d = p
    keep_disk-Safe (some disk) s p d = record {
      table = p.table;
      home = p.home;
      link = p.link;
      place = p.place;
    }

    take_post-Safe : (args : List ℕ) (got : Option Post) → Safe (take_post os args got)
    take_post-Safe args none s p d = p
    take_post-Safe args (some post) s p d =
        if-Keeps Stays (not (post.m_type == file_data)) (pure serror) _ (λ t q d. q)
          (λ t. keep_disk-Safe _ t) s p d

    pub do_put-Safe : (args : List ℕ) → Safe (do_put os fd args)
    unfolding do_put take_file
    do_put-Safe args =
        fail_or-Keeps Stays (send_post fd put_reply [] 0) (take_file os fd args)
          (send-Safe put_reply 0 [])
          (>>=-Keeps Stays (recv_post fd max_buf) (take_post os args)
            (on-Safe (Message.recv_post max_buf)) (take_post-Safe args))

    send_sum-Safe : (args : List ℕ) → Safe (send_sum os fd args)
    unfolding send_sum
    send_sum-Safe args s =
        if-Keeps Stays (ltb max_buf (length command + 1)) undefined_here print
          (λ u q d. absurd (d refl))
          (λ u. send_output-Safe file_data (os.prints u.disk u.cwd command) u) s
      where
        command : List ℕ
        command = sha_command ++ os.canonical s.disk s.cwd args

        print : Exec (Server Disk) ℤ
        print = do
          printed ← gets (λ (u : Server Disk). os.prints u.disk u.cwd command)
          send_output os fd file_data printed

    pub do_sha-Safe : (args : List ℕ) → Safe (do_sha os fd args)
    unfolding do_sha
    do_sha-Safe args s =
        fail_or-Keeps Stays (send_post fd sha_reply [] _) _ (send-Safe sha_reply _ [])
          (if-Keeps Stays (not (os.exists s.disk s.cwd args)) (pure (pos 0)) (send_sum os fd args)
            (λ t q d. q) (send_sum-Safe args))
          s

    close_link-Stays : (s : Server Disk) → Stays s → Stays (close_link fd s)
    close_link-Stays s p = record {
      table = p.table;
      home = p.home;
      link = ground (arith, other) ∙ p.link;
      place = p.place;
    }

    unwatch-Safe : (deleted : Bool) → Safe (unwatch fd deleted)
    unwatch-Safe true s p d = record {
      table = p.table;
      home = p.home;
      link = p.link;
      place = p.place;
    }
    unwatch-Safe false s p d = p

    forget-Safe : (closed : Bool) → Safe (forget fd closed)
    forget-Safe false s p d = p
    forget-Safe true s p d =
        >>=-Keeps Stays (set_cwd fd null_path) (λ _. pure (pos 0)) (set_cwd-Safe null_path)
          (λ _ t q d. q) (close_link fd s) (close_link-Stays s p) d

    pub do_quit-Safe : (args : List ℕ) → Safe (do_quit fd args)
    unfolding do_quit
    do_quit-Safe args =
        fail_or-Keeps Stays (send_post fd quit_reply [] 0) _ (send-Safe quit_reply 0 []) (
          >>=-Keeps Stays next_call unwatching next_call-Safe (λ deleted.
            >>=-Keeps Stays (unwatch fd deleted) (λ _. closing) (unwatch-Safe deleted)
              (λ _. >>=-Keeps Stays next_call (forget fd) next_call-Safe forget-Safe)))
      where
        closing : Exec (Server Disk) ℤ
        closing = do closed ← next_call; forget fd closed

        unwatching : Bool → Exec (Server Disk) ℤ
        unwatching deleted = do unwatch fd deleted; closing
