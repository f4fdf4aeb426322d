-- ===== src/Ftp/Server/Answers.antt =====
-- What the server of lab1/ftp_server.cpp is to do with a request, and that its loop does it.
use computer_system24fall.Common.{
  ℕ, ◌+◌, ◌≤◌, ◌<◌, ◌≡◌, sym, subst, List, [], ◌∷◌, ◌++◌, some, arith, length, get_elem?,
  get_elem?-some, set,
}
use computer_system24fall.Common.Int.{ℤ, pos}
use computer_system24fall.Ftp.Stream.{Link}
use computer_system24fall.Ftp.Message.{
  header_size, max_buf, open_request, open_reply, list_request, list_reply, cd_request, cd_reply,
  get_request, put_request, put_reply, sha_request, file_data,
}
use computer_system24fall.Ftp.Message.Roundtrip.{message, length-message}
use computer_system24fall.Ftp.Files.{FilePath, Os, c_string, saved}
use computer_system24fall.Ftp.Server.{
  Server, update, fd2ind, status_of, ls_command, sha_command, do_cd, do_get, do_put, do_sha,
}
use computer_system24fall.Ftp.Server.Main.{type2ind, dispatch, serve_request}
use computer_system24fall.Ftp.Server.Sent.{Serves}
use computer_system24fall.Ftp.Talk.{IsReady}
use computer_system24fall.Ftp.Server.Printed.{
  printed_answer, Fits, sha_answer, sha_printed, do_ls-Serves, do_sha-Serves,
}
use computer_system24fall.Ftp.Server.Replies.{cwds_after, do_open-Serves, do_cd-Serves}
use computer_system24fall.Ftp.Server.Replies.Transfers.{get_answer, do_get-Serves, do_put-Serves}
use computer_system24fall.Ftp.Server.Requests.{
  c_string-append, in_dir, entered, serve_request-Serves,
}

-- The requests of a client, the upload with its file.
pub data Request : Type 0 where
  opens lists : Request
  goes_to fetches sums : FilePath → Request
  stores : FilePath → List ℕ → Request

abbrev pub type_of : Request → ℕ
type_of opens = open_request
type_of lists = list_request
type_of (goes_to path) = cd_request
type_of (fetches path) = get_request
type_of (sums path) = sha_request
type_of (stores path content) = put_request

abbrev pub text_of : Request → List ℕ
text_of opens = []
text_of lists = []
text_of (goes_to path) = path ++ 0 ∷ []
text_of (fetches path) = path ++ 0 ∷ []
text_of (sums path) = path ++ 0 ∷ []
text_of (stores path content) = path ++ 0 ∷ []

-- What the client sends behind the request.
abbrev pub behind : Request → List ℕ
behind opens = []
behind lists = []
behind (goes_to path) = []
behind (fetches path) = []
behind (sums path) = []
behind (stores path content) = message file_data 0 content

module _ {Disk : Type 0} (os : Os Disk) where
  -- The answer, from the state in the client's directory.
  abbrev pub answer : Server Disk → Request → List ℕ
  answer s opens = message open_reply 1 []
  answer s lists = (printed_answer list_reply (os.prints s.disk s.cwd ls_command)).1
  answer s (goes_to path) = message cd_reply (status_of (os.exists s.disk s.cwd (c_string path))) []
  answer s (fetches path) =
      (get_answer (os.exists s.disk s.cwd (c_string path))
        (os.reads s.disk s.cwd (c_string path))).1
  answer s (sums path) =
      (sha_answer (os.exists s.disk s.cwd (c_string path)) (sha_printed os s (c_string path))).1
  answer s (stores path content) = message put_reply 0 []

  -- The result of the handler, which the loop drops.
  abbrev pub result : Server Disk → Request → ℤ
  result s opens = pos 0
  result s lists = (printed_answer list_reply (os.prints s.disk s.cwd ls_command)).0
  result s (goes_to path) = pos 0
  result s (fetches path) =
      (get_answer (os.exists s.disk s.cwd (c_string path))
        (os.reads s.disk s.cwd (c_string path))).0
  result s (sums path) =
      (sha_answer (os.exists s.disk s.cwd (c_string path)) (sha_printed os s (c_string path))).0
  result s (stores path content) = (saved s.disk (os.writes s.disk s.cwd (c_string path) content)).0

  abbrev pub cwds_of : Server Disk → ℕ → Request → List FilePath
  cwds_of s fd opens = set s.cwds (fd2ind fd) s.dft_path
  cwds_of s fd lists = s.cwds
  cwds_of s fd (goes_to path) =
      cwds_after os s fd (c_string path) (os.exists s.disk s.cwd (c_string path))
  cwds_of s fd (fetches path) = s.cwds
  cwds_of s fd (sums path) = s.cwds
  cwds_of s fd (stores path content) = s.cwds

  abbrev pub disk_of : Server Disk → Request → Disk
  disk_of s opens = s.disk
  disk_of s lists = s.disk
  disk_of s (goes_to path) = s.disk
  disk_of s (fetches path) = s.disk
  disk_of s (sums path) = s.disk
  disk_of s (stores path content) =
      (saved s.disk (os.writes s.disk s.cwd (c_string path) content)).1

  -- The state after it: only the clients' directories and the disk change.
  abbrev pub after : Server Disk → ℕ → Request → Server Disk
  after s fd req = record s { cwds = cwds_of s fd req; disk = disk_of s req }

  -- What the shell prints fits its buffer, and so does the content of an upload.
  abbrev pub Bounded : Server Disk → Request → Type 0
  Bounded s opens = Unit
  Bounded s lists = Fits (os.prints s.disk s.cwd ls_command)
  Bounded s (goes_to path) = Unit
  Bounded s (fetches path) = Unit
  Bounded s (sums path) =
      (length (sha_command ++ os.canonical s.disk s.cwd (c_string path)) < max_buf)
      × Fits (sha_printed os s (c_string path))
  Bounded s (stores path content) = length content ≤ max_buf

  -- The handler that dispatch takes for the request does what is to be done.
  pub dispatch-answers :
      (req : Request) (m n fd : ℕ) (rest : List ℕ) (s : Server Disk) (links : ℕ → Link)
      → IsReady m (links fd)
      → (links fd).inbox ≡ behind req ++ rest
      → fd2ind fd < length s.cwds
      → Bounded s req
      → length (behind req) + length (answer s req) + n ≤ m
      → Serves n
          (dispatch os (type_of req) fd (c_string (text_of req)))
          fd
          (record s { links = links })
          (result s req)
          (record (after s fd req) { links = links })
          (behind req)
          (answer s req)
  unfolding dispatch type2ind
  dispatch-answers opens m n fd rest s links ready came inside bounded h =
      do_open-Serves m n fd _ (record s { links = links }) ready
        (omega (arith, length-message open_reply 1 [])) inside
  dispatch-answers lists m n fd rest s links ready came inside bounded h =
      do_ls-Serves os m n fd _ (record s { links = links }) ready (omega arith) bounded
  dispatch-answers (goes_to path) m n fd rest s links ready came inside bounded h =
      subst
        (λ p.
          Serves n (do_cd os fd p) fd (record s { links = links }) (pos 0)
            (record (after s fd (goes_to path)) { links = links }) [] (answer s (goes_to path)))
        (sym (c_string-append path []))
        (do_cd-Serves os m n fd (c_string path) (record s { links = links }) ready
          (omega (
            arith,
            length-message cd_reply (status_of (os.exists s.disk s.cwd (c_string path))) [],
          ))
          inside)
  dispatch-answers (fetches path) m n fd rest s links ready came inside bounded h =
      subst
        (λ p.
          Serves n (do_get os fd p) fd (record s { links = links }) (result s (fetches path))
            (record s { links = links }) [] (answer s (fetches path)))
        (sym (c_string-append path []))
        (do_get-Serves os m n fd (c_string path) (record s { links = links }) ready (omega arith))
  dispatch-answers (sums path) m n fd rest s links ready came inside bounded h =
      subst
        (λ p.
          Serves n (do_sha os fd p) fd (record s { links = links }) (result s (sums path))
            (record s { links = links }) [] (answer s (sums path)))
        (sym (c_string-append path []))
        (do_sha-Serves os m n fd (c_string path) (record s { links = links }) ready bounded.0
          bounded.1 (omega arith))
  dispatch-answers (stores path content) m n fd rest s links ready came inside bounded h =
      subst
        (λ p.
          Serves n (do_put os fd p) fd (record s { links = links }) (result s (stores path content))
            (record (after s fd (stores path content)) { links = links })
            (message file_data 0 content) (message put_reply 0 []))
        (sym (c_string-append path []))
        (do_put-Serves os m n fd 0 (c_string path) content rest (record s { links = links }) ready
          came (omega arith) bounded
          (omega (arith, length-message file_data 0 content, length-message put_reply 0 [])))

  -- One turn of the loop on the connection `fd`, whose client is in the directory `dir`: the server reads
  -- one request, and what belongs to it, and no byte more; it sends the answer of the specification and
  -- nothing else; and its state changes as the specification says, on this connection only, with the
  -- process back in the server's directory. The connection stays up for as many calls as bytes are moved,
  -- the request fits the buffer, what is printed is bounded, `cwds` has an entry for the client, and
  -- chdir finds that directory and the server's.
  pub serve_request-answers :
      (req : Request) (m n fd : ℕ) (rest : List ℕ) (path dir : FilePath) (s : Server Disk)
      → IsReady m (s.links fd)
      → (s.links fd).inbox ≡ message (type_of req) 0 (text_of req) ++ (behind req ++ rest)
      → length (text_of req) ≤ max_buf
      → Bounded (in_dir s dir) req
      → header_size
          + length (text_of req)
          + (length (behind req) + length (answer (in_dir s dir) req) + n)
        ≤ m
      → get_elem? s.cwds (fd2ind fd) ≡ some path
      → entered os s path ≡ some dir
      → os.enters (after (in_dir s dir) fd req).disk dir s.dft_path ≡ some s.dft_path
      → Serves n
          (serve_request os fd)
          fd
          s
          tt
          (in_dir (after (in_dir s dir) fd req) s.dft_path)
          (message (type_of req) 0 (text_of req) ++ behind req)
          (answer (in_dir s dir) req)
  serve_request-answers req m n fd rest path dir s ready came fits bounded h e e' back =
      serve_request-Serves os m (length (behind req) + length (answer s₀ req) + n) n fd
        (type_of req) 0 (text_of req) (behind req ++ rest) (behind req) (answer s₀ req) path dir
        (result s₀ req) s (after s₀ fd req) ready came (type_bound req) (omega arith) fits
        (omega arith) e e' back
        (λ l ready' came'.
          dispatch-answers req (length (behind req) + length (answer s₀ req) + n) n fd rest s₀
            (update s.links fd l) ready' came' (get_elem?-some s.cwds (fd2ind fd) path e) bounded
            (omega arith))
    where
      s₀ : Server Disk
      s₀ = in_dir s dir

      type_bound : (req : Request) → type_of req < 256
      type_bound opens = omega arith
      type_bound lists = omega arith
      type_bound (goes_to p) = omega arith
      type_bound (fetches p) = omega arith
      type_bound (sums p) = omega arith
      type_bound (stores p content) = omega arith
