-- ===== src/Ftp/Server/History.antt =====
-- The loop of lab1/ftp_server.cpp on the requests of several clients, in any order.
pub mod Loop
use computer_system24fall.Common.{
  ℕ, ◌+◌, ◌≤◌, ◌<◌, ◌≡◌, List, [], ◌∷◌, ◌++◌, some, ◌==◌, if◌then◌else◌, length, get_elem?,
}
use computer_system24fall.Ftp.Stream.{Link}
use computer_system24fall.Ftp.Message.{max_buf}
use computer_system24fall.Ftp.Message.Roundtrip.{message}
use computer_system24fall.Ftp.Files.{FilePath, Os}
use computer_system24fall.Ftp.Talk.{IsReady}
use computer_system24fall.Ftp.Server.{Server, fd2ind}
use computer_system24fall.Ftp.Server.Main.{Event, serve}
use computer_system24fall.Ftp.Server.Requests.{in_dir, entered}
use computer_system24fall.Ftp.Server.Answers.{
  Request, type_of, text_of, behind, answer, after, Bounded,
}

-- The bytes of each descriptor, with `bytes` in front of those of `fd`.
abbrev pub front : ℕ → List ℕ → (ℕ → List ℕ) → ℕ → List ℕ
front fd bytes rest g = if fd == g then bytes ++ rest g else rest g

-- What a client sends for a request.
abbrev pub sent_for : Request → List ℕ
sent_for req = message (type_of req) 0 (text_of req) ++ behind req

-- The connection of each client that asks anything moves all its bytes.
abbrev pub AreReady : (ℕ → List ℕ) → (ℕ → List ℕ) → (ℕ → Link) → Type 0
AreReady asked given links =
    (g : ℕ) → 0 < length (asked g) → IsReady (length (asked g) + length (given g)) (links g)

module _ {Disk : Type 0} (os : Os Disk) where
  -- The state behind a turn of the loop for a client in `dir`.
  abbrev pub served : Server Disk → ℕ → Request → FilePath → Server Disk
  served s fd req dir = in_dir (after os (in_dir s dir) fd req) s.dft_path

  -- What each turn asks for: the request fits the buffer, as what is printed does, the client has a
  -- directory and chdir finds it and the way back.
  pub record Turn (s : Server Disk) (fd : ℕ) (req : Request) (path dir : FilePath) : Type 0 where
    pub fits : length (text_of req) ≤ max_buf
    pub bounded : Bounded os (in_dir s dir) req
    pub place : get_elem? s.cwds (fd2ind fd) ≡ some path
    pub enters : entered os s path ≡ some dir
    pub returns : os.enters (after os (in_dir s dir) fd req).disk dir s.dft_path ≡ some s.dft_path

  -- The requests in the order in which they are served, each with its descriptor; the states before
  -- and behind them; and by descriptor what the clients send and what they are answered.
  pub data History
      : List (ℕ × Request) → Server Disk → Server Disk → (ℕ → List ℕ) → (ℕ → List ℕ) → Type 0 where
    done : {s : Server Disk} → History [] s s (λ g. []) (λ g. [])
    turn :
        {fd : ℕ} {req : Request} {calls : List (ℕ × Request)} {s s' : Server Disk}
        {asked given : ℕ → List ℕ} {path dir : FilePath}
        → Turn s fd req path dir
        → History calls (served s fd req dir) s' asked given
        → History
            ((fd, req) ∷ calls)
            s
            s'
            (front fd (sent_for req) asked)
            (front fd (answer os (in_dir s dir) req) given)

  -- The loop goes on behind the requests in the state `s'`; each client's bytes are read up to
  -- `later`, and its answers were sent.
  pub record ServesAll (es : List Event) (m : List Event) (s s' : Server Disk)
      (given later : ℕ → List ℕ) (links : ℕ → Link) : Type 0 where
    pub links' : ℕ → Link
    pub runs : serve os m (record s { links = links }) ≡ serve os es (record s' { links = links' })
    pub inboxes : (g : ℕ) → (links' g).inbox ≡ later g
    pub outboxes : (g : ℕ) → (links' g).outbox ≡ (links g).outbox ++ given g
