-- ===== src/Ftp/Tests.antt =====
-- Runs of the programs of lab1 on small inputs.
pub mod Clients
mod Commands
mod Opening
use computer_system24fall.Common.{
  ℕ, ◌≡◌, refl, ap, true, false, List, [], ◌∷◌, ◌++◌, none, some, arith, ◌==◌, length, replicate,
}
use computer_system24fall.Common.Int.{pos}
use computer_system24fall.Ftp.Exec.{returned, undefined}
use computer_system24fall.Ftp.Stream.{moves, closes, Link, send_loop, ssend, srecv}
use computer_system24fall.Ftp.Message.{
  ftp_header, get_request, get_reply, cd_request, cd_reply, put_request, put_reply, file_data,
  send_post, recv_post,
}
use computer_system24fall.Ftp.Message.Roundtrip.{message, Receives, recv_post-send_post}
use computer_system24fall.Ftp.Message.Bounds.{IsDefined, srecv-IsDefined, recv_post-overruns}
use computer_system24fall.Ftp.Files.{FilePath, Os, c_string}
use computer_system24fall.Ftp.Talk.{IsReady, Talks}
use computer_system24fall.Ftp.Server.{Server, null_path}
use computer_system24fall.Ftp.Server.Main.{call_handler, dispatch, serve_request}
use computer_system24fall.Ftp.Server.Sent.{with_link, Serves}
use computer_system24fall.Ftp.Server.Table.{dispatch-handler_of}
use computer_system24fall.Ftp.Server.Answers.{goes_to, serve_request-answers}
use computer_system24fall.Ftp.Server.Isolation.Handlers.{Untouched}
use computer_system24fall.Ftp.Server.Isolation.{serve_request-Untouched}
use computer_system24fall.Ftp.Server.Closing.{serve_request-closed}
use computer_system24fall.Ftp.Client.{Client, refused, Numerals, default_prompt, do_get, do_put}
use computer_system24fall.Ftp.Client.Asking.{sock_port}
use computer_system24fall.Ftp.Session.{do_get-serve_request, do_put-serve_request}

-- A disk with one file, whose name is "a"; its bytes are the state.
abbrev pub small_os : Os (List ℕ)
small_os = record {
  exists = λ disk cwd path. length path == 1;
  canonical = λ disk cwd path. path;
  enters = λ disk cwd path. some path;
  reads = λ disk cwd path. some disk;
  writes = λ disk cwd path content. some content;
  prints = λ disk cwd command. some (b'a' ∷ []);
}

abbrev pub numerals : Numerals
numerals = record { atoi = λ text. pos (length text); decimal = λ port. b'0' ∷ [] }

-- Calls that move one byte each.
abbrev pub slow_link : List ℕ → Link
slow_link bytes = record {
  is_open = true;
  inbox = bytes;
  outbox = [];
  recvs = replicate 60 (moves 0);
  sends = replicate 60 (moves 0);
}

abbrev pub name_a : FilePath
name_a = b'a' ∷ []

abbrev pub content : List ℕ
content = 7 ∷ 8 ∷ []

-- The descriptor of the client is 5.
abbrev pub server : List ℕ → Server (List ℕ)
server bytes = record {
  cwds = null_path ∷ null_path ∷ null_path ∷ (b'd' ∷ []) ∷ null_path ∷ [];
  dft_path = b'r' ∷ [];
  cwd = b'r' ∷ [];
  disk = content;
  links = λ fd. slow_link bytes;
  watched = 5 ∷ [];
  calls = [];
}

abbrev pub client : List ℕ → Client (List ℕ)
client bytes = record {
  connected = true;
  running = true;
  prompt = default_prompt;
  sock = slow_link bytes;
  disk = content;
  cwd = [];
  output = [];
  dials = refused ∷ [];
  closes = [];
  junk = [];
}

pub slow_link-IsReady : (bytes : List ℕ) → IsReady 60 (slow_link bytes)
slow_link-IsReady bytes = record { up = refl; out_flows = tt; in_flows = tt }

recv_post-send_post_example :
    ((send_post get_request name_a 0 (slow_link [])).0 ≡ returned (pos 1))
    × Receives
        (recv_post 4)
        (slow_link (message get_request 0 name_a ++ 9 ∷ []))
        (record { m_type = get_request; m_status = 0; buf = name_a })
        (9 ∷ [])
        47
unfolding send_post ssend send_loop ftp_header
recv_post-send_post_example =
    recv_post-send_post 60 4 get_request 0 name_a (message get_request 0 name_a) (9 ∷ [])
      (slow_link []) (slow_link (message get_request 0 name_a ++ 9 ∷ [])) refl refl refl refl
      (omega arith) (omega arith) (omega arith) (omega arith) (omega arith) tt tt

recv_post-overruns_example :
    (recv_post 1 (slow_link (message file_data 0 content ++ []))).0 ≡ undefined
recv_post-overruns_example =
    recv_post-overruns 60 1 file_data 0 content [] (slow_link (message file_data 0 content ++ []))
      refl refl (omega arith) (omega arith) (omega arith) tt

srecv-IsDefined_example : IsDefined (srecv 2 2 (slow_link content)).0
srecv-IsDefined_example = srecv-IsDefined 2 2 (slow_link content) (omega arith)

dispatch-handler_of_example : dispatch small_os 0xAF ≡ call_handler small_os none
dispatch-handler_of_example = dispatch-handler_of small_os 0xAF

abbrev get_a : List ℕ
get_a = message get_request 0 (name_a ++ 0 ∷ [])

abbrev put_a : List ℕ
put_a = message put_request 0 (name_a ++ 0 ∷ [])

abbrev cd_a : List ℕ
cd_a = message cd_request 0 (name_a ++ 0 ∷ [])

abbrev file : List ℕ
file = message file_data 0 content

do_get-serve_request_example :
    Serves 0
      (serve_request small_os 5)
      5
      (server (get_a ++ []))
      tt
      (server (get_a ++ []))
      get_a
      (message get_reply 1 [] ++ file)
    × Talks 0
        (do_get small_os (some name_a))
        sock_port
        (client ((message get_reply 1 [] ++ file) ++ []))
        (pos 0)
        (client ((message get_reply 1 [] ++ file) ++ []))
        (message get_reply 1 [] ++ file)
        get_a
unfolding c_string
do_get-serve_request_example =
    do_get-serve_request small_os small_os 60 0 5 name_a content (b'd' ∷ []) (b'd' ∷ []) [] []
      (client ((message get_reply 1 [] ++ file) ++ [])) (server (get_a ++ [])) refl
      (slow_link-IsReady _) (slow_link-IsReady _) (record { entry = refl; place = refl }) refl refl
      refl (omega arith) (omega arith) refl refl

do_put-serve_request_example :
    Serves 0
      (serve_request small_os 5)
      5
      (server (put_a ++ (file ++ [])))
      tt
      (server (put_a ++ (file ++ [])))
      (put_a ++ file)
      (message put_reply 0 [])
    × Talks 0
        (do_put small_os (some name_a))
        sock_port
        (client (message put_reply 0 [] ++ []))
        (pos 0)
        (client (message put_reply 0 [] ++ []))
        (message put_reply 0 [])
        (put_a ++ file)
do_put-serve_request_example =
    do_put-serve_request small_os small_os 60 0 5 name_a content (b'd' ∷ []) (b'd' ∷ []) [] []
      (client (message put_reply 0 [] ++ [])) (server (put_a ++ (file ++ []))) refl
      (slow_link-IsReady _) (slow_link-IsReady _) (record { entry = refl; place = refl }) refl refl
      (omega arith) (omega arith) refl refl

serve_request-answers_example :
    Serves 0
      (serve_request small_os 5)
      5
      (server (cd_a ++ []))
      tt
      (record (server (cd_a ++ [])) {
        cwds = null_path ∷ null_path ∷ null_path ∷ name_a ∷ null_path ∷ [];
      })
      (cd_a ++ [])
      (message cd_reply 1 [])
unfolding c_string ftp_header
serve_request-answers_example =
    serve_request-answers small_os (goes_to name_a) 60 0 5 [] (b'd' ∷ []) (b'd' ∷ [])
      (server (cd_a ++ [])) (slow_link-IsReady _) refl (omega arith) tt (omega arith) refl refl refl

serve_cd-returns : (serve_request small_os 5 (server (cd_a ++ []))).0 ≡ returned tt
unfolding ftp_header
serve_cd-returns =
    ap (λ r. r.0)
      (serve_request-answers small_os (goes_to name_a) 60 0 5 [] (b'd' ∷ []) (b'd' ∷ [])
        (server (cd_a ++ [])) (slow_link-IsReady _) refl (omega arith) tt (omega arith) refl refl
        refl).1

serve_request-Untouched_example :
    Untouched 4
      (slow_link (cd_a ++ []))
      (some null_path)
      (b'r' ∷ [])
      5
      (serve_request small_os 5 (server (cd_a ++ []))).1
serve_request-Untouched_example =
    serve_request-Untouched small_os 4 5 (slow_link (cd_a ++ [])) (some null_path) (b'r' ∷ []) 5
      (λ e. omega (arith, e)) (λ e. omega (arith, e)) (server (cd_a ++ []))
      (record { table = refl; home = refl; link = refl; place = refl })
      (λ e. absurd (cc (e, serve_cd-returns)))

-- Where epoll_ctl fails and close succeeds.
abbrev unlucky : Server (List ℕ)
unlucky = record (server []) { calls = false ∷ true ∷ [] }

abbrev lost : Server (List ℕ)
lost = record (server []) { links = λ fd. record (slow_link []) { recvs = closes ∷ [] } }

serve_request-closed_example :
    serve_request small_os 5 lost
    ≡ (returned tt, with_link lost 5 (record (slow_link []) { recvs = [] }))
serve_request-closed_example = serve_request-closed small_os 5 [] lost refl refl
