-- ===== src/Ftp/Tests/Commands.antt =====
-- Commands of the client of lab1 on small inputs.
use computer_system24fall.Common.{◌≡◌, refl, ℕ, List, [], ◌∷◌, ◌++◌, some, none, arith}
use computer_system24fall.Ftp.Message.{
  get_request, get_reply, list_request, list_reply, sha_request, sha_reply, file_data,
}
use computer_system24fall.Ftp.Message.Roundtrip.{message}
use computer_system24fall.Ftp.Files.{Os, c_string}
use computer_system24fall.Ftp.Server.Main.{serve_request}
use computer_system24fall.Ftp.Server.Sent.{Serves}
use computer_system24fall.Ftp.Client.{do_get, do_ls, do_sha}
use computer_system24fall.Ftp.Client.Main.{get, to_lower, run_command, parseline}
use computer_system24fall.Ftp.Client.Asking.{sock_port}
use computer_system24fall.Ftp.Client.Lines.{parseline-spelled}
use computer_system24fall.Ftp.Client.Waiting.{Waits}
use computer_system24fall.Ftp.Client.Showing.{shows}
use computer_system24fall.Common.Int.{pos}
use computer_system24fall.Ftp.Talk.{Talks}
use computer_system24fall.Ftp.Session.Printed.{do_ls-serve_request, do_sha-serve_request}
use computer_system24fall.Ftp.Session.Unreadable.{do_get-unreadable}
use computer_system24fall.Ftp.Tests.{small_os, numerals, name_a, server, client, slow_link-IsReady}

parseline-spelled_example :
    parseline numerals small_os (b'G' ∷ b'e' ∷ b'T' ∷ b' ' ∷ b'a' ∷ [])
    ≡ run_command numerals small_os get (some name_a)
unfolding to_lower
parseline-spelled_example =
    parseline-spelled numerals small_os get (b'G' ∷ b'e' ∷ b'T' ∷ []) name_a refl

-- The one path is a directory.
abbrev directory_os : Os (List ℕ)
directory_os = record small_os { reads = λ disk cwd path. none }

abbrev get_a : List ℕ
get_a = message get_request 0 (name_a ++ 0 ∷ [])

do_get-unreadable_example :
    Serves 0
      (serve_request directory_os 5)
      5
      (server (get_a ++ []))
      tt
      (server (get_a ++ []))
      get_a
      (message get_reply 1 [])
    × Waits sock_port (do_get small_os (some name_a)) (client (message get_reply 1 [])) get_a
unfolding c_string
do_get-unreadable_example =
    do_get-unreadable directory_os small_os 60 5 name_a (b'd' ∷ []) (b'd' ∷ []) []
      (client (message get_reply 1 [])) (server (get_a ++ [])) refl (slow_link-IsReady _)
      (slow_link-IsReady _) (record { entry = refl; place = refl }) refl refl refl (omega arith)
      (omega arith) refl refl

abbrev ls_request : List ℕ
ls_request = message list_request 0 []

abbrev listing : List ℕ
listing = message list_reply 0 (name_a ++ 0 ∷ [])

do_ls-serve_request_example :
    Serves 0
      (serve_request small_os 5)
      5
      (server (ls_request ++ []))
      tt
      (server (ls_request ++ []))
      ls_request
      listing
    × Talks 0 do_ls sock_port
        (client (listing ++ []))
        (pos 0)
        (shows (client (listing ++ [])) name_a)
        listing
        ls_request
do_ls-serve_request_example =
    do_ls-serve_request small_os small_os 60 0 5 name_a (b'd' ∷ []) (b'd' ∷ []) [] []
      (client (listing ++ [])) (server (ls_request ++ [])) refl (slow_link-IsReady _)
      (slow_link-IsReady _) (record { entry = refl; place = refl }) refl refl (omega arith)
      (omega arith) refl refl

abbrev sha_a : List ℕ
sha_a = message sha_request 0 (name_a ++ 0 ∷ [])

abbrev sum : List ℕ
sum = message file_data 0 (name_a ++ 0 ∷ [])

do_sha-serve_request_example :
    Serves 0
      (serve_request small_os 5)
      5
      (server (sha_a ++ []))
      tt
      (server (sha_a ++ []))
      sha_a
      (message sha_reply 1 [] ++ sum)
    × Talks 0
        (do_sha (some name_a))
        sock_port
        (client (message sha_reply 1 [] ++ (sum ++ [])))
        (pos 0)
        (shows (client (message sha_reply 1 [] ++ (sum ++ []))) name_a)
        (message sha_reply 1 [] ++ sum)
        sha_a
unfolding c_string
do_sha-serve_request_example =
    do_sha-serve_request small_os small_os 60 0 5 name_a name_a (b'd' ∷ []) (b'd' ∷ []) [] []
      (client (message sha_reply 1 [] ++ (sum ++ []))) (server (sha_a ++ [])) refl
      (slow_link-IsReady _) (slow_link-IsReady _) (record { entry = refl; place = refl }) refl refl
      refl (omega arith) (omega arith) (omega arith) (omega arith) refl refl
