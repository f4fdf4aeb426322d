-- ===== src/Ftp/Tests/Clients.antt =====
-- A run of the server's loop of lab1 for two clients.
use computer_system24fall.Common.{ℕ, ◌+◌, ◌≤◌, refl, List, [], ◌∷◌, ◌++◌, arith, length}
use computer_system24fall.Ftp.Stream.{Link}
use computer_system24fall.Ftp.Message.{ftp_header, get_reply, cd_reply, list_reply, file_data}
use computer_system24fall.Ftp.Message.Roundtrip.{message}
use computer_system24fall.Ftp.Files.{c_string}
use computer_system24fall.Ftp.Talk.{IsReady-le}
use computer_system24fall.Ftp.Server.{Server}
use computer_system24fall.Ftp.Server.Main.{ready}
use computer_system24fall.Ftp.Server.Answers.{goes_to, fetches, lists}
use computer_system24fall.Ftp.Server.History.{
  served, sent_for, front, History, turn, done, ServesAll,
}
use computer_system24fall.Ftp.Server.History.Loop.{serve-History}
use computer_system24fall.Ftp.Tests.{
  small_os, slow_link, name_a, content, server, slow_link-IsReady,
}

-- The clients on the descriptors 4 and 5; each sends one byte behind its requests.
abbrev asked : ℕ → List ℕ
asked =
    front 5 (sent_for (goes_to name_a))
      (front 4 (sent_for (fetches name_a)) (front 5 (sent_for lists) (λ g. [])))

abbrev given : ℕ → List ℕ
given = front 5 (message cd_reply 1 []) (
    front 4 (message get_reply 1 [] ++ message file_data 0 content)
      (front 5 (message list_reply 0 (b'a' ∷ 0 ∷ [])) (λ g. [])))

abbrev links : ℕ → Link
links g = slow_link (asked g ++ 9 ∷ [])

-- The client on 5 was in "d" and goes to "a".
abbrev gone_to : Server (List ℕ)
gone_to = served small_os (server []) 5 (goes_to name_a) (b'd' ∷ [])

abbrev fetched : Server (List ℕ)
fetched = served small_os gone_to 4 (fetches name_a) (b'r' ∷ [])

abbrev listed : Server (List ℕ)
listed = served small_os fetched 5 lists name_a

history :
    History small_os
      ((5, goes_to name_a) ∷ (4, fetches name_a) ∷ (5, lists) ∷ [])
      (server [])
      listed
      asked
      given
unfolding c_string
history =
    turn {dir = b'd' ∷ []}
      (record { fits = omega arith; bounded = tt; place = refl; enters = refl; returns = refl })
      (turn {dir = b'r' ∷ []}
        (record { fits = omega arith; bounded = tt; place = refl; enters = refl; returns = refl })
        (turn {dir = name_a}
          (record {
            fits = omega arith;
            bounded = omega arith;
            place = refl;
            enters = refl;
            returns = refl;
          })
          done))

short : (g : ℕ) → length (asked g) + length (given g) ≤ 60
unfolding ftp_header
short g = ground arith

serve-History_example :
    ServesAll small_os []
      (ready 5 ∷ ready 4 ∷ ready 5 ∷ [])
      (server [])
      listed
      given
      (λ g. 9 ∷ [])
      links
serve-History_example =
    serve-History small_os history [] (λ g. 9 ∷ []) links (λ g. refl)
      (λ g some_bytes. IsReady-le _ 60 (links g) (short g) (slow_link-IsReady _))
