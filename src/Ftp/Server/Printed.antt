-- ===== src/Ftp/Server/Printed.antt =====
-- What the handlers of lab1/ftp_server.cpp send that print through the shell: lists and sums.
use computer_system24fall.Common.{
  ℕ, ◌+◌, ◌≤◌, ◌<◌, ◌≡◌, refl, sym, subst, Bool, true, false, not, List, [], ◌∷◌, ◌++◌, Option,
  none, some, arith, ltb, ◌==◌, if◌then◌else◌, length, length-append, take-all,
}
use computer_system24fall.Common.Int.{ℤ, pos}
use computer_system24fall.Ftp.Exec.{Exec, pure, serror, undefined_here, fail_or, gets, ◌>>=◌}
use computer_system24fall.Ftp.Message.{max_buf, list_reply, sha_reply, file_data}
use computer_system24fall.Ftp.Message.Roundtrip.{message, length-message}
use computer_system24fall.Ftp.Files.{FilePath, Os}
use computer_system24fall.Ftp.Server.{
  Server, status_of, ls_command, sha_command, send_post, send_printed, do_ls, send_output, send_sum,
  do_sha,
}
use computer_system24fall.Ftp.Server.Sent.{with_link, port, Serves}
use computer_system24fall.Ftp.Talk.{IsReady, IsReady-le, pure-Talks, fail_or-Talks, send_last-Talks}

-- The bytes and the result of a listing: what the shell printed, if it ran.
abbrev pub printed_answer : ℕ → Option (List ℕ) → ℤ × List ℕ
printed_answer t none = (serror, [])
printed_answer t (some printed) = (pos 0, message t 0 (printed ++ 0 ∷ []))

abbrev pub Fits : Option (List ℕ) → Type 0
Fits none = Unit
Fits (some printed) = length printed < max_buf

-- The bytes and the result of a sum request, from whether the path exists and what the shell printed.
abbrev pub sha_answer : Bool → Option (List ℕ) → ℤ × List ℕ
sha_answer false printed = (pos 0, message sha_reply 0 [])
sha_answer true printed =
    let (r, sum) = printed_answer file_data printed in (r, message sha_reply 1 [] ++ sum)

module _ {Disk : Type 0} where
  -- What sha256sum prints for the path.
  abbrev pub sha_printed : Os Disk → Server Disk → FilePath → Option (List ℕ)
  sha_printed os s args = os.prints s.disk s.cwd (sha_command ++ os.canonical s.disk s.cwd args)

  module _ (os : Os Disk) where
    send_printed-Serves :
        (m n fd t : ℕ) (printed : List ℕ) (s : Server Disk)
        → IsReady m (s.links fd)
        → length (message t 0 (printed ++ 0 ∷ [])) + n ≤ m
        → length printed < max_buf
        → Serves n
            (send_printed os fd t printed)
            fd
            s
            (pos 0)
            s
            []
            (message t 0 (printed ++ 0 ∷ []))
    unfolding send_printed
    send_printed-Serves m n fd t printed s ready h fits =
        subst
          (λ (p : List ℕ).
            Serves n
              (if length p == max_buf
                then undefined_here
                else fail_or (send_post fd t (p ++ 0 ∷ []) 0) (pure (pos 0)))
              fd s (pos 0) s [] (message t 0 (printed ++ 0 ∷ [])))
          (sym (take-all max_buf printed (omega arith)))
          (subst
            (λ (b : Bool).
              Serves n
                (if b
                  then undefined_here
                  else fail_or (send_post fd t (printed ++ 0 ∷ []) 0) (pure (pos 0)))
                fd s (pos 0) s [] (message t 0 (printed ++ 0 ∷ [])))
            not_full
            (send_last-Talks m n (port fd) t 0 (printed ++ 0 ∷ []) s ready
              (omega (arith, length-message t 0 (printed ++ 0 ∷ [])))))
      where
        not_full : false ≡ (length printed == max_buf)
        not_full = ground arith

    send_output-Serves :
        (m n fd t : ℕ) (printed : Option (List ℕ)) (s : Server Disk)
        → IsReady m (s.links fd)
        → length (printed_answer t printed).1 + n ≤ m
        → Fits printed
        → Serves n
            (send_output os fd t printed)
            fd
            s
            (printed_answer t printed).0
            s
            []
            (printed_answer t printed).1
    send_output-Serves m n fd t none s ready h fits =
        pure-Talks n (port fd) s s serror (IsReady-le n m (s.links fd) (omega arith) ready) refl
          (pure serror) refl
    send_output-Serves m n fd t (some bytes) s ready h fits =
        send_printed-Serves m n fd t bytes s ready h fits

    -- A list request is answered with what the shell printed.
    pub do_ls-Serves :
        (m n fd : ℕ) (args : List ℕ) (s : Server Disk)
        → IsReady m (s.links fd)
        → length (printed_answer list_reply (os.prints s.disk s.cwd ls_command)).1 + n ≤ m
        → Fits (os.prints s.disk s.cwd ls_command)
        → Serves n
            (do_ls os fd args)
            fd
            s
            (printed_answer list_reply (os.prints s.disk s.cwd ls_command)).0
            s
            []
            (printed_answer list_reply (os.prints s.disk s.cwd ls_command)).1
    unfolding do_ls
    do_ls-Serves m n fd args s =
        send_output-Serves m n fd list_reply (os.prints s.disk s.cwd ls_command) s

    send_sum-Serves :
        (m n fd : ℕ) (args : List ℕ) (s : Server Disk)
        → IsReady m (s.links fd)
        → length (sha_command ++ os.canonical s.disk s.cwd args) < max_buf
        → length (printed_answer file_data (sha_printed os s args)).1 + n ≤ m
        → Fits (sha_printed os s args)
        → Serves n
            (send_sum os fd args)
            fd
            s
            (printed_answer file_data (sha_printed os s args)).0
            s
            []
            (printed_answer file_data (sha_printed os s args)).1
    unfolding send_sum
    send_sum-Serves m n fd args s ready short h fits =
        subst
          (λ (b : Bool). Serves n (if b then undefined_here else print) fd s answer.0 s [] answer.1)
          not_long (send_output-Serves m n fd file_data (sha_printed os s args) s ready h fits)
      where
        print : Exec (Server Disk) ℤ
        print = do
          printed ← gets (λ (x : Server Disk).
              os.prints x.disk x.cwd (sha_command ++ os.canonical s.disk s.cwd args))
          send_output os fd file_data printed

        answer : ℤ × List ℕ
        answer = printed_answer file_data (sha_printed os s args)

        not_long : false ≡ ltb max_buf (length (sha_command ++ os.canonical s.disk s.cwd args) + 1)
        not_long = ground arith

    -- A sum request is answered with whether the path exists, and if so with what sha256sum prints.
    pub do_sha-Serves :
        (m n fd : ℕ) (args : List ℕ) (s : Server Disk)
        → IsReady m (s.links fd)
        → length (sha_command ++ os.canonical s.disk s.cwd args) < max_buf
        → Fits (sha_printed os s args)
        → length (sha_answer (os.exists s.disk s.cwd args) (sha_printed os s args)).1 + n ≤ m
        → Serves n
            (do_sha os fd args)
            fd
            s
            (sha_answer (os.exists s.disk s.cwd args) (sha_printed os s args)).0
            s
            []
            (sha_answer (os.exists s.disk s.cwd args) (sha_printed os s args)).1
    unfolding do_sha
    do_sha-Serves m n fd args s ready short fits = answer (os.exists s.disk s.cwd args)
      where
        sum : ℤ × List ℕ
        sum = printed_answer file_data (sha_printed os s args)

        answer :
            (there : Bool)
            → length (sha_answer there (sha_printed os s args)).1 + n ≤ m
            → Serves n
                (fail_or
                  (send_post fd sha_reply [] (status_of there))
                  (if not there then pure (pos 0) else send_sum os fd args))
                fd
                s
                (sha_answer there (sha_printed os s args)).0
                s
                []
                (sha_answer there (sha_printed os s args)).1
        answer false h =
            send_last-Talks m n (port fd) sha_reply 0 [] s ready
              (omega (arith, length-message sha_reply 0 []))
        answer true h =
            fail_or-Talks m (length sum.1 + n) n (port fd) sha_reply 1 [] (send_sum os fd args) s s
              sum.0 [] sum.1 ready
              (omega (
                arith,
                length-message sha_reply 1 [],
                length-append (message sha_reply 1 []) sum.1,
              ))
              (λ l moved.
                send_sum-Serves (length sum.1 + n) n fd args (with_link s fd l) moved.ready short
                  (omega arith) fits)
