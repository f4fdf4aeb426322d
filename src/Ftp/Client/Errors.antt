-- ===== src/Ftp/Client/Errors.antt =====
-- How an open of lab1/ftp_client.cpp ends.
use computer_system24fall.Common.{
  ◌∙◌, ℕ, ◌≡◌, refl, sym, subst, ap, Bool, true, false, not, ◌||◌, List, [], ◌∷◌, ◌++◌, Option,
  none, some, ◌==◌, if◌then◌else◌,
}
use computer_system24fall.Common.Int.{ℤ, pos, negsuc}
use computer_system24fall.Ftp.Exec.{
  >>=-returned, Outcome, returned, blocked, undefined, exited, Exec, pure, and_then, serror, ◌>>=◌,
}
use computer_system24fall.Ftp.Stream.{Link}
use computer_system24fall.Ftp.Message
use computer_system24fall.Ftp.Message.{max_buf, open_reply, open_request, Post}
use computer_system24fall.Ftp.Message.Open.{
  send_post-KeepsOpen, recv_post-KeepsOpen, send_post-shut,
}
use computer_system24fall.Ftp.Client.{
  send_post, Client, Dial, bad_address, refused, answered, Numerals, split_blank, dialled, dial,
  open_at, opened, greet, give_up, recv_post, do_open,
}

-- "Client(ip:port)>".
abbrev pub prompt_for : Numerals → List ℕ → ℤ → List ℕ
prompt_for c ip port =
    b'C'
    ∷ b'l'
    ∷ b'i'
    ∷ b'e'
    ∷ b'n'
    ∷ b't'
    ∷ b'('
    ∷ (ip ++ b':' ∷ (c.decimal port ++ b')' ∷ b'>' ∷ []))

module _ {Disk : Type 0} where
  -- What an open leaves as it is, however it ends.
  abbrev pub Kept : Client Disk → Client Disk → Type 0
  Kept s t = (t.running ≡ s.running) × (t.disk ≡ s.disk) × (t.output ≡ s.output)

  -- What it leaves as it is unless it succeeds.
  pub record Same (s t : Client Disk) : Type 0 where
    pub connected : t.connected ≡ s.connected
    pub prompt : t.prompt ≡ s.prompt
    pub kept : Kept s t

  -- The ends of an open that asks for `ip` and `port`: with 0 the client is connected on an open socket
  -- and shows the address; with -1 its socket is closed, and its flag and its prompt are as before, as they are while it
  -- waits.
  abbrev pub Ends : List ℕ → Client Disk → Outcome ℤ × Client Disk → Type 0
  Ends prompt s (returned (pos n), t) =
      (n ≡ 0) × (t.sock.is_open ≡ true) × (t.connected ≡ true) × (t.prompt ≡ prompt) × Kept s t
  Ends prompt s (returned (negsuc n), t) = (n ≡ 0) × (t.sock.is_open ≡ false) × Same s t
  Ends prompt s (blocked, t) = Same s t
  Ends prompt s (undefined, t) = Unit {0}
  Ends prompt s (exited, t) = Same s t

  give_up-Ends : (prompt : List ℕ) (s u : Client Disk) → Same s u → Ends prompt s (give_up u)
  unfolding give_up
  give_up-Ends prompt s u same =
      (refl, refl, record { connected = same.connected; prompt = same.prompt; kept = same.kept })

  module _ (c : Numerals) (ip : List ℕ) (port : ℤ) (s : Client Disk) where
    opened-Ends :
        (post : Post) (u : Client Disk)
        → Same s u
        → u.sock.is_open ≡ true
        → Ends (prompt_for c ip port) s (opened c ip port post u)
    unfolding opened
    opened-Ends post u same up =
        either (not (post.m_type == open_reply) || not (post.m_status == 1))
      where
        either :
            (b : Bool)
            → Ends (prompt_for c ip port) s (
                (if b then give_up else (λ v. (
                  returned (pos 0),
                  record v { connected = true; prompt = prompt_for c ip port },
                )))
                  u)
        either true = give_up-Ends (prompt_for c ip port) s u same
        either false = (refl, up, refl, refl, same.kept)

    -- A call on the socket, and what follows it.
    after_call :
        {A : Type 0} (r : Outcome A) (f : A → Exec (Client Disk) ℤ) (u : Client Disk)
        → Same s u
        → ((a : A) → Ends (prompt_for c ip port) s (f a u))
        → Ends (prompt_for c ip port) s (and_then r f u)
    after_call (returned a) f u same next = next a
    after_call blocked f u same next = same
    after_call undefined f u same next = tt
    after_call exited f u same next = same

    greet-Ends : (u : Client Disk) → Same s u → Ends (prompt_for c ip port) s (greet c ip port u)
    unfolding greet
    greet-Ends u same = by_sock u.sock.is_open refl
      where
        here : (l : Link) → Same s (record u { sock = l })
        here l = record { connected = same.connected; prompt = same.prompt; kept = same.kept }

        asked : Client Disk
        asked = record u { sock = (Message.send_post open_request [] 0 u.sock).1 }

        heard : Client Disk
        heard = (recv_post asked).1

        answer : Option Post → Exec (Client Disk) ℤ
        answer got = elim got [ none ↦ give_up | some post ↦ opened c ip port post ]

        next : ℤ → Exec (Client Disk) ℤ
        next sent = elim sent [ negsuc n ↦ give_up | pos n ↦ recv_post >>= answer ]

        heard_open : u.sock.is_open ≡ true → heard.sock.is_open ≡ true
        heard_open up =
            recv_post-KeepsOpen max_buf asked.sock
            ∙ send_post-KeepsOpen open_request 0 [] u.sock
            ∙ up

        read :
            u.sock.is_open ≡ true
            → (got : Option Post) → Ends (prompt_for c ip port) s (answer got heard)
        read up none = give_up-Ends (prompt_for c ip port) s heard (here heard.sock)
        read up (some post) = opened-Ends post heard (here heard.sock) (heard_open up)

        replied :
            u.sock.is_open ≡ true → (sent : ℤ) → Ends (prompt_for c ip port) s (next sent asked)
        replied up (negsuc n) = give_up-Ends (prompt_for c ip port) s asked (here asked.sock)
        replied up (pos n) = after_call (recv_post asked).0 answer heard (here heard.sock) (read up)

        by_sock :
            (up : Bool)
            → u.sock.is_open ≡ up
            → Ends (prompt_for c ip port) s ((send_post open_request [] >>= next) u)
        by_sock true up =
            after_call (Message.send_post open_request [] 0 u.sock).0 next asked (here asked.sock)
              (replied up)
        by_sock false down =
            subst (Ends (prompt_for c ip port) s)
              (sym (
                >>=-returned (send_post open_request []) next u u serror (
                  ap (λ (x : Outcome ℤ × Link). (x.0, record u { sock = x.1 }))
                    (send_post-shut open_request 0 [] u.sock down))))
              (give_up-Ends (prompt_for c ip port) s u same)

    dialled-Ends :
        (dials : List Dial) (u : Client Disk)
        → Same s u
        → Ends
            (prompt_for c ip port)
            s
            ((dialled dials >>= λ there. if there then greet c ip port else pure serror) u)
    dialled-Ends [] u same =
        (refl, refl, record { connected = same.connected; prompt = same.prompt; kept = same.kept })
    dialled-Ends (answered l ∷ rest) u same =
        greet-Ends (record u { sock = l; dials = rest })
          (record { connected = same.connected; prompt = same.prompt; kept = same.kept })
    dialled-Ends (bad_address ∷ rest) u same =
        (refl, refl, record { connected = same.connected; prompt = same.prompt; kept = same.kept })
    dialled-Ends (refused ∷ rest) u same =
        (refl, refl, record { connected = same.connected; prompt = same.prompt; kept = same.kept })

  pub do_open-Ends :
      (c : Numerals) (args ip port : List ℕ) (s : Client Disk)
      → split_blank args ≡ some (ip, port)
      → Ends (prompt_for c ip (c.atoi port)) s (do_open c (some args) s)
  unfolding do_open open_at dial
  do_open-Ends c args ip port s blank =
      subst
        (λ (o : Option (List ℕ × List ℕ)). Ends (prompt_for c ip (c.atoi port)) s (open_at c o s))
        (sym blank)
        (dialled-Ends c ip (c.atoi port) s s.dials s
          (record { connected = refl; prompt = refl; kept = (refl, refl, refl) }))
