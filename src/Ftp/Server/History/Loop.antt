-- ===== src/Ftp/Server/History/Loop.antt =====
-- The loop of lab1/ftp_server.cpp serves the requests of a history.
use computer_system24fall.Common.{
  append-cancel, ℕ, ◌+◌, ◌<◌, ◌≡◌, refl, sym, ap, ◌∙◌, subst, Bool, true, false, List, [], ◌∷◌,
  ◌++◌, append_assoc, append-nil, map, arith, ==_iff, ◌==◌, if◌then◌else◌, length, length-append,
}
use computer_system24fall.Ftp.Exec.{returned, >>=-returned}
use computer_system24fall.Ftp.Stream.{Link}
use computer_system24fall.Ftp.Message.{header_size}
use computer_system24fall.Ftp.Message.Roundtrip.{message, length-message}
use computer_system24fall.Ftp.Files.{FilePath, Os}
use computer_system24fall.Ftp.Talk.{IsReady, IsReady-le, Moves}
use computer_system24fall.Ftp.Server.{Server, update}
use computer_system24fall.Ftp.Server.Sent.{update_self}
use computer_system24fall.Ftp.Server.Main.{Event, ready, serve_event, serve_request, serve}
use computer_system24fall.Ftp.Server.Requests.{in_dir}
use computer_system24fall.Ftp.Server.Answers.{
  Request, type_of, text_of, behind, answer, serve_request-answers,
}
use computer_system24fall.Ftp.Server.History.{
  front, sent_for, AreReady, served, Turn, History, done, turn, ServesAll,
}

front_self :
    (fd : ℕ) (bytes : List ℕ) (rest : ℕ → List ℕ) → front fd bytes rest fd ≡ bytes ++ rest fd
front_self fd bytes rest = rw ((==_iff fd fd).1 refl) refl

front_other :
    (fd g : ℕ) (bytes : List ℕ) (rest : ℕ → List ℕ)
    → (fd == g) ≡ false
    → front fd bytes rest g ≡ rest g
front_other fd g bytes rest e = rw e refl

front-append :
    (fd : ℕ) (bytes : List ℕ) (rest : ℕ → List ℕ) (g : ℕ)
    → front fd bytes (λ g. []) g ++ rest g ≡ front fd bytes rest g
front-append fd bytes rest g = cases (fd == g)
  where
    cases :
        (b : Bool)
        → (if b then bytes ++ [] else []) ++ rest g ≡ (if b then bytes ++ rest g else rest g)
    cases true = ap (λ (x : List ℕ). x ++ rest g) (append-nil bytes)
    cases false = refl

-- A fact on each descriptor, from that of the turn and those of the others.
by_descriptor :
    (P : ℕ → Type 0) (fd : ℕ) → P fd → ((g : ℕ) → (fd == g) ≡ false → P g) → (g : ℕ) → P g
by_descriptor P fd mine others g = cases (fd == g) refl
  where
    cases : (b : Bool) → (fd == g) ≡ b → P g
    cases true e = subst P ((==_iff fd g).0 e) mine
    cases false e = others g e

module _ {Disk : Type 0} (os : Os Disk) where
  serve-ready :
      (fd : ℕ) (es : List Event) (s s' : Server Disk)
      → serve_request os fd s ≡ (returned tt, s')
      → serve os (ready fd ∷ es) s ≡ serve os es s'
  unfolding serve serve_event
  serve-ready fd es s s' e = >>=-returned (serve_request os fd) (λ _. serve os es) s s' tt e

  -- A turn serves the first request, and leaves the connections ready for the others.
  record Served (fd : ℕ) (s s' : Server Disk) (reply : List ℕ) (asked given later : ℕ → List ℕ)
      (links : ℕ → Link) : Type 0 where
    links' : ℕ → Link
    runs :
        serve_request os fd (record s { links = links })
        ≡ (returned tt, record s' { links = links' })
    came : (g : ℕ) → (links' g).inbox ≡ asked g ++ later g
    flows : AreReady asked given links'
    sent : (g : ℕ) → (links' g).outbox ≡ (links g).outbox ++ front fd reply (λ g. []) g

  Turn-Served :
      (s : Server Disk) (fd : ℕ) (req : Request) (path dir : FilePath)
      (asked given later : ℕ → List ℕ) (links : ℕ → Link)
      → Turn os s fd req path dir
      → ((g : ℕ) → (links g).inbox ≡ front fd (sent_for req) asked g ++ later g)
      → AreReady
          (front fd (sent_for req) asked)
          (front fd (answer os (in_dir s dir) req) given)
          links
      → Served fd s (served os s fd req dir) (answer os (in_dir s dir) req) asked given later links
  Turn-Served s fd req path dir asked given later links t came flows = record {
    links' = new;
    runs = step.1;
    came =
        by_descriptor (λ g. (new g).inbox ≡ asked g ++ later g) fd
          (ap (λ (x : Link). x.inbox) mine ∙ append-cancel bytes _ _ (sym step.2.inbox ∙ came_here))
          (λ g e.
            ap (λ (x : Link). x.inbox) (other g e)
            ∙ came g
            ∙ ap (λ (x : List ℕ). x ++ later g) (front_other fd g bytes asked e));
    flows =
        by_descriptor
          (λ g. 0 < length (asked g) → IsReady (length (asked g) + length (given g)) (new g)) fd
          (λ h. subst (IsReady n) (sym mine) step.2.ready) (λ g e h. others g e h);
    sent =
        by_descriptor (λ g. (new g).outbox ≡ (links g).outbox ++ front fd reply (λ g. []) g) fd
          (ap (λ (x : Link). x.outbox) mine
            ∙ step.2.outbox
            ∙ ap (λ (x : List ℕ). (links fd).outbox ++ x)
                (sym (front_self fd reply (λ g. []) ∙ append-nil reply)))
          (λ g e.
            ap (λ (x : Link). x.outbox) (other g e)
            ∙ sym (append-nil (links g).outbox)
            ∙ ap (λ (x : List ℕ). (links g).outbox ++ x)
                (sym (front_other fd g reply (λ g. []) e)));
  }
    where
      bytes : List ℕ
      bytes = sent_for req

      reply : List ℕ
      reply = answer os (in_dir s dir) req

      n : ℕ
      n = length (asked fd) + length (given fd)

      came_here : (links fd).inbox ≡ bytes ++ (asked fd ++ later fd)
      came_here =
          came fd
          ∙ ap (λ (x : List ℕ). x ++ later fd) (front_self fd bytes asked)
          ∙ append_assoc bytes (asked fd) (later fd)

      taken : length bytes ≡ header_size + length (text_of req) + length (behind req)
      taken = omega (
        arith,
        length-append (message (type_of req) 0 (text_of req)) (behind req),
        length-message (type_of req) 0 (text_of req),
      )

      m : ℕ
      m = length (front fd bytes asked fd) + length (front fd reply given fd)

      m_eq : m ≡ length bytes + length reply + n
      m_eq = omega (
        arith,
        ap (length {A = ℕ}) (front_self fd bytes asked),
        ap (length {A = ℕ}) (front_self fd reply given),
        length-append bytes (asked fd),
        length-append reply (given fd),
      )

      step :
          (l : Link) × (serve_request os fd (record s { links = links })
            ≡ (returned tt, record (served os s fd req dir) { links = update links fd l }))
          × Moves n (links fd) l bytes reply
      step =
          serve_request-answers os req m n fd (asked fd ++ later fd) path dir
            (record s { links = links })
            (flows fd (
              omega (
                arith,
                ap (length {A = ℕ}) (front_self fd bytes asked),
                length-append bytes (asked fd),
                taken,
              )))
            (came_here
              ∙ append_assoc (message (type_of req) 0 (text_of req)) (behind req)
                  (asked fd ++ later fd))
            t.fits t.bounded (omega (arith, m_eq, taken)) t.place t.enters t.returns

      new : ℕ → Link
      new = update links fd step.0

      mine : new fd ≡ step.0
      mine = update_self links fd step.0

      other : (g : ℕ) → (fd == g) ≡ false → new g ≡ links g
      other g e = rw e refl

      others :
          (g : ℕ)
          → (fd == g) ≡ false
          → 0 < length (asked g)
          → IsReady (length (asked g) + length (given g)) (new g)
      others g e h = subst (IsReady (length (asked g) + length (given g))) (sym (other g e)) (
          IsReady-le _ _ (links g)
            (omega (
              arith,
              ap (length {A = ℕ}) (front_other fd g bytes asked e),
              ap (length {A = ℕ}) (front_other fd g reply given e),
            ))
            (flows g (omega (arith, h, ap (length {A = ℕ}) (front_other fd g bytes asked e)))))

  -- Clients that send any number of requests other than QUIT, which the loop serves in any order, are each
  -- served as if alone on its connection: the server reads of each client its requests and what belongs to
  -- them, in their order and no byte more, and sends it the answers of the specification to them, in their
  -- order, and nothing else; and its state is that of the specification behind all the requests, in the
  -- order in which they were served. The conditions, for each request in the state of the specification in
  -- front of it: its text fits the buffer, printed output and uploads are bounded, the client has an entry in
  -- cwds, and chdir finds its directory and the way back. And each client's connection stays up for as many
  -- calls as its bytes both ways.
  pub serve-History :
      {calls : List (ℕ × Request)} {s s' : Server Disk} {asked given : ℕ → List ℕ}
      → History os calls s s' asked given
      → (es : List Event) (later : ℕ → List ℕ) (links : ℕ → Link)
      → ((g : ℕ) → (links g).inbox ≡ asked g ++ later g)
      → AreReady asked given links
      → ServesAll os es (map (λ c. ready c.0) calls ++ es) s s' given later links
  serve-History {s = s} done es later links came flows = record {
    links' = links;
    runs = refl;
    inboxes = came;
    outboxes = λ g. sym (append-nil (links g).outbox);
  }
  serve-History
        (turn {fd = fd} {req = req} {s = s} {asked = asked} {given = given} {path = path}
          {dir = dir} t rest)
        es later links came flows =
      let first = Turn-Served s fd req path dir asked given later links t came flows in
      let all = serve-History rest es later first.links' first.came first.flows in
      record {
        links' = all.links';
        runs = serve-ready fd _ (record s { links = links }) _ first.runs ∙ all.runs;
        inboxes = all.inboxes;
        outboxes = λ g.
            all.outboxes g
            ∙ ap (λ (x : List ℕ). x ++ given g) (first.sent g)
            ∙ append_assoc (links g).outbox (front fd reply (λ g. []) g) (given g)
            ∙ ap (λ (x : List ℕ). (links g).outbox ++ x) (front-append fd reply given g);
      }
    where
      reply : List ℕ
      reply = answer os (in_dir s dir) req
