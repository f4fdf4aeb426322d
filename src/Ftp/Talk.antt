-- ===== src/Ftp/Talk.antt =====
-- Programs that keep a connection in their state: what they read and send on it, and what else they
-- change, while it stays up.
use computer_system24fall.Common.{
  ℕ, ◌+◌, ◌≤◌, ◌<◌, ◌^◌, ◌≡◌, refl, sym, ap, ◌∙◌, subst, true, List, [], ◌++◌, append_assoc,
  append-nil, Option, some, arith, length,
}
use computer_system24fall.Common.Int.{ℤ, pos, negsuc}
use computer_system24fall.Ftp.Exec.{Outcome, returned, Exec, pure, and_then, ◌>>=◌, fail_or, serror}
use computer_system24fall.Ftp.Stream.{Link}
use computer_system24fall.Ftp.Stream.Flow.{Flows, Flows-le}
use computer_system24fall.Ftp.Message.{header_size, Post, send_post, recv_post}
use computer_system24fall.Ftp.Message.Roundtrip.{message, send_post-Sends, recv_post-message}

-- The connection is open, and its next `n` calls move bytes both ways.
pub record IsReady (n : ℕ) (l : Link) : Type 0 where
  pub up : l.is_open ≡ true
  pub out_flows : Flows n l.sends
  pub in_flows : Flows n l.recvs

-- From `l` to `l'`, the bytes `taken` were read and the bytes `given` sent; the connection is ready for
-- `n` more.
pub record Moves (n : ℕ) (l l' : Link) (taken given : List ℕ) : Type 0 where
  pub inbox : l.inbox ≡ taken ++ l'.inbox
  pub outbox : l'.outbox ≡ l.outbox ++ given
  pub ready : IsReady n l'

pub IsReady-le : (m n : ℕ) (l : Link) → m ≤ n → IsReady n l → IsReady m l
IsReady-le m n l h r = record {
  up = r.up;
  out_flows = Flows-le m n l.sends h r.out_flows;
  in_flows = Flows-le m n l.recvs h r.in_flows;
}

pub Moves-trans :
    (m n : ℕ) (l l' l'' : Link) (taken given taken' given' : List ℕ)
    → Moves m l l' taken given
    → Moves n l' l'' taken' given'
    → Moves n l l'' (taken ++ taken') (given ++ given')
Moves-trans m n l l' l'' taken given taken' given' p q = record {
  inbox =
      p.inbox ∙ ap (λ (t : List ℕ). taken ++ t) q.inbox ∙ sym (append_assoc taken taken' l''.inbox);
  outbox =
      q.outbox ∙ ap (λ (t : List ℕ). t ++ given') p.outbox ∙ append_assoc l.outbox given given';
  ready = q.ready;
}

-- A place for a connection in a state.
pub record Port (S : Type 0) : Type 0 where
  pub view : S → Link
  pub put : S → Link → S
  pub put_put : (s : S) (l l' : Link) → put (put s l) l' ≡ put s l'
  pub put_view : (s : S) → put s (view s) ≡ s
  pub view_put : (s : S) (l : Link) → view (put s l) ≡ l

module _ {S : Type 0} where
  -- A call on the connection at `c`.
  abbrev pub at_port : {A : Type 0} → Port S → Exec Link A → Exec S A
  at_port c m s = let (r, l) = m (c.view s) in (r, c.put s l)

  -- `m` returns `r`; it reads `taken` and sends `given` at `c`, and else the state becomes `s'`.
  abbrev pub Talks : {A : Type 0} → ℕ → Exec S A → Port S → S → A → S → List ℕ → List ℕ → Type 0
  Talks n m c s r s' taken given =
      (l : Link) × (m s ≡ (returned r, c.put s' l)) × Moves n (c.view s) l taken given

  pub same-Talks :
      {A : Type 0} (n : ℕ) (c : Port S) (m m' : Exec (S) A) (s s' : S) (r : A)
      (taken given : List ℕ)
      → m s ≡ m' s
      → Talks n m' c s r s' taken given
      → Talks n m c s r s' taken given
  same-Talks n c m m' s s' r taken given e (l, e', moved) = (l, e ∙ e', moved)

  pub bytes-Talks :
      {A : Type 0} (n : ℕ) (c : Port S) (m : Exec (S) A) (s s' : S) (r : A)
      (taken given taken' given' : List ℕ)
      → taken ≡ taken'
      → given ≡ given'
      → Talks n m c s r s' taken given
      → Talks n m c s r s' taken' given'
  bytes-Talks n c m s s' r taken given taken' given' e e' serves =
      subst (λ x. Talks n m c s r s' taken' x) e' (subst (λ x. Talks n m c s r s' x given) e serves)

  pub pure-Talks :
      {A : Type 0} (n : ℕ) (c : Port S) (s s' : S) (r : A)
      → IsReady n (c.view s)
      → c.view s' ≡ c.view s
      → (m : Exec S A) → m s ≡ (returned r, s')
      → Talks n m c s r s' [] []
  pure-Talks n c s s' r ready same m e = (
    c.view s,
    e ∙ ap (λ x. (returned r, x)) (sym (c.put_view s') ∙ ap (c.put s') same),
    record { inbox = refl; outbox = sym (append-nil (c.view s).outbox); ready = ready },
  )

  -- A step, and what follows it.
  pub >>=-Talks :
      {A B : Type 0} (n n' : ℕ) (c : Port S) (m : Exec (S) A) (f : A → Exec (S) B) (s s₁ s' : S)
      (a : A) (r : B) (taken given taken' given' : List ℕ)
      → Talks n m c s a s₁ taken given
      → ((l : Link)
          → Moves n (c.view s) (c.view (c.put s₁ l)) taken given
          → Talks n' (f a) c (c.put s₁ l) r (c.put s' l) taken' given')
      → Talks n' (m >>= f) c s r s' (taken ++ taken') (given ++ given')
  >>=-Talks {A = A} n n' c m f s s₁ s' a r taken given taken' given' (l, e, moved) k =
      let moved' : Moves n (c.view s) (c.view (c.put s₁ l)) taken given =
        subst (λ x. Moves n (c.view s) x taken given) (sym (c.view_put s₁ l)) moved in
      let (l', e', moved'') = k l moved' in
      (
        l',
        ap (λ (x : Outcome A × S). and_then x.0 f x.1) e
            ∙ e'
            ∙ ap (λ x. (returned r, x)) (c.put_put s' l l'),
        Moves-trans n n' (c.view s) (c.view (c.put s₁ l)) l' taken given taken' given' moved'
            moved'',
      )

  pub send_post-Talks :
      (m n : ℕ) (c : Port S) (t st : ℕ) (buf : List ℕ) (s : S)
      → IsReady m (c.view s)
      → header_size + length buf + n ≤ m
      → Talks n (at_port c (send_post t buf st)) c s (pos (length buf)) s [] (message t st buf)
  send_post-Talks m n c t st buf s ready h =
      let l = c.view s in
      let (es, e, g) = send_post-Sends m t st buf l ready.up (omega arith) ready.out_flows in
      (
        record l { outbox = l.outbox ++ message t st buf; sends = es },
        ap (λ (x : Outcome ℤ × Link). (x.0, c.put s x.1)) e,
        record {
          inbox = refl;
          outbox = refl;
          ready = record {
            up = ready.up;
            out_flows = Flows-le n _ es (omega arith) g;
            in_flows = Flows-le n m l.recvs (omega arith) ready.in_flows;
          };
        },
      )

  -- A message that is sent, and what follows.
  pub fail_or-Talks :
      (m n n' : ℕ) (c : Port S) (t st : ℕ) (buf : List ℕ) (k : Exec (S) ℤ) (s s' : S) (r : ℤ)
      (taken given : List ℕ)
      → IsReady m (c.view s)
      → header_size + length buf + n ≤ m
      → ((l : Link)
          → Moves n (c.view s) (c.view (c.put s l)) [] (message t st buf)
          → Talks n' k c (c.put s l) r (c.put s' l) taken given)
      → Talks n'
          (fail_or (at_port c (send_post t buf st)) k)
          c
          s
          r
          s'
          taken
          (message t st buf ++ given)
  fail_or-Talks m n n' c t st buf k s s' r taken given ready h rest =
      >>=-Talks n n' c (at_port c (send_post t buf st))
        (λ x. elim x [ pos i ↦ k | negsuc i ↦ pure serror ]) s s s' (pos (length buf)) r []
        (message t st buf) taken given (send_post-Talks m n c t st buf s ready h) rest

  -- A message, and what follows without another.
  pub send_then-Talks :
      (m n : ℕ) (c : Port S) (t st : ℕ) (buf : List ℕ) (k : Exec (S) ℤ) (s s' : S) (r : ℤ)
      → IsReady m (c.view s)
      → header_size + length buf + n ≤ m
      → ((l : Link) → IsReady n (c.view (c.put s l)) → Talks n k c (c.put s l) r (c.put s' l) [] [])
      → Talks n (fail_or (at_port c (send_post t buf st)) k) c s r s' [] (message t st buf)
  send_then-Talks m n c t st buf k s s' r ready h rest =
      subst (λ x. Talks n (fail_or (at_port c (send_post t buf st)) k) c s r s' [] x)
        (append-nil (message t st buf))
        (fail_or-Talks m n n c t st buf k s s' r [] [] ready h (λ l moved. rest l moved.ready))

  -- A message, and then the end.
  pub send_last-Talks :
      (m n : ℕ) (c : Port S) (t st : ℕ) (buf : List ℕ) (s : S)
      → IsReady m (c.view s)
      → header_size + length buf + n ≤ m
      → Talks n
          (fail_or (at_port c (send_post t buf st)) (pure (pos 0)))
          c
          s
          (pos 0)
          s
          []
          (message t st buf)
  send_last-Talks m n c t st buf s ready h =
      send_then-Talks m n c t st buf (pure (pos 0)) s s (pos 0) ready h
        (λ l r. pure-Talks n c (c.put s l) (c.put s l) (pos 0) r refl (pure (pos 0)) refl)

  pub recv_post-Talks :
      (m n : ℕ) (c : Port S) (room t st : ℕ) (buf rest : List ℕ) (s : S)
      → IsReady m (c.view s)
      → (c.view s).inbox ≡ message t st buf ++ rest
      → t < 256
      → st < 256
      → length buf ≤ room
      → length buf < 2 ^ 31
      → header_size + length buf + n ≤ m
      → Talks n
          (at_port c (recv_post room))
          c
          s
          (some (record { m_type = t; m_status = st; buf = buf }))
          s
          (message t st buf)
          []
  recv_post-Talks m n c room t st buf rest s ready came ht hst fits small h =
      let l = c.view s in
      let (es, e, g) =
        recv_post-message m room t st buf rest l ready.up came ht hst fits small (omega arith)
          ready.in_flows in
      (
        record l { inbox = rest; recvs = es },
        ap (λ (x : Outcome (Option Post) × Link). (x.0, c.put s x.1)) e,
        record {
          inbox = came;
          outbox = sym (append-nil l.outbox);
          ready = record {
            up = ready.up;
            out_flows = Flows-le n m l.sends (omega arith) ready.out_flows;
            in_flows = Flows-le n _ es (omega arith) g;
          };
        },
      )
