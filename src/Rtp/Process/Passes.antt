-- ===== src/Rtp/Process/Passes.antt =====
-- Functions of lab2/src that read the socket and return: what they leave unread, and what they sent.
use computer_system24fall.Common.{
  ℕ, ◌^◌, ◌≤◌, ◌<◌, ◌≡◌, ◌≢◌, refl, sym, ap, ◌∙◌, Bool, true, false, List, [], ◌∷◌, ◌++◌,
  append_assoc, append-nil, arith, le→ltb,
}
use computer_system24fall.Rtp.Packet.{
  recv_packet, eagain, seq_num_of, flags_of, send_packet, Recv, failed, datagram, Scode, accepted,
}
use computer_system24fall.Rtp.Packet.Roundtrip.{recv_packet-send_packet}
use computer_system24fall.Rtp.Process.{
  Process, Outcome, returned, ◌>>=◌, send, recv, log_tries, is_reply, await_reply, send_tr,
}

-- A call on the process `p` returns `a`, with `es` unread; it sent `ds`, `sqn` is then `n`, and errno is
-- not EAGAIN.
pub record Passes {ℓ} {A : Type ℓ} (p : Process) (ds : List (List ℕ)) (n : ℕ) (es : List Recv)
    (a : A) (o : Outcome A) : Type ℓ where
  pub end : Process
  pub ends : o ≡ returned a end es
  pub sqn_eq : end.sqn ≡ n
  pub sent_eq : end.sent ≡ p.sent ++ ds
  pub fresh : end.errno ≢ eagain

pub >>=-Passes {ℓ κ} :
    {A : Type ℓ} {B : Type κ} (p : Process) (ds ds' : List (List ℕ)) (n n' : ℕ) (es es' : List Recv)
    (a : A) (b : B) (o : Outcome A) (f : A → Process → List Recv → Outcome B)
    → Passes p ds n es a o
    → ((q : Process) → q.sqn ≡ n → q.errno ≢ eagain → Passes q ds' n' es' b (f a q es))
    → Passes p (ds ++ ds') n' es' b (o >>= f)
>>=-Passes p ds ds' n n' es es' a b o f first later = record {
  end = last.end;
  ends = ap (λ x. x >>= f) first.ends ∙ last.ends;
  sqn_eq = last.sqn_eq;
  sent_eq =
      last.sent_eq
      ∙ ap (λ (x : List (List ℕ)). x ++ ds') first.sent_eq
      ∙ append_assoc p.sent ds ds';
  fresh = last.fresh;
}
  where
    last : Passes first.end ds' n' es' b (f a first.end es)
    last = later first.end first.sqn_eq first.fresh

-- A datagram that was sent before the call.
pub sent-Passes {ℓ} :
    {A : Type ℓ} (p q : Process) (d : List ℕ) (ds : List (List ℕ)) (n : ℕ) (es : List Recv) (a : A)
    (o : Outcome A)
    → q.sent ≡ p.sent ++ d ∷ []
    → Passes q ds n es a o
    → Passes p (d ∷ ds) n es a o
sent-Passes p q d ds n es a o e r = record {
  end = r.end;
  ends = r.ends;
  sqn_eq = r.sqn_eq;
  sent_eq = r.sent_eq ∙ ap (λ (x : List (List ℕ)). x ++ ds) e ∙ append_assoc p.sent (d ∷ []) ds;
  fresh = r.fresh;
}

pub same-Passes {ℓ} :
    {A : Type ℓ} (p : Process) (ds : List (List ℕ)) (n : ℕ) (es : List Recv) (a : A)
    (o o' : Outcome A)
    → o ≡ o'
    → Passes p ds n es a o'
    → Passes p ds n es a o
same-Passes p ds n es a o o' e r = record {
  end = r.end;
  ends = e ∙ r.ends;
  sqn_eq = r.sqn_eq;
  sent_eq = r.sent_eq;
  fresh = r.fresh;
}

-- A packet without payload that comes whole.
pub record Took (p : Process) (seq flgs : ℕ) (q : Process) : Type 0 where
  pub taken : recv p (datagram (send_packet seq flgs [])) ≡ (q, accepted)
  pub same_sqn : q.sqn ≡ p.sqn
  pub same_sent : q.sent ≡ p.sent
  pub fresh : q.errno ≢ eagain
  pub number : seq_num_of q.packet ≡ seq
  pub flags : flags_of q.packet ≡ flgs

pub recv-Took :
    (p : Process) (seq flgs : ℕ)
    → seq < 2 ^ 32
    → flgs < 2 ^ 8
    → p.errno ≢ eagain
    → Took p seq flgs (recv p (datagram (send_packet seq flgs []))).0
unfolding recv
recv-Took p seq flgs small_seq small fresh =
    let f =
      recv_packet-send_packet seq flgs [] small_seq small tt (omega arith) p.errno p.packet fresh in
    record {
      taken = ap (λ (c : Scode). ((recv p (datagram (send_packet seq flgs []))).0, c)) f.0;
      same_sqn = refl;
      same_sent = refl;
      fresh = λ stale. fresh (sym f.1 ∙ stale);
      number = f.2;
      flags = f.4;
    }

is_reply-same :
    (seq flgs : ℕ) (q : Process)
    → seq_num_of q.packet ≡ seq
    → flags_of q.packet ≡ flgs
    → is_reply seq flgs q ≡ true
unfolding is_reply
is_reply-same seq flgs q number flags = ground (arith, number, flags)

module _ (ldebug : Bool) (seq flgs own_flgs : ℕ) where
  -- The reply that is awaited.
  pub await_reply-reply :
      (es : List Recv) (tries : ℕ) (p q : Process)
      → tries ≤ send_tr
      → Took p seq flgs q
      → await_reply ldebug seq flgs own_flgs (datagram (send_packet seq flgs []) ∷ es) tries p
        ≡ returned tt q es
  unfolding await_reply
  await_reply-reply es tries p q few t =
      rw
        (
          le→ltb send_tr tries few,
          ap (λ (r : Process × Scode). r.1) t.taken,
          ap (λ (r : Process × Scode). is_reply seq flgs r.0) t.taken
              ∙ is_reply-same seq flgs q t.number t.flags,
        )
        (ap (λ (r : Process × Scode). returned tt r.0 es) t.taken)

  -- A timeout sends once more.
  pub await_reply-timeout :
      (es : List Recv) (tries : ℕ) (p : Process)
      → tries ≤ send_tr
      → await_reply ldebug seq flgs own_flgs (failed eagain ∷ es) tries p
        ≡ await_reply ldebug seq flgs own_flgs es
            (log_tries ldebug tries)
            (send (record p { errno = 0 }) p.sqn own_flgs [])
  unfolding await_reply recv recv_packet
  await_reply-timeout es tries p few = rw (le→ltb send_tr tries few) refl

  pub await_reply-Passes :
      (es : List Recv) (tries : ℕ) (p : Process)
      → tries ≤ send_tr
      → seq < 2 ^ 32
      → flgs < 2 ^ 8
      → p.errno ≢ eagain
      → Passes p [] p.sqn es tt
          (await_reply ldebug seq flgs own_flgs (datagram (send_packet seq flgs []) ∷ es) tries p)
  await_reply-Passes es tries p few small_seq small fresh =
      let t = recv-Took p seq flgs small_seq small fresh in
      record {
        end = _;
        ends = await_reply-reply es tries p _ few t;
        sqn_eq = t.same_sqn;
        sent_eq = t.same_sent ∙ sym (append-nil p.sent);
        fresh = t.fresh;
      }

-- The tries that the first two sends count.
pub first_log : (ldebug : Bool) → log_tries ldebug 0 ≤ send_tr
unfolding log_tries
first_log true = omega arith
first_log false = omega arith

pub second_log : (ldebug : Bool) → log_tries ldebug (log_tries ldebug 0) ≤ send_tr
unfolding log_tries
second_log true = omega arith
second_log false = omega arith
