-- ===== src/Rtp/System/Handshake.antt =====
-- The two establish_connection of lab2/src/sender.c and lab2/src/receiver.c: what transfer_data starts
-- from.
use computer_system24fall.Common.{
  ℕ, ◌<◌, ◌^◌, ◌≡◌, refl, sym, ap, inl, inr, Bool, List, [], ◌∷◌, arith, if-both, if◌then◌else◌,
  All, bit_or, ◌==◌, subst,
}
use computer_system24fall.Common.Int.{pos}
use computer_system24fall.Rtp.Seq.{seqnum_add, get_random_seqnum}
use computer_system24fall.Rtp.Seq.Ring.{seqnum_add-IsSeqnum}
use computer_system24fall.Rtp.Packet.{
  rtp_syn, rtp_ack, send_packet, Recv, Scode, accepted, invalid, timed_out, died, flags_of,
  seq_num_of,
}
use computer_system24fall.Rtp.Process.{
  Process, Outcome, returned, blocked, exited, overrun, ◌>>=◌, send, recv, await_reply, log_tries,
  is_reply, set_sock_recv_time, recv_s, send_ms, wait_s,
}
use computer_system24fall.Rtp.Process.Greeting.{Greets, sent-Known, await_reply-Greets}
use computer_system24fall.Rtp.Sender.{finish_connection}
use computer_system24fall.Rtp.Sender
use computer_system24fall.Rtp.Receiver.{await_syn}
use computer_system24fall.Rtp.Receiver
use computer_system24fall.Rtp.System.Truth.{SenderGreeting, ReceiverGreeting}

syn-SenderGreeting : (q : ℕ) → q < 2 ^ 32 → SenderGreeting (send_packet q rtp_syn [])
syn-SenderGreeting q h = (q, rtp_syn, refl, h, inl refl)

ack-SenderGreeting : (q : ℕ) → q < 2 ^ 32 → SenderGreeting (send_packet q rtp_ack [])
ack-SenderGreeting q h = (q, rtp_ack, refl, h, inr refl)

abbrev Greeted : ℕ → Outcome (Unit {0}) → Type 0
Greeted = Greets SenderGreeting

finish_connection-Greeted :
    (es : List Recv) (p : Process)
    → p.sqn ≡ 0
    → All SenderGreeting p.sent
    → Greeted 0 (finish_connection es p)
unfolding finish_connection recv send
finish_connection-Greeted [] p at a = a
finish_connection-Greeted (e ∷ es) p at a = after (recv p e).1
  where
    p' : Process
    p' = (recv p e).0

    last : Process
    last = if is_reply p'.sqn (bit_or rtp_ack rtp_syn) p' then send p' p'.sqn rtp_ack [] else p'

    Fine : Process → Type 0
    Fine q = (q.sqn ≡ 0) × All SenderGreeting q.sent

    last-Fine : Fine last
    last-Fine =
        if-both Fine (is_reply p'.sqn (bit_or rtp_ack rtp_syn) p') (send p' p'.sqn rtp_ack []) p'
          (at, sent-Known SenderGreeting 0 rtp_ack (ack-SenderGreeting 0 (omega arith)) p' at a)
          (at, a)

    after :
        (scode : Scode)
        → Greeted 0 (elim scode [
          | died ↦ exited p'
          | accepted ↦ returned tt last es
          | _ ↦ returned tt p' es
        ])
    after died = a
    after accepted = last-Fine
    after invalid = (at, a)
    after timed_out = (at, a)

-- The handshake of the sender, from a process that has sent greetings only: whatever comes, it sends
-- greetings only; and if it returns, `sqn` is 0, one behind INT32_MAX on the ring.
pub establish_connection-Greets :
    (ldebug : Bool) (p : Process) (es : List Recv)
    → All SenderGreeting p.sent
    → Greets SenderGreeting 0 (Sender.establish_connection ldebug p es)
unfolding Sender.establish_connection set_sock_recv_time get_random_seqnum
establish_connection-Greets ldebug p es a = after _ (
    await_reply-Greets SenderGreeting first rtp_syn syn ldebug (seqnum_add first (pos 1))
      (bit_or rtp_ack rtp_syn) es (log_tries ldebug 0) asked
      (unfold send set_sock_recv_time in refl)
      (sent-Known SenderGreeting first rtp_syn syn begun (unfold set_sock_recv_time in refl)
        (unfold set_sock_recv_time in a)))
  where
    first : ℕ
    first = get_random_seqnum

    syn : SenderGreeting (send_packet first rtp_syn [])
    syn = syn-SenderGreeting first (unfold get_random_seqnum in omega arith)

    begun : Process
    begun = set_sock_recv_time (record p { sqn = first }) 0 send_ms

    asked : Process
    asked = send begun begun.sqn rtp_syn []

    -- The process that answers, its `sqn` advanced.
    answering : Process → Process
    answering q =
        let r = set_sock_recv_time q recv_s 0 in record r { sqn = seqnum_add r.sqn (pos 1) }

    after :
        (o : Outcome (Unit {0}))
        → Greets SenderGreeting first o
        → Greeted 0 (
            o >>= λ _ q es'.
            finish_connection es' (send (answering q) (answering q).sqn rtp_ack []))
    after (returned u q es') g =
        finish_connection-Greeted es' (send (answering q) (answering q).sqn rtp_ack [])
          (unfold send in zero_next)
          (sent-Known SenderGreeting 0 rtp_ack (ack-SenderGreeting 0 (omega arith)) (answering q)
            zero_next (unfold set_sock_recv_time in g.1))
      where
        zero_next : (answering q).sqn ≡ 0
        zero_next =
            unfold set_sock_recv_time get_random_seqnum seqnum_add in
            ap (λ (t : ℕ). seqnum_add t (pos 1)) g.0
    after (blocked q) g = g
    after (exited q) g = g
    after (overrun q) g = g

-- How the receiver's handshake ends: having sent greetings only, with a `sqn` on the ring if it returns.
abbrev pub Answers : Outcome (Unit {0}) → Type 0
Answers (returned a p es) = (p.sqn < 2 ^ 31) × All ReceiverGreeting p.sent
Answers (blocked p) = All ReceiverGreeting p.sent
Answers (exited p) = All ReceiverGreeting p.sent
Answers (overrun p) = ⊥

-- Waiting for the SYN sends nothing.
abbrev Silent : Process → Outcome (Unit {0}) → Type 0
Silent p (returned a q es) = q.sent ≡ p.sent
Silent p (blocked q) = q.sent ≡ p.sent
Silent p (exited q) = q.sent ≡ p.sent
Silent p (overrun q) = ⊥

Silent-recv : (p : Process) (e : Recv) (o : Outcome (Unit {0})) → Silent (recv p e).0 o → Silent p o
unfolding recv
Silent-recv p e (returned a q es) h = h
Silent-recv p e (blocked q) h = h
Silent-recv p e (exited q) h = h
Silent-recv p e (overrun q) h = h

await_syn-Silent : (es : List Recv) (p : Process) → Silent p (await_syn es p)
unfolding await_syn recv
await_syn-Silent [] p = refl
await_syn-Silent (e ∷ es) p = after (await_syn-Silent es (recv p e).0) (recv p e).1
  where
    p' : Process
    p' = (recv p e).0

    after :
        Silent p' (await_syn es p')
        → (scode : Scode)
        → Silent p (elim scode [
          | died ↦ exited p'
          | timed_out ↦ exited p'
          | accepted ↦ if flags_of p'.packet == rtp_syn then returned tt p' es else await_syn es p'
          | invalid ↦ await_syn es p'
        ])
    after g died = refl
    after g timed_out = refl
    after g accepted =
        if-both (Silent p) (flags_of p'.packet == rtp_syn) (returned tt p' es) (await_syn es p')
          refl (Silent-recv p e (await_syn es p') g)
    after g invalid = Silent-recv p e (await_syn es p') g

-- The handshake of the receiver, from a process that has sent greetings only: whatever comes, it sends
-- greetings only; and if it returns, `sqn` is a number on the ring.
pub establish_connection-Answers :
    (ldebug : Bool) (p : Process) (es : List Recv)
    → All ReceiverGreeting p.sent
    → Answers (Receiver.establish_connection ldebug p es)
unfolding Receiver.establish_connection set_sock_recv_time
establish_connection-Answers ldebug p es a =
    after (await_syn es (set_sock_recv_time p wait_s 0))
      (await_syn-Silent es (set_sock_recv_time p wait_s 0))
  where
    -- The process that answers the SYN in its packet.
    answering : Process → Process
    answering q =
        set_sock_recv_time (record q { sqn = seqnum_add (seq_num_of q.packet) (pos 1) }) 0 send_ms

    replied : Process → List Recv → Outcome (Unit {0})
    replied q es' =
        await_reply ldebug (answering q).sqn rtp_ack (bit_or rtp_ack rtp_syn) es'
          (log_tries ldebug 0) (send (answering q) (answering q).sqn (bit_or rtp_ack rtp_syn) [])

    stands :
        (base : ℕ)
        → base < 2 ^ 31
        → (o : Outcome (Unit {0})) → Greets ReceiverGreeting base o
        → Answers o
    stands base l (returned u q es') g = (omega (arith, g.0), g.1)
    stands base l (blocked q) g = g
    stands base l (exited q) g = g
    stands base l (overrun q) g = g

    replied-Answers :
        (q : Process) (es' : List Recv) → All ReceiverGreeting q.sent → Answers (replied q es')
    replied-Answers q es' sent = stands number small (replied q es') (
        await_reply-Greets ReceiverGreeting number flags greeting ldebug (answering q).sqn rtp_ack
          es' (log_tries ldebug 0) (send (answering q) (answering q).sqn flags [])
          (unfold send in refl)
          (sent-Known ReceiverGreeting number flags greeting (answering q) refl sent))
      where
        flags : ℕ
        flags = bit_or rtp_ack rtp_syn

        number : ℕ
        number = seqnum_add (seq_num_of q.packet) (pos 1)

        small : number < 2 ^ 31
        small = seqnum_add-IsSeqnum (seq_num_of q.packet) (pos 1)

        greeting : ReceiverGreeting (send_packet number flags [])
        greeting = (number, refl, omega (arith, small))

    after : (o : Outcome (Unit {0})) → Silent p o → Answers (o >>= λ _ q es'. replied q es')
    after (returned u q es') h = replied-Answers q es' (subst (All ReceiverGreeting) (sym h) a)
    after (blocked q) h = subst (All ReceiverGreeting) (sym h) a
    after (exited q) h = subst (All ReceiverGreeting) (sym h) a
    after (overrun q) h = h
