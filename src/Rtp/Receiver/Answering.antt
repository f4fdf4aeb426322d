-- ===== src/Rtp/Receiver/Answering.antt =====
-- The two handshakes of lab2/src/receiver.c on a network that loses nothing.
use computer_system24fall.Common.{
  ℕ, ◌^◌, ◌<◌, ◌≡◌, ◌≢◌, refl, sym, ap, ◌∙◌, subst, Bool, List, [], ◌∷◌, ◌++◌, arith, bit_or,
}
use computer_system24fall.Common.Int.{pos}
use computer_system24fall.Rtp.Seq.{get_random_seqnum, seqnum_add}
use computer_system24fall.Rtp.Packet.{
  recv_packet, eagain, rtp_syn, rtp_ack, rtp_fin, seq_num_of, flags_of, send_packet, Scode, Recv,
  failed, datagram,
}
use computer_system24fall.Rtp.Process.{
  Process, Outcome, returned, ◌>>=◌, send, recv, log_tries, await_reply, set_sock_recv_time,
  send_ms, recv_s, wait_s,
}
use computer_system24fall.Rtp.Process.Passes.{
  Passes, sent-Passes, same-Passes, await_reply-Passes, Took, recv-Took, first_log,
}
use computer_system24fall.Rtp.Receiver.{
  await_syn, establish_connection, await_fin, finish_break, break_connection,
}

await_syn-syn :
    (p q : Process) (seq : ℕ) (es : List Recv)
    → Took p seq rtp_syn q
    → await_syn (datagram (send_packet seq rtp_syn []) ∷ es) p ≡ returned tt q es
unfolding await_syn
await_syn-syn p q seq es t =
    rw
      (
        await_syn,
        ap (λ (r : Process × Scode). r.1) t.taken,
        ap (λ (r : Process × Scode). flags_of r.0.packet) t.taken ∙ t.flags,
      )
      (ap (λ (r : Process × Scode). returned tt r.0 es) t.taken)

await_fin-fin :
    (p q : Process) (seq : ℕ) (es : List Recv)
    → Took p seq rtp_fin q
    → await_fin (datagram (send_packet seq rtp_fin []) ∷ es) p ≡ returned tt q es
unfolding await_fin
await_fin-fin p q seq es t =
    rw
      (
        await_fin,
        ap (λ (r : Process × Scode). r.1) t.taken,
        ap (λ (r : Process × Scode). flags_of r.0.packet) t.taken ∙ t.flags,
      )
      (ap (λ (r : Process × Scode). returned tt r.0 es) t.taken)

-- establish_connection when a SYN comes and then the ACK of its answer: it sends the one answer, `sqn` is
-- then 0, and what comes later is unread.
pub establish_connection-Passes :
    (ldebug : Bool) (p : Process) (es : List Recv)
    → p.errno ≢ eagain
    → Passes p (send_packet 0 (bit_or rtp_ack rtp_syn) [] ∷ []) 0 es tt (
        establish_connection ldebug p (
          datagram (send_packet get_random_seqnum rtp_syn [])
          ∷ datagram (send_packet 0 rtp_ack [])
          ∷ es))
unfolding establish_connection send set_sock_recv_time get_random_seqnum seqnum_add
establish_connection-Passes ldebug p es fresh =
    same-Passes p (send_packet 0 (bit_or rtp_ack rtp_syn) [] ∷ []) 0 es tt _ _
      (ap (λ x. x >>= answer) (await_syn-syn waiting q get_random_seqnum _ t))
      (subst answered (sym (ap (λ (x : ℕ). seqnum_add x (pos 1)) t.number)) (
        sent-Passes p _ (send_packet 0 (bit_or rtp_ack rtp_syn) []) [] 0 es tt _
          (ap (λ (x : List (List ℕ)). x ++ send_packet 0 (bit_or rtp_ack rtp_syn) [] ∷ [])
            t.same_sent)
          (await_reply-Passes ldebug 0 rtp_ack (bit_or rtp_ack rtp_syn) es (log_tries ldebug 0)
            (ready 0) (first_log ldebug) (omega arith) (omega arith) t.fresh)))
  where
    waiting : Process
    waiting = set_sock_recv_time p wait_s 0

    q : Process
    q = (recv waiting (datagram (send_packet get_random_seqnum rtp_syn []))).0

    t : Took waiting get_random_seqnum rtp_syn q
    t = recv-Took waiting get_random_seqnum rtp_syn (omega arith) (omega arith) fresh

    ready : ℕ → Process
    ready n =
        let r = set_sock_recv_time (record q { sqn = n }) 0 send_ms in
        send r r.sqn (bit_or rtp_ack rtp_syn) []

    answer : Unit {0} → Process → List Recv → Outcome (Unit {0})
    answer _ p' es' =
        let r =
          set_sock_recv_time (record p' { sqn = seqnum_add (seq_num_of p'.packet) (pos 1) }) 0
            send_ms in
        await_reply ldebug r.sqn rtp_ack (bit_or rtp_ack rtp_syn) es' (log_tries ldebug 0)
          (send r r.sqn (bit_or rtp_ack rtp_syn) [])

    answered : ℕ → Type 0
    answered n = Passes p (send_packet 0 (bit_or rtp_ack rtp_syn) [] ∷ []) 0 es tt (
        await_reply ldebug n rtp_ack (bit_or rtp_ack rtp_syn)
          (datagram (send_packet 0 rtp_ack []) ∷ es) (log_tries ldebug 0) (ready n))

-- break_connection when one more FIN comes and then no other: it sends the one answer.
pub break_connection-Passes :
    (p : Process) (n : ℕ) (es : List Recv)
    → p.errno ≢ eagain
    → n < 2 ^ 32
    → Passes p
        (send_packet n (bit_or rtp_ack rtp_fin) [] ∷ [])
        n
        es
        tt
        (break_connection p (datagram (send_packet n rtp_fin []) ∷ failed eagain ∷ es))
unfolding break_connection finish_break send set_sock_recv_time recv_packet recv
break_connection-Passes p n es fresh small =
    same-Passes p (send_packet n (bit_or rtp_ack rtp_fin) [] ∷ []) n es tt _ _
      (ap (λ x. x >>= answer) (await_fin-fin waiting q n _ t))
      (record {
        end = _;
        ends = refl;
        sqn_eq = t.number;
        sent_eq = ap (λ (x : ℕ). p.sent ++ send_packet x (bit_or rtp_ack rtp_fin) [] ∷ []) t.number;
        fresh = λ stale. absurd (omega (arith, stale));
      })
  where
    waiting : Process
    waiting = set_sock_recv_time p wait_s 0

    q : Process
    q = (recv waiting (datagram (send_packet n rtp_fin []))).0

    t : Took waiting n rtp_fin q
    t = recv-Took waiting n rtp_fin small (omega arith) fresh

    answer : Unit {0} → Process → List Recv → Outcome (Unit {0})
    answer _ p' es' =
        let r = set_sock_recv_time p' recv_s 0 in
        let r' = record r { sqn = seq_num_of r.packet } in
        finish_break es' (send r' r'.sqn (bit_or rtp_ack rtp_fin) [])
