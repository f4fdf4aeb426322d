-- ===== src/Rtp/Sender/Closing.antt =====
-- The two handshakes of lab2/src/sender.c on a network that loses nothing.
use computer_system24fall.Common.{
  ℕ, ◌^◌, ◌<◌, ◌≢◌, refl, ap, Bool, List, [], ◌∷◌, ◌++◌, arith, bit_or,
}
use computer_system24fall.Common.Int.{pos}
use computer_system24fall.Rtp.Seq.{get_random_seqnum, seqnum_add}
use computer_system24fall.Rtp.Packet.{
  recv_packet, eagain, rtp_syn, rtp_ack, rtp_fin, send_packet, Recv, failed, datagram,
}
use computer_system24fall.Rtp.Process.{Process, send, recv, log_tries, set_sock_recv_time, send_ms}
use computer_system24fall.Rtp.Process.Passes.{
  Passes, >>=-Passes, sent-Passes, same-Passes, await_reply-Passes, first_log, second_log,
  await_reply-timeout,
}
use computer_system24fall.Rtp.Sender.{finish_connection, establish_connection, break_connection}

-- establish_connection when the answer to its SYN comes, and no other behind it: it sends the SYN and
-- the ACK, `sqn` is then 0, and what comes later is unread.
pub establish_connection-Passes :
    (ldebug : Bool) (p : Process) (es : List Recv)
    → p.errno ≢ eagain
    → Passes p (send_packet get_random_seqnum rtp_syn [] ∷ send_packet 0 rtp_ack [] ∷ []) 0 es tt (
        establish_connection ldebug p
          (datagram (send_packet 0 (bit_or rtp_ack rtp_syn) []) ∷ failed eagain ∷ es))
unfolding establish_connection finish_connection send set_sock_recv_time get_random_seqnum
    seqnum_add recv recv_packet
establish_connection-Passes ldebug p es fresh =
    >>=-Passes p (send_packet get_random_seqnum rtp_syn [] ∷ []) (send_packet 0 rtp_ack [] ∷ [])
      get_random_seqnum 0 (failed eagain ∷ es) es tt tt _ _
      (sent-Passes p _ (send_packet get_random_seqnum rtp_syn []) [] get_random_seqnum
        (failed eagain ∷ es) tt _ refl
        (await_reply-Passes ldebug 0 (bit_or rtp_ack rtp_syn) rtp_syn (failed eagain ∷ es)
          (log_tries ldebug 0) _ (first_log ldebug) (omega arith) (omega arith) fresh))
      (λ q at _. record {
        end = _;
        ends = refl;
        sqn_eq = ap (λ (x : ℕ). seqnum_add x (pos 1)) at;
        sent_eq = ap (λ (x : ℕ). q.sent ++ send_packet (seqnum_add x (pos 1)) rtp_ack [] ∷ []) at;
        fresh = λ stale. absurd (omega (arith, stale));
      })

-- break_connection when its first FIN gets no answer and its second does: it sends two.
pub break_connection-Passes :
    (ldebug : Bool) (p : Process) (es : List Recv)
    → p.sqn < 2 ^ 32
    → Passes p (send_packet p.sqn rtp_fin [] ∷ send_packet p.sqn rtp_fin [] ∷ []) p.sqn es tt (
        break_connection ldebug p
          (failed eagain ∷ datagram (send_packet p.sqn (bit_or rtp_ack rtp_fin) []) ∷ es))
unfolding break_connection send set_sock_recv_time
break_connection-Passes ldebug p es small =
    sent-Passes p asked (send_packet p.sqn rtp_fin []) (send_packet p.sqn rtp_fin [] ∷ []) p.sqn es
      tt _ refl
      (same-Passes asked (send_packet p.sqn rtp_fin [] ∷ []) p.sqn es tt _ _
        (await_reply-timeout ldebug p.sqn (bit_or rtp_ack rtp_fin) rtp_fin _ (log_tries ldebug 0)
          asked (first_log ldebug))
        (sent-Passes asked _ (send_packet p.sqn rtp_fin []) [] p.sqn es tt _ refl (
          await_reply-Passes ldebug p.sqn (bit_or rtp_ack rtp_fin) rtp_fin es
            (log_tries ldebug (log_tries ldebug 0)) _ (second_log ldebug) small (omega arith)
            (λ stale. absurd (omega (arith, stale))))))
  where
    asked : Process
    asked = send (set_sock_recv_time p 0 send_ms) p.sqn rtp_fin []
