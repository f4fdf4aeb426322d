-- ===== src/Rtp/System/Session/SenderRun.antt =====
-- The run of main of lab2/src/sender.c.
use computer_system24fall.Common.{
  ◌⊎◌, ℕ, ◌+◌, ◌^◌, ◌<◌, ◌≡◌, ◌≢◌, sym, ap, ◌∙◌, subst, Bool, true, List, [], ◌∷◌, ◌++◌, append-nil,
  some, arith, if◌then◌else◌, bit_or,
}
use computer_system24fall.Rtp.Seq.{get_random_seqnum}
use computer_system24fall.Rtp.Packet.{
  eagain, rtp_syn, rtp_ack, rtp_fin, send_packet, Recv, failed, datagram,
}
use computer_system24fall.Rtp.Files.{read_file}
use computer_system24fall.Rtp.Process.{Process, Outcome, returned, exited, ◌>>=◌, max_buf}
use computer_system24fall.Rtp.Process.Passes.{Passes, >>=-Passes}
use computer_system24fall.Rtp.Sender.{Job, npacket}
use computer_system24fall.Rtp.Sender
use computer_system24fall.Rtp.Sender.Closing
use computer_system24fall.Rtp.Sender.InTurn.{data_sent}
use computer_system24fall.Rtp.Sender.Progress.{acks, transfer_data-returns}
use computer_system24fall.Rtp.System.Session.{sender_sends, sender_hears}

module _ (ldebug : Bool) (a : Sender.Args) (n : ℕ) (closes : a.socket_closes ≡ true)
    (small : n < 2 ^ 32) where
  -- From the end of transfer_data on.
  abbrev sender_rest : Process → List Recv → Outcome (Unit {0})
  sender_rest p es = Sender.break_connection ldebug p es >>= λ _ p' es'.
      if a.socket_closes then returned tt p' es' else exited p'

  sender_rest-Passes :
      (p : Process)
      → p.sqn ≡ n
      → Passes p (send_packet n rtp_fin [] ∷ send_packet n rtp_fin [] ∷ []) n [] tt (
          sender_rest p (failed eagain ∷ datagram (send_packet n (bit_or rtp_ack rtp_fin) []) ∷ []))
  sender_rest-Passes p at =
      subst
        (λ k. Passes p (send_packet k rtp_fin [] ∷ send_packet k rtp_fin [] ∷ []) k [] tt (
          sender_rest p
            (failed eagain ∷ datagram (send_packet k (bit_or rtp_ack rtp_fin) []) ∷ [])))
        at
        (>>=-Passes p (send_packet p.sqn rtp_fin [] ∷ send_packet p.sqn rtp_fin [] ∷ []) [] p.sqn
          p.sqn [] [] tt tt _
          (λ _ p' es'. if a.socket_closes then returned tt p' es' else exited p')
          (Sender.Closing.break_connection-Passes ldebug p [] (omega (arith, at)))
          (λ q at' fresh. record {
            end = q;
            ends = ap (λ (b : Bool). if b then returned tt q [] else exited q) closes;
            sqn_eq = at';
            sent_eq = sym (append-nil q.sent);
            fresh = fresh;
          }))

-- main of the sender returns.
pub sender_main-Passes :
    (ldebug : Bool) (a : Sender.Args) (buf : List ℕ) (p : Process)
    → a.argc ≡ 6
    → a.socket_opens ≡ true
    → a.socket_closes ≡ true
    → (a.mode ≡ 0) ⊎ (a.mode ≡ 1)
    → 0 < a.wsize
    → read_file a.file max_buf ≡ some buf
    → p.errno ≢ eagain
    → let j : Job = record { buf = buf; wsize = a.wsize; mode = a.mode } in
      npacket j < 2 ^ 31
      → Passes p (sender_sends j) (npacket j) [] tt (Sender.main ldebug a p (sender_hears j))
unfolding Sender.main sender_sends sender_hears
sender_main-Passes ldebug a buf p argc opens closes mode w reads fresh room =
    rw (argc, opens)
      (>>=-Passes p (syn ∷ ack ∷ []) (data_sent j 0 0 (npacket j) ++ fin ∷ fin ∷ []) 0 (npacket j)
        (acks a.mode 0 0 (npacket j) ++ last) [] tt tt _ transfer
        (Sender.Closing.establish_connection-Passes ldebug p (acks a.mode 0 0 (npacket j) ++ last)
          fresh)
        transfers)
  where
    j : Job
    j = record { buf = buf; wsize = a.wsize; mode = a.mode }

    syn : List ℕ
    syn = send_packet get_random_seqnum rtp_syn []

    ack : List ℕ
    ack = send_packet 0 rtp_ack []

    fin : List ℕ
    fin = send_packet (npacket j) rtp_fin []

    last : List Recv
    last = failed eagain ∷ datagram (send_packet (npacket j) (bit_or rtp_ack rtp_fin) []) ∷ []

    transfer : Unit {0} → Process → List Recv → Outcome (Unit {0})
    transfer _ q es = Sender.transfer_data a.file a.wsize a.mode q es >>= λ _ r es'.
        sender_rest ldebug a (npacket j) closes (omega arith) r es'

    transfers :
        (q : Process)
        → q.sqn ≡ 0
        → q.errno ≢ eagain
        → Passes q
            (data_sent j 0 0 (npacket j) ++ fin ∷ fin ∷ [])
            (npacket j)
            []
            tt
            (transfer tt q (acks a.mode 0 0 (npacket j) ++ last))
    transfers q at fresh' =
        let (t, _, passes) =
          transfer_data-returns a.file buf a.wsize a.mode 0 q last reads (omega (arith, room)) mode
            w at fresh' in
        >>=-Passes q (data_sent j 0 0 (npacket j)) (fin ∷ fin ∷ []) (0 + npacket j) (npacket j) last
          [] t tt _ (λ _ r es'. sender_rest ldebug a (npacket j) closes (omega arith) r es') passes
          (λ r at' _.
            sender_rest-Passes ldebug a (npacket j) closes (omega arith) r (at' ∙ omega arith))
