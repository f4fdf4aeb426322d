-- ===== src/Rtp/System/Session/ReceiverRun.antt =====
-- The run of main of lab2/src/receiver.c.
use computer_system24fall.Common.{
  ◌⊎◌, ℕ, ◌+◌, ◌^◌, ◌≤◌, ◌<◌, ◌≡◌, ◌≢◌, sym, ap, subst, Bool, true, List, [], ◌∷◌, ◌++◌, append-nil,
  some, arith, if◌then◌else◌, bit_or, take,
}
use computer_system24fall.Rtp.Checksum.Detect.{IsBytes}
use computer_system24fall.Rtp.Packet.{
  eagain, rtp_syn, rtp_ack, rtp_fin, send_packet, Recv, failed, datagram,
}
use computer_system24fall.Rtp.Files.{write_file}
use computer_system24fall.Rtp.Process.{Process, Outcome, returned, exited, ◌>>=◌, max_buf}
use computer_system24fall.Rtp.Process.Passes.{Passes, >>=-Passes}
use computer_system24fall.Rtp.Sender.{Job, npacket}
use computer_system24fall.Rtp.Sender.Chunks.{total}
use computer_system24fall.Rtp.Receiver
use computer_system24fall.Rtp.Receiver.Answering
use computer_system24fall.Rtp.System.InOrder.{packets, acks_sent, transfer_data-writes}
use computer_system24fall.Rtp.System.Session.{receiver_sends, receiver_hears}

-- The receiver from the end of transfer_data on.
module _ (b : Receiver.Args) (n : ℕ) (closes : b.socket_closes ≡ true) (small : n < 2 ^ 32) where
  abbrev receiver_rest : List ℕ → Process → List Recv → Outcome (List ℕ)
  receiver_rest file p es = Receiver.break_connection p es >>= λ _ p' es'.
      if b.socket_closes then returned file p' es' else exited p'

  receiver_rest-Passes :
      (file : List ℕ) (p : Process)
      → p.errno ≢ eagain
      → Passes p
          (send_packet n (bit_or rtp_ack rtp_fin) [] ∷ [])
          n
          []
          file
          (receiver_rest file p (datagram (send_packet n rtp_fin []) ∷ failed eagain ∷ []))
  receiver_rest-Passes file p fresh =
      >>=-Passes p (send_packet n (bit_or rtp_ack rtp_fin) [] ∷ []) [] n n [] [] tt file _
        (λ _ p' es'. if b.socket_closes then returned file p' es' else exited p')
        (Receiver.Answering.break_connection-Passes p n [] fresh small)
        (λ q at fresh'. record {
          end = q;
          ends = ap (λ (x : Bool). if x then returned file q [] else exited q) closes;
          sqn_eq = at;
          sent_eq = sym (append-nil q.sent);
          fresh = fresh';
        })

-- main of the receiver returns, and has written the file.
pub receiver_main-Passes :
    (ldebug : Bool) (junk : ℕ → ℕ) (b : Receiver.Args) (j : Job) (q : Process)
    → b.argc ≡ 5
    → b.socket_opens ≡ true
    → b.socket_binds ≡ true
    → b.socket_closes ≡ true
    → b.mode ≡ j.mode
    → (j.mode ≡ 0) ⊎ (j.mode ≡ 1)
    → 0 < b.wsize
    → npacket j + b.wsize < 2 ^ 31
    → total j ≤ max_buf
    → IsBytes j.buf
    → write_file b.file (take (total j) j.buf) ≡ some (take (total j) j.buf)
    → q.errno ≢ eagain
    → Passes q
        (receiver_sends j)
        (npacket j)
        []
        (take (total j) j.buf)
        (Receiver.main ldebug junk b q (receiver_hears j))
unfolding Receiver.main receiver_sends receiver_hears
receiver_main-Passes ldebug junk b j q argc opens binds closes mode mode_fits w room fits bytes
      writes fresh =
    rw (argc, opens, binds)
      (>>=-Passes q (send_packet 0 (bit_or rtp_ack rtp_syn) [] ∷ [])
        (acks_sent j.mode 0 0 (npacket j) ++ fin_ack ∷ []) 0 (npacket j) events [] tt file _
        transfer (Receiver.Answering.establish_connection-Passes ldebug q events fresh) transfers)
  where
    fin_ack : List ℕ
    fin_ack = send_packet (npacket j) (bit_or rtp_ack rtp_fin) []

    file : List ℕ
    file = take (total j) j.buf

    last : List Recv
    last = datagram (send_packet (npacket j) rtp_fin []) ∷ failed eagain ∷ []

    events : List Recv
    events = packets j 0 0 (npacket j) ++ datagram (send_packet (npacket j) rtp_fin []) ∷ last

    rest : List ℕ → Process → List Recv → Outcome (List ℕ)
    rest = receiver_rest b (npacket j) closes (omega (arith, room))

    transfer : Unit {0} → Process → List Recv → Outcome (List ℕ)
    transfer _ p es = Receiver.transfer_data b.file junk b.wsize b.mode p es >>= rest

    transfers :
        (p : Process)
        → p.sqn ≡ 0
        → p.errno ≢ eagain
        → Passes p
            (acks_sent j.mode 0 0 (npacket j) ++ fin_ack ∷ [])
            (npacket j)
            []
            file
            (transfer tt p events)
    transfers p at fresh' =
        let (k, passes) =
          transfer_data-writes j 0 b.wsize (omega (arith, room)) fits bytes w j.mode mode_fits
            b.file junk p (npacket j) last writes at fresh' (omega (arith, room)) in
        >>=-Passes p (acks_sent j.mode 0 0 (npacket j)) (fin_ack ∷ []) k (npacket j) last [] file
          file _ rest
          (subst
            (λ m.
              Passes p (acks_sent j.mode 0 0 (npacket j)) k last file
                (Receiver.transfer_data b.file junk b.wsize m p events))
            (sym mode) passes)
          (λ r _ fresh''.
            receiver_rest-Passes b (npacket j) closes (omega (arith, room)) file r fresh'')
