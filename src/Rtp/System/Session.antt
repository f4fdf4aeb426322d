-- ===== src/Rtp/System/Session.antt =====
-- The two programs of lab2 from end to end: main of lab2/src/sender.c and main of
-- lab2/src/receiver.c, over a network that loses nothing.
pub mod SenderRun
pub mod ReceiverRun
pub mod Runs
use computer_system24fall.Common.{
  ℕ, zero, suc, ◌+◌, ◌≡◌, refl, ap, ◌∙◌, List, [], ◌∷◌, ◌++◌, bit_or,
}
use computer_system24fall.Rtp.Seq.{get_random_seqnum}
use computer_system24fall.Rtp.Packet.{
  eagain, rtp_syn, rtp_ack, rtp_fin, send_packet, Recv, failed, datagram,
}
use computer_system24fall.Rtp.Sender.{Job, npacket}
use computer_system24fall.Rtp.Sender
use computer_system24fall.Rtp.Sender.Batch.{data_packet}
use computer_system24fall.Rtp.Sender.InTurn.{data_sent}
use computer_system24fall.Rtp.Sender.Turn.{ack_number}
use computer_system24fall.Rtp.Sender.Progress.{acks}
use computer_system24fall.Rtp.Receiver
use computer_system24fall.Rtp.Receiver.Answering
use computer_system24fall.Rtp.System.InOrder.{packets, acks_sent}

-- What each side sends.
unfoldable pub sender_sends : Job → List (List ℕ)
sender_sends j =
    (send_packet get_random_seqnum rtp_syn [] ∷ send_packet 0 rtp_ack [] ∷ [])
    ++ (data_sent j 0 0 (npacket j)
        ++ (send_packet (npacket j) rtp_fin [] ∷ send_packet (npacket j) rtp_fin [] ∷ []))

unfoldable pub receiver_sends : Job → List (List ℕ)
receiver_sends j =
    (send_packet 0 (bit_or rtp_ack rtp_syn) [] ∷ [])
    ++ (acks_sent j.mode 0 0 (npacket j)
        ++ send_packet (npacket j) (bit_or rtp_ack rtp_fin) [] ∷ [])

-- What each side's calls of recvfrom find. The sender waits once for a SYN-ACK that is sent again, and
-- once for the answer to its first FIN, which only ends the receiver's loop; the receiver waits once
-- for a FIN that is sent again.
unfoldable pub sender_hears : Job → List Recv
sender_hears j =
    datagram (send_packet 0 (bit_or rtp_ack rtp_syn) [])
    ∷ failed eagain
    ∷ (acks j.mode 0 0 (npacket j)
        ++ failed eagain ∷ datagram (send_packet (npacket j) (bit_or rtp_ack rtp_fin) []) ∷ [])

unfoldable pub receiver_hears : Job → List Recv
receiver_hears j =
    datagram (send_packet get_random_seqnum rtp_syn [])
    ∷ datagram (send_packet 0 rtp_ack [])
    ∷ (packets j 0 0 (npacket j)
        ++ datagram (send_packet (npacket j) rtp_fin [])
          ∷ datagram (send_packet (npacket j) rtp_fin [])
          ∷ failed eagain
          ∷ [])

-- The datagrams among the events.
abbrev pub delivered : List Recv → List (List ℕ)
delivered [] = []
delivered (failed e ∷ es) = delivered es
delivered (datagram d ∷ es) = d ∷ delivered es

delivered-append : (es fs : List Recv) → delivered (es ++ fs) ≡ delivered es ++ delivered fs
delivered-append [] fs = refl
delivered-append (failed e ∷ es) fs = delivered-append es fs
delivered-append (datagram d ∷ es) fs = ap (◌∷◌ d) (delivered-append es fs)

delivered-acks : (mode m count : ℕ) → delivered (acks mode 0 m count) ≡ acks_sent mode 0 m count
unfolding acks acks_sent
delivered-acks mode m zero = refl
delivered-acks mode m (suc count) =
    ap (◌∷◌ (send_packet (ack_number mode (0 + m)) rtp_ack [])) (delivered-acks mode (suc m) count)

delivered-packets :
    (j : Job) (m count : ℕ) → delivered (packets j 0 m count) ≡ data_sent j 0 m count
unfolding packets data_sent
delivered-packets j m zero = refl
delivered-packets j m (suc count) = ap (◌∷◌ (data_packet j 0 m)) (delivered-packets j (suc m) count)

-- Each side finds just what the other has sent, in its order.
pub sender_hears-receiver : (j : Job) → delivered (sender_hears j) ≡ receiver_sends j
unfolding sender_hears receiver_sends
sender_hears-receiver j =
    ap (λ (x : List (List ℕ)). send_packet 0 (bit_or rtp_ack rtp_syn) [] ∷ x)
      (delivered-append (acks j.mode 0 0 (npacket j)) last
        ∙ ap (λ (x : List (List ℕ)). x ++ delivered last) (delivered-acks j.mode 0 (npacket j)))
  where
    last : List Recv
    last = failed eagain ∷ datagram (send_packet (npacket j) (bit_or rtp_ack rtp_fin) []) ∷ []

pub receiver_hears-sender : (j : Job) → delivered (receiver_hears j) ≡ sender_sends j
unfolding receiver_hears sender_sends
receiver_hears-sender j =
    ap
      (λ (x : List (List ℕ)).
        send_packet get_random_seqnum rtp_syn [] ∷ send_packet 0 rtp_ack [] ∷ x)
      (delivered-append (packets j 0 0 (npacket j)) last
        ∙ ap (λ (x : List (List ℕ)). x ++ delivered last) (delivered-packets j 0 (npacket j)))
  where
    fin : List ℕ
    fin = send_packet (npacket j) rtp_fin []

    last : List Recv
    last = datagram fin ∷ datagram fin ∷ failed eagain ∷ []
