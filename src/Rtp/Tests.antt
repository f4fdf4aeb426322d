-- ===== src/Rtp/Tests.antt =====
-- The RTP functions on small inputs.
use computer_system24fall.Common.{
  ℕ, ◌≡◌, ◌≢◌, ◌<◌, ◌↔◌, inl, inr, refl, true, false, List, [], ◌∷◌, ◌++◌, arith, at_head, length,
  get_or, set, take, drop, replicate,
}
use computer_system24fall.Common.Int.{pos}
use computer_system24fall.Rtp.Checksum.{compute_checksum}
use computer_system24fall.Rtp.Checksum.Detect.{IsBytes, compute_checksum-set}
use computer_system24fall.Rtp.Seq.{seqnum_add, sqn_dis, seqnum_is_in}
use computer_system24fall.Rtp.Seq.Ring.{seqnum_is_in_iff, seqnum_add-sqn_dis}
use computer_system24fall.Rtp.Window.{run_from, move_down, clear_from, update_window}
use computer_system24fall.Rtp.Window.Shift.{IsRun, update_window_lem}
use computer_system24fall.Rtp.Packet.{
  Recv, datagram, accepted, invalid, send_packet, header_bytes, check_packet, fill, zero_checksum,
  checksum_of, recv_packet, seq_num_of, length_of, flags_of, payload_of,
}
use computer_system24fall.Rtp.Packet.Roundtrip.{recv_packet-send_packet}
use computer_system24fall.Rtp.Packet.Corrupt.{recv_packet_detects}
use computer_system24fall.Rtp.Files.{Source, Sink, read_file-whole}
use computer_system24fall.Rtp.Process.{max_buf, Process, await_reply, recv}
use computer_system24fall.Rtp.Process.Retry.{
  silence, StillWaits, HasExited, await_reply-silence, await_reply-gives_up,
}
use computer_system24fall.Rtp.Sender.{Job, Sending, start_sending, resend_from, npacket}
use computer_system24fall.Rtp.Sender
use computer_system24fall.Rtp.Sender.Batch.{data_packet, resend_from-enough}
use computer_system24fall.Rtp.Sender.Transfer.{transfer_data-sends}
use computer_system24fall.Rtp.Sender.Invariant.{IsSound}
use computer_system24fall.Rtp.System.{arrives}
use computer_system24fall.Rtp.System.Truth.{fields, ReceiverGreeting, Delivers-Genuine}
use computer_system24fall.Rtp.Receiver
use computer_system24fall.Rtp.Receiver.Transfer.{
  IsGenuine, IsBeginning, transfer_data-receives, transfer_data-prefix,
}

seqnum_add_wraps : seqnum_add 0x7FFFFFFF (pos 1) ≡ 0
unfolding seqnum_add
seqnum_add_wraps = refl

sqn_dis_wraps : sqn_dis 0x7FFFFFFF 1 ≡ 2
unfolding sqn_dis
sqn_dis_wraps = refl

update_window_slides : update_window (0 ∷ 1 ∷ 0 ∷ 1 ∷ []) 4 0 ≡ (0 ∷ 1 ∷ 0 ∷ 0 ∷ [], 2)
unfolding update_window run_from move_down clear_from
update_window_slides = refl

abbrev greeting : List ℕ
greeting = send_packet 5 0 (1 ∷ 2 ∷ [])

greeting-IsBytes : IsBytes greeting
unfolding send_packet header_bytes compute_checksum
greeting-IsBytes = omega arith

length-greeting : length greeting ≡ 13
unfolding send_packet header_bytes
length-greeting = refl

byte-greeting : get_or greeting 11 0 ≡ 1
unfolding send_packet header_bytes
byte-greeting = refl

greeting_ok : (recv_packet 0 [] (datagram greeting)).scode ≡ accepted
unfolding send_packet header_bytes compute_checksum recv_packet check_packet fill zero_checksum
    checksum_of length_of
greeting_ok = refl

recv_packet-send_packet_example :
    let r = recv_packet 0 [] (datagram greeting) in
    (r.scode ≡ accepted)
    × (r.errno ≡ 0)
    × (seq_num_of r.buf ≡ 5)
    × (length_of r.buf ≡ 2)
    × (flags_of r.buf ≡ 0)
    × (take (length_of r.buf) (payload_of r.buf) ≡ 1 ∷ 2 ∷ [])
recv_packet-send_packet_example =
    recv_packet-send_packet 5 0 (1 ∷ 2 ∷ []) (omega arith) (omega arith)
      (omega arith, (omega arith, tt)) (omega arith) 0 [] (λ e. omega arith)

seqnum_is_in_iff_example :
    (seqnum_is_in 1 0x7FFFFFFE 3 ≡ true) ↔ (sqn_dis 0x7FFFFFFE 1 < sqn_dis 0x7FFFFFFE 3)
seqnum_is_in_iff_example =
    seqnum_is_in_iff 1 0x7FFFFFFE 3 (omega arith) (omega arith) (omega arith) (λ e. omega arith)

seqnum_add-sqn_dis_example : seqnum_add 0x7FFFFFFE (pos (sqn_dis 0x7FFFFFFE 2)) ≡ 2
seqnum_add-sqn_dis_example = seqnum_add-sqn_dis 0x7FFFFFFE 2 (omega arith) (omega arith)

update_window_lem_example :
    let k = (update_window (0 ∷ 1 ∷ 0 ∷ []) 3 0).1 in
    IsRun (1 ∷ 1 ∷ 0 ∷ []) 0 3 k
    × ((update_window (0 ∷ 1 ∷ 0 ∷ []) 3 0).0 ≡ drop k (1 ∷ 1 ∷ 0 ∷ []) ++ replicate k 0)
update_window_lem_example = update_window_lem (0 ∷ 1 ∷ 0 ∷ []) 3 0 refl (omega arith)

compute_checksum-set_example : compute_checksum (1 ∷ 9 ∷ []) 2 ≢ compute_checksum (1 ∷ 2 ∷ []) 2
compute_checksum-set_example =
    compute_checksum-set (1 ∷ 2 ∷ []) 1 9 (omega arith, (omega arith, tt)) (omega arith)
      (omega arith) (λ e. omega arith)

recv_packet_detects_example : (recv_packet 0 [] (datagram (set greeting 11 3))).scode ≡ invalid
recv_packet_detects_example =
    recv_packet_detects 0 [] [] greeting 11 3 (λ e. omega arith) greeting-IsBytes
      (omega (arith, length-greeting)) greeting_ok (omega (arith, length-greeting)) (omega arith)
      (λ e. omega (arith, byte-greeting))

abbrev idle : Process
idle = record {
  errno = 0;
  sqn = 0;
  packet = replicate 11 0;
  recv_timeout = record { tv_sec = 0; tv_usec = 0 };
  sent = [];
}

await_reply-silence_example :
    StillWaits idle
      (replicate 99 (send_packet 0 1 []))
      (await_reply false 1 3 1 (silence 99) 0 idle)
await_reply-silence_example = await_reply-silence 1 3 1 99 idle

await_reply-gives_up_example :
    HasExited idle
      (replicate 50 (send_packet 0 1 []))
      (await_reply true 1 3 1 (silence 50 ++ []) 1 idle)
await_reply-gives_up_example = await_reply-gives_up 1 3 1 50 1 idle [] (omega arith)

-- A file of one packet, and the process that sends it.
abbrev job : Job
job = record { buf = 7 ∷ 8 ∷ 9 ∷ []; wsize = 2; mode = 0 }

abbrev Has : ℕ → Type 0
Has k = k < 1

abbrev Known : List ℕ → Type 0
Known d = (k : ℕ) × (k < 1) × (d ≡ data_packet job 0 k)

known : (k : ℕ) → k < npacket job → Known (data_packet job 0 k)
known k h = (k, omega arith, refl)

ack-Sound : IsSound job 0 Has Known (datagram (send_packet 1 2 []))
ack-Sound errno old ok is_ack = (
  1,
  (fields errno old 1 2 [] (omega arith) (omega arith) tt (omega arith) ok).0,
  (omega arith, λ k l. l),
)

abbrev source : Source
source = record { opens = true; content = 7 ∷ 8 ∷ 9 ∷ []; gives = 3; closes = true }

-- The disk has room for two bytes.
abbrev sink : Sink
sink = record { opens = true; takes = 2; closes = true }

transfer_data-sends_example :
    Sender.Transfer.Ends job 0 Has Known
      (Sender.transfer_data source 2 0 idle (datagram (send_packet 1 2 []) ∷ []))
transfer_data-sends_example =
    transfer_data-sends source (7 ∷ 8 ∷ 9 ∷ []) 2 0 0 Has Known idle
      (datagram (send_packet 1 2 []) ∷ []) (read_file-whole source max_buf refl refl (omega arith))
      (omega arith) known (inl refl) (omega arith) refl tt (ack-Sound, tt)

data-Genuine : IsGenuine job 0 (datagram (data_packet job 0 0))
data-Genuine =
    Delivers-Genuine job 0 (omega arith) (omega arith, (omega arith, (omega arith, tt)))
      (data_packet job 0 0 ∷ []) (datagram (data_packet job 0 0)) (inr (0, omega arith, refl), tt)
      (arrives (data_packet job 0 0) (at_head refl))

fin-Genuine : IsGenuine job 0 (datagram (send_packet 1 4 []))
unfolding recv
fin-Genuine p ok is_data = absurd (
    omega (
      arith,
      (fields p.errno p.packet 1 4 [] (omega arith) (omega arith) tt (omega arith) ok).2,
      is_data,
    ))

abbrev arrivals : List Recv
arrivals = datagram (data_packet job 0 0) ∷ datagram (send_packet 1 4 []) ∷ []

abbrev junk : ℕ → ℕ
junk i = 170

transfer_data-receives_example :
    Receiver.Transfer.Ends job 0 0 2 ReceiverGreeting sink
      (Receiver.transfer_data sink junk 2 0 idle arrivals)
transfer_data-receives_example =
    transfer_data-receives job 0 0 2 ReceiverGreeting (omega arith) (omega arith) (inl refl)
      (omega arith) sink junk idle arrivals refl tt (data-Genuine, (fin-Genuine, tt))

transfer_data-prefix_example : IsBeginning job (Receiver.transfer_data sink junk 2 0 idle arrivals)
transfer_data-prefix_example =
    transfer_data-prefix job 0 0 2 ReceiverGreeting (omega arith) (omega arith) (inl refl)
      (omega arith) sink junk idle arrivals refl refl tt (data-Genuine, (fin-Genuine, tt))

-- The sender after it has sent the packet.
abbrev half : Sending
half = record { proc = record idle { sqn = 1 }; shift = 0; wbase = 0; window = 0 ∷ 0 ∷ [] }

resend_from-enough_example : resend_from job half 9 0 half.proc ≡ resend_from job half 1 0 half.proc
resend_from-enough_example =
    resend_from-enough job 0 (omega arith) Known known half 1 refl (omega arith) 1 9 0 half.proc
      refl (omega arith) (refl, tt)
