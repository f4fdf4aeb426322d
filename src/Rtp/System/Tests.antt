-- ===== src/Rtp/System/Tests.antt =====
-- Runs of both loops of transfer_data on small files, over events that the network can deliver.
use computer_system24fall.Common.{
  false, ◌++◌, true, All, ◌<◌, All-replicate, ℕ, ◌≡◌, refl, inl, inr, [], ◌∷◌, Option, none, some,
  arith, at_head, replicate,
}
use computer_system24fall.Rtp.Packet.{
  datagram, send_packet, recv_packet, check_packet, fill, header_bytes, zero_checksum, checksum_of,
  length_of, flags_of, seq_num_of, payload_of,
}
use computer_system24fall.Rtp.Checksum.{compute_checksum}
use computer_system24fall.Rtp.Window.{update_window, run_from, move_down, clear_from}
use computer_system24fall.Rtp.Seq.{seqnum_add, sqn_dis, seqnum_is_in}
use computer_system24fall.Rtp.Files.{Source, Sink, read_file-whole, write_file-whole}
use computer_system24fall.Rtp.Process.{max_buf, Process, send, recv, set_sock_recv_time}
use computer_system24fall.Rtp.Sender.{Job, Sending, npacket, next_window}
use computer_system24fall.Rtp.Sender
use computer_system24fall.Rtp.Receiver.{Receiving, Turn, next, break, bytes_from}
use computer_system24fall.Rtp.Receiver
use computer_system24fall.Rtp.Sender.Progress.{acks, transfer_data-returns}
use computer_system24fall.Rtp.Process.Retry.{silence, StillWaits}
use computer_system24fall.Rtp.Receiver.Closing.{break_connection-silence}
use computer_system24fall.Rtp.Process.Greeting.{Greets}
use computer_system24fall.Rtp.System.Truth.{SenderGreeting}
use computer_system24fall.Rtp.System.Handshake.{
  Answers, establish_connection-Greets, establish_connection-Answers,
}
use computer_system24fall.Rtp.System.Session.{
  sender_sends, receiver_sends, sender_hears, receiver_hears, delivered,
}
use computer_system24fall.Rtp.System.Session.Runs.{sender_args, receiver_args, main-delivers}
use computer_system24fall.Rtp.Process.Passes.{Passes}
use computer_system24fall.Rtp.Sender.InTurn.{data_sent}
use computer_system24fall.Rtp.System.InOrder.{acks_sent, packets, transfer_data-writes}
use computer_system24fall.Rtp.Sender.Batch.{data_packet}
use computer_system24fall.Rtp.System.{
  World, left, Reach, here, then_step, sender_fills, sender_turns, sender_leaves, receiver_turns,
  arrives, start,
}
use computer_system24fall.Rtp.System.Delivery.{
  Reach-delivers, Reach-delivers_whole, Reach-loses_last,
}

abbrev idle : Process
idle = record {
  errno = 0;
  sqn = 0;
  packet = replicate 11 0;
  recv_timeout = record { tv_sec = 0; tv_usec = 0 };
  sent = [];
}

abbrev junk : ℕ → ℕ
junk i = 0

abbrev turned : Receiving → Turn → Receiving
turned r (next s) = s
turned r (break s) = s
turned r _ = r

abbrev went : Sending → Option Sending → Sending
went s none = s
went s (some t) = t

-- A file of one packet.
abbrev job : Job
job = record { buf = 7 ∷ 8 ∷ 9 ∷ []; wsize = 2; mode = 0 }

abbrev w0 : World
w0 = start job 2 junk idle idle

abbrev w1 : World
w1 = record w0 { sending = next_window job w0.sending }

abbrev r2 : Receiving
r2 = turned w1.receiving (Receiver.receive 2 0 w1.receiving (datagram (data_packet job 0 0)))

abbrev w2 : World
w2 = record w1 { receiving = r2 }

abbrev s3 : Sending
s3 =
    went w2.sending
      (Sender.receive job (next_window job w2.sending) (datagram (send_packet 1 2 [])))

abbrev w3 : World
w3 = record w2 { sending = s3 }

abbrev w4 : World
w4 = record w3 { sender = left }

run_small : Reach job 2 w0 w4
unfolding Sender.next_window Sender.send_window Sender.start_sending Receiver.start_receiving send
    recv set_sock_recv_time send_packet recv_packet check_packet fill header_bytes zero_checksum
    checksum_of length_of flags_of seq_num_of payload_of compute_checksum Sender.chunk
    Sender.receive Sender.react Sender.on_ack Sender.acknowledge Sender.resend Sender.resend_from
    Receiver.receive Receiver.react Receiver.on_data Receiver.go_back_n Receiver.carried
    Receiver.store seqnum_add sqn_dis seqnum_is_in
run_small =
    then_step
      (then_step
        (then_step (then_step here (sender_fills refl (omega arith))) (
          receiver_turns (datagram (data_packet job 0 0)) r2 refl
            (arrives (data_packet job 0 0) (at_head refl)) refl))
        (sender_turns (datagram (send_packet 1 2 [])) s3 refl (omega arith)
          (arrives (send_packet 1 2 []) (at_head refl)) refl))
      (sender_leaves refl (omega arith))

Reach-delivers_example : bytes_from w4.receiving.buf 0 w4.receiving.fsize ≡ 7 ∷ 8 ∷ 9 ∷ []
Reach-delivers_example =
    Reach-delivers job 0 2 (omega arith) (omega arith) (omega arith) (inl refl) (omega arith)
      (omega arith) junk idle idle w4 refl refl tt tt run_small refl

Reach-delivers_whole_example : bytes_from w4.receiving.buf 0 w4.receiving.fsize ≡ 7 ∷ 8 ∷ 9 ∷ []
Reach-delivers_whole_example =
    Reach-delivers_whole job 0 2 (omega arith) (omega arith) (omega arith) (inl refl) (omega arith)
      (omega arith) junk idle idle w4 refl refl tt tt run_small refl (λ e. omega arith)

-- A file of PAYLOAD_MAX bytes, in selective repeat: its one packet is empty.
abbrev full_job : Job
full_job = record { buf = replicate 1461 5; wsize = 2; mode = 1 }

abbrev v0 : World
v0 = start full_job 2 junk idle idle

abbrev v1 : World
v1 = record v0 { sending = next_window full_job v0.sending }

abbrev q2 : Receiving
q2 = turned v1.receiving (Receiver.receive 2 1 v1.receiving (datagram (data_packet full_job 0 0)))

abbrev v2 : World
v2 = record v1 { receiving = q2 }

abbrev u3 : Sending
u3 =
    went v2.sending
      (Sender.receive full_job (next_window full_job v2.sending) (datagram (send_packet 0 2 [])))

abbrev v3 : World
v3 = record v2 { sending = u3 }

abbrev v4 : World
v4 = record v3 { sender = left }

run_full : Reach full_job 2 v0 v4
unfolding Sender.next_window Sender.send_window Sender.start_sending Receiver.start_receiving send
    recv set_sock_recv_time send_packet recv_packet check_packet fill header_bytes zero_checksum
    checksum_of length_of flags_of seq_num_of payload_of compute_checksum Sender.chunk
    Sender.receive Sender.react Sender.on_ack Sender.acknowledge Sender.resend Sender.resend_from
    Receiver.receive Receiver.react Receiver.on_data Receiver.go_back_n Receiver.selective_repeat
    Receiver.take_selective update_window run_from move_down clear_from Receiver.carried
    Receiver.store seqnum_add sqn_dis seqnum_is_in
run_full =
    then_step
      (then_step
        (then_step (then_step here (sender_fills refl (omega arith))) (
          receiver_turns (datagram (data_packet full_job 0 0)) q2 refl
            (arrives (data_packet full_job 0 0) (at_head refl)) refl))
        (sender_turns (datagram (send_packet 0 2 [])) u3 refl (omega arith)
          (arrives (send_packet 0 2 []) (at_head refl)) refl))
      (sender_leaves refl (omega arith))

full_bytes : All (λ (b : ℕ). b < 256) (replicate 1461 5)
full_bytes = All-replicate (λ (b : ℕ). b < 256) 1461 5 (omega arith)

Reach-loses_last_example : bytes_from v4.receiving.buf 0 v4.receiving.fsize ≡ []
Reach-loses_last_example =
    Reach-loses_last full_job 0 2 (omega arith) (omega arith) full_bytes (inr refl) (omega arith)
      (omega arith) junk idle idle v4 refl refl tt tt run_full refl (omega arith) (omega arith)

-- The job of that file in selective repeat.
abbrev small_job : Job
small_job = record { buf = 7 ∷ 8 ∷ 9 ∷ []; wsize = 2; mode = 1 }

abbrev source : Source
source = record { opens = true; content = 7 ∷ 8 ∷ 9 ∷ []; gives = 3; closes = true }

abbrev large_sink : Sink
large_sink = record { opens = true; takes = max_buf; closes = true }

abbrev sink : Sink
sink = record { opens = true; takes = 3; closes = true }

transfer_data-returns_example :
    (t : Sending) × (t.shift ≡ 1)
    × Passes idle
        (data_packet small_job 0 0 ∷ [])
        1
        []
        t
        (Sender.transfer_data source 2 1 idle (acks 1 0 0 1 ++ []))
unfolding data_sent
transfer_data-returns_example =
    transfer_data-returns source (7 ∷ 8 ∷ 9 ∷ []) 2 1 0 idle []
      (read_file-whole source max_buf refl refl (omega arith)) (omega arith) (inr refl)
      (omega arith) refl (λ e. omega arith)

main-delivers_example :
    Passes idle
      (sender_sends small_job)
      1
      []
      tt
      (Sender.main true (sender_args source 2 1) idle (sender_hears small_job))
    × Passes idle
        (receiver_sends small_job)
        1
        []
        (7 ∷ 8 ∷ 9 ∷ [])
        (Receiver.main true junk (receiver_args large_sink 3 1) idle (receiver_hears small_job))
    × (delivered (sender_hears small_job) ≡ receiver_sends small_job)
    × (delivered (receiver_hears small_job) ≡ sender_sends small_job)
main-delivers_example =
    main-delivers true junk source large_sink (7 ∷ 8 ∷ 9 ∷ []) 2 3 1 idle idle
      (read_file-whole source max_buf refl refl (omega arith))
      (omega arith, (omega arith, (omega arith, tt))) (inr refl) refl refl (omega arith)
      (omega arith) (omega arith) (omega arith) (λ e. omega arith) (λ e. omega arith)

transfer_data-writes_example :
    (n : ℕ) × Passes idle (send_packet 1 2 [] ∷ []) n [] (7 ∷ 8 ∷ 9 ∷ []) (
      Receiver.transfer_data sink junk 2 0 idle
        (packets job 0 0 1 ++ datagram (send_packet 1 4 []) ∷ []))
unfolding acks_sent
transfer_data-writes_example =
    transfer_data-writes job 0 2 (omega arith) (omega arith) (omega arith) (omega arith) 0
      (inl refl) sink junk idle 1 []
      (write_file-whole sink (7 ∷ 8 ∷ 9 ∷ []) refl refl (omega arith)) refl (λ e. omega arith)
      (omega arith)

establish_connection-Greets_example : Greets SenderGreeting 0 (
    Sender.establish_connection false idle
      (datagram (send_packet 0 3 []) ∷ datagram (send_packet 0 3 []) ∷ []))
establish_connection-Greets_example =
    establish_connection-Greets false idle
      (datagram (send_packet 0 3 []) ∷ datagram (send_packet 0 3 []) ∷ []) tt

establish_connection-Answers_example : Answers (
    Receiver.establish_connection false idle
      (datagram (send_packet 0x7FFFFFFF 1 []) ∷ datagram (send_packet 0 2 []) ∷ []))
establish_connection-Answers_example =
    establish_connection-Answers false idle
      (datagram (send_packet 0x7FFFFFFF 1 []) ∷ datagram (send_packet 0 2 []) ∷ []) tt

break_connection-silence_example : StillWaits idle [] (Receiver.break_connection idle (silence 60))
break_connection-silence_example = break_connection-silence 60 idle
