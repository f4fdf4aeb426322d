-- ===== src/Rtp/System/InOrder.antt =====
-- transfer_data of lab2/src/receiver.c writes the file when the packets come in order.
use computer_system24fall.Common.{
  ◌⊎◌, length-replicate, get_or-replicate, append-nil, append_assoc, sym, some, ℕ, zero, suc, ◌+◌,
  ◌^◌, ◌≤◌, ◌<◌, ◌≡◌, ◌≢◌, refl, ap, ◌∙◌, List, [], ◌∷◌, ◌++◌, All, arith, take,
}
use computer_system24fall.Rtp.Process.Passes.{Passes, Took, recv-Took}
use computer_system24fall.Rtp.Checksum.Detect.{IsBytes}
use computer_system24fall.Rtp.Packet.{eagain, rtp_fin, rtp_ack, Scode, send_packet, Recv, datagram}
use computer_system24fall.Rtp.Files.{Sink, write_file}
use computer_system24fall.Rtp.Process.{Process, returned, recv, set_sock_recv_time, max_buf}
use computer_system24fall.Rtp.Sender.{Job, npacket}
use computer_system24fall.Rtp.Sender.Batch.{data_packet}
use computer_system24fall.Rtp.Sender.Chunks.{total}
use computer_system24fall.Rtp.Receiver.{
  Receiving, next, break, react, receive, transfer_loop, start_receiving, bytes_from, transfer_data,
}
use computer_system24fall.Rtp.Receiver.Store.{bytes_from-total}
use computer_system24fall.Rtp.Receiver.Invariant.{Got, Got-total}
use computer_system24fall.Rtp.Receiver.Transfer.{start_receiving-Inv}
use computer_system24fall.Rtp.Window.First.{IsClear}
use computer_system24fall.Rtp.Sender.Turn.{ack_number}
use computer_system24fall.Rtp.System.Taken.{Valid, react-fin, receive-Steps}

-- `count` packets of the file from place `m` on.
unfoldable pub packets : Job → ℕ → ℕ → ℕ → List Recv
packets j base m zero = []
packets j base m (suc count) = datagram (data_packet j base m) ∷ packets j base (suc m) count

-- The acknowledgements of `count` packets from place `m` on, one by one.
unfoldable pub acks_sent : ℕ → ℕ → ℕ → ℕ → List (List ℕ)
acks_sent mode base m zero = []
acks_sent mode base m (suc count) =
    send_packet (ack_number mode (base + m)) rtp_ack [] ∷ acks_sent mode base (suc m) count

transfer_loop-break :
    (wsize mode : ℕ) (e : Recv) (es : List Recv) (s t : Receiving)
    → receive wsize mode s e ≡ break t
    → transfer_loop wsize mode (e ∷ es) s ≡ returned t t.proc es
unfolding transfer_loop
transfer_loop-break wsize mode e es s t h = rw (transfer_loop, h) refl

transfer_loop-next :
    (wsize mode : ℕ) (e : Recv) (es : List Recv) (s t : Receiving)
    → receive wsize mode s e ≡ next t
    → transfer_loop wsize mode (e ∷ es) s ≡ transfer_loop wsize mode es t
unfolding transfer_loop
transfer_loop-next wsize mode e es s t h = rw (transfer_loop, h) refl

module _ (j : Job) (base wsize : ℕ) (room : base + npacket j + wsize < 2 ^ 31)
    (fits : total j ≤ max_buf) (bytes : IsBytes j.buf) (wsize_pos : 0 < wsize) (mode : ℕ)
    (mode_fits : (mode ≡ 0) ⊎ (mode ≡ 1)) where
  -- The file that the loop leaves, when the packets from place `m` on come, and then a FIN.
  record Writes (m count : ℕ) (events : List Recv → List Recv) (es : List Recv) (s : Receiving)
      : Type 0 where
    to : Receiving
    ends : transfer_loop wsize mode (events es) s ≡ returned to to.proc es
    file : bytes_from to.buf 0 to.fsize ≡ take (total j) j.buf
    answers : to.proc.sent ≡ s.proc.sent ++ acks_sent mode base m count
    fresh : to.proc.errno ≢ eagain

  complete :
      (s : Receiving)
      → Valid j base wsize room fits bytes wsize_pos mode mode_fits s
      → s.shift ≡ npacket j
      → bytes_from s.buf 0 s.fsize ≡ take (total j) j.buf
  complete s v all =
      ap (bytes_from s.buf 0) (Got-total j s.buf s.fsize v.fsize_le got)
      ∙ bytes_from-total j s.buf (λ k h. (got k h).0)
    where
      got : (k : ℕ) → k < npacket j → Got j s.buf s.fsize k
      got k h = v.held k (omega (arith, all, h))

  transfer_loop-Writes :
      (count m q : ℕ) (es : List Recv) (s : Receiving)
      → q < 2 ^ 32
      → Valid j base wsize room fits bytes wsize_pos mode mode_fits s
      → IsClear wsize s.window
      → m ≡ s.shift
      → m + count ≡ npacket j
      → s.proc.errno ≢ eagain
      → Writes m count
          (λ rest. packets j base m count ++ datagram (send_packet q rtp_fin []) ∷ rest)
          es
          s
  unfolding packets acks_sent
  transfer_loop-Writes zero m q es s small v clear here all fresh = record {
    to = s';
    ends = ends;
    file = unfold recv in complete s v (omega (arith, here, all));
    answers = unfold recv in sym (append-nil s.proc.sent);
    fresh = taken.fresh;
  }
    where
      e : Recv
      e = datagram (send_packet q rtp_fin [])

      s' : Receiving
      s' = record s { proc = (recv s.proc e).0 }

      taken : Took s.proc q rtp_fin s'.proc
      taken = recv-Took s.proc q rtp_fin small (omega arith) fresh

      fin : receive wsize mode s e ≡ break s'
      fin =
          unfold receive in
          (ap (λ (r : Process × Scode). react wsize mode r.1 (record s { proc = r.0 })) taken.taken
            ∙ react-fin wsize mode s' taken.flags)

      ends : transfer_loop wsize mode (e ∷ es) s ≡ returned s' s'.proc es
      ends = transfer_loop-break wsize mode e es s s' fin
  transfer_loop-Writes (suc count) m q es s small v clear here all fresh =
      let step =
        receive-Steps j base wsize room fits bytes wsize_pos mode mode_fits s m v clear here
          (omega (arith, all)) fresh in
      let last =
        transfer_loop-Writes count (suc m) q es step.to small step.valid step.clear
          (omega (arith, here, step.one_on)) (omega (arith, all)) step.fresh in
      record {
        to = last.to;
        ends =
            transfer_loop-next wsize mode (datagram (data_packet j base m)) rest s step.to step.turn
            ∙ last.ends;
        file = last.file;
        answers =
            last.answers
            ∙ ap (λ (x : List (List ℕ)). x ++ acks_sent mode base (suc m) count) step.answers
            ∙ append_assoc s.proc.sent (send_packet (ack_number mode (base + m)) rtp_ack [] ∷ [])
                (acks_sent mode base (suc m) count);
        fresh = last.fresh;
      }
    where
      rest : List Recv
      rest = packets j base (suc m) count ++ datagram (send_packet q rtp_fin []) ∷ es

  -- In both modes, when the file's packets come in order and a FIN behind them, transfer_data writes
  -- all bytes that they carry, and leaves the events behind them unread; it has then sent one
  -- acknowledgement of each packet, in their order. For a file whose packets fit the buffer, from an
  -- errno other than EAGAIN, if the numbers do not wrap and write_file writes these bytes in full.
  pub transfer_data-writes :
      (f : Sink) (junk : ℕ → ℕ) (p : Process) (q : ℕ) (es : List Recv)
      → write_file f (take (total j) j.buf) ≡ some (take (total j) j.buf)
      → p.sqn ≡ base
      → p.errno ≢ eagain
      → q < 2 ^ 32
      → (n : ℕ) × Passes p (acks_sent mode base 0 (npacket j)) n es (take (total j) j.buf) (
          transfer_data f junk wsize mode p
            (packets j base 0 (npacket j) ++ datagram (send_packet q rtp_fin []) ∷ es))
  unfolding transfer_data start_receiving set_sock_recv_time
  transfer_data-writes f junk p q es whole at fresh small = (
    all.to.proc.sqn,
    record {
      end = all.to.proc;
      ends = rw (all.ends, all.file, whole) refl;
      sqn_eq = refl;
      sent_eq = all.answers;
      fresh = all.fresh;
    },
  )
    where
      unasked : (ds : List (List ℕ)) → All (λ d. Unit {0}) ds
      unasked [] = tt
      unasked (d ∷ ds) = (tt, unasked ds)

      all :
          Writes 0
            (npacket j)
            (λ rest. packets j base 0 (npacket j) ++ datagram (send_packet q rtp_fin []) ∷ rest)
            es
            (start_receiving wsize junk p)
      all =
          transfer_loop-Writes (npacket j) 0 q es (start_receiving wsize junk p) small
            (start_receiving-Inv j base mode wsize (λ d. Unit {0}) room fits mode_fits wsize_pos
              junk p at (unasked p.sent))
            (record {
              size = length-replicate wsize zero;
              none = λ i. get_or-replicate wsize zero i;
            })
            refl (omega arith) fresh
