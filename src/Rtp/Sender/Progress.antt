-- ===== src/Rtp/Sender/Progress.antt =====
-- transfer_data of lab2/src/sender.c returns once each packet is acknowledged in order.
use computer_system24fall.Common.{
  ◌⊎◌, length-replicate, get_or-replicate, ℕ, zero, suc, ◌+◌, ◌^◌, ◌<◌, ◌≡◌, ◌≢◌, refl, sym, ap,
  ◌∙◌, List, [], ◌∷◌, ◌++◌, All, some, arith, lt→ltb, le→ltb, subst,
}
use computer_system24fall.Rtp.Packet.{eagain, rtp_ack, send_packet, Recv, datagram}
use computer_system24fall.Rtp.Files.{Source, read_file}
use computer_system24fall.Rtp.Process.{Process, returned, set_sock_recv_time, max_buf}
use computer_system24fall.Rtp.Sender.{
  Job, Sending, npacket, next_window, receive, transfer_loop, start_sending, transfer_buf,
  transfer_data,
}
use computer_system24fall.Rtp.Sender.Invariant.{next_window-Inv}
use computer_system24fall.Rtp.Process.Passes.{Passes}
use computer_system24fall.Rtp.Sender.InTurn.{data_sent, Sends, start-Sends, next_window-Sends}
use computer_system24fall.Rtp.Window.First.{IsClear}
use computer_system24fall.Rtp.Sender.Turn.{
  ack_number, Valid, errno-next_window, shift-next_window, window-next_window, receive-Moves,
}
use computer_system24fall.Rtp.Sender.Transfer.{start_sending-Inv}

-- The acknowledgements of `count` packets from place `m` on, one by one.
unfoldable pub acks : ℕ → ℕ → ℕ → ℕ → List Recv
acks mode base m zero = []
acks mode base m (suc count) =
    datagram (send_packet (ack_number mode (base + m)) rtp_ack []) ∷ acks mode base (suc m) count

module _ (j : Job) (base : ℕ) (room : base + npacket j < 2 ^ 31)
    (fits : (j.mode ≡ 0) ⊎ (j.mode ≡ 1)) (wsize_pos : 0 < j.wsize) where
  finish :
      (es : List Recv) (s : Sending)
      → s.shift ≡ npacket j
      → transfer_loop j es s ≡ returned s s.proc es
  unfolding transfer_loop
  finish [] s all = rw (le→ltb s.shift (npacket j) (omega (arith, all))) refl
  finish (e ∷ es) s all = rw (le→ltb s.shift (npacket j) (omega (arith, all))) refl

  -- The loop returns, all packets acknowledged and each sent once.
  record Returns (before : List (List ℕ)) (events es : List Recv) (s : Sending) : Type 0 where
    to : Sending
    ends : transfer_loop j events s ≡ returned to to.proc es
    all_acked : to.shift ≡ npacket j
    sqn_eq : to.proc.sqn ≡ base + npacket j
    sent_eq : to.proc.sent ≡ before ++ data_sent j base 0 (npacket j)
    fresh : to.proc.errno ≢ eagain

  transfer_loop-Returns :
      (count m next : ℕ) (before : List (List ℕ)) (es : List Recv) (s : Sending)
      → Valid j base room fits wsize_pos s next
      → IsClear j.wsize s.window
      → m ≡ s.shift
      → m + count ≡ npacket j
      → s.proc.errno ≢ eagain
      → Sends j base room before s.proc
      → Returns before (acks j.mode base m count ++ es) es s
  unfolding acks
  transfer_loop-Returns zero m next before es s v clear here all fresh sends = record {
    to = s;
    ends = finish es s (omega (arith, here, all));
    all_acked = omega (arith, here, all);
    sqn_eq = sends.sqn_eq ∙ ap (λ (k : ℕ). base + k) all_sent;
    sent_eq = sends.sent_eq ∙ ap (λ (k : ℕ). before ++ data_sent j base 0 k) all_sent;
    fresh = fresh;
  }
    where
      all_sent : sends.count ≡ npacket j
      all_sent = omega (arith, sends.sqn_eq, v.sqn_eq, v.shift_le, v.within, here, all)
  transfer_loop-Returns (suc count) m next before es s v clear here all fresh sends =
      let more : s.shift < npacket j = omega (arith, here, all) in
      let (n, v', l) =
        next_window-Inv j base (λ k. Unit {0}) (λ d. Unit {0}) room (λ k h. tt) s next v wsize_pos
          more in
      let w = next_window j s in
      let step =
        receive-Moves j base room fits wsize_pos w n m v'
          (subst (IsClear j.wsize) (sym (window-next_window j s)) clear)
          (here ∙ sym (shift-next_window j s)) l
          (λ stale. fresh (sym (errno-next_window j s) ∙ stale)) in
      let sent = next_window-Sends j base room before s v.at_base sends in
      let last =
        transfer_loop-Returns count (suc m) n before es step.to step.valid step.clear
          (omega (arith, here, step.one_on, shift-next_window j s)) (omega (arith, all)) step.fresh
          (record {
            count = sent.count;
            sqn_eq = step.same_sqn ∙ sent.sqn_eq;
            sent_eq = step.same_sent ∙ sent.sent_eq;
          }) in
      record {
        to = last.to;
        ends = turns s more step.to step.turn ∙ last.ends;
        all_acked = last.all_acked;
        sqn_eq = last.sqn_eq;
        sent_eq = last.sent_eq;
        fresh = last.fresh;
      }
    where
      turns :
          (s : Sending)
          → s.shift < npacket j
          → (u : Sending)
          → receive j
              (next_window j s)
              (datagram (send_packet (ack_number j.mode (base + m)) rtp_ack []))
            ≡ some u
          → transfer_loop j (acks j.mode base m (suc count) ++ es) s
            ≡ transfer_loop j (acks j.mode base (suc m) count ++ es) u
      turns s more u eq = unfold transfer_loop in rw (lt→ltb s.shift (npacket j) more, eq) refl

-- In both modes transfer_data returns, past all packets, when an acknowledgement of each comes in its
-- turn, and leaves the events behind them unread; it has then sent each packet once, in their order, and
-- `sqn` stands behind the last. For a file of any length that read_file reads and a window of any
-- positive size, from an errno other than EAGAIN, if the numbers do not wrap.
pub transfer_data-returns :
    (f : Source) (buf : List ℕ) (wsize mode base : ℕ) (p : Process) (es : List Recv)
    → read_file f max_buf ≡ some buf
    → let j : Job = record { buf = buf; wsize = wsize; mode = mode } in
      base + npacket j < 2 ^ 31
      → (mode ≡ 0) ⊎ (mode ≡ 1)
      → 0 < wsize
      → p.sqn ≡ base
      → p.errno ≢ eagain
      → (t : Sending) × (t.shift ≡ npacket j)
        × Passes p
            (data_sent j base 0 (npacket j))
            (base + npacket j)
            es
            t
            (transfer_data f wsize mode p (acks mode base 0 (npacket j) ++ es))
unfolding transfer_data start_sending set_sock_recv_time
transfer_data-returns f buf wsize mode base p es reads room fits w at fresh = (
  all.to,
  all.all_acked,
  record {
    end = all.to.proc;
    ends =
        ap (λ o. transfer_buf o wsize mode p (acks mode base 0 (npacket j) ++ es)) reads ∙ all.ends;
    sqn_eq = all.sqn_eq;
    sent_eq = all.sent_eq;
    fresh = all.fresh;
  },
)
  where
    j : Job
    j = record { buf = buf; wsize = wsize; mode = mode }

    unasked : (ds : List (List ℕ)) → All (λ d. Unit {0}) ds
    unasked [] = tt
    unasked (d ∷ ds) = (tt, unasked ds)

    all :
        Returns j base room fits w p.sent
          (acks mode base 0 (npacket j) ++ es)
          es
          (start_sending j p)
    all =
        transfer_loop-Returns j base room fits w (npacket j) 0 0 p.sent es (start_sending j p)
          (start_sending-Inv j base (λ k. Unit {0}) (λ d. Unit {0}) room (λ k h. tt) fits w p at
            (unasked p.sent))
          (record { size = length-replicate wsize zero; none = λ i. get_or-replicate wsize zero i })
          refl (omega arith) fresh (start-Sends j base room p.sent (start_sending j p).proc at refl)
