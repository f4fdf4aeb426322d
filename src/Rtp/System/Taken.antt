-- ===== src/Rtp/System/Taken.antt =====
-- A turn of transfer_data of lab2/src/receiver.c for the packet of the file that is next.
pub mod Modes
use computer_system24fall.Common.{
  ◌⊎◌, inr, ◌-◌, true, subst, sym, ℕ, suc, ◌+◌, ◌*◌, ◌^◌, ◌≤◌, ◌<◌, ◌≡◌, ◌≢◌, refl, ap, ◌∙◌, inl,
  [], ◌∷◌, ◌++◌, arith, take, length,
}
use computer_system24fall.Common.Int.{pos, neg}
use computer_system24fall.Rtp.Seq.{seqnum_add, seqnum_is_in}
use computer_system24fall.Rtp.Seq.Ring.{seqnum_add_below}
use computer_system24fall.Rtp.Checksum.Detect.{IsBytes}
use computer_system24fall.Rtp.Packet.{
  eagain, payload_max, rtp_fin, rtp_ack, seq_num_of, length_of, flags_of, payload_of, send_packet,
  Recv, datagram, accepted, recv_packet,
}
use computer_system24fall.Rtp.Packet.Roundtrip.{recv_packet-send_packet}
use computer_system24fall.Rtp.Process.{recv, max_buf}
use computer_system24fall.Rtp.Sender.{Job, npacket, chunk}
use computer_system24fall.Rtp.Sender.Batch.{data_packet}
use computer_system24fall.Rtp.Sender.Chunks.{total, chunk-within, chunk-IsBytes, length-chunk-le}
use computer_system24fall.Rtp.Receiver.{
  Receiving, next, break, go_back_n, selective_repeat, carried, on_data, react, receive,
}
use computer_system24fall.Rtp.Receiver.Invariant.{Inv, Turns}
use computer_system24fall.Rtp.Receiver.Transfer.{
  receive-Turns, on_data-cumulative, on_data-selective,
}
use computer_system24fall.Rtp.System.Truth.{packet-Genuine}
use computer_system24fall.Rtp.Window.First.{IsClear}
use computer_system24fall.Rtp.Sender.Turn.{ack_number}
use computer_system24fall.Rtp.Receiver.Selective.{behind}
use computer_system24fall.Rtp.System.Taken.Modes.{Takes, go_back_n-Takes, selective_repeat-Takes}

-- An accepted data packet is taken by its mode.
react-data :
    (wsize mode : ℕ) (s : Receiving)
    → flags_of s.proc.packet ≡ 0
    → react wsize mode accepted s ≡ on_data wsize mode s
unfolding react
react-data wsize mode s plain = rw plain refl

-- A FIN ends the loop.
pub react-fin :
    (wsize mode : ℕ) (s : Receiving)
    → flags_of s.proc.packet ≡ rtp_fin
    → react wsize mode accepted s ≡ break s
unfolding react
react-fin wsize mode s fin = rw fin refl

module _ (j : Job) (base wsize : ℕ) (room : base + npacket j + wsize < 2 ^ 31)
    (fits : total j ≤ max_buf) (bytes : IsBytes j.buf) (wsize_pos : 0 < wsize) (mode : ℕ)
    (mode_fits : (mode ≡ 0) ⊎ (mode ≡ 1)) where
  -- Nothing is asked here of what was sent.
  abbrev pub Valid : Receiving → Type 0
  Valid = Inv j base mode (λ d. Unit {0}) wsize

  pub record Steps (s : Receiving) (m : ℕ) (e : Recv) : Type 0 where
    pub to : Receiving
    pub turn : receive wsize mode s e ≡ next to
    pub one_on : to.shift ≡ suc s.shift
    pub answers :
        to.proc.sent ≡ s.proc.sent ++ send_packet (ack_number mode (base + m)) rtp_ack [] ∷ []
    pub fresh : to.proc.errno ≢ eagain
    pub valid : Valid to
    pub clear : IsClear wsize to.window

  pub receive-Steps :
      (s : Receiving) (m : ℕ)
      → Valid s
      → IsClear wsize s.window
      → m ≡ s.shift
      → m < npacket j
      → s.proc.errno ≢ eagain
      → Steps s m (datagram (data_packet j base m))
  receive-Steps s m v clear here l fresh = record {
    to = takes.to;
    turn = taken;
    one_on = takes.one_on;
    answers = unfold recv in takes.answers;
    fresh = λ stale. fresh (sym (takes.same_errno ∙ unfold recv in f.1) ∙ stale);
    valid =
        (subst (Turns j base mode (λ d. Unit {0}) wsize s) taken (
          receive-Turns j base mode wsize (λ d. Unit {0}) room fits mode_fits wsize_pos s e v
            (packet-Genuine j base (omega (arith, room)) bytes (data_packet j base m) m l refl))).0;
    clear = takes.clear;
  }
    where
      e : Recv
      e = datagram (data_packet j base m)

      s' : Receiving
      s' = record s { proc = (recv s.proc e).0 }

      f :
          let r = recv_packet s.proc.errno s.proc.packet e in
          (r.scode ≡ accepted)
          × (r.errno ≡ s.proc.errno)
          × (seq_num_of r.buf ≡ base + m)
          × (length_of r.buf ≡ length (chunk j m))
          × (flags_of r.buf ≡ 0)
          × (take (length_of r.buf) (payload_of r.buf) ≡ chunk j m)
      f =
          recv_packet-send_packet (base + m) 0 (chunk j m) (omega (arith, room, l)) (omega arith)
            (chunk-IsBytes j m bytes) (length-chunk-le j m) s.proc.errno s.proc.packet fresh

      valid' : Valid s'
      valid' =
          unfold recv in
          record {
            sqn_eq = v.sqn_eq;
            wbase_eq = v.wbase_eq;
            shift_le = v.shift_le;
            size = v.size;
            held = v.held;
            marks = v.marks;
            fsize_le = v.fsize_le;
            fsize_eq = v.fsize_eq;
            all_known = v.all_known;
          }

      fits_here : s'.shift * payload_max + length_of s'.proc.packet ≤ max_buf
      fits_here = unfold recv in omega (arith, f.3, here, chunk-within j m l)

      number : seq_num_of s'.proc.packet ≡ base + m
      number = unfold recv in f.2

      at_sqn : mode ≡ 0 → s'.proc.sqn ≡ base + m
      at_sqn gbn = unfold recv in omega (arith, here, v.sqn_eq gbn)

      cumulative : mode ≡ 0 → Takes wsize (ack_number mode (base + m)) s' (go_back_n s')
      cumulative gbn =
          go_back_n-Takes wsize (ack_number mode (base + m)) s' (number ∙ sym (at_sqn gbn))
            (ap (λ (n : ℕ). seqnum_add n (pos 1)) (at_sqn gbn)
              ∙ seqnum_add_below (base + m) 1 (suc (base + m)) (omega arith)
                  (omega (arith, room, l))
              ∙ ap (λ (t : ℕ). ack_number t (base + m)) (sym gbn))
            fits_here clear

      selective : mode ≡ 1 → Takes wsize (ack_number mode (base + m)) s' (selective_repeat wsize s')
      selective sr =
          subst (λ n. Takes wsize n s' (selective_repeat wsize s'))
            (number ∙ ap (λ (t : ℕ). ack_number t (base + m)) (sym sr))
            (selective_repeat-Takes wsize s' (at_base ∙ sym number)
              (omega (arith, at_base, room, l)) not_old fits_here clear wsize_pos)
        where
          at_base : s'.wbase ≡ base + m
          at_base = omega (arith, here, v.wbase_eq (λ gbn. omega (arith, gbn, sr)))

          not_old :
              seqnum_is_in (seq_num_of s'.proc.packet) (seqnum_add s'.wbase (neg wsize)) s'.wbase
              ≢ true
          not_old old = omega (
            arith,
            here,
            behind j base wsize (λ d. Unit {0}) room fits wsize_pos s' m
                (subst (λ t. Inv j base t (λ d. Unit {0}) wsize s') sr valid')
                (record {
                  within = l;
                  number = number;
                  size = unfold recv in f.3;
                  bytes = unfold carried recv in f.5;
                })
                old,
          )

      takes : Takes wsize (ack_number mode (base + m)) s' (on_data wsize mode s')
      takes = elim mode_fits [
        | inl gbn ↦
            subst (Takes wsize (ack_number mode (base + m)) s')
              (sym (on_data-cumulative wsize mode s' gbn)) (cumulative gbn)
        | inr sr ↦
            subst (Takes wsize (ack_number mode (base + m)) s')
              (sym (on_data-selective wsize mode s' sr)) (selective sr)
      ]

      taken : receive wsize mode s e ≡ next takes.to
      taken =
          unfold receive recv in
          (ap (λ c. react wsize mode c s') f.0 ∙ react-data wsize mode s' f.4 ∙ takes.turn)
