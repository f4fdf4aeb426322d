-- ===== src/Rtp/Sender/Turn.antt =====
-- A turn of transfer_data of lab2/src/sender.c for the acknowledgement of the first packet in flight.
use computer_system24fall.Common.{
  ◌-◌, ◌⊎◌, inr, ℕ, zero, suc, ◌+◌, ◌^◌, ◌<◌, ◌≡◌, ◌≢◌, refl, sym, ap, ◌∙◌, inl, true, not, List,
  [], some, arith, ltb, ◌==◌, if-cases, if-both, subst, bit_xor, take,
}
use computer_system24fall.Common.Int.{neg}
use computer_system24fall.Rtp.Seq.{seqnum_add, seqnum_is_in, sqn_dis}
use computer_system24fall.Rtp.Seq.Ring.{seqnum_add_below, seqnum_add-negsuc, sqn_dis_below}
use computer_system24fall.Rtp.Window.{update_window}
use computer_system24fall.Rtp.Packet.{
  eagain, rtp_ack, seq_num_of, length_of, flags_of, payload_of, send_packet, Recv, datagram,
  accepted, recv_packet,
}
use computer_system24fall.Rtp.Packet.Roundtrip.{recv_packet-send_packet}
use computer_system24fall.Rtp.Process.{Process, recv, send}
use computer_system24fall.Rtp.Sender.{
  Job, Sending, npacket, send_window, next_window, acknowledge, on_ack, react, receive,
}
use computer_system24fall.Rtp.Sender.Invariant.{Inv, moved}
use computer_system24fall.Rtp.Window.First.{IsClear, update_window-first}

-- The number that acknowledges packet number `n`: the next in go-back-N, its own in selective repeat.
abbrev pub ack_number : ℕ → ℕ → ℕ
ack_number zero n = suc n
ack_number (suc mode) n = n

ack_number-lt : (mode n : ℕ) → suc n < 2 ^ 32 → ack_number mode n < 2 ^ 32
ack_number-lt zero n h = h
ack_number-lt (suc mode) n h = omega arith

-- Filling a window leaves errno as it was.
errno-send_window :
    (j : Job) (shift i left : ℕ) (p : Process) → (send_window j shift i left p).errno ≡ p.errno
unfolding send_window send
errno-send_window j shift i zero p = refl
errno-send_window j shift i (suc left) p =
    if-both (λ (q : Process). q.errno ≡ p.errno) (ltb (i + shift) (npacket j)) _ p
      (errno-send_window j shift (i + 1) left _) refl

pub errno-next_window : (j : Job) (s : Sending) → (next_window j s).proc.errno ≡ s.proc.errno
unfolding next_window
errno-next_window j s =
    if-both (λ (t : Sending). t.proc.errno ≡ s.proc.errno) (s.wbase == s.proc.sqn) _ s
      (errno-send_window j s.shift 0 j.wsize s.proc) refl

pub shift-next_window : (j : Job) (s : Sending) → (next_window j s).shift ≡ s.shift
unfolding next_window
shift-next_window j s =
    if-both (λ (t : Sending). t.shift ≡ s.shift) (s.wbase == s.proc.sqn) _ s refl refl

pub window-next_window : (j : Job) (s : Sending) → (next_window j s).window ≡ s.window
unfolding next_window
window-next_window j s =
    if-both (λ (t : Sending). t.window ≡ s.window) (s.wbase == s.proc.sqn) _ s refl refl

-- The acknowledgement of the first packet in flight moves the window by one place.
module _ (j : Job) (s : Sending) (fits : (j.mode ≡ 0) ⊎ (j.mode ≡ 1))
    (clear : IsClear j.wsize s.window) (wsize_pos : 0 < j.wsize) where
  abbrev acked : ℕ
  acked = seqnum_add (seq_num_of s.proc.packet) (neg (bit_xor j.mode 1))

  abbrev window' : List ℕ
  window' = (acknowledge j s.window (sqn_dis s.wbase acked)).0

  acked-first :
      seq_num_of s.proc.packet ≡ ack_number j.mode s.wbase → s.wbase < 2 ^ 31 - 1 → acked ≡ s.wbase
  acked-first number small = elim fits [
    | inl gbn ↦
        ap (λ (t : ℕ). seqnum_add (seq_num_of s.proc.packet) (neg (bit_xor t 1))) gbn
        ∙ omega (
          arith,
          seqnum_add-negsuc (seq_num_of s.proc.packet) 0,
          number,
          ap (λ (t : ℕ). ack_number t s.wbase) gbn,
        )
    | inr sr ↦
        ap (λ (t : ℕ). seqnum_add (seq_num_of s.proc.packet) (neg (bit_xor t 1))) sr
        ∙ seqnum_add_below (seq_num_of s.proc.packet) 0 s.wbase
            (omega (arith, number, ap (λ (t : ℕ). ack_number t s.wbase) sr)) (omega arith)
  ]

  slides :
      (dis : ℕ)
      → dis ≡ 0
      → ((acknowledge j s.window dis).1 ≡ 1) × IsClear j.wsize (acknowledge j s.window dis).0
  unfolding acknowledge
  slides dis none =
      if-cases (λ (r : List ℕ × ℕ). (r.1 ≡ 1) × IsClear j.wsize r.0) (j.mode == 0) _ _
        (λ gbn. (omega (arith, none), clear))
        (λ sr.
          subst
            (λ (d : ℕ).
              ((update_window s.window j.wsize d).1 ≡ 1)
              × IsClear j.wsize (update_window s.window j.wsize d).0)
            (sym none) (update_window-first s.window j.wsize clear wsize_pos))

  on_ack-next :
      flags_of s.proc.packet ≡ rtp_ack
      → seq_num_of s.proc.packet ≡ ack_number j.mode s.wbase
      → s.wbase < s.proc.sqn
      → s.proc.sqn < 2 ^ 31
      → (on_ack j s ≡ moved s 1 window') × IsClear j.wsize window'
  unfolding on_ack moved
  on_ack-next is_ack number flight in_ring = (
    if-cases P (not (flags_of s.proc.packet == rtp_ack)) s _
        (λ other. absurd (ground (arith, other, is_ack)))
        λ _.
          if-cases P (not (seqnum_is_in acked s.wbase s.proc.sqn)) s _ (λ out. absurd (dropped out))
            λ _. ap (λ (n : ℕ). moved s n window') slid.0,
    slid.1,
  )
    where
      P : Sending → Type 0
      P t = t ≡ moved s 1 window'

      first : acked ≡ s.wbase
      first = acked-first number (omega arith)

      dropped : not (seqnum_is_in acked s.wbase s.proc.sqn) ≡ true → ⊥
      dropped out = unfold seqnum_is_in in ground (arith, out, first)

      slid :
          ((acknowledge j s.window (sqn_dis s.wbase acked)).1 ≡ 1)
          × IsClear j.wsize (acknowledge j s.window (sqn_dis s.wbase acked)).0
      slid =
          slides (sqn_dis s.wbase acked)
            (sqn_dis_below s.wbase 0 acked (omega (arith, first)) (omega (arith, first)))

-- Nothing is asked here of what the receiver holds or of what was sent.
module _ (j : Job) (base : ℕ) (room : base + npacket j < 2 ^ 31)
    (fits : (j.mode ≡ 0) ⊎ (j.mode ≡ 1)) (wsize_pos : 0 < j.wsize) where
  abbrev pub Valid : Sending → ℕ → Type 0
  Valid = Inv j base (λ k. Unit {0}) (λ d. Unit {0})

  -- What the next acknowledgement leads to.
  pub record Moves (s : Sending) (next : ℕ) (e : Recv) : Type 0 where
    pub to : Sending
    pub turn : receive j s e ≡ some to
    pub one_on : to.shift ≡ suc s.shift
    pub same_sqn : to.proc.sqn ≡ s.proc.sqn
    pub same_sent : to.proc.sent ≡ s.proc.sent
    pub fresh : to.proc.errno ≢ eagain
    pub valid : Valid to next
    pub clear : IsClear j.wsize to.window

  pub receive-Moves :
      (s : Sending) (next m : ℕ)
      → Valid s next
      → IsClear j.wsize s.window
      → m ≡ s.shift
      → s.shift < next
      → s.proc.errno ≢ eagain
      → Moves s next (datagram (send_packet (ack_number j.mode (base + m)) rtp_ack []))
  receive-Moves s next m v clear here l fresh = record {
    to = on_ack j s';
    turn = unfold receive recv react in ap (λ c. react j c s') f.0;
    one_on = ap (λ (t : Sending). t.shift) moves ∙ unfold moved in omega arith;
    same_sqn = unfold recv moved in ap (λ (t : Sending). t.proc.sqn) moves;
    same_sent = unfold recv moved in ap (λ (t : Sending). t.proc.sent) moves;
    fresh = λ stale. fresh (sym errno_kept ∙ stale);
    valid =
        subst (λ (t : Sending). Valid t next) (sym moves)
          (unfold recv moved in
            record {
              at_base =
                  seqnum_add_below s.wbase 1 (base + (s.shift + 1)) (omega (arith, v.at_base))
                    (omega (arith, v.within));
              sqn_eq = v.sqn_eq;
              shift_le = omega arith;
              within = v.within;
              span = omega (arith, v.span);
              size = next_clear.size;
              held = λ k h. tt;
              marks = λ i on. absurd (on (next_clear.none i));
              all_known = v.all_known;
            });
    clear =
        subst (λ (t : Sending). IsClear j.wsize t.window) (sym moves) (unfold moved in next_clear);
  }
    where
      e : Recv
      e = datagram (send_packet (ack_number j.mode (base + m)) rtp_ack [])

      s' : Sending
      s' = record s { proc = (recv s.proc e).0 }

      f :
          let r = recv_packet s.proc.errno s.proc.packet e in
          (r.scode ≡ accepted)
          × (r.errno ≡ s.proc.errno)
          × (seq_num_of r.buf ≡ ack_number j.mode (base + m))
          × (length_of r.buf ≡ 0)
          × (flags_of r.buf ≡ rtp_ack)
          × (take (length_of r.buf) (payload_of r.buf) ≡ [])
      f =
          recv_packet-send_packet (ack_number j.mode (base + m)) rtp_ack []
            (ack_number-lt j.mode (base + m) (omega (arith, v.within, here, l))) (omega arith) tt
            (omega arith) s.proc.errno s.proc.packet fresh

      after :
          (on_ack j s' ≡ moved s' 1 (window' j s' fits clear wsize_pos))
          × IsClear j.wsize (window' j s' fits clear wsize_pos)
      after =
          unfold recv in
          on_ack-next j s' fits clear wsize_pos f.4
            (f.2 ∙ ap (ack_number j.mode) (omega (arith, v.at_base)))
            (omega (arith, v.at_base, v.sqn_eq)) (omega (arith, v.sqn_eq, v.within))

      moves : on_ack j s' ≡ moved s' 1 (window' j s' fits clear wsize_pos)
      moves = after.0

      next_clear : IsClear j.wsize (window' j s' fits clear wsize_pos)
      next_clear = after.1

      errno_kept : (on_ack j s').proc.errno ≡ s.proc.errno
      errno_kept = unfold recv moved in ap (λ (t : Sending). t.proc.errno) moves ∙ f.1
