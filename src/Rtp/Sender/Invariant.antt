-- ===== src/Rtp/Sender/Invariant.antt =====
-- The loop of transfer_data in lab2/src/sender.c against acknowledgements that tell the truth: its
-- invariant, for both modes.
use computer_system24fall.Common.{
  ℕ, zero, suc, ◌+◌, ◌-◌, ◌^◌, ◌≤◌, ◌<◌, ◌≡◌, ◌≢◌, inl, inr, List, arith, ◌==◌, ==_iff, if-cases,
  lt-cases, subst, All, length, get_or,
}
use computer_system24fall.Common.Int.{pos}
use computer_system24fall.Rtp.Seq.{seqnum_add}
use computer_system24fall.Rtp.Seq.Ring.{seqnum_add_below}
use computer_system24fall.Rtp.Window.{update_window}
use computer_system24fall.Rtp.Window.Marks.{IsSlid, update_window-IsSlid}
use computer_system24fall.Rtp.Packet.{rtp_ack, seq_num_of, flags_of, Recv, accepted, recv_packet}
use computer_system24fall.Rtp.Sender.{Job, Sending, npacket, next_window, resend}
use computer_system24fall.Rtp.Sender.Batch.{data_packet, send_window-Filled, resend_from-Kept}

-- `mode` is 0 for go-back-N and 1 for selective repeat. What an acknowledgement with the number
-- `base + m` says of the packets that the receiver holds.
abbrev pub Covers : (ℕ → Type 0) → ℕ → ℕ → ℕ → Type 0
Covers Has n zero m = (m ≤ n) × ((k : ℕ) → k < m → Has k)
Covers Has n (suc mode) m = (m < n) × Has m

-- The window moved up by `mov` places.
unfoldable pub moved : Sending → ℕ → List ℕ → Sending
moved s mov window = record s {
  shift = s.shift + mov;
  wbase = seqnum_add s.wbase (pos mov);
  window = window;
}

module _ (j : Job) (base : ℕ) (Has : ℕ → Type 0) (Known : List ℕ → Type 0) where
  abbrev pub Vouches : ℕ → Type 0
  Vouches q = (m : ℕ) × (q ≡ base + m) × Covers Has (npacket j) j.mode m

  -- An event is sound if an acknowledgement in it, should recv_packet accept it, tells the truth.
  abbrev pub IsSound : Recv → Type 0
  IsSound e =
      (errno : ℕ) (buf : List ℕ)
      → (recv_packet errno buf e).scode ≡ accepted
      → flags_of (recv_packet errno buf e).buf ≡ rtp_ack
      → Vouches (seq_num_of (recv_packet errno buf e).buf)

  pub record Inv (s : Sending) (next : ℕ) : Type 0 where
    pub at_base : s.wbase ≡ base + s.shift
    pub sqn_eq : s.proc.sqn ≡ base + next
    pub shift_le : s.shift ≤ next
    pub within : next ≤ npacket j
    pub span : next ≤ s.shift + j.wsize
    pub size : length s.window ≡ j.wsize
    pub held : (k : ℕ) → k < s.shift → Has k
    pub marks :
        (i : ℕ) → get_or s.window i 0 ≢ 0 → (j.mode ≢ 0) × (s.shift + i < next) × Has (s.shift + i)
    pub all_known : All Known s.proc.sent

  module _ (room : base + npacket j < 2 ^ 31)
      (known : (k : ℕ) → k < npacket j → Known (data_packet j base k)) where
    pub next_window-Inv :
        (s : Sending) (next : ℕ)
        → Inv s next
        → 0 < j.wsize
        → s.shift < npacket j
        → (next' : ℕ) × Inv (next_window j s) next' × ((next_window j s).shift < next')
    unfolding next_window
    next_window-Inv s next v w more =
        if-cases (λ (t : Sending). (next' : ℕ) × Inv t next' × (t.shift < next'))
          (s.wbase == s.proc.sqn) _ s
          (λ same.
            let empty : next ≡ s.shift =
              omega (arith, (==_iff s.wbase s.proc.sqn).0 same, v.at_base, v.sqn_eq) in
            let f =
              send_window-Filled j base room Known known s.shift j.wsize 0 s.proc
                (omega (arith, v.sqn_eq)) (omega arith) v.all_known in
            (
              f.next,
              record {
                at_base = v.at_base;
                sqn_eq = f.sqn_eq;
                shift_le = omega (arith, f.from);
                within = f.within;
                span = omega (arith, f.span);
                size = v.size;
                held = v.held;
                marks = λ i h. absurd (omega (arith, (v.marks i h).1));
                all_known = f.all_known;
              },
              omega (arith, f.moves),
            ))
          (λ differ. (next, v, ground (arith, v.at_base, v.sqn_eq, v.shift_le)))

    pub resend-Inv : (s : Sending) (next : ℕ) → Inv s next → Inv (resend j s) next
    unfolding resend
    resend-Inv s next v =
        let kept =
          resend_from-Kept j base room Known known s next v.at_base v.within (s.proc.sqn - s.wbase)
            0 s.proc (omega (arith, v.at_base, v.sqn_eq, v.shift_le)) (v.sqn_eq, v.all_known) in
        record {
          at_base = v.at_base;
          sqn_eq = kept.0;
          shift_le = v.shift_le;
          within = v.within;
          span = v.span;
          size = v.size;
          held = v.held;
          marks = v.marks;
          all_known = kept.1;
        }

    -- Go-back-N: the acknowledgement of `dis` is for all packets up to it.
    pub moved-Inv_cumulative :
        (s : Sending) (next dis : ℕ)
        → j.mode ≡ 0
        → Inv s next
        → s.shift + dis < next
        → ((k : ℕ) → k < s.shift + dis + 1 → Has k)
        → Inv (moved s (dis + 1) s.window) next
    unfolding moved
    moved-Inv_cumulative s next dis gbn v h has = record {
      at_base =
          seqnum_add_below s.wbase (dis + 1) (base + (s.shift + (dis + 1)))
            (omega (arith, v.at_base)) (omega (arith, v.within));
      sqn_eq = v.sqn_eq;
      shift_le = omega arith;
      within = v.within;
      span = omega (arith, v.span);
      size = v.size;
      held = λ k l. has k (omega arith);
      marks = λ i on. absurd ((v.marks i on).0 gbn);
      all_known = v.all_known;
    }

    -- Selective repeat: the acknowledgement is for the packet at `dis` alone.
    pub moved-Inv_selective :
        (s : Sending) (next dis : ℕ)
        → j.mode ≢ 0
        → Inv s next
        → s.shift + dis < next
        → Has (s.shift + dis)
        → let r = update_window s.window j.wsize dis in Inv (moved s r.1 r.0) next
    unfolding moved
    moved-Inv_selective s next dis sr v h has = record {
      at_base =
          seqnum_add_below s.wbase k (base + (s.shift + k)) (omega (arith, v.at_base))
            (omega (arith, v.within, k-le));
      sqn_eq = v.sqn_eq;
      shift_le = k-le;
      within = v.within;
      span = omega (arith, v.span);
      size = slid.size;
      held = λ i l. elim (lt-cases i s.shift) [
        | inl old ↦ v.held i old
        | inr new ↦ subst Has (back i new) (slid.out (i - s.shift) (omega arith)).1
      ];
      marks =
          λ i on. (sr, omega (arith, (slid.kept i on).0), subst Has (assoc i) (slid.kept i on).1);
      all_known = v.all_known;
    }
      where
        k : ℕ
        k = (update_window s.window j.wsize dis).1

        -- What a mark at place `i` stands for.
        Acked : ℕ → Type 0
        Acked i = (s.shift + i < next) × Has (s.shift + i)

        slid : IsSlid j.wsize Acked (update_window s.window j.wsize dis)
        slid =
            update_window-IsSlid s.window j.wsize dis Acked v.size (omega (arith, v.span))
              (λ i on. ((v.marks i on).1, (v.marks i on).2)) (h, has)

        back : (i : ℕ) → s.shift ≤ i → s.shift + (i - s.shift) ≡ i
        back i l = omega arith

        assoc : (i : ℕ) → s.shift + (k + i) ≡ s.shift + k + i
        assoc i = omega arith

        k-le : s.shift + k ≤ next
        k-le = run-le k slid.out
          where
            run-le : (n : ℕ) → ((i : ℕ) → i < n → Acked i) → s.shift + n ≤ next
            run-le zero out = omega (arith, v.shift_le)
            run-le (suc n) out = omega (arith, (out n (omega arith)).0)
