-- ===== src/Rtp/Sender/Ack.antt =====
-- How transfer_data in lab2/src/sender.c takes an acknowledgement that tells the truth, in both modes.
use computer_system24fall.Common.{
  ℕ, ◌+◌, ◌-◌, ◌^◌, ◌%◌, ◌≤◌, ◌<◌, ◌≡◌, sym, ap, ◌∙◌, not, List, arith, ◌==◌, ==_iff, if-cases,
  subst, not-false, bit_xor,
}
use computer_system24fall.Common.Int.{neg}
use computer_system24fall.Rtp.Seq.{seqnum_add, seqnum_is_in, sqn_dis}
use computer_system24fall.Rtp.Seq.Ring.{
  seqnum_add-pos, seqnum_add-negsuc, sqn_dis_below, seqnum_is_in_below,
}
use computer_system24fall.Rtp.Window.{update_window}
use computer_system24fall.Rtp.Packet.{rtp_ack, seq_num_of, flags_of}
use computer_system24fall.Rtp.Sender.{Job, Sending, npacket, acknowledge, on_ack}
use computer_system24fall.Rtp.Sender.Batch.{data_packet}
use computer_system24fall.Rtp.Sender.Invariant.{
  Covers, Vouches, Inv, moved, moved-Inv_cumulative, moved-Inv_selective,
}

module _ (j : Job) (base : ℕ) (Has : ℕ → Type 0) (Known : List ℕ → Type 0)
    (room : base + npacket j < 2 ^ 31)
    (known : (k : ℕ) → k < npacket j → Known (data_packet j base k)) where
  abbrev Valid : Sending → ℕ → Type 0
  Valid = Inv j base Has Known

  acknowledge-cumulative :
      (window : List ℕ) (dis : ℕ) → j.mode ≡ 0 → acknowledge j window dis ≡ (window, dis + 1)
  unfolding acknowledge
  acknowledge-cumulative window dis gbn = ground arith

  acknowledge-selective :
      (window : List ℕ) (dis : ℕ)
      → j.mode ≡ 1
      → acknowledge j window dis ≡ update_window window j.wsize dis
  unfolding acknowledge
  acknowledge-selective window dis sr = ground arith

  -- The number that on_ack computes from the packet.
  abbrev acked : Sending → ℕ
  acked s = seqnum_add (seq_num_of s.proc.packet) (neg (bit_xor j.mode 1))

  -- The truth of the packet, if it is an acknowledgement.
  abbrev IsTrue : Sending → Type 0
  IsTrue s = flags_of s.proc.packet ≡ rtp_ack → Vouches j base Has Known (seq_num_of s.proc.packet)

  -- on_ack keeps what the state has and what the state with the window moved has.
  on_ack-cases :
      (P : Sending → Type 0) (s : Sending)
      → s.wbase < s.proc.sqn
      → P s
      → (let r = acknowledge j s.window (sqn_dis s.wbase (acked s)) in
          flags_of s.proc.packet ≡ rtp_ack
          → s.wbase ≤ acked s
          → acked s < s.proc.sqn
          → P (moved s r.1 r.0))
      → P (on_ack j s)
  unfolding on_ack moved
  on_ack-cases P s l keep move =
      if-cases P (not (flags_of s.proc.packet == rtp_ack)) s _ (λ _. keep)
        λ is_ack.
          if-cases P (not (seqnum_is_in (acked s) s.wbase s.proc.sqn)) s _ (λ _. keep)
            λ inside.
              let bounds = seqnum_is_in_below (acked s) s.wbase s.proc.sqn l (not-false _ inside) in
              move ((==_iff (flags_of s.proc.packet) rtp_ack).0 (not-false _ is_ack)) bounds.0
                bounds.1

  pub on_ack-Inv_cumulative :
      (s : Sending) (next : ℕ)
      → j.mode ≡ 0
      → Valid s next
      → s.shift < next
      → IsTrue s
      → Valid (on_ack j s) next
  on_ack-Inv_cumulative s next gbn v l vouch =
      on_ack-cases (λ (t : Sending). Valid t next) s (omega (arith, v.at_base, v.sqn_eq)) v
        λ is_ack lo hi.
          let (m, q, cov) = vouch is_ack in
          let all : Covers Has (npacket j) 0 m =
            subst (λ (t : ℕ). Covers Has (npacket j) t m) gbn cov in
          let before : acked s ≡ (seq_num_of s.proc.packet + 2 ^ 32 - 1 - 0 % 2 ^ 32) % 2 ^ 31 =
            ap (λ (t : ℕ). seqnum_add (seq_num_of s.proc.packet) (neg (bit_xor t 1))) gbn
            ∙ seqnum_add-negsuc (seq_num_of s.proc.packet) 0 in
          let last : s.shift + (acked s - s.wbase) + 1 ≡ m =
            omega (arith, before, q, all.0, v.at_base, v.sqn_eq, v.within) in
          let dis : sqn_dis s.wbase (acked s) ≡ acked s - s.wbase =
            sqn_dis_below s.wbase (acked s - s.wbase) (acked s) (omega arith)
              (omega (arith, v.sqn_eq, v.within)) in
          subst (λ (r : List ℕ × ℕ). Valid (moved s r.1 r.0) next)
            (sym (
              ap (acknowledge j s.window) dis
              ∙ acknowledge-cumulative s.window (acked s - s.wbase) gbn))
            (moved-Inv_cumulative j base Has Known room known s next (acked s - s.wbase) gbn v
              (omega (arith, v.at_base, v.sqn_eq)) (λ k h. all.1 k (omega (arith, last))))

  pub on_ack-Inv_selective :
      (s : Sending) (next : ℕ)
      → j.mode ≡ 1
      → Valid s next
      → s.shift < next
      → IsTrue s
      → Valid (on_ack j s) next
  on_ack-Inv_selective s next sr v l vouch =
      on_ack-cases (λ (t : Sending). Valid t next) s (omega (arith, v.at_base, v.sqn_eq)) v
        λ is_ack lo hi.
          let (m, q, cov) = vouch is_ack in
          let one : Covers Has (npacket j) 1 m =
            subst (λ (t : ℕ). Covers Has (npacket j) t m) sr cov in
          let before : acked s ≡ (seq_num_of s.proc.packet + 0) % 2 ^ 31 =
            ap (λ (t : ℕ). seqnum_add (seq_num_of s.proc.packet) (neg (bit_xor t 1))) sr
            ∙ seqnum_add-pos (seq_num_of s.proc.packet) 0 in
          let here : m ≡ s.shift + (acked s - s.wbase) =
            omega (arith, before, q, one.0, v.at_base) in
          let dis : sqn_dis s.wbase (acked s) ≡ acked s - s.wbase =
            sqn_dis_below s.wbase (acked s - s.wbase) (acked s) (omega arith)
              (omega (arith, v.sqn_eq, v.within)) in
          subst (λ (r : List ℕ × ℕ). Valid (moved s r.1 r.0) next)
            (sym (
              ap (acknowledge j s.window) dis
              ∙ acknowledge-selective s.window (acked s - s.wbase) sr))
            (moved-Inv_selective j base Has Known room known s next (acked s - s.wbase)
              (λ gbn. omega arith) v (omega (arith, v.at_base, v.sqn_eq)) (subst Has here one.1))
