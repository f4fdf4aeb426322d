-- ===== src/Rtp/System/Taken/Modes.antt =====
-- How the two modes of lab2/src/receiver.c take a packet that is next.
use computer_system24fall.Common.{
  ◌-◌, true, false, ltb→lt, subst, ℕ, suc, ◌+◌, ◌*◌, ◌^◌, ◌≤◌, ◌<◌, ◌≡◌, ◌≢◌, refl, ap, [], ◌∷◌,
  ◌++◌, arith, ltb, ◌==◌, if-cases,
}
use computer_system24fall.Common.Int.{pos, neg}
use computer_system24fall.Rtp.Seq.{seqnum_add, sqn_dis, seqnum_is_in}
use computer_system24fall.Rtp.Window.{update_window}
use computer_system24fall.Rtp.Seq.Ring.{seqnum_add_below, sqn_dis_below}
use computer_system24fall.Rtp.Packet.{payload_max, rtp_ack, seq_num_of, length_of, send_packet}
use computer_system24fall.Rtp.Process.{send, max_buf}
use computer_system24fall.Rtp.Receiver.{
  Receiving, Turn, next, go_back_n, take_selective, selective_repeat,
}
use computer_system24fall.Rtp.Window.First.{IsClear, update_window-first}

-- The turn takes the packet that was awaited, and sends one acknowledgement, of the number `n`.
pub record Takes (wsize n : ℕ) (s : Receiving) (t : Turn) : Type 0 where
  pub to : Receiving
  pub turn : t ≡ next to
  pub one_on : to.shift ≡ suc s.shift
  pub same_errno : to.proc.errno ≡ s.proc.errno
  pub answers : to.proc.sent ≡ s.proc.sent ++ send_packet n rtp_ack [] ∷ []
  pub clear : IsClear wsize to.window

pub go_back_n-Takes :
    (wsize n : ℕ) (s : Receiving)
    → seq_num_of s.proc.packet ≡ s.proc.sqn
    → seqnum_add s.proc.sqn (pos 1) ≡ n
    → s.shift * payload_max + length_of s.proc.packet ≤ max_buf
    → IsClear wsize s.window
    → Takes wsize n s (go_back_n s)
unfolding go_back_n send
go_back_n-Takes wsize n s mine number room clear =
    if-cases (Takes wsize n s) (seq_num_of s.proc.packet == s.proc.sqn) _ _
      (λ _.
        if-cases (Takes wsize n s) (ltb max_buf (s.shift * payload_max + length_of s.proc.packet)) _
          _ (λ over. absurd (ground (arith, over, room)))
          λ _. record {
            to = _;
            turn = refl;
            one_on = omega arith;
            same_errno = refl;
            answers = ap (λ (k : ℕ). s.proc.sent ++ send_packet k rtp_ack [] ∷ []) number;
            clear = clear;
          })
      (λ other. absurd (ground (arith, other, mine)))

take_selective-Takes :
    (wsize : ℕ) (s : Receiving)
    → s.wbase ≡ seq_num_of s.proc.packet
    → s.wbase < 2 ^ 31
    → s.shift * payload_max + length_of s.proc.packet ≤ max_buf
    → IsClear wsize s.window
    → 0 < wsize
    → Takes wsize (seq_num_of s.proc.packet) s (take_selective wsize s)
unfolding take_selective send
take_selective-Takes wsize s mine in_ring room clear w =
    if-cases (Takes wsize (seq_num_of s.proc.packet) s)
      (ltb max_buf (mov * payload_max + length_of s.proc.packet)) _ _
      (λ over. absurd (omega (arith, ltb→lt _ _ over, here, room)))
      λ _. record {
        to = _;
        turn = refl;
        one_on = omega (arith, slides.0);
        same_errno = refl;
        answers = refl;
        clear = slides.1;
      }
  where
    mov : ℕ
    mov = sqn_dis s.wbase (seq_num_of s.proc.packet) + s.shift

    here : mov ≡ s.shift
    here = omega (
      arith,
      sqn_dis_below s.wbase 0 (seq_num_of s.proc.packet) (omega (arith, mine))
          (omega (arith, mine)),
    )

    slides :
        ((update_window s.window wsize (mov - s.shift)).1 ≡ 1)
        × IsClear wsize (update_window s.window wsize (mov - s.shift)).0
    slides =
        subst
          (λ d.
            ((update_window s.window wsize d).1 ≡ 1)
            × IsClear wsize (update_window s.window wsize d).0)
          (omega (arith, here)) (update_window-first s.window wsize clear w)

pub selective_repeat-Takes :
    (wsize : ℕ) (s : Receiving)
    → s.wbase ≡ seq_num_of s.proc.packet
    → s.wbase + wsize < 2 ^ 31
    → seqnum_is_in (seq_num_of s.proc.packet) (seqnum_add s.wbase (neg wsize)) s.wbase ≢ true
    → s.shift * payload_max + length_of s.proc.packet ≤ max_buf
    → IsClear wsize s.window
    → 0 < wsize
    → Takes wsize (seq_num_of s.proc.packet) s (selective_repeat wsize s)
unfolding selective_repeat
selective_repeat-Takes wsize s mine in_ring fresh room clear w =
    if-cases (Takes wsize seq s) (seqnum_is_in seq (seqnum_add s.wbase (neg wsize)) s.wbase) _ _
      (λ old. absurd (fresh old))
      λ _.
        if-cases (Takes wsize seq s) (seqnum_is_in seq s.wbase (seqnum_add s.wbase (pos wsize))) _ _
          (λ _. take_selective-Takes wsize s mine (omega arith) room clear w)
          λ out. absurd (outside out)
  where
    seq : ℕ
    seq = seq_num_of s.proc.packet

    far : seqnum_add s.wbase (pos wsize) ≡ s.wbase + wsize
    far = seqnum_add_below s.wbase wsize (s.wbase + wsize) refl (omega arith)

    outside : seqnum_is_in seq s.wbase (seqnum_add s.wbase (pos wsize)) ≡ false → ⊥
    outside out = unfold seqnum_is_in in ground (arith, out, far, mine)
