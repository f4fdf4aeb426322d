-- ===== src/Rtp/System/Delivery.antt =====
-- The transfer of a file over a network that loses, repeats, reorders and damages datagrams: the two
-- loops of lab2/src/sender.c and lab2/src/receiver.c together.
pub mod Consistent
use computer_system24fall.Common.{
  length, take-all, ◌-◌, ◌%◌, ◌≢◌, ℕ, ◌+◌, ◌^◌, ◌≤◌, ◌<◌, ◌≡◌, ap, ◌∙◌, ◌⊎◌, arith, All, take,
}
use computer_system24fall.Rtp.Checksum.Detect.{IsBytes}
use computer_system24fall.Rtp.Process.{Process, max_buf}
use computer_system24fall.Rtp.Packet.{payload_max}
use computer_system24fall.Rtp.Sender.{Job, npacket}
use computer_system24fall.Rtp.Sender
use computer_system24fall.Rtp.Sender.Chunks.{total, total-whole, total-multiple}
use computer_system24fall.Rtp.Receiver.{bytes_from}
use computer_system24fall.Rtp.Receiver
use computer_system24fall.Rtp.Receiver.Store.{bytes_from-total}
use computer_system24fall.Rtp.Receiver.Invariant.{Got-total}
use computer_system24fall.Rtp.System.{left, World, Reach, start}
use computer_system24fall.Rtp.System.Truth.{SenderGreeting, ReceiverGreeting}
use computer_system24fall.Rtp.System.Delivery.Consistent.{
  Has, IsConsistent, Reach-IsConsistent, start-IsConsistent,
}

module _ (j : Job) (base wsize : ℕ) (room : base + npacket j + wsize < 2 ^ 31)
    (fits : total j ≤ max_buf) (bytes : IsBytes j.buf) (mode_fits : (j.mode ≡ 0) ⊎ (j.mode ≡ 1))
    (job_wsize : 0 < j.wsize) (pos_wsize : 0 < wsize) where
  -- Whatever the network loses, repeats, reorders or damages, and however the turns interleave:
  -- once the sender has left its loop, the receiver's buffer holds all bytes of the file that the
  -- packets carry, and `fsize` counts just them. For both modes and windows of any positive
  -- sizes; the file's packets fit the buffer, their numbers do not wrap, and both sides start
  -- with the same number, having sent their greetings.
  pub Reach-delivers :
      (junk : ℕ → ℕ) (p q : Process) (w : World)
      → p.sqn ≡ base
      → q.sqn ≡ base
      → All SenderGreeting p.sent
      → All ReceiverGreeting q.sent
      → Reach j wsize (start j wsize junk p q) w
      → w.sender ≡ left
      → bytes_from w.receiving.buf 0 w.receiving.fsize ≡ take (total j) j.buf
  Reach-delivers junk p q w at_p at_q greet_p greet_q r off =
      ap (bytes_from w.receiving.buf 0)
        (Got-total j w.receiving.buf w.receiving.fsize v.receiver_ok.fsize_le got)
      ∙ bytes_from-total j w.receiving.buf (λ k h. (got k h).0)
    where
      v : IsConsistent j base wsize w
      v =
          Reach-IsConsistent j base wsize room fits bytes mode_fits job_wsize pos_wsize
            (start j wsize junk p q) w r
            (start-IsConsistent j base wsize room fits bytes mode_fits job_wsize pos_wsize junk p q
              at_p at_q greet_p greet_q)

      got : (k : ℕ) → k < npacket j → Has j base wsize w.receiving k
      got k h = v.sender_ok.held k (omega (arith, v.all_acked off))

  -- If moreover the file's length is no multiple of PAYLOAD_MAX, the receiver holds the whole file.
  pub Reach-delivers_whole :
      (junk : ℕ → ℕ) (p q : Process) (w : World)
      → p.sqn ≡ base
      → q.sqn ≡ base
      → All SenderGreeting p.sent
      → All ReceiverGreeting q.sent
      → Reach j wsize (start j wsize junk p q) w
      → w.sender ≡ left
      → length j.buf % payload_max ≢ 0
      → bytes_from w.receiving.buf 0 w.receiving.fsize ≡ j.buf
  Reach-delivers_whole junk p q w at_p at_q greet_p greet_q r off odd =
      Reach-delivers junk p q w at_p at_q greet_p greet_q r off
      ∙ take-all (total j) j.buf (omega (arith, total-whole j odd))

  -- If instead the file's length is a positive multiple of PAYLOAD_MAX, the receiver lacks the last
  -- PAYLOAD_MAX bytes, although the sender has left its loop as after a success.
  pub Reach-loses_last :
      (junk : ℕ → ℕ) (p q : Process) (w : World)
      → p.sqn ≡ base
      → q.sqn ≡ base
      → All SenderGreeting p.sent
      → All ReceiverGreeting q.sent
      → Reach j wsize (start j wsize junk p q) w
      → w.sender ≡ left
      → 0 < length j.buf
      → length j.buf % payload_max ≡ 0
      → bytes_from w.receiving.buf 0 w.receiving.fsize ≡ take (length j.buf - payload_max) j.buf
  Reach-loses_last junk p q w at_p at_q greet_p greet_q r off more even =
      Reach-delivers junk p q w at_p at_q greet_p greet_q r off
      ∙ ap (λ (n : ℕ). take n j.buf) (omega (arith, total-multiple j more even))
