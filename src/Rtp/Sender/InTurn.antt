-- ===== src/Rtp/Sender/InTurn.antt =====
-- What transfer_data of lab2/src/sender.c has sent when it resends nothing: the packets, each once.
use computer_system24fall.Common.{
  ℕ, zero, suc, ◌+◌, ◌^◌, ◌<◌, ◌≡◌, sym, ap, ◌∙◌, List, [], ◌∷◌, ◌++◌, append_assoc, append-nil,
  arith, ltb, if-cases, ◌==◌, ==_iff,
}
use computer_system24fall.Common.Int.{pos}
use computer_system24fall.Rtp.Seq.{seqnum_add}
use computer_system24fall.Rtp.Seq.Ring.{seqnum_add_below}
use computer_system24fall.Rtp.Packet.{send_packet}
use computer_system24fall.Rtp.Process.{Process, send}
use computer_system24fall.Rtp.Sender.{Job, Sending, npacket, chunk, send_window, next_window}
use computer_system24fall.Rtp.Sender.Batch.{data_packet}

-- `count` packets of the file from place `m` on.
unfoldable pub data_sent : Job → ℕ → ℕ → ℕ → List (List ℕ)
data_sent j base m zero = []
data_sent j base m (suc count) = data_packet j base m ∷ data_sent j base (suc m) count

data_sent-last :
    (j : Job) (base m count : ℕ)
    → data_sent j base m (suc count)
      ≡ data_sent j base m count ++ data_packet j base (m + count) ∷ []
unfolding data_sent
data_sent-last j base m zero = ap (λ (k : ℕ). data_packet j base k ∷ []) (omega arith)
data_sent-last j base m (suc count) = ap (◌∷◌ (data_packet j base m)) (
    data_sent-last j base (suc m) count
    ∙ ap (λ (k : ℕ). data_sent j base (suc m) count ++ data_packet j base k ∷ []) (omega arith))

module _ (j : Job) (base : ℕ) (room : base + npacket j < 2 ^ 31) (before : List (List ℕ)) where
  -- The process has sent the first `k` packets, and `sqn` stands behind them.
  pub record Sends (p : Process) : Type 0 where
    pub count : ℕ
    pub sqn_eq : p.sqn ≡ base + count
    pub sent_eq : p.sent ≡ before ++ data_sent j base 0 count

  pub start-Sends : (p : Process) → p.sqn ≡ base → p.sent ≡ before → Sends p
  unfolding data_sent
  start-Sends p at same = record {
    count = 0;
    sqn_eq = omega (arith, at);
    sent_eq = same ∙ sym (append-nil before);
  }

  send-Sends :
      (p : Process) (k : ℕ)
      → p.sqn ≡ base + k
      → k < npacket j
      → p.sent ≡ before ++ data_sent j base 0 k
      → (send p p.sqn 0 (chunk j k)).sent ≡ before ++ data_sent j base 0 (suc k)
  unfolding send
  send-Sends p k at h e =
      ap (λ (n : ℕ). p.sent ++ send_packet n 0 (chunk j k) ∷ []) at
      ∙ ap (λ (x : List (List ℕ)). x ++ data_packet j base k ∷ []) e
      ∙ append_assoc before (data_sent j base 0 k) (data_packet j base k ∷ [])
      ∙ ap (λ (x : List (List ℕ)). before ++ x)
          (sym (
            data_sent-last j base 0 k
            ∙ ap (λ (n : ℕ). data_sent j base 0 k ++ data_packet j base n ∷ []) (omega arith)))

  send_window-Sends :
      (shift left i : ℕ) (p : Process)
      → p.sqn ≡ base + (shift + i)
      → p.sent ≡ before ++ data_sent j base 0 (shift + i)
      → Sends (send_window j shift i left p)
  unfolding send_window send
  send_window-Sends shift zero i p at e = record { count = shift + i; sqn_eq = at; sent_eq = e }
  send_window-Sends shift (suc left) i p at e =
      if-cases Sends (ltb (i + shift) (npacket j)) _ p
        (λ more.
          send_window-Sends shift left (i + 1) _
            (ap (λ (t : ℕ). seqnum_add t (pos 1)) at
              ∙ seqnum_add_below (base + (shift + i)) 1 (base + (shift + (i + 1))) (omega arith)
                  (ground (arith, more, room)))
            (send-Sends p (shift + i) at (ground (arith, more)) e
              ∙ ap (λ (k : ℕ). before ++ data_sent j base 0 k) (omega arith)))
        (λ _. record { count = shift + i; sqn_eq = at; sent_eq = e })

  pub next_window-Sends :
      (s : Sending) → s.wbase ≡ base + s.shift → Sends s.proc → Sends (next_window j s).proc
  unfolding next_window
  next_window-Sends s at_base v =
      if-cases (λ (t : Sending). Sends t.proc) (s.wbase == s.proc.sqn) _ s
        (λ same.
          send_window-Sends s.shift j.wsize 0 s.proc
            (sym ((==_iff s.wbase s.proc.sqn).0 same) ∙ omega (arith, at_base))
            (v.sent_eq
              ∙ ap (λ (k : ℕ). before ++ data_sent j base 0 k)
                  (omega (arith, (==_iff s.wbase s.proc.sqn).0 same, at_base, v.sqn_eq))))
        (λ _. v)
