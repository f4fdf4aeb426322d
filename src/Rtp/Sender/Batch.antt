-- ===== src/Rtp/Sender/Batch.antt =====
-- The sending loops of transfer_data in lab2/src/sender.c: which packets they send, and where the
-- global `sqn` stands behind them.
use computer_system24fall.Common.{
  ℕ, zero, suc, ◌+◌, ◌^◌, ◌≤◌, ◌<◌, ◌≡◌, refl, sym, ap, ◌∙◌, inl, inr, List, [], ◌∷◌, arith, ltb,
  if◌then◌else◌, if-both, not, ◌&&◌, ◌==◌, get_or, lt-cases, lt→ltb, le→ltb, subst, All, All-append,
}
use computer_system24fall.Common.Int.{pos}
use computer_system24fall.Rtp.Seq.{seqnum_add}
use computer_system24fall.Rtp.Seq.Ring.{seqnum_add_below}
use computer_system24fall.Rtp.Packet.{send_packet}
use computer_system24fall.Rtp.Process.{Process, send}
use computer_system24fall.Rtp.Sender.{Job, Sending, npacket, chunk, send_window, resend_from}

-- Packet `k` of the file carries the number `base + k`.
abbrev pub data_packet : Job → ℕ → ℕ → List ℕ
data_packet j base k = send_packet (base + k) 0 (chunk j k)

module _ (j : Job) (base : ℕ) (room : base + npacket j < 2 ^ 31) (Known : List ℕ → Type 0)
    (known : (k : ℕ) → k < npacket j → Known (data_packet j base k)) where
  -- The state behind the loop that fills a window from place `first` on, in at most `left` rounds.
  pub record Filled (first left : ℕ) (p : Process) : Type 0 where
    pub next : ℕ
    pub sqn_eq : p.sqn ≡ base + next
    pub from : first ≤ next
    pub within : next ≤ npacket j
    pub span : next ≤ first + left
    pub moves : 0 < left → first < npacket j → first < next
    pub all_known : All Known p.sent

  send-Known :
      (p : Process) (seq k : ℕ)
      → seq ≡ base + k
      → k < npacket j
      → All Known p.sent
      → All Known (send p seq 0 (chunk j k)).sent
  unfolding send
  send-Known p seq k e h a =
      All-append Known p.sent (send_packet seq 0 (chunk j k) ∷ []) a
        (subst (λ (t : ℕ). Known (send_packet t 0 (chunk j k))) (sym e) (known k h), tt)

  pub send_window-Filled :
      (shift left i : ℕ) (p : Process)
      → p.sqn ≡ base + (shift + i)
      → shift + i ≤ npacket j
      → All Known p.sent
      → Filled (shift + i) left (send_window j shift i left p)
  unfolding send_window
  send_window-Filled shift zero i p e h a = record {
    next = shift + i;
    sqn_eq = e;
    from = omega arith;
    within = h;
    span = omega arith;
    moves = omega arith;
    all_known = a;
  }
  send_window-Filled shift (suc left) i p e h a = elim (lt-cases (i + shift) (npacket j)) [
    | inl more ↦
        let p' : Process = record (send p p.sqn 0 (chunk j (shift + i))) {
          sqn = seqnum_add p.sqn (pos 1);
        } in
        let rest =
          send_window-Filled shift left (i + 1) p'
            (ap (λ (t : ℕ). seqnum_add t (pos 1)) e
              ∙ seqnum_add_below (base + (shift + i)) 1 (base + (shift + (i + 1))) (omega arith)
                  (omega arith))
            (omega arith) (send-Known p p.sqn (shift + i) e (omega arith) a) in
        rw (lt→ltb (i + shift) (npacket j) more) (record {
          next = rest.next;
          sqn_eq = rest.sqn_eq;
          from = omega (arith, rest.from);
          within = rest.within;
          span = omega (arith, rest.span);
          moves = omega (arith, rest.from);
          all_known = rest.all_known;
        })
    | inr full ↦ rw (le→ltb (i + shift) (npacket j) full) (record {
      next = shift + i;
      sqn_eq = e;
      from = omega arith;
      within = h;
      span = omega arith;
      moves = omega arith;
      all_known = a;
    })
  ]

  module _ (s : Sending) (next : ℕ) (at_base : s.wbase ≡ base + s.shift)
      (within : next ≤ npacket j) where
    -- What one round leaves: the same `sqn`, and packets of the file sent.
    abbrev Kept : Process → Type 0
    Kept p = (p.sqn ≡ base + next) × All Known p.sent

    abbrev seq_at : ℕ → ℕ
    seq_at i = seqnum_add s.wbase (pos i)

    seq_at-eq : (i : ℕ) → s.shift + i ≤ next → seq_at i ≡ base + (s.shift + i)
    seq_at-eq i h = seqnum_add_below s.wbase i (base + (s.shift + i)) (omega arith) (omega arith)

    -- The process behind round `i`.
    abbrev round : ℕ → Process → Process
    round i p =
        if not (j.mode == 0) && not (get_or s.window i 0 == 0)
        then p
        else send p (seq_at i) 0 (chunk j (s.shift + i))

    round-Kept : (i : ℕ) (p : Process) → s.shift + i < next → Kept p → Kept (round i p)
    unfolding send
    round-Kept i p h v =
        if-both Kept (not (j.mode == 0) && not (get_or s.window i 0 == 0)) p
          (send p (seq_at i) 0 (chunk j (s.shift + i))) v
          (v.0, send-Known p (seq_at i) (s.shift + i) (seq_at-eq i (omega arith)) (omega arith) v.1)

    -- The rounds that `fuel` allows send packets of the file only.
    pub resend_from-Kept :
        (fuel i : ℕ) (p : Process)
        → s.shift + i + fuel ≡ next
        → Kept p
        → Kept (resend_from j s fuel i p)
    unfolding resend_from
    resend_from-Kept zero i p f v = v
    resend_from-Kept (suc fuel) i p f v =
        if-both Kept (ltb (seq_at i) p.sqn) (resend_from j s fuel (i + 1) (round i p)) p
          (resend_from-Kept fuel (i + 1) (round i p) (omega arith) (round-Kept i p (omega arith) v))
          v

    -- When `fuel` rounds lead from place `i` to the last number sent, the loop does the same with more
    -- rounds allowed: its own test ends it. The packets' numbers do not wrap.
    pub resend_from-enough :
        (fuel more i : ℕ) (p : Process)
        → s.shift + i + fuel ≡ next
        → fuel ≤ more
        → Kept p
        → resend_from j s more i p ≡ resend_from j s fuel i p
    unfolding resend_from
    resend_from-enough zero zero i p f m v = refl
    resend_from-enough zero (suc more) i p f m v =
        rw (le→ltb (seq_at i) p.sqn (omega (arith, seq_at-eq i (omega arith), v.0))) refl
    resend_from-enough (suc fuel) zero i p f m v = absurd (omega arith)
    resend_from-enough (suc fuel) (suc more) i p f m v =
        ap (λ (q : Process). if ltb (seq_at i) p.sqn then q else p)
          (resend_from-enough fuel more (i + 1) (round i p) (omega arith) (omega arith)
            (round-Kept i p (omega arith) v))
