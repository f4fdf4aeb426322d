-- ===== src/Rtp/Receiver/Cumulative.antt =====
-- Go-back-N in lab2/src/receiver.c: a genuine packet keeps the invariant.
use computer_system24fall.Common.{
  ℕ, ◌+◌, ◌*◌, ◌^◌, ◌≤◌, ◌<◌, ◌≡◌, sym, ap, inl, inr, subst, List, [], arith, ltb, ltb→lt, ◌==◌,
  ==_iff, lt-cases, if-cases, length,
}
use computer_system24fall.Common.Int.{pos}
use computer_system24fall.Rtp.Seq.{seqnum_add}
use computer_system24fall.Rtp.Seq.Ring.{seqnum_add_below}
use computer_system24fall.Rtp.Packet.{payload_max, rtp_ack, seq_num_of, length_of}
use computer_system24fall.Rtp.Process.{max_buf, send}
use computer_system24fall.Rtp.Sender.{Job, npacket, chunk}
use computer_system24fall.Rtp.Sender.Chunks.{total, chunk-within, length-chunk_full}
use computer_system24fall.Rtp.Sender.Invariant.{Covers}
use computer_system24fall.Rtp.Receiver.{Receiving, next, store, carried, go_back_n}
use computer_system24fall.Rtp.Receiver.Invariant.{
  Got, Inv, Turns, IsPacket, Known-map, send-Known, store-Got, store-Got_self,
}

module _ (j : Job) (base mode wsize : ℕ) (Old : List ℕ → Type 0)
    (room : base + npacket j + wsize < 2 ^ 31) (fits : total j ≤ max_buf) (gbn : mode ≡ 0) where
  abbrev Valid : Receiving → Type 0
  Valid = Inv j base mode Old wsize

  abbrev Covered : Receiving → ℕ → Type 0
  Covered s m = Covers (Got j s.buf s.fsize) (npacket j) mode m

  cumulative :
      (s : Receiving)
      → s.shift ≤ npacket j
      → ((k : ℕ) → k < s.shift → Got j s.buf s.fsize k)
      → Covered s s.shift
  cumulative s h held =
      subst (λ (t : ℕ). Covers (Got j s.buf s.fsize) (npacket j) t s.shift) (sym gbn) (h, held)

  -- Asking again for the next packet.
  again :
      (s : Receiving)
      → Valid s
      → Turns j base mode Old wsize s (next (record s { proc = send s.proc s.proc.sqn rtp_ack [] }))
  again s v = (
    record {
      sqn_eq = unfold send in v.sqn_eq;
      wbase_eq = v.wbase_eq;
      shift_le = v.shift_le;
      size = v.size;
      held = v.held;
      marks = v.marks;
      fsize_le = v.fsize_le;
      fsize_eq = v.fsize_eq;
      all_known =
          send-Known j base mode Old s.buf s.fsize s.shift s.proc.sqn s.proc (v.sqn_eq gbn)
            (cumulative s v.shift_le v.held) v.all_known;
    },
    λ k g. g,
  )

  -- The state with the next packet taken, for a buffer `buf'` in which it is stored.
  abbrev taken : Receiving → (ℕ → ℕ) → Receiving
  taken s buf' =
      let p = record s.proc { sqn = seqnum_add s.proc.sqn (pos 1) } in
      record s {
        proc = send p p.sqn rtp_ack [];
        fsize = s.fsize + length_of s.proc.packet;
        shift = s.shift + 1;
        buf = buf';
      }

  module _ (s : Receiving) (v : Valid s) (g : IsPacket j base s.proc s.shift) where
    abbrev end_of : ℕ
    end_of = s.shift * payload_max + length (chunk j s.shift)

    end-fsize : s.fsize + length_of s.proc.packet ≡ end_of
    end-fsize = omega (arith, v.fsize_eq gbn g.within, g.size)

    end-total : end_of ≤ total j
    end-total = chunk-within j s.shift g.within

    taken-Turns :
        (buf' : ℕ → ℕ)
        → buf' ≡ store s.buf (s.shift * payload_max) (chunk j s.shift)
        → Turns j base mode Old wsize s (next (taken s buf'))
    taken-Turns buf' e = (
      record {
        sqn_eq = λ _. unfold send in next_number;
        wbase_eq = λ sr. absurd (sr gbn);
        shift_le = omega (arith, g.within);
        size = v.size;
        held = held';
        marks = λ i on. absurd ((v.marks i on).0 gbn);
        fsize_le = omega (arith, end-fsize, end-total);
        fsize_eq = λ _ more. omega (arith, end-fsize, length-chunk_full j s.shift more);
        all_known =
            send-Known j base mode Old buf' fsize' (s.shift + 1) _ _ next_number
              (cumulative (taken s buf') (omega (arith, g.within)) held')
              (Known-map j base mode Old s.buf buf' s.fsize fsize' s.proc.sent kept v.all_known);
      },
      kept,
    )
      where
        fsize' : ℕ
        fsize' = s.fsize + length_of s.proc.packet

        next_number : seqnum_add s.proc.sqn (pos 1) ≡ base + (s.shift + 1)
        next_number =
            seqnum_add_below s.proc.sqn 1 (base + (s.shift + 1)) (omega (arith, v.sqn_eq gbn))
              (omega (arith, g.within))

        kept : (k : ℕ) → Got j s.buf s.fsize k → Got j buf' fsize' k
        kept = store-Got j s.buf buf' s.fsize fsize' s.shift e (omega arith)

        held' : (k : ℕ) → k < s.shift + 1 → Got j buf' fsize' k
        held' k h = elim (lt-cases k s.shift) [
          | inl old ↦ kept k (v.held k old)
          | inr last ↦ subst (Got j buf' fsize') (this last) (
              store-Got_self j s.buf buf' s.fsize fsize' s.shift e (omega arith)
                (omega (arith, end-fsize)))
        ]
          where
            this : s.shift ≤ k → s.shift ≡ k
            this last = omega arith

  -- A genuine packet, in its turn or not.
  pub go_back_n-Turns :
      (s : Receiving) (k : ℕ)
      → Valid s
      → IsPacket j base s.proc k
      → Turns j base mode Old wsize s (go_back_n s)
  unfolding go_back_n
  go_back_n-Turns s k v g =
      if-cases (Turns j base mode Old wsize s) (seq_num_of s.proc.packet == s.proc.sqn) _ _
        (λ mine.
          let here : k ≡ s.shift = omega (
            arith,
            (==_iff (seq_num_of s.proc.packet) s.proc.sqn).0 mine,
            g.number,
            v.sqn_eq gbn,
          ) in
          let g' = subst (IsPacket j base s.proc) here g in
          if-cases (Turns j base mode Old wsize s)
            (ltb max_buf (s.shift * payload_max + length_of s.proc.packet)) _ _
            (λ over.
              absurd (omega (arith, ltb→lt _ _ over, g'.size, chunk-within j s.shift g'.within)))
            (λ _.
              taken-Turns s v g' (store s.buf (s.shift * payload_max) (carried s.proc))
                (ap (store s.buf (s.shift * payload_max)) g'.bytes)))
        (λ _. again s v)
