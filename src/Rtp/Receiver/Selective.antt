-- ===== src/Rtp/Receiver/Selective.antt =====
-- Selective repeat in lab2/src/receiver.c: a genuine packet keeps the invariant.
use computer_system24fall.Common.{
  ℕ, zero, suc, ◌+◌, ◌-◌, ◌*◌, ◌^◌, ◌≤◌, ◌<◌, ◌≡◌, ◌≢◌, refl, sym, ap₂, ◌⊎◌, inl, inr, true,
  if◌then◌else◌, subst, List, [], arith, ltb, ltb→lt, lt-cases, if-cases, length,
}
use computer_system24fall.Common.Int.{pos, neg}
use computer_system24fall.Rtp.Seq.{seqnum_add, sqn_dis, seqnum_is_in}
use computer_system24fall.Rtp.Seq.Ring.{
  seqnum_add_below, sqn_dis_below, seqnum_is_in_below, seqnum_is_in_upper, seqnum_add_back_below,
}
use computer_system24fall.Rtp.Window.{update_window}
use computer_system24fall.Rtp.Window.Marks.{IsSlid, update_window-IsSlid}
use computer_system24fall.Rtp.Packet.{payload_max, rtp_ack, seq_num_of, length_of}
use computer_system24fall.Rtp.Process.{max_buf, send}
use computer_system24fall.Rtp.Sender.{Job, npacket, chunk}
use computer_system24fall.Rtp.Sender.Chunks.{total, chunk-within}
use computer_system24fall.Rtp.Receiver.{
  Receiving, next, store, carried, take_selective, selective_repeat,
}
use computer_system24fall.Rtp.Receiver.Invariant.{
  Got, Inv, Turns, IsPacket, Known-map, send-Known, store-Got, store-Got_self,
}

module _ (j : Job) (base wsize : ℕ) (Old : List ℕ → Type 0)
    (room : base + npacket j + wsize < 2 ^ 31) (fits : total j ≤ max_buf)
    (pos_wsize : 0 < wsize) where
  abbrev Valid : Receiving → Type 0
  Valid = Inv j base 1 Old wsize

  sr : ◌≢◌ {A = ℕ} 1 0
  sr e = omega arith

  at_base : (s : Receiving) → Valid s → s.wbase ≡ base + s.shift
  at_base s v = v.wbase_eq sr

  -- A packet before the window was taken earlier, and is acknowledged again.
  pub behind :
      (s : Receiving) (k : ℕ)
      → Valid s
      → IsPacket j base s.proc k
      → seqnum_is_in (seq_num_of s.proc.packet) (seqnum_add s.wbase (neg wsize)) s.wbase ≡ true
      → k < s.shift
  behind s k v g t = omega (
    arith,
    at_base s v,
    g.number,
    seqnum_is_in_upper (seq_num_of s.proc.packet) (seqnum_add s.wbase (neg wsize)) s.wbase t ends,
  )
    where
      ends :
          (seqnum_add s.wbase (neg wsize) < s.wbase)
          ⊎ (seq_num_of s.proc.packet < seqnum_add s.wbase (neg wsize))
      ends =
          elim (seqnum_add_back_below s.wbase wsize (omega (arith, at_base s v, v.shift_le))
            (omega arith)) [
              | inl (above, e) ↦ inl (omega arith)
              | inr (below, e) ↦ inr (omega (arith, g.number, g.within))
            ]

  inside :
      (s : Receiving) (k : ℕ)
      → Valid s
      → IsPacket j base s.proc k
      → seqnum_is_in (seq_num_of s.proc.packet) s.wbase (seqnum_add s.wbase (pos wsize)) ≡ true
      → (s.shift ≤ k) × (k < s.shift + wsize)
  inside s k v g t = (
    omega (arith, bounds.0, g.number, at_base s v),
    omega (arith, bounds.1, g.number, at_base s v, far),
  )
    where
      far : seqnum_add s.wbase (pos wsize) ≡ s.wbase + wsize
      far =
          seqnum_add_below s.wbase wsize (s.wbase + wsize) refl
            (omega (arith, at_base s v, v.shift_le))

      bounds :
          (s.wbase ≤ seq_num_of s.proc.packet)
          × (seq_num_of s.proc.packet < seqnum_add s.wbase (pos wsize))
      bounds =
          seqnum_is_in_below (seq_num_of s.proc.packet) s.wbase (seqnum_add s.wbase (pos wsize))
            (omega (arith, far)) t

  acknowledged :
      (s : Receiving) (k : ℕ)
      → Valid s
      → IsPacket j base s.proc k
      → k < s.shift
      → Turns j base 1 Old wsize s
          (next (record s { proc = send s.proc (seq_num_of s.proc.packet) rtp_ack [] }))
  acknowledged s k v g h = (
    record {
      sqn_eq = λ gbn. absurd (sr gbn);
      wbase_eq = v.wbase_eq;
      shift_le = v.shift_le;
      size = v.size;
      held = v.held;
      marks = v.marks;
      fsize_le = v.fsize_le;
      fsize_eq = λ gbn. absurd (sr gbn);
      all_known =
          send-Known j base 1 Old s.buf s.fsize k (seq_num_of s.proc.packet) s.proc g.number
            (g.within, v.held k h) v.all_known;
    },
    λ m got. got,
  )

  -- The state with packet `k` taken: `ind` is its place in the window, and the buffer and the
  -- size of the file are those behind the store.
  abbrev taken : Receiving → ℕ → ℕ → (ℕ → ℕ) → Receiving
  taken s ind fsize' buf' =
      let r = update_window s.window wsize ind in
      record s {
        proc = send s.proc (seq_num_of s.proc.packet) rtp_ack [];
        fsize = fsize';
        shift = s.shift + r.1;
        wbase = seqnum_add s.wbase (pos r.1);
        window = r.0;
        buf = buf';
      }

  module _ (s : Receiving) (k : ℕ) (v : Valid s) (g : IsPacket j base s.proc k) (ind fsize' : ℕ)
      (buf' : ℕ → ℕ) (place : s.shift + ind ≡ k) (in_window : ind < wsize)
      (stored : buf' ≡ store s.buf (k * payload_max) (chunk j k)) (grows : s.fsize ≤ fsize')
      (counts : k * payload_max + length (chunk j k) ≤ fsize') (bounded : fsize' ≤ total j) where
    kept : (m : ℕ) → Got j s.buf s.fsize m → Got j buf' fsize' m
    kept = store-Got j s.buf buf' s.fsize fsize' k stored grows

    self : Got j buf' fsize' k
    self = store-Got_self j s.buf buf' s.fsize fsize' k stored grows counts

    abbrev Marked : ℕ → Type 0
    Marked i = (s.shift + i < npacket j) × Got j buf' fsize' (s.shift + i)

    slid : IsSlid wsize Marked (update_window s.window wsize ind)
    slid =
        update_window-IsSlid s.window wsize ind Marked v.size in_window
          (λ i on. ((v.marks i on).1, kept (s.shift + i) (v.marks i on).2))
          (omega (arith, g.within), subst (Got j buf' fsize') (sym place) self)

    abbrev count : ℕ
    count = (update_window s.window wsize ind).1

    run-le : (n : ℕ) → ((i : ℕ) → i < n → Marked i) → s.shift + n ≤ npacket j
    run-le zero out = omega (arith, v.shift_le)
    run-le (suc n) out = omega (arith, (out n (omega arith)).0)

    count-le : s.shift + count ≤ npacket j
    count-le = run-le count slid.out

    held' : (m : ℕ) → m < s.shift + count → Got j buf' fsize' m
    held' m h = elim (lt-cases m s.shift) [
      | inl old ↦ kept m (v.held m old)
      | inr new ↦ subst (Got j buf' fsize') (back new) (slid.out (m - s.shift) (omega arith)).1
    ]
      where
        back : s.shift ≤ m → s.shift + (m - s.shift) ≡ m
        back l = omega arith

    shifted : (i : ℕ) → s.shift + (count + i) ≡ s.shift + count + i
    shifted i = omega arith

    taken-Turns : Turns j base 1 Old wsize s (next (taken s ind fsize' buf'))
    taken-Turns = (
      record {
        sqn_eq = λ gbn. absurd (sr gbn);
        wbase_eq = λ _.
            seqnum_add_below s.wbase count (base + (s.shift + count)) (omega (arith, at_base s v))
              (omega (arith, count-le));
        shift_le = count-le;
        size = slid.size;
        held = held';
        marks = λ i on. (
          sr,
          omega (arith, (slid.kept i on).0),
          subst (Got j buf' fsize') (shifted i) (slid.kept i on).1,
        );
        fsize_le = bounded;
        fsize_eq = λ gbn. absurd (sr gbn);
        all_known =
            send-Known j base 1 Old buf' fsize' k (seq_num_of s.proc.packet) s.proc g.number
              (g.within, self)
              (Known-map j base 1 Old s.buf buf' s.fsize fsize' s.proc.sent kept v.all_known);
      },
      kept,
    )

  larger-bounds :
      (a b c : ℕ) → a ≤ c → b ≤ c → let m = if ltb a b then b else a in (a ≤ m) × (b ≤ m) × (m ≤ c)
  larger-bounds a b c h k = ground arith

  -- A genuine packet inside the window.
  take_selective-Turns :
      (s : Receiving) (k : ℕ)
      → Valid s
      → IsPacket j base s.proc k
      → s.shift ≤ k
      → k < s.shift + wsize
      → Turns j base 1 Old wsize s (take_selective wsize s)
  unfolding take_selective
  take_selective-Turns s k v g lo hi =
      if-cases (Turns j base 1 Old wsize s)
        (ltb max_buf (mov * payload_max + length_of s.proc.packet)) _ _
        (λ over. absurd (omega (arith, ltb→lt _ _ over, at-k, end-eq, chunk-within j k g.within)))
        (λ _.
          taken-Turns s k v g (mov - s.shift) (if ltb s.fsize end then end else s.fsize)
            (store s.buf (mov * payload_max) (carried s.proc)) (omega (arith, at-k))
            (omega (arith, at-k))
            (ap₂ (λ (m : ℕ) (b : List ℕ). store s.buf (m * payload_max) b) at-k g.bytes) largest.0
            (omega (arith, largest.1, end-eq)) largest.2)
    where
      mov : ℕ
      mov = sqn_dis s.wbase (seq_num_of s.proc.packet) + s.shift

      end : ℕ
      end = mov * payload_max + length_of s.proc.packet

      at-k : mov ≡ k
      at-k = omega (
        arith,
        sqn_dis_below s.wbase (k - s.shift) (seq_num_of s.proc.packet)
            (omega (arith, at_base s v, g.number)) (omega (arith, g.number, g.within)),
      )

      end-eq : end ≡ k * payload_max + length (chunk j k)
      end-eq = omega (arith, at-k, g.size)

      largest :
          let m = if ltb s.fsize end then end else s.fsize in
          (s.fsize ≤ m) × (end ≤ m) × (m ≤ total j)
      largest =
          larger-bounds s.fsize end (total j) v.fsize_le
            (omega (arith, end-eq, chunk-within j k g.within))

  -- A genuine packet, wherever it lies.
  pub selective_repeat-Turns :
      (s : Receiving) (k : ℕ)
      → Valid s
      → IsPacket j base s.proc k
      → Turns j base 1 Old wsize s (selective_repeat wsize s)
  unfolding selective_repeat
  selective_repeat-Turns s k v g =
      if-cases (Turns j base 1 Old wsize s)
        (seqnum_is_in (seq_num_of s.proc.packet) (seqnum_add s.wbase (neg wsize)) s.wbase) _ _
        (λ old. acknowledged s k v g (behind s k v g old))
        (λ _.
          if-cases (Turns j base 1 Old wsize s)
            (seqnum_is_in (seq_num_of s.proc.packet) s.wbase (seqnum_add s.wbase (pos wsize))) _ _
            (λ new. take_selective-Turns s k v g (inside s k v g new).0 (inside s k v g new).1)
            (λ _. (v, λ m got. got)))
