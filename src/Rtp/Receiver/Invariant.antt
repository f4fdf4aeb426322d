-- ===== src/Rtp/Receiver/Invariant.antt =====
-- The loop of transfer_data in lab2/src/receiver.c against genuine packets: what its state holds of
-- the sender's file, and that every acknowledgement it sends is true.
use computer_system24fall.Common.{
  ℕ, zero, suc, ◌+◌, ◌-◌, ◌*◌, ◌≤◌, ◌<◌, ◌≡◌, ◌≢◌, sym, ap, ◌⊎◌, inl, inr, subst, List, [], ◌∷◌,
  arith, eq-cases, length, get_or, All, All-append, All-map,
}
use computer_system24fall.Rtp.Packet.{payload_max, rtp_ack, seq_num_of, length_of, send_packet}
use computer_system24fall.Rtp.Process.{Process, send}
use computer_system24fall.Rtp.Sender.{Job, npacket, chunk}
use computer_system24fall.Rtp.Sender.Invariant.{Covers}
use computer_system24fall.Rtp.Sender.Chunks.{total, length-chunk_last}
use computer_system24fall.Rtp.Receiver.{
  Receiving, Turn, next, break, exits, overruns, store, carried,
}
use computer_system24fall.Rtp.Receiver.Store.{Holds, store-Holds, store-Holds_self}

pub Covers-map :
    (Has Got : ℕ → Type 0) (n mode m : ℕ)
    → ((k : ℕ) → Has k → Got k)
    → Covers Has n mode m
    → Covers Got n mode m
Covers-map Has Got n zero m f c = (c.0, λ k l. f k (c.1 k l))
Covers-map Has Got n (suc mode) m f c = (c.0, f m c.1)

module _ (j : Job) where
  -- Packet `k` is in the buffer, and counted in the file's size.
  abbrev pub Got : (ℕ → ℕ) → ℕ → ℕ → Type 0
  Got buf fsize k = Holds j buf k × (k * payload_max + length (chunk j k) ≤ fsize)

  -- Storing a packet of the file keeps all that was received, and adds that packet.
  module _ (buf buf' : ℕ → ℕ) (fsize fsize' k : ℕ)
      (stored : buf' ≡ store buf (k * payload_max) (chunk j k)) (grows : fsize ≤ fsize') where
    pub store-Got : (m : ℕ) → Got buf fsize m → Got buf' fsize' m
    store-Got m g = (
      subst (λ (b : ℕ → ℕ). Holds j b m) (sym stored) (store-Holds j buf k m g.0),
      omega (arith, g.1),
    )

    pub store-Got_self : k * payload_max + length (chunk j k) ≤ fsize' → Got buf' fsize' k
    store-Got_self h =
        (subst (λ (b : ℕ → ℕ). Holds j b k) (sym stored) (store-Holds_self j buf k), h)

-- With every packet counted, the size is that of the file that they make up.
pub Got-total :
    (j : Job) (buf : ℕ → ℕ) (fsize : ℕ)
    → fsize ≤ total j
    → ((k : ℕ) → k < npacket j → Got j buf fsize k)
    → fsize ≡ total j
Got-total j buf fsize h all = elim (eq-cases (npacket j) 0) [
  | inl none_sent ↦ omega arith
  | inr some_sent ↦ omega (
    arith,
    (all (npacket j - 1) (grind arith)).1,
    length-chunk_last j (npacket j - 1) (grind arith),
  )
]

-- The packet that was received is packet `k` of the file.
pub record IsPacket (j : Job) (base : ℕ) (p : Process) (k : ℕ) : Type 0 where
  pub within : k < npacket j
  pub number : seq_num_of p.packet ≡ base + k
  pub size : length_of p.packet ≡ length (chunk j k)
  pub bytes : carried p ≡ chunk j k

module _ (j : Job) (base mode : ℕ) (Old : List ℕ → Type 0) where
  -- A datagram that was sent before transfer_data, or a true acknowledgement.
  abbrev pub IsTrueAck : (ℕ → ℕ) → ℕ → List ℕ → Type 0
  IsTrueAck buf fsize d =
      (m : ℕ) × (d ≡ send_packet (base + m) rtp_ack [])
      × Covers (Got j buf fsize) (npacket j) mode m

  abbrev pub Known : (ℕ → ℕ) → ℕ → List ℕ → Type 0
  Known buf fsize d = Old d ⊎ IsTrueAck buf fsize d

  pub record Inv (wsize : ℕ) (s : Receiving) : Type 0 where
    pub sqn_eq : mode ≡ 0 → s.proc.sqn ≡ base + s.shift
    pub wbase_eq : mode ≢ 0 → s.wbase ≡ base + s.shift
    pub shift_le : s.shift ≤ npacket j
    pub size : length s.window ≡ wsize
    pub held : (k : ℕ) → k < s.shift → Got j s.buf s.fsize k
    pub marks :
        (i : ℕ)
        → get_or s.window i 0 ≢ 0
        → (mode ≢ 0) × (s.shift + i < npacket j) × Got j s.buf s.fsize (s.shift + i)
    pub fsize_le : s.fsize ≤ total j
    pub fsize_eq : mode ≡ 0 → s.shift < npacket j → s.fsize ≡ s.shift * payload_max
    pub all_known : All (Known s.buf s.fsize) s.proc.sent

  -- What is received is never lost again.
  abbrev pub Grows : Receiving → Receiving → Type 0
  Grows s t = (k : ℕ) → Got j s.buf s.fsize k → Got j t.buf t.fsize k

  abbrev pub Turns : ℕ → Receiving → Turn → Type 0
  Turns wsize s (next t) = Inv wsize t × Grows s t
  Turns wsize s (break t) = Inv wsize t × Grows s t
  Turns wsize s (exits p) = Unit
  Turns wsize s (overruns p) = ⊥

  pub Known-map :
      (buf buf' : ℕ → ℕ) (fsize fsize' : ℕ) (ds : List (List ℕ))
      → ((k : ℕ) → Got j buf fsize k → Got j buf' fsize' k)
      → All (Known buf fsize) ds
      → All (Known buf' fsize') ds
  Known-map buf buf' fsize fsize' ds f = All-map (Known buf fsize) (Known buf' fsize') ds known
    where
      known : (d : List ℕ) → Known buf fsize d → Known buf' fsize' d
      known d (inl old) = inl old
      known d (inr (m, e, c)) =
          inr (m, e, Covers-map (Got j buf fsize) (Got j buf' fsize') (npacket j) mode m f c)

  -- Acknowledging with a true number.
  pub send-Known :
      (buf : ℕ → ℕ) (fsize m q : ℕ) (p : Process)
      → q ≡ base + m
      → Covers (Got j buf fsize) (npacket j) mode m
      → All (Known buf fsize) p.sent
      → All (Known buf fsize) (send p q rtp_ack []).sent
  unfolding send
  send-Known buf fsize m q p e c a =
      All-append (Known buf fsize) p.sent (send_packet q rtp_ack [] ∷ []) a
        (inr (m, ap (λ (t : ℕ). send_packet t rtp_ack []) e, c), tt)
