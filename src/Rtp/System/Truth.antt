-- ===== src/Rtp/System/Truth.antt =====
-- What the network of lab2 delivers is what was sent: the events of each side tell the truth.
use computer_system24fall.Common.{
  ℕ, zero, suc, ◌+◌, ◌^◌, ◌≤◌, ◌<◌, ◌≡◌, ◌≢◌, ap, ◌∙◌, ◌⊎◌, inl, inr, subst, List, [], arith,
  eq-cases, All, All-In, length, take, bit_or,
}
use computer_system24fall.Rtp.Checksum.Detect.{IsBytes}
use computer_system24fall.Rtp.Packet.{
  rtp_syn, rtp_ack, payload_max, eagain, seq_num_of, length_of, flags_of, payload_of, send_packet,
  Recv, failed, datagram, Received, accepted, recv_packet,
}
use computer_system24fall.Rtp.Packet.Roundtrip.{recv_packet-send_packet}
use computer_system24fall.Rtp.Process.{recv}
use computer_system24fall.Rtp.Sender.{Job, npacket, chunk}
use computer_system24fall.Rtp.Sender.Batch.{data_packet}
use computer_system24fall.Rtp.Sender.Chunks.{length-chunk-le, chunk-IsBytes}
use computer_system24fall.Rtp.Sender.Invariant.{Covers, IsSound}
use computer_system24fall.Rtp.Receiver.{carried}
use computer_system24fall.Rtp.Receiver.Invariant.{Got, Known}
use computer_system24fall.Rtp.Receiver.Transfer.{IsGenuine}
use computer_system24fall.Rtp.System.{Delivers, fails, arrives, damaged}

-- The datagrams of establish_connection: those of the sender are SYN or ACK, those of the receiver
-- SYN and ACK together.
abbrev pub SenderGreeting : List ℕ → Type 0
SenderGreeting d =
    (q : ℕ) × (flgs : ℕ) × (d ≡ send_packet q flgs [])
    × (q < 2 ^ 32)
    × ((flgs ≡ rtp_syn) ⊎ (flgs ≡ rtp_ack))

abbrev pub ReceiverGreeting : List ℕ → Type 0
ReceiverGreeting d = (q : ℕ) × (d ≡ send_packet q (bit_or rtp_ack rtp_syn) []) × (q < 2 ^ 32)

-- All that the sender sends: its greetings, and the packets of the file.
abbrev pub FromSender : Job → ℕ → List ℕ → Type 0
FromSender j base d = SenderGreeting d ⊎ ((k : ℕ) × (k < npacket j) × (d ≡ data_packet j base k))

-- A failed receive, or one with errno left at EAGAIN, accepts nothing.
failed-ne : (errno e : ℕ) (buf : List ℕ) → (recv_packet errno buf (failed e)).scode ≢ accepted
unfolding recv_packet
failed-ne errno e buf h = ground arith

stale-ne : (d buf : List ℕ) → (recv_packet eagain buf (datagram d)).scode ≢ accepted
unfolding recv_packet
stale-ne d buf h = ground arith

-- The fields of an accepted datagram that send_packet made.
module _ (errno : ℕ) (old : List ℕ) (sqn flgs : ℕ) (buf : List ℕ) (sqn_fits : sqn < 2 ^ 32)
    (flgs_fits : flgs < 2 ^ 8) (bytes : IsBytes buf) (size_fits : length buf ≤ payload_max) where
  abbrev pub got_back : Received
  got_back = recv_packet errno old (datagram (send_packet sqn flgs buf))

  pub fields :
      got_back.scode ≡ accepted
      → (seq_num_of got_back.buf ≡ sqn)
        × (length_of got_back.buf ≡ length buf)
        × (flags_of got_back.buf ≡ flgs)
        × (take (length_of got_back.buf) (payload_of got_back.buf) ≡ buf)
  fields ok = elim (eq-cases errno eagain) [
    | inl stale ↦ absurd (
        stale-ne (send_packet sqn flgs buf) old (
          subst
            (λ (e : ℕ). (recv_packet e old (datagram (send_packet sqn flgs buf))).scode ≡ accepted)
            stale ok))
    | inr fresh ↦
        let r =
          recv_packet-send_packet sqn flgs buf sqn_fits flgs_fits bytes size_fits errno old fresh in
        (r.2, r.3, r.4, r.5)
  ]

-- An acknowledgement's number is at most that of the last packet and one.
Covers-le : (Has : ℕ → Type 0) (n mode m : ℕ) → Covers Has n mode m → m ≤ n
Covers-le Has n zero m c = c.0
Covers-le Has n (suc mode) m c = omega (arith, c.0)

module _ (j : Job) (base : ℕ) (buf : ℕ → ℕ) (fsize : ℕ) (FromS : List ℕ → Type 0)
    (room : base + npacket j < 2 ^ 31) where
  abbrev Sound : Recv → Type 0
  Sound = IsSound j base (Got j buf fsize) FromS

  ack-Sound : (d : List ℕ) → Known j base j.mode ReceiverGreeting buf fsize d → Sound (datagram d)
  ack-Sound d (inl (q, e, fits)) errno old ok is_ack =
      absurd
        (omega (arith, flags, (fields errno old q 3 [] fits (omega arith) tt (omega arith) ok').2))
    where
      ok' : (recv_packet errno old (datagram (send_packet q 3 []))).scode ≡ accepted
      ok' = subst (λ (t : List ℕ). (recv_packet errno old (datagram t)).scode ≡ accepted) e ok

      flags : flags_of (recv_packet errno old (datagram (send_packet q 3 []))).buf ≡ 2
      flags = subst (λ (t : List ℕ). flags_of (recv_packet errno old (datagram t)).buf ≡ 2) e is_ack
  ack-Sound d (inr (m, e, c)) errno old ok is_ack = (
    m,
    ap (λ (t : List ℕ). seq_num_of (recv_packet errno old (datagram t)).buf) e
        ∙ (fields errno old (base + m) rtp_ack []
            (omega (arith, Covers-le _ (npacket j) j.mode m c)) (omega arith) tt (omega arith)
            (subst (λ (t : List ℕ). (recv_packet errno old (datagram t)).scode ≡ accepted) e ok)).0,
    c,
  )

  -- Whatever arrives at the sender tells the truth of the receiver's buffer.
  pub Delivers-Sound :
      (sent : List (List ℕ)) (e : Recv)
      → All (Known j base j.mode ReceiverGreeting buf fsize) sent
      → Delivers sent e
      → Sound e
  unfolding recv
  Delivers-Sound sent e a (fails n) errno old ok _ = absurd (failed-ne errno n old ok)
  Delivers-Sound sent e a (arrives d i) errno old ok is_ack =
      ack-Sound d (All-In (Known j base j.mode ReceiverGreeting buf fsize) d sent a i) errno old ok
        is_ack
  Delivers-Sound sent e a (damaged d bad) errno old ok _ = absurd (
      bad
        (record {
          errno = errno;
          sqn = 0;
          packet = old;
          recv_timeout = record { tv_sec = 0; tv_usec = 0 };
          sent = [];
        })
        ok)

module _ (j : Job) (base : ℕ) (room : base + npacket j < 2 ^ 31) (bytes : IsBytes j.buf) where
  greeting-Genuine : (d : List ℕ) → SenderGreeting d → IsGenuine j base (datagram d)
  unfolding recv
  greeting-Genuine d (q, flgs, e, fits, either) p ok is_data = absurd (elim either [
    | inl syn ↦ omega (arith, syn, (f (omega (arith, syn))).2, plain)
    | inr ack ↦ omega (arith, ack, (f (omega (arith, ack))).2, plain)
  ])
    where
      arrived : List ℕ → Received
      arrived t = recv_packet p.errno p.packet (datagram t)

      plain : flags_of (arrived (send_packet q flgs [])).buf ≡ 0
      plain = subst (λ (t : List ℕ). flags_of (arrived t).buf ≡ 0) e is_data

      f :
          flgs < 2 ^ 8
          → let r = arrived (send_packet q flgs []) in
            (seq_num_of r.buf ≡ q)
            × (length_of r.buf ≡ 0)
            × (flags_of r.buf ≡ flgs)
            × (take (length_of r.buf) (payload_of r.buf) ≡ [])
      f flgs_fits =
          fields p.errno p.packet q flgs [] fits flgs_fits tt (omega arith)
            (subst (λ (t : List ℕ). (arrived t).scode ≡ accepted) e ok)

  pub packet-Genuine :
      (d : List ℕ) (k : ℕ)
      → k < npacket j
      → d ≡ data_packet j base k
      → IsGenuine j base (datagram d)
  unfolding recv carried
  packet-Genuine d k h e p ok is_data = (
    k,
    record {
      within = h;
      number = at seq_num_of ∙ f.0;
      size = at length_of ∙ f.1;
      bytes = at (λ (b : List ℕ). take (length_of b) (payload_of b)) ∙ f.3;
    },
  )
    where
      at :
          {A : Type 0} (g : List ℕ → A)
          → g (recv_packet p.errno p.packet (datagram d)).buf
            ≡ g (recv_packet p.errno p.packet (datagram (data_packet j base k))).buf
      at g = ap (λ (t : List ℕ). g (recv_packet p.errno p.packet (datagram t)).buf) e

      f :
          let r = recv_packet p.errno p.packet (datagram (data_packet j base k)) in
          (seq_num_of r.buf ≡ base + k)
          × (length_of r.buf ≡ length (chunk j k))
          × (flags_of r.buf ≡ 0)
          × (take (length_of r.buf) (payload_of r.buf) ≡ chunk j k)
      f =
          fields p.errno p.packet (base + k) 0 (chunk j k) (omega arith) (omega arith)
            (chunk-IsBytes j k bytes) (length-chunk-le j k)
            (subst (λ (t : List ℕ). (recv_packet p.errno p.packet (datagram t)).scode ≡ accepted) e
              ok)

  -- Whatever data arrives at the receiver is the file's.
  pub Delivers-Genuine :
      (sent : List (List ℕ)) (e : Recv)
      → All (FromSender j base) sent
      → Delivers sent e
      → IsGenuine j base e
  unfolding recv
  Delivers-Genuine sent e a (fails n) = λ p ok _. absurd (failed-ne p.errno n p.packet ok)
  Delivers-Genuine sent e a (arrives d i) = arrived d (All-In (FromSender j base) d sent a i)
    where
      arrived : (d : List ℕ) → FromSender j base d → IsGenuine j base (datagram d)
      arrived d (inl g) = greeting-Genuine d g
      arrived d (inr (k, h, e)) = packet-Genuine d k h e
  Delivers-Genuine sent e a (damaged d bad) = λ p ok _. absurd (bad p ok)
