-- ===== src/Rtp/Receiver/Transfer.antt =====
-- transfer_data of lab2/src/receiver.c from its call to its return, against genuine packets.
use computer_system24fall.Common.{
  subst, sym, Option, some, none, take-take, length, ℕ, zero, ◌+◌, ◌/◌, ◌^◌, ◌≤◌, ◌<◌, ◌≡◌, refl,
  ap, ◌∙◌, ◌⊎◌, inl, inr, not, List, [], ◌∷◌, arith, ◌==◌, ==_iff, if-cases, not-false, All,
  All-map, take, bit_and, length-replicate, get_or-replicate, le-cases,
}
use computer_system24fall.Rtp.Packet.{
  payload_max, rtp_fin, flags_of, Recv, Scode, accepted, invalid, timed_out, died,
}
use computer_system24fall.Rtp.Files.{Sink, write_file, write_file-some}
use computer_system24fall.Rtp.Process.{
  Process, Outcome, returned, blocked, exited, overrun, ◌>>=◌, max_buf, set_sock_recv_time, recv,
}
use computer_system24fall.Rtp.Sender.{Job, npacket}
use computer_system24fall.Rtp.Sender.Chunks.{total}
use computer_system24fall.Rtp.Receiver.{
  Receiving, Turn, next, break, exits, overruns, go_back_n, selective_repeat, on_data, react,
  receive, transfer_loop, start_receiving, bytes_from, saved, transfer_data,
}
use computer_system24fall.Rtp.Receiver.Store.{bytes_from-prefix}
use computer_system24fall.Rtp.Receiver.Invariant.{Known, Inv, Turns, Grows, IsPacket}
use computer_system24fall.Rtp.Receiver.Cumulative.{go_back_n-Turns}
use computer_system24fall.Rtp.Receiver.Selective.{selective_repeat-Turns}

-- An event is genuine if a data packet in it, should recv_packet accept it, is one of the file.
abbrev pub IsGenuine : Job → ℕ → Recv → Type 0
IsGenuine j base e =
    (p : Process)
    → (recv p e).1 ≡ accepted
    → flags_of (recv p e).0.packet ≡ 0
    → (k : ℕ) × IsPacket j base (recv p e).0 k

module _ (j : Job) (base mode wsize : ℕ) (Old : List ℕ → Type 0) where
  -- How transfer_data ends: a file that it writes is what a loop state with the invariant holds, so
  -- that it is no longer than the packets' bytes, and the acknowledgements sent are true.
  abbrev pub Ends : Sink → Outcome (List ℕ) → Type 0
  Ends f (returned file p es) =
      (s : Receiving) × Inv j base mode Old wsize s
      × (write_file f (bytes_from s.buf 0 s.fsize) ≡ some file)
      × (p.sent ≡ s.proc.sent)
  Ends f (blocked p) = Unit
  Ends f (exited p) = Unit
  Ends f (overrun p) = ⊥

-- A file that was written is the beginning of the sender's.
abbrev pub IsBeginning : Job → Outcome (List ℕ) → Type 0
IsBeginning j (returned file p es) = file ≡ take (length file) j.buf
IsBeginning j (blocked p) = Unit
IsBeginning j (exited p) = Unit
IsBeginning j (overrun p) = ⊥

pub on_data-cumulative :
    (wsize mode : ℕ) (s : Receiving) → mode ≡ 0 → on_data wsize mode s ≡ go_back_n s
unfolding on_data
on_data-cumulative wsize mode s e = ground arith

pub on_data-selective :
    (wsize mode : ℕ) (s : Receiving) → mode ≡ 1 → on_data wsize mode s ≡ selective_repeat wsize s
unfolding on_data
on_data-selective wsize mode s e = ground arith

module _ (j : Job) (base mode wsize : ℕ) (Old : List ℕ → Type 0)
    (room : base + npacket j + wsize < 2 ^ 31) (fits : total j ≤ max_buf)
    (mode_fits : (mode ≡ 0) ⊎ (mode ≡ 1)) (pos_wsize : 0 < wsize) where
  abbrev Valid : Receiving → Type 0
  Valid = Inv j base mode Old wsize

  abbrev Turned : Receiving → Turn → Type 0
  Turned = Turns j base mode Old wsize

  same : (s : Receiving) → Valid s → Valid s × Grows j base mode Old s s
  same s v = (v, λ k g. g)

  on_data-Turns :
      (s : Receiving) (k : ℕ) → Valid s → IsPacket j base s.proc k → Turned s (on_data wsize mode s)
  on_data-Turns s k v g = elim mode_fits [
    | inl gbn ↦
        subst (Turned s) (sym (on_data-cumulative wsize mode s gbn))
          (go_back_n-Turns j base mode wsize Old room fits gbn s k v g)
    | inr sr ↦ subst (Turned s) (sym (on_data-selective wsize mode s sr)) (
        subst
          (λ (m : ℕ).
            Inv j base m Old wsize s → Turns j base m Old wsize s (selective_repeat wsize s))
          (sym sr) (λ w. selective_repeat-Turns j base wsize Old room fits pos_wsize s k w g) v)
  ]

  react-Turns :
      (scode : Scode) (s : Receiving)
      → Valid s
      → (scode ≡ accepted → flags_of s.proc.packet ≡ 0 → (k : ℕ) × IsPacket j base s.proc k)
      → Turned s (react wsize mode scode s)
  unfolding react
  react-Turns died s v g = tt
  react-Turns timed_out s v g = same s v
  react-Turns invalid s v g =
      if-cases (Turned s) (bit_and (flags_of s.proc.packet) rtp_fin == 0) _ _ (λ _. same s v)
        (λ _. same s v)
  react-Turns accepted s v g =
      if-cases (Turned s) (not (bit_and (flags_of s.proc.packet) rtp_fin == 0)) _ _ (λ _. same s v)
        λ _.
          if-cases (Turned s) (not (flags_of s.proc.packet == 0)) _ _ (λ _. same s v)
            λ plain.
              let (k, packet) =
                g refl ((==_iff (flags_of s.proc.packet) 0).0 (not-false _ plain)) in
              on_data-Turns s k v packet

  -- Only the buffer and the size of the state before the turn count.
  Turned-proc :
      (s : Receiving) (p : Process) (t : Turn) → Turned (record s { proc = p }) t → Turned s t
  Turned-proc s p (next t) v = v
  Turned-proc s p (break t) v = v
  Turned-proc s p (exits q) v = v
  Turned-proc s p (overruns q) v = v

  pub receive-Turns :
      (s : Receiving) (e : Recv) → Valid s → IsGenuine j base e → Turned s (receive wsize mode s e)
  unfolding receive
  receive-Turns s e v g =
      Turned-proc s (recv s.proc e).0
        (react wsize mode (recv s.proc e).1 (record s { proc = (recv s.proc e).0 }))
        (react-Turns (recv s.proc e).1 (record s { proc = (recv s.proc e).0 })
          (unfold recv in
            record {
              sqn_eq = v.sqn_eq;
              wbase_eq = v.wbase_eq;
              shift_le = v.shift_le;
              size = v.size;
              held = v.held;
              marks = v.marks;
              fsize_le = v.fsize_le;
              fsize_eq = v.fsize_eq;
              all_known = v.all_known;
            })
          (g s.proc))

  -- How the loop ends: by a break in a state that keeps the invariant, and never out of range.
  abbrev LoopEnds : Outcome Receiving → Type 0
  LoopEnds (returned s p es) = Valid s × (p.sent ≡ s.proc.sent)
  LoopEnds (blocked p) = Unit
  LoopEnds (exited p) = Unit
  LoopEnds (overrun p) = ⊥

  continue :
      (es : List Recv) (s : Receiving) (t : Turn)
      → ((s' : Receiving) → Valid s' → LoopEnds (transfer_loop wsize mode es s'))
      → Turned s t
      → LoopEnds (elim t [
        | next s' ↦ transfer_loop wsize mode es s'
        | break s' ↦ returned s' s'.proc es
        | exits p ↦ exited p
        | overruns p ↦ overrun p
      ])
  continue es s (next t) go v = go t v.0
  continue es s (break t) go v = (v.0, refl)
  continue es s (exits p) go v = tt
  continue es s (overruns p) go v = v

  transfer_loop-Ends :
      (es : List Recv) (s : Receiving)
      → Valid s
      → All (IsGenuine j base) es
      → LoopEnds (transfer_loop wsize mode es s)
  unfolding transfer_loop
  transfer_loop-Ends [] s v g = tt
  transfer_loop-Ends (e ∷ es) s v g =
      continue es s (receive wsize mode s e) (λ s' w. transfer_loop-Ends es s' w g.1)
        (receive-Turns s e v g.0)

  pub start_receiving-Inv :
      (junk : ℕ → ℕ) (p : Process)
      → p.sqn ≡ base
      → All Old p.sent
      → Valid (start_receiving wsize junk p)
  unfolding start_receiving set_sock_recv_time
  start_receiving-Inv junk p at old = record {
    sqn_eq = λ _. omega arith;
    wbase_eq = λ _. omega arith;
    shift_le = omega arith;
    size = length-replicate wsize zero;
    held = λ k l. absurd (omega arith);
    marks = λ i on. absurd (on (get_or-replicate wsize zero i));
    fsize_le = omega arith;
    fsize_eq = λ _ _. omega arith;
    all_known = All-map Old (Known j base mode Old junk 0) p.sent (λ d o. inl o) old;
  }

  written :
      (f : Sink) (o : Outcome Receiving)
      → LoopEnds o
      → Ends j base mode wsize Old f
          (o >>= λ s p es. saved (write_file f (bytes_from s.buf 0 s.fsize)) p es)
  written f (returned s p es) v = holds (write_file f (bytes_from s.buf 0 s.fsize)) refl
    where
      holds :
          (o : Option (List ℕ))
          → write_file f (bytes_from s.buf 0 s.fsize) ≡ o
          → Ends j base mode wsize Old f (saved o p es)
      holds none e = tt
      holds (some file) e = (s, v.0, e, v.1)
  written f (blocked p) v = tt
  written f (exited p) v = tt
  written f (overrun p) v = v

  -- transfer_data of the receiver against genuine packets of a file that fits `buf`, in both modes and
  -- for numbers that do not wrap: it never writes behind the end of `buf`; and if it writes a file, the
  -- state at the end of its loop keeps the invariant, by which each acknowledgement that it sent
  -- is true of what the file holds.
  pub transfer_data-receives :
      (f : Sink) (junk : ℕ → ℕ) (p : Process) (es : List Recv)
      → p.sqn ≡ base
      → All Old p.sent
      → All (IsGenuine j base) es
      → Ends j base mode wsize Old f (transfer_data f junk wsize mode p es)
  unfolding transfer_data
  transfer_data-receives f junk p es at old g =
      written f (transfer_loop wsize mode es (start_receiving wsize junk p))
        (transfer_loop-Ends es (start_receiving wsize junk p) (start_receiving-Inv junk p at old) g)

  -- In go-back-N every byte that is counted is held.
  prefix : (s : Receiving) → Valid s → mode ≡ 0 → bytes_from s.buf 0 s.fsize ≡ take s.fsize j.buf
  prefix s v gbn =
      bytes_from-prefix j s.buf s.fsize v.fsize_le λ i l. (v.held (i / payload_max) (below i l)).0
    where
      below : (i : ℕ) → i < s.fsize → i / payload_max < s.shift
      below i l = elim (le-cases s.shift (npacket j) v.shift_le) [
        | inl all ↦ omega (arith, v.fsize_le)
        | inr more ↦ omega (arith, v.fsize_eq gbn more)
      ]

  beginning :
      (f : Sink) (o : Outcome (List ℕ))
      → mode ≡ 0
      → Ends j base mode wsize Old f o
      → IsBeginning j o
  beginning f (returned file p es) gbn (s, v, e, _) =
      subst (λ b. b ≡ take (length b) j.buf) written_is (take-take f.takes s.fsize j.buf)
    where
      written_is : take f.takes (take s.fsize j.buf) ≡ file
      written_is =
          ap (take f.takes) (sym (prefix s v gbn))
          ∙ write_file-some f (bytes_from s.buf 0 s.fsize) file e
  beginning f (blocked p) gbn h = tt
  beginning f (exited p) gbn h = tt
  beginning f (overrun p) gbn h = h

  -- In go-back-N, against genuine packets of a file that fits `buf` and whose numbers do not wrap, a
  -- file that the receiver's transfer_data writes is a beginning of the sender's, whenever its loop
  -- ends: no byte is out of order, missing in between, or left over from before.
  pub transfer_data-prefix :
      (f : Sink) (junk : ℕ → ℕ) (p : Process) (es : List Recv)
      → mode ≡ 0
      → p.sqn ≡ base
      → All Old p.sent
      → All (IsGenuine j base) es
      → IsBeginning j (transfer_data f junk wsize mode p es)
  transfer_data-prefix f junk p es gbn at old g =
      beginning f (transfer_data f junk wsize mode p es) gbn
        (transfer_data-receives f junk p es at old g)
