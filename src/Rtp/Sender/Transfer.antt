-- ===== src/Rtp/Sender/Transfer.antt =====
-- transfer_data of lab2/src/sender.c from its call to its return, against sound events.
use computer_system24fall.Common.{
  subst, sym, Option, some, none, ℕ, zero, ◌+◌, ◌^◌, ◌<◌, ◌≡◌, refl, ◌⊎◌, inl, inr, false, List, [],
  ◌∷◌, arith, ltb, ltb→lt, if-cases, All, get_or-replicate, length-replicate,
}
use computer_system24fall.Rtp.Packet.{
  rtp_ack, seq_num_of, flags_of, Recv, Scode, accepted, invalid, timed_out, died, recv_packet,
}
use computer_system24fall.Rtp.Files.{Source, read_file}
use computer_system24fall.Rtp.Process.{
  Process, Outcome, returned, blocked, exited, overrun, recv, set_sock_recv_time, max_buf,
}
use computer_system24fall.Rtp.Sender.{
  Job, Sending, npacket, next_window, on_ack, react, receive, transfer_loop, start_sending,
  transfer_data, transfer_buf,
}
use computer_system24fall.Rtp.Sender.Batch.{data_packet}
use computer_system24fall.Rtp.Sender.Invariant.{Vouches, IsSound, Inv, next_window-Inv, resend-Inv}
use computer_system24fall.Rtp.Sender.Ack.{on_ack-Inv_cumulative, on_ack-Inv_selective}

module _ (j : Job) (base : ℕ) (Has : ℕ → Type 0) (Known : List ℕ → Type 0) where
  -- What holds when transfer_data ends: if it returns, every packet of the file is with the receiver;
  -- in each case the process has sent known datagrams only, and it never writes out of range.
  abbrev pub Ends : Outcome Sending → Type 0
  Ends (returned s p es) =
      (s.shift ≡ npacket j)
      × (p.sqn ≡ base + npacket j)
      × ((k : ℕ) → k < npacket j → Has k)
      × All Known p.sent
  Ends (blocked p) = All Known p.sent
  Ends (exited p) = All Known p.sent
  Ends (overrun p) = ⊥

  module _ (room : base + npacket j < 2 ^ 31)
      (known : (k : ℕ) → k < npacket j → Known (data_packet j base k))
      (mode_fits : (j.mode ≡ 0) ⊎ (j.mode ≡ 1)) (wsize_pos : 0 < j.wsize) where
    abbrev Valid : Sending → ℕ → Type 0
    Valid = Inv j base Has Known

    abbrev IsTrue : Sending → Type 0
    IsTrue s =
        flags_of s.proc.packet ≡ rtp_ack → Vouches j base Has Known (seq_num_of s.proc.packet)

    abbrev pub Goes : ℕ → Option Sending → Type 0
    Goes next none = Unit
    Goes next (some s) = Valid s next

    on_ack-Inv :
        (s : Sending) (next : ℕ)
        → Valid s next
        → s.shift < next
        → IsTrue s
        → Valid (on_ack j s) next
    on_ack-Inv s next v l t = elim mode_fits [
      | inl gbn ↦ on_ack-Inv_cumulative j base Has Known room known s next gbn v l t
      | inr sr ↦ on_ack-Inv_selective j base Has Known room known s next sr v l t
    ]

    react-Inv :
        (scode : Scode) (s : Sending) (next : ℕ)
        → Valid s next
        → s.shift < next
        → (scode ≡ accepted → IsTrue s)
        → Goes next (react j scode s)
    unfolding react
    react-Inv died s next v l t = tt
    react-Inv timed_out s next v l t = resend-Inv j base Has Known room known s next v
    react-Inv invalid s next v l t = v
    react-Inv accepted s next v l t = on_ack-Inv s next v l (t refl)

    pub receive-Inv :
        (s : Sending) (e : Recv) (next : ℕ)
        → Valid s next
        → s.shift < next
        → IsSound j base Has Known e
        → Goes next (receive j s e)
    unfolding receive recv
    receive-Inv s e next v l sound =
        react-Inv (recv_packet s.proc.errno s.proc.packet e).scode _ next
          (record {
            at_base = v.at_base;
            sqn_eq = v.sqn_eq;
            shift_le = v.shift_le;
            within = v.within;
            span = v.span;
            size = v.size;
            held = v.held;
            marks = v.marks;
            all_known = v.all_known;
          })
          l (sound s.proc.errno s.proc.packet)

    pub start_sending-Inv :
        (p : Process) → p.sqn ≡ base → All Known p.sent → Valid (start_sending j p) 0
    unfolding start_sending set_sock_recv_time
    start_sending-Inv p at a = record {
      at_base = omega arith;
      sqn_eq = omega arith;
      shift_le = omega arith;
      within = omega arith;
      span = omega arith;
      size = length-replicate j.wsize zero;
      held = λ k l. absurd (omega arith);
      marks = λ i on. absurd (on (get_or-replicate j.wsize zero i));
      all_known = a;
    }

    recv-sent : (p : Process) (e : Recv) → All Known p.sent → All Known (recv p e).0.sent
    unfolding recv
    recv-sent p e a = a

    -- The rest of the loop behind a receive.
    continue :
        (es : List Recv) (p : Process) (next : ℕ) (o : Option Sending)
        → All Known p.sent
        → ((s : Sending) → Valid s next → Ends (transfer_loop j es s))
        → Goes next o
        → Ends (elim o [ none ↦ exited p | some s' ↦ transfer_loop j es s' ])
    continue es p next none a go v = a
    continue es p next (some s) a go v = go s v

    finished :
        (s : Sending) (next : ℕ) (es : List Recv)
        → Valid s next
        → ltb s.shift (npacket j) ≡ false
        → Ends (returned s s.proc es)
    finished s next es v full =
        let all : s.shift ≡ npacket j = ground (arith, v.shift_le, v.within) in
        (
          all,
          omega (arith, v.sqn_eq, v.shift_le, v.within, all),
          λ k l. v.held k (omega (arith, all)),
          v.all_known,
        )

    transfer_loop-Ends :
        (es : List Recv) (s : Sending) (next : ℕ)
        → Valid s next
        → All (IsSound j base Has Known) es
        → Ends (transfer_loop j es s)
    unfolding transfer_loop
    transfer_loop-Ends [] s next v sound =
        if-cases Ends (ltb s.shift (npacket j)) (blocked (next_window j s).proc)
          (returned s s.proc [])
          (λ more.
            (next_window-Inv j base Has Known room known s next v wsize_pos
              (ltb→lt _ _ more)).1.all_known)
          (λ full. finished s next [] v full)
    transfer_loop-Ends (e ∷ es) s next v sound =
        if-cases Ends (ltb s.shift (npacket j)) _ (returned s s.proc (e ∷ es))
          (λ more.
            let (next', v', l') =
              next_window-Inv j base Has Known room known s next v wsize_pos (ltb→lt _ _ more) in
            continue es (recv (next_window j s).proc e).0 next' (receive j (next_window j s) e)
              (recv-sent (next_window j s).proc e v'.all_known)
              (λ s' w. transfer_loop-Ends es s' next' w sound.1)
              (receive-Inv (next_window j s) e next' v' l' sound.0))
          (λ full. finished s next (e ∷ es) v full)

-- transfer_data on a file of any size, in go-back-N or selective repeat: suppose that each
-- acknowledgement that recv_packet accepts among the events is true of what the receiver holds, and
-- that the numbers of the file's packets do not wrap. Then if transfer_data returns, it has moved
-- past all packets, and the receiver holds each of them; however it ends, all datagrams sent were
-- known: sent before, or a packet of the file under its number.
pub transfer_data-sends :
    (f : Source) (buf : List ℕ) (wsize mode base : ℕ) (Has : ℕ → Type 0) (Known : List ℕ → Type 0)
    (p : Process) (es : List Recv)
    → read_file f max_buf ≡ some buf
    → let j : Job = record { buf = buf; wsize = wsize; mode = mode } in
      base + npacket j < 2 ^ 31
      → ((k : ℕ) → k < npacket j → Known (data_packet j base k))
      → (mode ≡ 0) ⊎ (mode ≡ 1)
      → 0 < wsize
      → p.sqn ≡ base
      → All Known p.sent
      → All (IsSound j base Has Known) es
      → Ends j base Has Known (transfer_data f wsize mode p es)
unfolding transfer_data
transfer_data-sends f buf wsize mode base Has Known p es reads room known fits w at a sound =
    subst (λ o. Ends j base Has Known (transfer_buf o wsize mode p es)) (sym reads)
      (transfer_loop-Ends j base Has Known room known fits w es (start_sending j p) 0
        (start_sending-Inv j base Has Known room known fits w p at a) sound)
  where
    j : Job
    j = record { buf = buf; wsize = wsize; mode = mode }
