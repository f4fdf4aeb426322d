-- ===== src/Rtp/System/Delivery/Consistent.antt =====
-- The invariants of the two loops of lab2/src/sender.c and lab2/src/receiver.c together, over a network
-- that loses, repeats, reorders and damages datagrams.
use computer_system24fall.Common.{
  ℕ, ◌+◌, ◌^◌, ◌≤◌, ◌<◌, ◌≡◌, refl, ◌⊎◌, inl, inr, subst, List, arith, All, All-map, some,
}
use computer_system24fall.Rtp.Checksum.Detect.{IsBytes}
use computer_system24fall.Rtp.Process.{Process, max_buf}
use computer_system24fall.Rtp.Packet.{Recv}
use computer_system24fall.Rtp.Sender.{Job, Sending, npacket, next_window}
use computer_system24fall.Rtp.Sender
use computer_system24fall.Rtp.Sender.Chunks.{total}
use computer_system24fall.Rtp.Sender.Batch.{data_packet}
use computer_system24fall.Rtp.Sender.Invariant.{next_window-Inv}
use computer_system24fall.Rtp.Sender.Transfer.{Goes, receive-Inv, start_sending-Inv}
use computer_system24fall.Rtp.Receiver.{Receiving, Turn, next, break, bytes_from, start_receiving}
use computer_system24fall.Rtp.Receiver
use computer_system24fall.Rtp.Receiver.Invariant.{Got, Got-total, Turns}
use computer_system24fall.Rtp.Receiver.Transfer.{receive-Turns, start_receiving-Inv}
use computer_system24fall.Rtp.System.{
  Delivers, Status, looping, left, World, Step, sender_fills, sender_turns, sender_leaves,
  sender_exits, receiver_turns, receiver_leaves, receiver_exits, Reach, here, then_step, start,
}
use computer_system24fall.Rtp.System.Truth.{
  SenderGreeting, ReceiverGreeting, FromSender, Delivers-Sound, Delivers-Genuine,
}

-- The sender's invariant holds on when the receiver comes to hold more.
Inv-map :
    (j : Job) (base : ℕ) (Has Has' : ℕ → Type 0) (Known : List ℕ → Type 0) (s : Sending) (n : ℕ)
    → ((k : ℕ) → Has k → Has' k)
    → Sender.Invariant.Inv j base Has Known s n
    → Sender.Invariant.Inv j base Has' Known s n
Inv-map j base Has Has' Known s n f v = record {
  at_base = v.at_base;
  sqn_eq = v.sqn_eq;
  shift_le = v.shift_le;
  within = v.within;
  span = v.span;
  size = v.size;
  held = λ k l. f k (v.held k l);
  marks = λ i on. ((v.marks i on).0, (v.marks i on).1, f (s.shift + i) (v.marks i on).2);
  all_known = v.all_known;
}

module _ (j : Job) (base wsize : ℕ) where
  -- The packets that the receiver holds.
  abbrev pub Has : Receiving → ℕ → Type 0
  Has r = Got j r.buf r.fsize

  -- Both invariants, the sender's about what the receiver holds; and the sender leaves with its
  -- window past the last packet.
  pub record IsConsistent (w : World) : Type 0 where
    pub sent_up_to : ℕ
    pub sender_ok :
        Sender.Invariant.Inv j base (Has w.receiving) (FromSender j base) w.sending sent_up_to
    pub receiver_ok : Receiver.Invariant.Inv j base j.mode ReceiverGreeting wsize w.receiving
    pub all_acked : w.sender ≡ left → npacket j ≤ w.sending.shift

  module _ (room : base + npacket j + wsize < 2 ^ 31) (fits : total j ≤ max_buf)
      (bytes : IsBytes j.buf) (mode_fits : (j.mode ≡ 0) ⊎ (j.mode ≡ 1)) (job_wsize : 0 < j.wsize)
      (pos_wsize : 0 < wsize) where
    room' : base + npacket j < 2 ^ 31
    room' = omega (arith, room)

    of_file : (k : ℕ) → k < npacket j → FromSender j base (data_packet j base k)
    of_file k h = inr (k, h, refl)

    -- The states of the sender's loop while it runs.
    run_on :
        (w : World) (s : Sending) (n : ℕ)
        → IsConsistent w
        → w.sender ≡ looping
        → Sender.Invariant.Inv j base (Has w.receiving) (FromSender j base) s n
        → IsConsistent (record w { sending = s })
    run_on w s n v on i = record {
      sent_up_to = n;
      sender_ok = i;
      receiver_ok = v.receiver_ok;
      all_acked = λ off. absurd (cc (on, off));
    }

    -- A turn of the receiver.
    take_turn :
        (w : World) (r : Receiving) (st : Status) (t : Turn)
        → IsConsistent w
        → Turns j base j.mode ReceiverGreeting wsize w.receiving t
        → (t ≡ next r) ⊎ (t ≡ break r)
        → IsConsistent (record w { receiving = r; receiver = st })
    take_turn w r st t v i which = record {
      sent_up_to = v.sent_up_to;
      sender_ok =
          Inv-map j base (Has w.receiving) (Has r) (FromSender j base) w.sending v.sent_up_to
            (held t i which).1 v.sender_ok;
      receiver_ok = (held t i which).0;
      all_acked = v.all_acked;
    }
      where
        Good : Turn → Type 0
        Good = Turns j base j.mode ReceiverGreeting wsize w.receiving

        held :
            (t : Turn)
            → Good t
            → (t ≡ next r) ⊎ (t ≡ break r)
            → Receiver.Invariant.Inv j base j.mode ReceiverGreeting wsize r
              × ((k : ℕ) → Has w.receiving k → Has r k)
        held t i (inl e) = subst Good e i
        held t i (inr e) = subst Good e i

    receiver_turn :
        (w : World) (e : Recv)
        → IsConsistent w
        → Delivers w.sending.proc.sent e
        → Turns j base j.mode ReceiverGreeting wsize w.receiving
            (Receiver.receive wsize j.mode w.receiving e)
    receiver_turn w e v d =
        receive-Turns j base j.mode wsize ReceiverGreeting room fits mode_fits pos_wsize w.receiving
          e v.receiver_ok
          (Delivers-Genuine j base room' bytes w.sending.proc.sent e v.sender_ok.all_known d)

    sender_turn :
        (w : World) (e : Recv) (s : Sending)
        → IsConsistent w
        → w.sender ≡ looping
        → w.sending.shift < npacket j
        → Delivers w.receiving.proc.sent e
        → Sender.receive j (next_window j w.sending) e ≡ some s
        → IsConsistent (record w { sending = s })
    sender_turn w e s v on more d eq =
        let (n, i, l) =
          next_window-Inv j base (Has w.receiving) (FromSender j base) room' of_file w.sending
            v.sent_up_to v.sender_ok job_wsize more in
        run_on w s n v on (
          subst
            (Goes j base (Has w.receiving) (FromSender j base) room' of_file mode_fits job_wsize n)
            eq
            (receive-Inv j base (Has w.receiving) (FromSender j base) room' of_file mode_fits
              job_wsize (next_window j w.sending) e n i l
              (Delivers-Sound j base w.receiving.buf w.receiving.fsize (FromSender j base) room'
                w.receiving.proc.sent e v.receiver_ok.all_known d)))

    Step-IsConsistent : (w u : World) → Step j wsize w u → IsConsistent w → IsConsistent u
    Step-IsConsistent w u (sender_fills on more) v =
        let (n, i, l) =
          next_window-Inv j base (Has w.receiving) (FromSender j base) room' of_file w.sending
            v.sent_up_to v.sender_ok job_wsize more in
        run_on w (next_window j w.sending) n v on i
    Step-IsConsistent w u (sender_turns e s on more d eq) v = sender_turn w e s v on more d eq
    Step-IsConsistent w u (sender_leaves on all) v = record {
      sent_up_to = v.sent_up_to;
      sender_ok = v.sender_ok;
      receiver_ok = v.receiver_ok;
      all_acked = λ _. all;
    }
    Step-IsConsistent w u (sender_exits on) v = record {
      sent_up_to = v.sent_up_to;
      sender_ok = v.sender_ok;
      receiver_ok = v.receiver_ok;
      all_acked = λ off. absurd (cc off);
    }
    Step-IsConsistent w u (receiver_turns e r on d eq) v =
        take_turn w r w.receiver (Receiver.receive wsize j.mode w.receiving e) v
          (receiver_turn w e v d) (inl eq)
    Step-IsConsistent w u (receiver_leaves e r on d eq) v =
        take_turn w r left (Receiver.receive wsize j.mode w.receiving e) v (receiver_turn w e v d)
          (inr eq)
    Step-IsConsistent w u (receiver_exits on) v = record {
      sent_up_to = v.sent_up_to;
      sender_ok = v.sender_ok;
      receiver_ok = v.receiver_ok;
      all_acked = v.all_acked;
    }

    pub Reach-IsConsistent : (w u : World) → Reach j wsize w u → IsConsistent w → IsConsistent u
    Reach-IsConsistent w u here v = v
    Reach-IsConsistent w u (then_step {u = t} r s) v =
        Step-IsConsistent t u s (Reach-IsConsistent w t r v)

    pub start-IsConsistent :
        (junk : ℕ → ℕ) (p q : Process)
        → p.sqn ≡ base
        → q.sqn ≡ base
        → All SenderGreeting p.sent
        → All ReceiverGreeting q.sent
        → IsConsistent (start j wsize junk p q)
    start-IsConsistent junk p q at_p at_q greet_p greet_q = record {
      sent_up_to = 0;
      sender_ok =
          start_sending-Inv j base (Has (start_receiving wsize junk q)) (FromSender j base) room'
            of_file mode_fits job_wsize p at_p
            (All-map SenderGreeting (FromSender j base) p.sent (λ d g. inl g) greet_p);
      receiver_ok =
          start_receiving-Inv j base j.mode wsize ReceiverGreeting room fits mode_fits pos_wsize
            junk q at_q greet_q;
      all_acked = λ off. absurd (cc off);
    }
