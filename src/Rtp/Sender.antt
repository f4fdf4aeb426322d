-- ===== src/Rtp/Sender.antt =====
-- lab2/src/sender.c: establish_connection, transfer_data, break_connection, main.
pub mod Chunks
pub mod Batch
pub mod Invariant
pub mod Ack
pub mod Transfer
pub mod InTurn
pub mod Turn
pub mod Progress
pub mod Closing
use computer_system24fall.Common.{
  ℕ, zero, suc, ◌+◌, ◌-◌, ◌*◌, ◌/◌, ◌%◌, Bool, ◌&&◌, ◌||◌, not, List, [], ◌∷◌, Option, none, some,
  ltb, ◌==◌, if◌then◌else◌, bit_or, bit_xor, length, get_or, take, drop, replicate,
}
use computer_system24fall.Common.Int.{pos, neg}
use computer_system24fall.Rtp.Seq.{get_random_seqnum, seqnum_add, sqn_dis, seqnum_is_in}
use computer_system24fall.Rtp.Window.{update_window}
use computer_system24fall.Rtp.Packet.{
  payload_max, rtp_syn, rtp_ack, rtp_fin, seq_num_of, flags_of, Recv, Scode, accepted, invalid,
  timed_out, died,
}
use computer_system24fall.Rtp.Files.{Source, read_file}
use computer_system24fall.Rtp.Process.{
  Process, Outcome, returned, blocked, exited, ◌>>=◌, set_sock_recv_time, send, recv, log_tries,
  is_reply, await_reply, max_buf, recv_s, send_ms,
}

-- The last receive of the handshake, which answers one more SYN-ACK.
unfoldable pub finish_connection : List Recv → Process → Outcome (Unit {0})
finish_connection [] p = blocked p
finish_connection (e ∷ es) p =
    let (p', scode) = recv p e in
    elim scode [
      | died ↦ exited p'
      | accepted ↦
          returned tt
            (if is_reply p'.sqn (bit_or rtp_ack rtp_syn) p' then send p' p'.sqn rtp_ack [] else p')
            es
      | _ ↦ returned tt p' es
    ]

unfoldable pub establish_connection : Bool → Process → List Recv → Outcome (Unit {0})
unfolding finish_connection
establish_connection ldebug p es =
    let start = set_sock_recv_time (record p { sqn = get_random_seqnum }) 0 send_ms in
    let asked = send start start.sqn rtp_syn [] in
    await_reply ldebug (seqnum_add start.sqn (pos 1)) (bit_or rtp_ack rtp_syn) rtp_syn es
      (log_tries ldebug 0) asked
    >>= λ _ p' es'.
        let q = set_sock_recv_time p' recv_s 0 in
        let q' = record q { sqn = seqnum_add q.sqn (pos 1) } in
        finish_connection es' (send q' q'.sqn rtp_ack [])

unfoldable pub break_connection : Bool → Process → List Recv → Outcome (Unit {0})
break_connection ldebug p es =
    let start = set_sock_recv_time p 0 send_ms in
    await_reply ldebug start.sqn (bit_or rtp_ack rtp_fin) rtp_fin es (log_tries ldebug 0)
      (send start start.sqn rtp_fin [])

-- What transfer_data works on: the bytes that read_file returned, and the two arguments.
pub record Job : Type 0 where
  pub buf : List ℕ
  pub wsize : ℕ
  pub mode : ℕ

abbrev pub tsize : Job → ℕ
tsize j = length j.buf % payload_max

abbrev pub npacket : Job → ℕ
npacket j = (length j.buf + payload_max - 1) / payload_max

-- dsize and the bytes of packet `k`.
abbrev pub dsize : Job → ℕ → ℕ
dsize j k = if k == npacket j - 1 then tsize j else payload_max

unfoldable pub chunk : Job → ℕ → List ℕ
chunk j k = take (dsize j k) (drop (k * payload_max) j.buf)

-- The variables of the loop of transfer_data.
pub record Sending : Type 0 where
  pub proc : Process
  pub shift : ℕ
  pub wbase : ℕ
  pub window : List ℕ

-- `for (i = …; i < wsize && i + shift < npacket; ++i)`, with the rounds that are left of `wsize`.
unfoldable pub send_window : Job → ℕ → ℕ → ℕ → Process → Process
send_window j shift i zero p = p
send_window j shift i (suc left) p =
    let sent = send p p.sqn 0 (chunk j (shift + i)) in
    let rest = send_window j shift (i + 1) left (record sent { sqn = seqnum_add p.sqn (pos 1) }) in
    if ltb (i + shift) (npacket j) then rest else p

-- `if (wbase == sqn)`: a whole window was acknowledged.
unfoldable pub next_window : Job → Sending → Sending
next_window j s =
    if s.wbase == s.proc.sqn then record s { proc = send_window j s.shift 0 j.wsize s.proc } else s

-- `for (i = …; seqnum_add(wbase, i) < sqn; ++i)`, with `fuel` rounds at most.
unfoldable pub resend_from : Job → Sending → ℕ → ℕ → Process → Process
resend_from j s zero i p = p
resend_from j s (suc fuel) i p =
    let seq = seqnum_add s.wbase (pos i) in
    let acked = not (j.mode == 0) && not (get_or s.window i 0 == 0) in
    let p' = if acked then p else send p seq 0 (chunk j (s.shift + i)) in
    let rest = resend_from j s fuel (i + 1) p' in if ltb seq p.sqn then rest else p

unfoldable pub resend : Job → Sending → Sending
unfolding resend_from
resend j s = record s { proc = resend_from j s (s.proc.sqn - s.wbase) 0 s.proc }

-- The window after an acknowledgement of `seqnum`, and by how much it moves.
unfoldable pub acknowledge : Job → List ℕ → ℕ → List ℕ × ℕ
acknowledge j window dis =
    if j.mode == 0 then (window, dis + 1) else update_window window j.wsize dis

-- From `if (scode || packet.rtp.flags != RTP_ACK)` to the end of the loop's body, for result 0.
unfoldable pub on_ack : Job → Sending → Sending
on_ack j s =
    let seqnum = seqnum_add (seq_num_of s.proc.packet) (neg (bit_xor j.mode 1)) in
    let (window, mov) = acknowledge j s.window (sqn_dis s.wbase seqnum) in
    if not (flags_of s.proc.packet == rtp_ack)
    then s
    else if not (seqnum_is_in seqnum s.wbase s.proc.sqn)
    then s
    else record s { shift = s.shift + mov; wbase = seqnum_add s.wbase (pos mov); window = window }

-- The loop's body after the receive, by its result; `none` leaves by exit(1).
unfoldable pub react : Job → Scode → Sending → Option Sending
react j died s = none
react j timed_out s = some (resend j s)
react j invalid s = some s
react j accepted s = some (on_ack j s)

unfoldable pub receive : Job → Sending → Recv → Option Sending
receive j s e = let (p, scode) = recv s.proc e in react j scode (record s { proc = p })

unfoldable pub transfer_loop : Job → List Recv → Sending → Outcome Sending
transfer_loop j [] s =
    if ltb s.shift (npacket j) then blocked (next_window j s).proc else returned s s.proc []
transfer_loop j (e ∷ es) s =
    let rest : Outcome Sending = elim (receive j (next_window j s) e) [
      | none ↦ exited (recv (next_window j s).proc e).0
      | some s' ↦ transfer_loop j es s'
    ] in
    if ltb s.shift (npacket j) then rest else returned s s.proc (e ∷ es)

unfoldable pub start_sending : Job → Process → Sending
start_sending j p = record {
  proc = set_sock_recv_time p 0 send_ms;
  shift = 0;
  wbase = p.sqn;
  window = replicate j.wsize 0;
}

-- From the return of read_file on, or its exit.
abbrev pub transfer_buf : Option (List ℕ) → ℕ → ℕ → Process → List Recv → Outcome Sending
transfer_buf none wsize mode p es = exited p
transfer_buf (some buf) wsize mode p es =
    let j : Job = record { buf = buf; wsize = wsize; mode = mode } in
    transfer_loop j es (start_sending j p)

unfoldable pub transfer_data : Source → ℕ → ℕ → Process → List Recv → Outcome Sending
unfolding start_sending
transfer_data file wsize mode p es = transfer_buf (read_file file max_buf) wsize mode p es

-- The arguments of main as it has read them, the file at `file_path`, and whether the calls of
-- socket and close succeed.
pub record Args : Type 0 where
  pub argc : ℕ
  pub file : Source
  pub wsize : ℕ
  pub mode : ℕ
  pub socket_opens : Bool
  pub socket_closes : Bool

unfoldable pub main : Bool → Args → Process → List Recv → Outcome (Unit {0})
main ldebug a p es =
    if not (a.argc == 6) || not a.socket_opens
    then exited p
    else establish_connection ldebug p es >>= λ _ p₁ es₁.
        transfer_data a.file a.wsize a.mode p₁ es₁ >>= λ _ p₂ es₂.
        break_connection ldebug p₂ es₂ >>= λ _ p₃ es₃.
        if a.socket_closes then returned tt p₃ es₃ else exited p₃
