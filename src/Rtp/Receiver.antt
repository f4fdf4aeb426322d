-- ===== src/Rtp/Receiver.antt =====
-- lab2/src/receiver.c: establish_connection, transfer_data, break_connection, main.
pub mod Store
pub mod Invariant
pub mod Cumulative
pub mod Selective
pub mod Transfer
pub mod Closing
pub mod Answering
use computer_system24fall.Common.{
  ℕ, zero, suc, ◌+◌, ◌-◌, ◌*◌, Bool, ◌&&◌, ◌||◌, not, List, [], ◌∷◌, Option, none, some, ltb, leb,
  ◌==◌, if◌then◌else◌, bit_and, bit_or, length, get_or, take, replicate,
}
use computer_system24fall.Common.Int.{pos, neg}
use computer_system24fall.Rtp.Seq.{seqnum_add, sqn_dis, seqnum_is_in}
use computer_system24fall.Rtp.Window.{update_window}
use computer_system24fall.Rtp.Packet.{
  payload_max, rtp_syn, rtp_ack, rtp_fin, seq_num_of, length_of, flags_of, payload_of, Recv, Scode,
  accepted, invalid, timed_out, died,
}
use computer_system24fall.Rtp.Files.{Sink, write_file}
use computer_system24fall.Rtp.Process.{
  Process, Outcome, returned, blocked, exited, overrun, ◌>>=◌, set_sock_recv_time, send, recv,
  log_tries, await_reply, max_buf, recv_s, wait_s, send_ms,
}

-- The first loop of establish_connection: wait for a SYN, and exit at a timeout.
unfoldable pub await_syn : List Recv → Process → Outcome (Unit {0})
await_syn [] p = blocked p
await_syn (e ∷ es) p =
    let (p', scode) = recv p e in
    let again = await_syn es p' in
    elim scode [
      | died ↦ exited p'
      | timed_out ↦ exited p'
      | accepted ↦ if flags_of p'.packet == rtp_syn then returned tt p' es else again
      | invalid ↦ again
    ]

unfoldable pub establish_connection : Bool → Process → List Recv → Outcome (Unit {0})
unfolding await_syn
establish_connection ldebug p es = await_syn es (set_sock_recv_time p wait_s 0) >>= λ _ p' es'.
    let q = record p' { sqn = seqnum_add (seq_num_of p'.packet) (pos 1) } in
    let q' = set_sock_recv_time q 0 send_ms in
    await_reply ldebug q'.sqn rtp_ack (bit_or rtp_ack rtp_syn) es' (log_tries ldebug 0)
      (send q' q'.sqn (bit_or rtp_ack rtp_syn) [])

-- The loop of break_connection. Its `scode` is the truth value of `recv_packet(…) < 0`, so the test
-- for -2 never holds.
unfoldable pub await_fin : List Recv → Process → Outcome (Unit {0})
await_fin [] p = blocked p
await_fin (e ∷ es) p =
    let (p', scode) = recv p e in
    let again = await_fin es p' in
    elim scode [
      | died ↦ exited p'
      | accepted ↦ if flags_of p'.packet == rtp_fin then returned tt p' es else again
      | _ ↦ again
    ]

-- The last receive. `sqn` is set from the packet before it is compared with it.
unfoldable pub finish_break : List Recv → Process → Outcome (Unit {0})
finish_break [] p = blocked p
finish_break (e ∷ es) p =
    let (p', scode) = recv p e in
    let q = record p' { sqn = seq_num_of p'.packet } in
    elim scode [
      | died ↦ exited p'
      | accepted ↦
          returned tt
            (if seq_num_of q.packet == q.sqn && flags_of q.packet == rtp_fin
              then send q q.sqn (bit_or rtp_ack rtp_fin) []
              else q)
            es
      | _ ↦ returned tt q es
    ]

unfoldable pub break_connection : Process → List Recv → Outcome (Unit {0})
unfolding await_fin finish_break
break_connection p es = await_fin es (set_sock_recv_time p wait_s 0) >>= λ _ p' es'.
    let q = set_sock_recv_time p' recv_s 0 in
    let q' = record q { sqn = seq_num_of q.packet } in
    finish_break es' (send q' q'.sqn (bit_or rtp_ack rtp_fin) [])

-- The variables of transfer_data. `buf` gives the byte at each index below `max_buf`.
pub record Receiving : Type 0 where
  pub proc : Process
  pub fsize : ℕ
  pub shift : ℕ
  pub wbase : ℕ
  pub window : List ℕ
  pub buf : ℕ → ℕ

-- One turn of its loop: go on, break, exit(1), or write behind the end of `buf`.
pub data Turn : Type 0 where
  next break : Receiving → Turn
  exits overruns : Process → Turn

-- memcpy of `bytes` to `buf + at`.
unfoldable pub store : (ℕ → ℕ) → ℕ → List ℕ → ℕ → ℕ
store buf at bytes i =
    if leb at i && ltb i (at + length bytes) then get_or bytes (i - at) 0 else buf i

-- The bytes that the packet carries.
unfoldable pub carried : Process → List ℕ
carried p = take (length_of p.packet) (payload_of p.packet)

-- The turn with the packet stored at place `mov` of the file, if it fits `buf`.
abbrev pub stored : Receiving → ℕ → ((ℕ → ℕ) → Receiving) → Turn
stored s mov rest =
    if ltb max_buf (mov * payload_max + length_of s.proc.packet)
    then overruns s.proc
    else next (rest (store s.buf (mov * payload_max) (carried s.proc)))

-- Selective repeat: the branch for a packet inside the window.
unfoldable pub take_selective : ℕ → Receiving → Turn
take_selective wsize s =
    let seq = seq_num_of s.proc.packet in
    let mov = sqn_dis s.wbase seq + s.shift in
    let end = mov * payload_max + length_of s.proc.packet in
    let (window, slid) = update_window s.window wsize (mov - s.shift) in
    stored s mov λ buf. record s {
      proc = send s.proc seq rtp_ack [];
      fsize = if ltb s.fsize end then end else s.fsize;
      shift = s.shift + slid;
      wbase = seqnum_add s.wbase (pos slid);
      window = window;
      buf = buf;
    }

unfoldable pub selective_repeat : ℕ → Receiving → Turn
unfolding take_selective
selective_repeat wsize s =
    let seq = seq_num_of s.proc.packet in
    if seqnum_is_in seq (seqnum_add s.wbase (neg wsize)) s.wbase
    then next (record s { proc = send s.proc seq rtp_ack [] })
    else if seqnum_is_in seq s.wbase (seqnum_add s.wbase (pos wsize))
    then take_selective wsize s
    else next s

-- Go-back-N: the packet is stored if it is the next one; either way the next one is asked for.
unfoldable pub go_back_n : Receiving → Turn
go_back_n s =
    let taken = record s.proc { sqn = seqnum_add s.proc.sqn (pos 1) } in
    if seq_num_of s.proc.packet == s.proc.sqn
    then stored s s.shift (λ buf. record s {
      proc = send taken taken.sqn rtp_ack [];
      fsize = s.fsize + length_of s.proc.packet;
      shift = s.shift + 1;
      buf = buf;
    })
    else next (record s { proc = send s.proc s.proc.sqn rtp_ack [] })

unfoldable pub on_data : ℕ → ℕ → Receiving → Turn
on_data wsize mode s = if mode == 0 then go_back_n s else selective_repeat wsize s

-- The loop's body after the receive, by its result.
unfoldable pub react : ℕ → ℕ → Scode → Receiving → Turn
react wsize mode died s = exits s.proc
react wsize mode timed_out s = break s
react wsize mode invalid s =
    if bit_and (flags_of s.proc.packet) rtp_fin == 0 then next s else break s
react wsize mode accepted s =
    if not (bit_and (flags_of s.proc.packet) rtp_fin == 0)
    then break s
    else if not (flags_of s.proc.packet == 0)
    then next s
    else on_data wsize mode s

unfoldable pub receive : ℕ → ℕ → Receiving → Recv → Turn
receive wsize mode s e =
    let (p, scode) = recv s.proc e in react wsize mode scode (record s { proc = p })

unfoldable pub transfer_loop : ℕ → ℕ → List Recv → Receiving → Outcome Receiving
transfer_loop wsize mode [] s = blocked s.proc
transfer_loop wsize mode (e ∷ es) s = elim (receive wsize mode s e) [
  | next s' ↦ transfer_loop wsize mode es s'
  | break s' ↦ returned s' s'.proc es
  | exits p ↦ exited p
  | overruns p ↦ overrun p
]

unfoldable pub start_receiving : ℕ → (ℕ → ℕ) → Process → Receiving
start_receiving wsize junk p = record {
  proc = set_sock_recv_time p wait_s 0;
  fsize = 0;
  shift = 0;
  wbase = p.sqn;
  window = replicate wsize 0;
  buf = junk;
}

-- The bytes from index `i` on.
unfoldable pub bytes_from : (ℕ → ℕ) → ℕ → ℕ → List ℕ
bytes_from buf i zero = []
bytes_from buf i (suc left) = buf i ∷ bytes_from buf (i + 1) left

-- The return from write_file, or its exit.
abbrev pub saved : Option (List ℕ) → Process → List Recv → Outcome (List ℕ)
saved none p es = exited p
saved (some file) p es = returned file p es

-- The result is what the file written holds. `junk` is what `buf` held before.
unfoldable pub transfer_data : Sink → (ℕ → ℕ) → ℕ → ℕ → Process → List Recv → Outcome (List ℕ)
transfer_data file junk wsize mode p es =
    transfer_loop wsize mode es (start_receiving wsize junk p) >>= λ s p' es'.
    saved (write_file file (bytes_from s.buf 0 s.fsize)) p' es'

-- The arguments of main as it has read them, the file at `file_path`, and whether the calls of
-- socket, bind and close succeed.
pub record Args : Type 0 where
  pub argc : ℕ
  pub wsize : ℕ
  pub mode : ℕ
  pub file : Sink
  pub socket_opens : Bool
  pub socket_binds : Bool
  pub socket_closes : Bool

unfoldable pub main : Bool → (ℕ → ℕ) → Args → Process → List Recv → Outcome (List ℕ)
main ldebug junk a p es =
    if not (a.argc == 5) || not a.socket_opens || not a.socket_binds
    then exited p
    else establish_connection ldebug p es >>= λ _ p₁ es₁.
        transfer_data a.file junk a.wsize a.mode p₁ es₁ >>= λ file p₂ es₂.
        break_connection p₂ es₂ >>= λ _ p₃ es₃.
        if a.socket_closes then returned file p₃ es₃ else exited p₃
