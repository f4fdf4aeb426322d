-- ===== src/Rtp/Process.antt =====
-- What sender.c and receiver.c of lab2/src share: their globals, the calls of rtp.c and util.c on
-- them, and the loop that resends a packet until its reply comes.
pub mod Retry
pub mod Greeting
pub mod Passes
use computer_system24fall.Common.{
  ℕ, ◌+◌, ◌*◌, Bool, ◌&&◌, List, [], ◌∷◌, ◌++◌, ltb, ◌==◌, if◌then◌else◌,
}
use computer_system24fall.Rtp.Packet.{
  send_packet, recv_packet, seq_num_of, flags_of, Recv, Scode, accepted, died,
}

-- lab2/src/defs.h.
abbrev pub max_buf : ℕ
max_buf = 2097152

abbrev pub recv_s : ℕ
recv_s = 2

abbrev pub wait_s : ℕ
wait_s = 5

abbrev pub send_ms : ℕ
send_ms = 100

abbrev pub send_tr : ℕ
send_tr = 50

pub record Timeval : Type 0 where
  pub tv_sec : ℕ
  pub tv_usec : ℕ

-- errno, the global `sqn`, the local `packet` (uninitialised at first, so any bytes), the socket's
-- SO_RCVTIMEO, and the datagrams sent so far, the oldest first.
pub record Process : Type 0 where
  pub errno : ℕ
  pub sqn : ℕ
  pub packet : List ℕ
  pub recv_timeout : Timeval
  pub sent : List (List ℕ)

-- How a function that reads the socket ends: it returns, with the events that it has not read; it
-- waits in recvfrom for an event that has not come; the process has left by exit(1); or it has
-- written behind the end of an array, which C leaves undefined.
pub data Outcome {ℓ} (A : Type ℓ) : Type ℓ where
  returned : A → Process → List Recv → Outcome A
  blocked exited overrun : Process → Outcome A

infixl 5 ◌>>=◌
abbrev pub ◌>>=◌ {ℓ κ} :
    {A : Type ℓ} {B : Type κ} → Outcome A → (A → Process → List Recv → Outcome B) → Outcome B
returned a p es >>= f = f a p es
blocked p >>= f = blocked p
exited p >>= f = exited p
overrun p >>= f = overrun p

unfoldable pub set_sock_recv_time : Process → ℕ → ℕ → Process
set_sock_recv_time p sec msec = record p {
  recv_timeout = record { tv_sec = sec; tv_usec = msec * 1000 };
}

-- send_packet on the socket; `buf` is [] for a null pointer.
unfoldable pub send : Process → ℕ → ℕ → List ℕ → Process
send p sqn flgs buf = record p { sent = p.sent ++ send_packet sqn flgs buf ∷ [] }

-- The state behind a call of recv_packet, and its result.
unfoldable pub recv : Process → Recv → Process × Scode
recv p e =
    let r = recv_packet p.errno p.packet e in
    (record p { errno = r.errno; packet = r.buf }, r.scode)

-- `++tries` stands inside the arguments of LOG_DEBUG, which is empty unless LDEBUG is defined.
unfoldable pub log_tries : Bool → ℕ → ℕ
log_tries ldebug tries = if ldebug then tries + 1 else tries

-- Whether the packet is the reply: its sequence number and its flags.
unfoldable pub is_reply : ℕ → ℕ → Process → Bool
is_reply seq flgs p = seq_num_of p.packet == seq && flags_of p.packet == flgs

-- `while (1)`: give up after too many tries, receive, leave on the reply, else send again. The three
-- loops of this form differ in the reply and in the packet that is sent.
module _ (ldebug : Bool) (reply_seq reply_flgs own_flgs : ℕ) where
  unfoldable pub await_reply : List Recv → ℕ → Process → Outcome (Unit {0})
  unfolding log_tries
  await_reply [] tries p = if ltb send_tr tries then exited p else blocked p
  await_reply (e ∷ es) tries p =
      let (p', scode) = recv p e in
      let again = await_reply es (log_tries ldebug tries) (send p' p'.sqn own_flgs []) in
      if ltb send_tr tries then exited p else elim scode [
        | died ↦ exited p'
        | accepted ↦ if is_reply reply_seq reply_flgs p' then returned tt p' es else again
        | _ ↦ again
      ]
