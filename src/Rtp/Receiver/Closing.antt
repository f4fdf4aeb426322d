-- ===== src/Rtp/Receiver/Closing.antt =====
-- break_connection of lab2/src/receiver.c when no FIN comes.
use computer_system24fall.Common.{ℕ, zero, suc, sym, List, [], append-nil}
use computer_system24fall.Rtp.Packet.{Recv, recv_packet}
use computer_system24fall.Rtp.Process.{
  Process, Outcome, returned, blocked, exited, overrun, ◌>>=◌, recv, set_sock_recv_time, wait_s,
}
use computer_system24fall.Rtp.Process.Retry.{silence, StillWaits}
use computer_system24fall.Rtp.Receiver.{await_fin, break_connection}

await_fin-silence : (n : ℕ) (p : Process) → StillWaits p [] (await_fin (silence n) p)
unfolding await_fin recv recv_packet
await_fin-silence zero p = sym (append-nil p.sent)
await_fin-silence (suc n) p = await_fin-silence n (record p { errno = 0 })

-- A process that still waits does not come to what follows.
StillWaits-bind :
    (p : Process) (ds : List (List ℕ)) (o : Outcome (Unit {0}))
    (f : Unit {0} → Process → List Recv → Outcome (Unit {0}))
    → StillWaits p ds o
    → StillWaits p ds (o >>= f)
StillWaits-bind p ds (returned a q es) f h = absurd h
StillWaits-bind p ds (blocked q) f h = h
StillWaits-bind p ds (exited q) f h = h
StillWaits-bind p ds (overrun q) f h = h

-- The receiver's break_connection still waits after any number of timeouts, and has sent nothing:
-- its exit for a timeout is never taken.
pub break_connection-silence :
    (n : ℕ) (p : Process) → StillWaits p [] (break_connection p (silence n))
unfolding break_connection set_sock_recv_time
break_connection-silence n p =
    StillWaits-bind p [] (await_fin (silence n) (set_sock_recv_time p wait_s 0)) _
      (await_fin-silence n (set_sock_recv_time p wait_s 0))
