-- ===== src/Rtp/System.antt =====
-- The two transfer_data loops of lab2/src/sender.c and lab2/src/receiver.c over one network. A turn
-- of a loop takes an event that the network can deliver at that time; the turns of the two sides
-- interleave in any order.
pub mod Truth
pub mod Delivery
pub mod Taken
pub mod InOrder
pub mod Handshake
pub mod Session
mod Tests
use computer_system24fall.Common.{ℕ, ◌≤◌, ◌<◌, ◌≡◌, ◌≢◌, List, some, In}
use computer_system24fall.Rtp.Packet.{Recv, failed, datagram, accepted}
use computer_system24fall.Rtp.Process.{Process, recv}
use computer_system24fall.Rtp.Sender.{Job, Sending, npacket, next_window, start_sending}
use computer_system24fall.Rtp.Sender
use computer_system24fall.Rtp.Receiver.{Receiving, next, break, start_receiving}
use computer_system24fall.Rtp.Receiver

-- What recvfrom can do, given the datagrams that the other side has sent so far: fail, as on a
-- timeout; deliver any of them, late, again, or before older ones; or deliver bytes that recv_packet
-- does not accept, as after damage that the checksum detects. What is never delivered is lost.
pub data Delivers (sent : List (List ℕ)) : Recv → Type 0 where
  fails : (errno : ℕ) → Delivers sent (failed errno)
  arrives : (d : List ℕ) → In d sent → Delivers sent (datagram d)
  damaged :
      (d : List ℕ)
      → ((p : Process) → (recv p (datagram d)).1 ≢ accepted)
      → Delivers sent (datagram d)

-- Whether a side is in its loop, has left it, or has exited.
pub data Status : Type 0 where
  looping left gone : Status

pub record World : Type 0 where
  pub sending : Sending
  pub sender : Status
  pub receiving : Receiving
  pub receiver : Status

-- One turn of one side, for the sender's job and the receiver's window size.
pub data Step (j : Job) (wsize : ℕ) (w : World) : World → Type 0 where
  -- The sender has sent a window, and waits in recvfrom.
  sender_fills :
      w.sender ≡ looping
      → w.sending.shift < npacket j
      → Step j wsize w (record w { sending = next_window j w.sending })
  sender_turns :
      (e : Recv) (s : Sending)
      → w.sender ≡ looping
      → w.sending.shift < npacket j
      → Delivers w.receiving.proc.sent e
      → Sender.receive j (next_window j w.sending) e ≡ some s
      → Step j wsize w (record w { sending = s })
  sender_leaves :
      w.sender ≡ looping → npacket j ≤ w.sending.shift → Step j wsize w (record w { sender = left })
  sender_exits : w.sender ≡ looping → Step j wsize w (record w { sender = gone })
  receiver_turns :
      (e : Recv) (r : Receiving)
      → w.receiver ≡ looping
      → Delivers w.sending.proc.sent e
      → Receiver.receive wsize j.mode w.receiving e ≡ next r
      → Step j wsize w (record w { receiving = r })
  receiver_leaves :
      (e : Recv) (r : Receiving)
      → w.receiver ≡ looping
      → Delivers w.sending.proc.sent e
      → Receiver.receive wsize j.mode w.receiving e ≡ break r
      → Step j wsize w (record w { receiving = r; receiver = left })
  receiver_exits : w.receiver ≡ looping → Step j wsize w (record w { receiver = gone })

pub data Reach (j : Job) (wsize : ℕ) (w : World) : World → Type 0 where
  here : Reach j wsize w w
  then_step : {u v : World} → Reach j wsize w u → Step j wsize u v → Reach j wsize w v

-- Both sides at the start of their loops.
abbrev pub start : Job → ℕ → (ℕ → ℕ) → Process → Process → World
start j wsize junk p q = record {
  sending = start_sending j p;
  sender = looping;
  receiving = start_receiving wsize junk q;
  receiver = looping;
}
