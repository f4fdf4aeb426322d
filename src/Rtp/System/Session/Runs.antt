-- ===== src/Rtp/System/Session/Runs.antt =====
-- The runs of main of lab2/src/sender.c and main of lab2/src/receiver.c against each other.
use computer_system24fall.Common.{
  ◌⊎◌, ℕ, ◌^◌, ◌≤◌, ◌<◌, ◌≡◌, ◌≢◌, refl, Bool, true, List, [], some, arith, length, take,
  length-take,
}
use computer_system24fall.Rtp.Checksum.Detect.{IsBytes}
use computer_system24fall.Rtp.Packet.{eagain}
use computer_system24fall.Rtp.Files.{Source, Sink, read_file, read_file-beginning, write_file-whole}
use computer_system24fall.Rtp.Process.{Process, max_buf}
use computer_system24fall.Rtp.Process.Passes.{Passes}
use computer_system24fall.Rtp.Sender.{Job, npacket}
use computer_system24fall.Rtp.Sender
use computer_system24fall.Rtp.Sender.Chunks.{total, total-le}
use computer_system24fall.Rtp.Receiver
use computer_system24fall.Rtp.System.Session.{
  sender_sends, receiver_sends, sender_hears, receiver_hears, delivered, sender_hears-receiver,
  receiver_hears-sender,
}
use computer_system24fall.Rtp.System.Session.SenderRun.{sender_main-Passes}
use computer_system24fall.Rtp.System.Session.ReceiverRun.{receiver_main-Passes}

-- The arguments of a run whose sockets open, bind and close.
abbrev pub sender_args : Source → ℕ → ℕ → Sender.Args
sender_args f wsize mode = record {
  argc = 6;
  file = f;
  wsize = wsize;
  mode = mode;
  socket_opens = true;
  socket_closes = true;
}

abbrev pub receiver_args : Sink → ℕ → ℕ → Receiver.Args
receiver_args f wsize mode = record {
  argc = 5;
  wsize = wsize;
  mode = mode;
  file = f;
  socket_opens = true;
  socket_binds = true;
  socket_closes = true;
}

-- Both programs end to end, in both modes, on a network that loses and reorders nothing: what each finds
-- is just what the other sends, besides three timeouts; both mains return; and the receiver has
-- written all bytes that the file's packets carry. For every file of bytes that read_file reads,
-- windows of any positive size (below 2 ^ 30 for the receiver), and an output file that opens, takes
-- 2 MB and closes, from an errno other than EAGAIN.
pub main-delivers :
    (ldebug : Bool) (junk : ℕ → ℕ) (f : Source) (g : Sink) (buf : List ℕ) (wsize wsize' mode : ℕ)
    (p q : Process)
    → read_file f max_buf ≡ some buf
    → IsBytes buf
    → (mode ≡ 0) ⊎ (mode ≡ 1)
    → g.opens ≡ true
    → g.closes ≡ true
    → max_buf ≤ g.takes
    → 0 < wsize
    → 0 < wsize'
    → wsize' < 2 ^ 30
    → p.errno ≢ eagain
    → q.errno ≢ eagain
    → let j : Job = record { buf = buf; wsize = wsize; mode = mode } in
      Passes p
        (sender_sends j)
        (npacket j)
        []
        tt
        (Sender.main ldebug (sender_args f wsize mode) p (sender_hears j))
      × Passes q
          (receiver_sends j)
          (npacket j)
          []
          (take (total j) buf)
          (Receiver.main ldebug junk (receiver_args g wsize' mode) q (receiver_hears j))
      × (delivered (sender_hears j) ≡ receiver_sends j)
      × (delivered (receiver_hears j) ≡ sender_sends j)
main-delivers ldebug junk f g buf wsize wsize' mode p q reads bytes mode_fits opens closes takes w
      w' small fresh fresh' =
    (
      sender_main-Passes ldebug (sender_args f wsize mode) buf p refl refl refl mode_fits w reads
          fresh (omega (arith, short)),
      receiver_main-Passes ldebug junk (receiver_args g wsize' mode) j q refl refl refl refl refl
          mode_fits w' (omega (arith, short, small)) (omega (arith, short, total-le j)) bytes
          (write_file-whole g (take (total j) buf) opens closes
            (omega (arith, short, takes, length-take (total j) buf)))
          fresh',
      sender_hears-receiver j,
      receiver_hears-sender j,
    )
  where
    j : Job
    j = record { buf = buf; wsize = wsize; mode = mode }

    short : length buf ≤ max_buf
    short = (read_file-beginning f max_buf buf reads).1
