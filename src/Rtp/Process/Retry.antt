-- ===== src/Rtp/Process/Retry.antt =====
-- The retry limit SEND_TR of lab2/src/sender.c and lab2/src/receiver.c, which depends on LDEBUG.
use computer_system24fall.Common.{
  ℕ, zero, suc, ◌+◌, ◌≡◌, sym, ◌∙◌, true, false, List, [], ◌∷◌, ◌++◌, append-nil, append_assoc,
  arith, ltb, lt→ltb, le→ltb, replicate,
}
use computer_system24fall.Rtp.Packet.{eagain, send_packet, Recv, failed, recv_packet}
use computer_system24fall.Rtp.Process.{
  Process, Outcome, returned, blocked, exited, overrun, send, recv, await_reply, log_tries, send_tr,
}

-- What recvfrom answers when nothing comes within the time limit.
abbrev pub silence : ℕ → List Recv
silence n = replicate n (failed eagain)

-- The process still waits, having sent `datagrams` since `p`.
abbrev pub StillWaits {ℓ} : {A : Type ℓ} → Process → List (List ℕ) → Outcome A → Type 0
StillWaits p datagrams (blocked q) = q.sent ≡ p.sent ++ datagrams
StillWaits p datagrams _ = ⊥

abbrev pub HasExited {ℓ} : {A : Type ℓ} → Process → List (List ℕ) → Outcome A → Type 0
HasExited p datagrams (exited q) = q.sent ≡ p.sent ++ datagrams
HasExited p datagrams _ = ⊥

-- Without LDEBUG the tries are not counted: the three loops that resend a packet go on for any
-- number of timeouts, send the packet at each, and never exit.
pub await_reply-silence :
    (reply_seq reply_flgs own_flgs n : ℕ) (p : Process)
    → StillWaits p
        (replicate n (send_packet p.sqn own_flgs []))
        (await_reply false reply_seq reply_flgs own_flgs (silence n) 0 p)
unfolding await_reply recv recv_packet send
await_reply-silence seq flgs own zero p = sym (append-nil p.sent)
await_reply-silence seq flgs own (suc n) p =
    again (await_reply false seq flgs own (silence n) 0 p') (await_reply-silence seq flgs own n p')
  where
    packet : List ℕ
    packet = send_packet p.sqn own []

    p' : Process
    p' = record p { errno = 0; sent = p.sent ++ packet ∷ [] }

    again :
        (o : Outcome (Unit {0}))
        → StillWaits p' (replicate n packet) o
        → StillWaits p (packet ∷ replicate n packet) o
    again (returned a q es) h = h
    again (blocked q) h = h ∙ append_assoc p.sent (packet ∷ []) (replicate n packet)
    again (exited q) h = h
    again (overrun q) h = h

-- With LDEBUG the loops exit once they have counted more than SEND_TR tries: from `tries` on,
-- after the `n` timeouts that lead to the limit, whatever comes then.
pub await_reply-gives_up :
    (reply_seq reply_flgs own_flgs n tries : ℕ) (p : Process) (es : List Recv)
    → tries + n ≡ send_tr + 1
    → HasExited p
        (replicate n (send_packet p.sqn own_flgs []))
        (await_reply true reply_seq reply_flgs own_flgs (silence n ++ es) tries p)
unfolding await_reply recv recv_packet send log_tries
await_reply-gives_up seq flgs own zero tries p es h = stop es
  where
    over : ltb send_tr tries ≡ true
    over = lt→ltb send_tr tries (omega (arith, h))

    stop : (es : List Recv) → HasExited p [] (await_reply true seq flgs own es tries p)
    stop [] = rw over (sym (append-nil p.sent))
    stop (e ∷ es) = rw over (sym (append-nil p.sent))
await_reply-gives_up seq flgs own (suc n) tries p es h =
    rw (le→ltb send_tr tries (omega (arith, h))) (
      again (await_reply true seq flgs own (silence n ++ es) (tries + 1) p')
        (await_reply-gives_up seq flgs own n (tries + 1) p' es (omega (arith, h))))
  where
    packet : List ℕ
    packet = send_packet p.sqn own []

    p' : Process
    p' = record p { errno = 0; sent = p.sent ++ packet ∷ [] }

    again :
        (o : Outcome (Unit {0}))
        → HasExited p' (replicate n packet) o
        → HasExited p (packet ∷ replicate n packet) o
    again (returned a q es) h = h
    again (blocked q) h = h
    again (exited q) h = h ∙ append_assoc p.sent (packet ∷ []) (replicate n packet)
    again (overrun q) h = h
