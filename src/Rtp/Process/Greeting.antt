-- ===== src/Rtp/Process/Greeting.antt =====
-- What the handshakes of lab2/src/sender.c and lab2/src/receiver.c send, and where `sqn` stands behind
-- them.
use computer_system24fall.Common.{
  ℕ, ◌≡◌, sym, Bool, List, [], ◌∷◌, if-both, ltb, if◌then◌else◌, All, All-append, subst,
}
use computer_system24fall.Rtp.Packet.{send_packet, Recv, Scode, accepted, invalid, timed_out, died}
use computer_system24fall.Rtp.Process.{
  Process, Outcome, returned, blocked, exited, overrun, send, recv, await_reply, log_tries,
  is_reply, send_tr,
}

-- How a handshake ends: with `sqn` as it was, if it returns; and having sent known datagrams only.
abbrev pub Greets : (List ℕ → Type 0) → ℕ → Outcome (Unit {0}) → Type 0
Greets Known base (returned a p es) = (p.sqn ≡ base) × All Known p.sent
Greets Known base (blocked p) = All Known p.sent
Greets Known base (exited p) = All Known p.sent
Greets Known base (overrun p) = ⊥

module _ (Known : List ℕ → Type 0) (base own_flgs : ℕ)
    (known : Known (send_packet base own_flgs [])) where
  -- Sending one more greeting.
  pub sent-Known :
      (p : Process) → p.sqn ≡ base → All Known p.sent → All Known (send p p.sqn own_flgs []).sent
  unfolding send
  sent-Known p at a =
      All-append Known p.sent (send_packet p.sqn own_flgs [] ∷ []) a
        (subst (λ (q : ℕ). Known (send_packet q own_flgs [])) (sym at) known, tt)

  pub await_reply-Greets :
      (ldebug : Bool) (seq flgs : ℕ) (es : List Recv) (tries : ℕ) (p : Process)
      → p.sqn ≡ base
      → All Known p.sent
      → Greets Known base (await_reply ldebug seq flgs own_flgs es tries p)
  unfolding await_reply recv
  await_reply-Greets ldebug seq flgs [] tries p at a =
      if-both (Greets Known base) (ltb send_tr tries) (exited p) (blocked p) a a
  await_reply-Greets ldebug seq flgs (e ∷ es) tries p at a =
      if-both (Greets Known base) (ltb send_tr tries) (exited p) _ a (
        after
          (await_reply-Greets ldebug seq flgs es (log_tries ldebug tries)
            (send p' p'.sqn own_flgs []) (unfold send in at) (sent-Known p' at a))
          (recv p e).1)
    where
      p' : Process
      p' = (recv p e).0

      again : Outcome (Unit {0})
      again =
          await_reply ldebug seq flgs own_flgs es (log_tries ldebug tries)
            (send p' p'.sqn own_flgs [])

      after :
          Greets Known base again
          → (scode : Scode)
          → Greets Known base (elim scode [
            | died ↦ exited p'
            | accepted ↦ if is_reply seq flgs p' then returned tt p' es else again
            | _ ↦ again
          ])
      after g died = a
      after g accepted =
          if-both (Greets Known base) (is_reply seq flgs p') (returned tt p' es) again (at, a) g
      after g invalid = g
      after g timed_out = g
