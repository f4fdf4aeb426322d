-- ===== src/Ftp/Stream/Flow.antt =====
-- ssend and srecv of lab1/ftp_utils.hpp on a connection that stays up: however its calls cut the bytes,
-- all of them are moved.
use computer_system24fall.Common.{
  ℕ, zero, suc, ◌+◌, ◌-◌, ◌≤◌, min, ◌≡◌, refl, sym, ap, ap₂, ◌∙◌, Bool, true, false, List, [], ◌∷◌,
  ◌++◌, append-nil, append_assoc, Option, none, some, arith, ltb, ◌==◌, if◌then◌else◌, length, take,
  drop, length-drop, take-append-drop, take-append, drop-append, length-append,
}
use computer_system24fall.Common.Int.{ℤ, pos}
use computer_system24fall.Ftp.Exec.{Outcome, returned, Exec, pure, and_then, ◌>>=◌, serror}
use computer_system24fall.Ftp.Stream.{
  Io, moves, closes, fails, Link, send_loop, ssend, recv_loop, srecv,
}

-- The next `n` calls move bytes.
abbrev pub Flows : ℕ → List Io → Type 0
Flows zero es = Unit
Flows (suc n) [] = ⊥
Flows (suc n) (moves k ∷ es) = Flows n es
Flows (suc n) (closes ∷ es) = ⊥
Flows (suc n) (fails ∷ es) = ⊥

pub Flows-le : (m n : ℕ) (es : List Io) → m ≤ n → Flows n es → Flows m es
Flows-le zero n es h f = tt
Flows-le (suc m) zero es h f = absurd (omega arith)
Flows-le (suc m) (suc n) [] h f = f
Flows-le (suc m) (suc n) (moves k ∷ es) h f = Flows-le m n es (omega arith) f
Flows-le (suc m) (suc n) (closes ∷ es) h f = f
Flows-le (suc m) (suc n) (fails ∷ es) h f = f

-- What a call leaves of the events, with `n` of them still moving bytes.
abbrev pub Sent : Exec Link Bool → Link → List ℕ → ℕ → Type 0
Sent m l bytes n =
    (es : List Io) × (m l ≡ (returned true, record l { outbox = l.outbox ++ bytes; sends = es }))
    × Flows n es

send_loop-Sent :
    (n : ℕ) (es : List Io) (bytes : List ℕ) (l : Link)
    → length bytes ≤ n
    → Flows n es
    → Sent (send_loop es bytes) l bytes (n - length bytes)
unfolding send_loop
send_loop-Sent n es [] l h f =
    (es, rw (append-nil l.outbox) refl, Flows-le (n - 0) n es (omega arith) f)
send_loop-Sent zero es (b ∷ bytes) l h f = absurd (omega arith)
send_loop-Sent (suc n) [] (b ∷ bytes) l h f = absurd f
send_loop-Sent (suc n) (moves k ∷ es) (b ∷ bytes) l h f =
    let (es', e, g) =
      send_loop-Sent n es (drop k bytes) (record l { outbox = l.outbox ++ b ∷ take k bytes })
        (omega (arith, length-drop k bytes)) f in
    (
      es',
      e
          ∙ ap (λ (out : List ℕ). (returned true, record l { outbox = out; sends = es' }))
              (append_assoc l.outbox (b ∷ take k bytes) (drop k bytes)
                ∙ ap (λ (t : List ℕ). l.outbox ++ b ∷ t) (take-append-drop k bytes)),
      Flows-le _ _ es' (omega (arith, length-drop k bytes)) g,
    )
send_loop-Sent (suc n) (closes ∷ es) (b ∷ bytes) l h f = absurd f
send_loop-Sent (suc n) (fails ∷ es) (b ∷ bytes) l h f = absurd f

-- ssend on an open connection whose calls move bytes: all bytes are sent, in order.
pub ssend-Sent :
    (n : ℕ) (bytes : List ℕ) (l : Link)
    → l.is_open ≡ true
    → length bytes ≤ n
    → Flows n l.sends
    → (es : List Io) × (ssend bytes l
        ≡ (returned (pos (length bytes)), record l { outbox = l.outbox ++ bytes; sends = es }))
      × Flows (n - length bytes) es
unfolding ssend
ssend-Sent n bytes l up h f =
    let (es, e, g) = send_loop-Sent n l.sends bytes l h f in
    (
      es,
      ap
            (λ (u : Bool).
              ((if u then send_loop l.sends bytes else pure (length bytes == 0)) >>= finish) l)
            up
          ∙ ap (λ (r : Outcome Bool × Link). and_then r.0 finish r.1) e,
      g,
    )
  where
    finish : Bool → Exec Link ℤ
    finish whole = pure (if whole then pos (length bytes) else serror)

take-nil : (n : ℕ) → take {A = ℕ} n [] ≡ []
take-nil zero = refl
take-nil (suc n) = refl

drop-nil : (n : ℕ) → drop {A = ℕ} n [] ≡ []
drop-nil zero = refl
drop-nil (suc n) = refl

append-take-drop :
    (acc xs : List ℕ) (m n : ℕ)
    → m ≤ n
    → (acc ++ take m xs) ++ take (n - m) (drop m xs) ≡ acc ++ take n xs
append-take-drop acc xs m n h =
    append_assoc acc (take m xs) (take (n - m) (drop m xs))
    ∙ ap (λ (t : List ℕ). acc ++ t) (joined m n xs h)
  where
    joined : (m n : ℕ) (xs : List ℕ) → m ≤ n → take m xs ++ take (n - m) (drop m xs) ≡ take n xs
    joined zero n xs h = ap (λ (t : ℕ). take t xs) (omega arith)
    joined (suc m) zero xs h = absurd (omega arith)
    joined (suc m) (suc n) [] h = take-nil (suc n - suc m)
    joined (suc m) (suc n) (x ∷ xs) h = ap (◌∷◌ x) (
        ap (λ (t : ℕ). take m xs ++ take t (drop m xs)) (omega arith) ∙ joined m n xs (omega arith))

drop-drop : (m n : ℕ) (xs : List ℕ) → m ≤ n → drop (n - m) (drop m xs) ≡ drop n xs
drop-drop zero n xs h = ap (λ (t : ℕ). drop t xs) (omega arith)
drop-drop (suc m) zero xs h = absurd (omega arith)
drop-drop (suc m) (suc n) [] h = drop-nil (suc n - suc m)
drop-drop (suc m) (suc n) (x ∷ xs) h =
    ap (λ (t : ℕ). drop t (drop m xs)) (omega arith) ∙ drop-drop m n xs (omega arith)

-- The last branch of three tests.
none_of_three {ℓ} :
    {A : Type ℓ} (a b c : Bool) (w x y z : A)
    → a ≡ false
    → b ≡ false
    → c ≡ false
    → (if a then w else if b then x else if c then y else z) ≡ z
none_of_three a b c w x y z p q r = rw (p, q, r) refl

-- What srecv leaves when all `left` bytes have come.
abbrev pub Got : Exec Link (Option (List ℕ)) → Link → List ℕ → ℕ → ℕ → Type 0
Got m l acc left n =
    (es : List Io) × (m l ≡ (
      returned (some (acc ++ take left l.inbox)),
      record l { inbox = drop left l.inbox; recvs = es },
    ))
    × Flows n es

recv_loop-Got :
    (n : ℕ) (es : List Io) (left room : ℕ) (acc : List ℕ) (l : Link)
    → left ≤ n
    → left ≤ room
    → left ≤ length l.inbox
    → Flows n es
    → Got (recv_loop es left room acc) l acc left (n - left)
unfolding recv_loop
recv_loop-Got n es zero room acc l h r i f = nothing es f
  where
    none_left :
        (es : List Io) → recv_loop es 0 room acc l ≡ (returned (some acc), record l { recvs = es })
    none_left [] = refl
    none_left (moves k ∷ es) = refl
    none_left (closes ∷ es) = refl
    none_left (fails ∷ es) = refl

    nothing : (es : List Io) → Flows n es → Got (recv_loop es 0 room acc) l acc 0 (n - 0)
    nothing es f = (
      es,
      none_left es
          ∙ ap (λ (t : List ℕ). (returned (some t), record l { recvs = es }))
              (sym (append-nil acc)),
      Flows-le (n - 0) n es (omega arith) f,
    )
recv_loop-Got zero es (suc left) room acc l h r i f = absurd (omega arith)
recv_loop-Got (suc n) [] (suc left) room acc l h r i f = absurd f
recv_loop-Got (suc n) (moves k ∷ es) (suc left) room acc l h r i f =
    let m = min (k + 1) (min (suc left) (length l.inbox)) in
    let (es', e, g) =
      recv_loop-Got n es (suc left - m) (room - m) (acc ++ take m l.inbox)
        (record l { inbox = drop m l.inbox }) (omega (arith, i)) (omega (arith, i))
        (omega (arith, i, length-drop m l.inbox)) f in
    (
      es',
      none_of_three (suc left == 0) (m == 0) (ltb room m) _ _ _ _ (ground arith) (ground (arith, i))
            (ground (arith, r, i))
          ∙ e
          ∙ ap₂
              (λ (got inbox : List ℕ).
                (returned (some got), record l { inbox = inbox; recvs = es' }))
              (append-take-drop acc l.inbox m (suc left) (omega arith))
              (drop-drop m (suc left) l.inbox (omega arith)),
      Flows-le _ _ es' (omega (arith, i)) g,
    )
recv_loop-Got (suc n) (closes ∷ es) (suc left) room acc l h r i f = absurd f
recv_loop-Got (suc n) (fails ∷ es) (suc left) room acc l h r i f = absurd f

-- srecv on an open connection whose calls move bytes, of which enough have come: it takes just the first
-- `size` bytes, in order.
pub srecv-Got :
    (n size room : ℕ) (l : Link)
    → l.is_open ≡ true
    → size ≤ n
    → size ≤ room
    → size ≤ length l.inbox
    → Flows n l.recvs
    → Got (srecv size room) l [] size (n - size)
unfolding srecv
srecv-Got n size room l up h r i f =
    let (es, e, g) = recv_loop-Got n l.recvs size room [] l h r i f in
    (
      es,
      ap
            (λ (u : Bool).
              if u
              then recv_loop l.recvs size room [] l
              else (returned (if size == 0 then some [] else none), l))
            up
          ∙ e,
      g,
    )

-- The same, where what has come is written out.
pub srecv-Takes :
    (n room : ℕ) (bytes rest : List ℕ) (l : Link)
    → l.is_open ≡ true
    → l.inbox ≡ bytes ++ rest
    → length bytes ≤ n
    → length bytes ≤ room
    → Flows n l.recvs
    → (es : List Io) × (srecv (length bytes) room l
        ≡ (returned (some bytes), record l { inbox = rest; recvs = es }))
      × Flows (n - length bytes) es
srecv-Takes n room bytes rest l up came h r f =
    let (es, e, g) =
      srecv-Got n (length bytes) room l up h r
        (omega (arith, ap length came, length-append bytes rest)) f in
    (
      es,
      e
          ∙ ap₂
              (λ (got inbox : List ℕ).
                (returned (some got), record l { inbox = inbox; recvs = es }))
              (ap (take (length bytes)) came ∙ take-append bytes rest)
              (ap (drop (length bytes)) came ∙ drop-append bytes rest),
      g,
    )
