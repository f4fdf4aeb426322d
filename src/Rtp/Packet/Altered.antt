-- ===== src/Rtp/Packet/Altered.antt =====
-- The tests of recv_packet in lab2/src/rtp.c on a datagram around its checksum field, with one byte of it
-- altered.
use computer_system24fall.Common.{
  ℕ, zero, suc, ◌+◌, ◌-◌, ◌<◌, ◌≡◌, ◌≢◌, sym, ap, ◌∙◌, inl, inr, List, [], ◌∷◌, ◌++◌, arith,
  append_assoc, length, set, get_or, lt-cases, set-append_from, get_or-append_from, length-set,
  length-append, set-append_left, set-append_right, get_or-append_left, get_or-append_right,
  All-append,
}
use computer_system24fall.Rtp.Checksum.{compute_checksum}
use computer_system24fall.Rtp.Checksum.Detect.{IsByte, IsBytes, compute_checksum-set}
use computer_system24fall.Rtp.Packet.{get_le, length_of, Scode, accepted, invalid, check_packet}
use computer_system24fall.Rtp.Packet.Verdict.{verdict, zeros, judge, check_packet-parts}

-- Two numbers that differ in one of their bytes differ.
get_le-set :
    (bytes : List ℕ) (i b : ℕ)
    → IsBytes bytes
    → i < length bytes
    → IsByte b
    → b ≢ get_or bytes i 0
    → get_le (set bytes i b) ≢ get_le bytes
get_le-set [] i b h l hb ne e = absurd (omega arith)
get_le-set (x ∷ bytes) zero b h l hb ne e = ne (omega arith)
get_le-set (x ∷ bytes) (suc i) b h l hb ne e =
    get_le-set bytes i b h.1 (omega arith) hb ne (omega arith)

judge_wrong :
    (stored computed len size : ℕ) → stored ≢ computed → judge stored computed len size ≡ invalid
judge_wrong stored computed len size ne = ground arith

pub judge_right :
    (stored computed len size : ℕ) → judge stored computed len size ≡ accepted → stored ≡ computed
judge_right stored computed len size e = ground arith

-- The verdict on a datagram of `n` bytes with the parts written out.
verdict-parts :
    (before field after : List ℕ) (n : ℕ)
    → length before ≡ 6
    → length field ≡ 4
    → length (before ++ (field ++ after)) ≡ n
    → verdict (before ++ (field ++ after))
      ≡ judge (get_le field) (compute_checksum (before ++ (zeros ++ after)) n) (length_of before) n
unfolding verdict
verdict-parts before field after n six four size =
    ap (λ (k : ℕ). (check_packet (before ++ (field ++ after)) k).1) size
    ∙ ap (λ (r : List ℕ × Scode). r.1) (check_packet-parts before field after n six four)

-- A datagram around its checksum field, and one byte of it altered.
module _ (before field after : List ℕ) (n : ℕ) (six : length before ≡ 6) (four : length field ≡ 4)
    (size : length (before ++ (field ++ after)) ≡ n) (b : ℕ) (hb : IsByte b)
    (bytes_before : IsBytes before) (bytes_field : IsBytes field)
    (bytes_after : IsBytes after) where
  abbrev cleared : List ℕ
  cleared = before ++ (zeros ++ after)

  abbrev Agree : Type 0
  Agree = get_le field ≡ compute_checksum cleared n

  length-cleared : length cleared ≡ n
  length-cleared = omega (
    arith,
    length-append before (zeros ++ after),
    length-append before (field ++ after),
    length-append field after,
  )

  cleared-IsBytes : IsBytes cleared
  cleared-IsBytes =
      All-append IsByte before (zeros ++ after) bytes_before
        (All-append IsByte zeros after (omega arith) bytes_after)

  -- Another byte at a place outside the field changes the checksum that recv_packet computes.
  altered_outside :
      (i : ℕ)
      → i < n
      → b ≢ get_or cleared i 0
      → Agree
      → get_le field ≢ compute_checksum (set cleared i b) n
  altered_outside i l ne ok e =
      compute_checksum-set cleared i b cleared-IsBytes (omega (arith, length-cleared)) hb ne (
        ap (compute_checksum (set cleared i b)) length-cleared
        ∙ sym e
        ∙ ok
        ∙ ap (compute_checksum cleared) (sym length-cleared))

  refused_before :
      (i : ℕ)
      → i < 6
      → b ≢ get_or before i 0
      → Agree
      → verdict (set before i b ++ (field ++ after)) ≡ invalid
  refused_before i l ne ok =
      verdict-parts (set before i b) field after n (length-set before i b ∙ six) four (
        ap length (sym (set-append_left before (field ++ after) i b (omega arith)))
        ∙ length-set (before ++ (field ++ after)) i b
        ∙ size)
      ∙ judge_wrong (get_le field) _ (length_of (set before i b)) n λ e.
        altered_outside i (omega (arith, length-append before (field ++ after)))
          (λ same. ne (same ∙ get_or-append_left before (zeros ++ after) i 0 (omega arith))) ok
          (e
            ∙ ap (λ (t : List ℕ). compute_checksum t n)
                (sym (set-append_left before (zeros ++ after) i b (omega arith))))

  refused_field :
      (i : ℕ)
      → i < 4
      → b ≢ get_or field i 0
      → Agree
      → verdict (before ++ (set field i b ++ after)) ≡ invalid
  refused_field i l ne ok =
      verdict-parts before (set field i b) after n six (length-set field i b ∙ four) (
        ap (λ (t : List ℕ). length (before ++ t))
          (sym (set-append_left field after i b (omega arith)))
        ∙ length-append before (set (field ++ after) i b)
        ∙ omega (arith, length-set (field ++ after) i b, length-append before (field ++ after)))
      ∙ judge_wrong (get_le (set field i b)) _ (length_of before) n
          λ e. get_le-set field i b bytes_field (omega arith) hb ne (e ∙ sym ok)

  refused_after :
      (i : ℕ)
      → i < length after
      → b ≢ get_or after i 0
      → Agree
      → verdict (before ++ (field ++ set after i b)) ≡ invalid
  refused_after i l ne ok =
      verdict-parts before field (set after i b) n six four (
        omega (
          arith,
          length-append before (field ++ set after i b),
          length-append field (set after i b),
          length-set after i b,
          length-append before (field ++ after),
          length-append field after,
        ))
      ∙ judge_wrong (get_le field) _ (length_of before) n λ e.
        altered_outside (length (before ++ zeros) + i)
          (omega (
            arith,
            length-append before zeros,
            length-append before (field ++ after),
            length-append field after,
          ))
          (λ same. ne (same ∙ there)) ok (e ∙ ap (λ (t : List ℕ). compute_checksum t n) rewritten)
    where
      there : get_or cleared (length (before ++ zeros) + i) 0 ≡ get_or after i 0
      there =
          ap (λ (t : List ℕ). get_or t (length (before ++ zeros) + i) 0)
            (sym (append_assoc before zeros after))
          ∙ get_or-append_right (before ++ zeros) after i 0

      rewritten : before ++ (zeros ++ set after i b) ≡ set cleared (length (before ++ zeros) + i) b
      rewritten =
          sym (append_assoc before zeros (set after i b))
          ∙ sym (set-append_right (before ++ zeros) after i b)
          ∙ ap (λ (t : List ℕ). set t (length (before ++ zeros) + i) b)
              (append_assoc before zeros after)

  pub refused :
      (i : ℕ)
      → i < n
      → b ≢ get_or (before ++ (field ++ after)) i 0
      → Agree
      → verdict (set (before ++ (field ++ after)) i b) ≡ invalid
  refused i l ne ok = elim (lt-cases i (length before)) [
    | inl front ↦
        ap verdict (set-append_left before (field ++ after) i b front)
        ∙ refused_before i (omega arith)
            (λ e. ne (e ∙ sym (get_or-append_left before (field ++ after) i 0 front))) ok
    | inr back ↦
        let k : ℕ = i - length before in
        let found = get_or-append_from before (field ++ after) i 0 back in
        ap verdict (set-append_from before (field ++ after) i b back)
        ∙ elim (lt-cases k (length field)) [
          | inl mid ↦
              ap (λ (t : List ℕ). verdict (before ++ t)) (set-append_left field after k b mid)
              ∙ refused_field k (omega arith)
                  (λ e. ne (e ∙ sym (found ∙ get_or-append_left field after k 0 mid))) ok
          | inr far ↦
              ap (λ (t : List ℕ). verdict (before ++ t)) (set-append_from field after k b far)
              ∙ refused_after (k - length field)
                  (omega (arith, length-append before (field ++ after), length-append field after))
                  (λ e. ne (e ∙ sym (found ∙ get_or-append_from field after k 0 far))) ok
        ]
  ]
