-- ===== src/Rtp/Packet/Verdict.antt =====
-- What recv_packet of lab2/src/rtp.c decides depends on the datagram's bytes alone, and not on what
-- the receive buffer held before.
use computer_system24fall.Common.{
  ℕ, ◌+◌, ◌≤◌, ◌≡◌, ◌≢◌, refl, sym, ap, ap₂, ◌∙◌, not, ◌||◌, List, [], ◌∷◌, ◌++◌, arith, ltb, ◌==◌,
  if◌then◌else◌, length, take, drop, take-append, drop-append, take-append_left, drop-append_left,
  take-append-drop, length-take, length-drop, length-append, append_assoc, take-all, append-nil,
}
use computer_system24fall.Rtp.Checksum.{compute_checksum}
use computer_system24fall.Rtp.Checksum.Detect.{compute_checksum-prefix}
use computer_system24fall.Rtp.Packet.{
  get_le, length_of, checksum_of, zero_checksum, payload_max, rtp_header_size, packet_max, eagain,
  Scode, accepted, invalid, datagram, check_packet, recv_packet,
}

-- The result for a datagram that fits the buffer.
unfoldable pub verdict : List ℕ → Scode
verdict bytes = (check_packet bytes (length bytes)).1

abbrev pub zeros : List ℕ
zeros = 0 ∷ 0 ∷ 0 ∷ 0 ∷ []

-- A datagram around its checksum field.
module _ (before field after : List ℕ) (six : length before ≡ 6) (four : length field ≡ 4) where
  pub take_before : (xs : List ℕ) → take 6 (before ++ xs) ≡ before
  take_before xs = rw (← six) (take-append before xs)

  pub drop_before : (xs : List ℕ) → drop 6 (before ++ xs) ≡ xs
  drop_before xs = rw (← six) (drop-append before xs)

  take_field : (xs : List ℕ) → take 4 (field ++ xs) ≡ field
  take_field xs = rw (← four) (take-append field xs)

  drop_both : drop 10 (before ++ (field ++ after)) ≡ after
  drop_both =
      ap (drop 10) (sym (append_assoc before field after))
      ∙ ap (λ (n : ℕ). drop n ((before ++ field) ++ after)) ten
      ∙ drop-append (before ++ field) after
    where
      ten : ◌≡◌ {A = ℕ} 10 (length (before ++ field))
      ten = omega (arith, length-append before field)

  pub checksum_of-parts : checksum_of (before ++ (field ++ after)) ≡ get_le field
  unfolding checksum_of
  checksum_of-parts = ap get_le (ap (take 4) (drop_before (field ++ after)) ∙ take_field after)

  pub zero_checksum-parts : zero_checksum (before ++ (field ++ after)) ≡ before ++ (zeros ++ after)
  unfolding zero_checksum
  zero_checksum-parts =
      ap₂ (λ (x y : List ℕ). x ++ (zeros ++ y)) (take_before (field ++ after)) drop_both

  pub length_of-parts : (xs : List ℕ) → length_of (before ++ xs) ≡ length_of before
  unfolding length_of
  length_of-parts xs =
      ap (λ (t : List ℕ). get_le (take 2 t)) (drop-append_left 4 before xs (omega arith))
      ∙ ap get_le (take-append_left 2 (drop 4 before) xs (omega (arith, length-drop 4 before)))

-- The tests, on the parts.
abbrev pub judge : ℕ → ℕ → ℕ → ℕ → Scode
judge stored computed len size =
    if not (stored == computed)
    then invalid
    else if ltb payload_max len || not (len + rtp_header_size == size)
    then invalid
    else accepted

pub check_packet-parts :
    (before field after : List ℕ) (size : ℕ)
    → length before ≡ 6
    → length field ≡ 4
    → check_packet (before ++ (field ++ after)) size ≡ (
      before ++ (zeros ++ after),
      judge
          (get_le field)
          (compute_checksum (before ++ (zeros ++ after)) size)
          (length_of before)
          size,
    )
unfolding check_packet
check_packet-parts before field after size six four =
    rw
      (
        zero_checksum-parts before field after six four,
        checksum_of-parts before field after six four,
        length_of-parts before field after six four (zeros ++ after),
      )
      refl

-- Every datagram of ten bytes or more has these parts.
module _ (bytes : List ℕ) where
  abbrev pub before_of : List ℕ
  before_of = take 6 bytes

  abbrev pub field_of : List ℕ
  field_of = take 4 (drop 6 bytes)

  abbrev pub after_of : List ℕ
  after_of = drop 4 (drop 6 bytes)

  pub parts : bytes ≡ before_of ++ (field_of ++ after_of)
  parts =
      sym (take-append-drop 6 bytes)
      ∙ ap (◌++◌ (take 6 bytes)) (sym (take-append-drop 4 (drop 6 bytes)))

  -- The bytes with the checksum field cleared.
  abbrev pub cleared_of : List ℕ
  cleared_of = before_of ++ (zeros ++ after_of)

  module _ (long : 10 ≤ length bytes) where
    pub length-before_of : length before_of ≡ 6
    length-before_of = omega (arith, length-take 6 bytes)

    pub length-field_of : length field_of ≡ 4
    length-field_of = omega (arith, length-take 4 (drop 6 bytes), length-drop 6 bytes)

    length-cleared_of : length cleared_of ≡ length bytes
    length-cleared_of = omega (
      arith,
      length-append before_of (zeros ++ after_of),
      length-take 6 bytes,
      length-drop 6 bytes,
      length-drop 4 (drop 6 bytes),
    )

    -- The result, with the checksum and length tests written out.
    pub check_packet-behind :
        (rest : List ℕ)
        → check_packet (bytes ++ rest) (length bytes) ≡ (
          cleared_of ++ rest,
          judge
              (get_le field_of)
              (compute_checksum cleared_of (length bytes))
              (length_of before_of)
              (length bytes),
        )
    check_packet-behind rest =
        ap (λ (t : List ℕ). check_packet t (length bytes)) whole
        ∙ check_packet-parts before_of field_of (after_of ++ rest) (length bytes) length-before_of
            length-field_of
        ∙ ap
            (λ (t : List ℕ). (
              t,
              judge (get_le field_of) (compute_checksum t (length bytes)) (length_of before_of)
                  (length bytes),
            ))
            cleared
        ∙ ap
            (λ (c : ℕ).
              (cleared_of ++ rest, judge (get_le field_of) c (length_of before_of) (length bytes)))
            (compute_checksum-prefix cleared_of rest (length bytes)
              (omega (arith, length-cleared_of)))
      where
        whole : bytes ++ rest ≡ before_of ++ (field_of ++ (after_of ++ rest))
        whole =
            ap (λ (t : List ℕ). t ++ rest) parts
            ∙ append_assoc before_of (field_of ++ after_of) rest
            ∙ ap (◌++◌ before_of) (append_assoc field_of after_of rest)

        cleared : before_of ++ (zeros ++ (after_of ++ rest)) ≡ cleared_of ++ rest
        cleared = sym (append_assoc before_of (zeros ++ after_of) rest)

    pub verdict-judge :
        verdict bytes
        ≡ judge
            (get_le field_of)
            (compute_checksum cleared_of (length bytes))
            (length_of before_of)
            (length bytes)
    unfolding verdict
    verdict-judge =
        ap (λ (t : List ℕ). (check_packet t (length bytes)).1) (sym (append-nil bytes))
        ∙ ap (λ (r : List ℕ × Scode). r.1) (check_packet-behind [])

    -- A datagram with at least the bytes up to the flags, and at most the buffer's, is judged by
    -- itself: the old contents of the buffer stand behind it and do not count.
    pub recv_packet-verdict :
        (errno : ℕ) (buf : List ℕ)
        → errno ≢ eagain
        → length bytes ≤ packet_max
        → recv_packet errno buf (datagram bytes) ≡ record {
          errno = errno;
          buf = cleared_of ++ drop (length bytes) buf;
          scode = verdict bytes;
        }
    unfolding recv_packet
    recv_packet-verdict errno buf ne fits =
        rw (take-all packet_max bytes fits, check_packet-behind (drop (length bytes) buf))
          (ground (arith, verdict-judge))
