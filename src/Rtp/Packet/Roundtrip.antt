-- ===== src/Rtp/Packet/Roundtrip.antt =====
-- What send_packet of lab2/src/rtp.c sends, recv_packet accepts and reads back.
use computer_system24fall.Common.{
  ℕ, ◌+◌, ◌%◌, ◌^◌, ◌≤◌, ◌<◌, ◌≡◌, ◌≢◌, refl, sym, ap, ◌∙◌, List, ◌++◌, arith, length, take, drop,
  length-append, append_assoc, take-all, take-append, All-append, All-take,
}
use computer_system24fall.Rtp.Checksum.{compute_checksum}
use computer_system24fall.Rtp.Checksum.Detect.{
  IsByte, IsBytes, compute_checksum-lt, compute_checksum-prefix,
}
use computer_system24fall.Rtp.Packet.{
  RtpHeader, header_bytes, seq_num_of, length_of, flags_of, payload_of, payload_max,
  rtp_header_size, packet_max, eagain, send_packet, accepted, datagram, check_packet, recv_packet,
}
use computer_system24fall.Rtp.Packet.Fields.{
  IsHeader, seq_num_of-header_bytes, length_of-header_bytes, checksum_of-header_bytes,
  flags_of-header_bytes, payload_of-header_bytes, zero_checksum-header_bytes,
}

-- The header that send_packet writes, with a checksum field.
abbrev pub header : ℕ → ℕ → List ℕ → ℕ → RtpHeader
header sqn flgs buf cksm = record {
  seq_num = sqn;
  length = length buf % 2 ^ 16;
  checksum = cksm;
  flags = flgs;
}

length-header_bytes : (h : RtpHeader) → length (header_bytes h) ≡ 11
unfolding header_bytes
length-header_bytes h = refl

header_bytes-IsBytes : (h : RtpHeader) → h.flags < 2 ^ 8 → IsBytes (header_bytes h)
unfolding header_bytes
header_bytes-IsBytes h v = omega arith

module _ (sqn flgs : ℕ) (buf : List ℕ) where
  abbrev pub cksm : ℕ
  cksm =
      compute_checksum (header_bytes (header sqn flgs buf 0) ++ buf) (length buf + rtp_header_size)

  send_packet-header_bytes :
      send_packet sqn flgs buf ≡ header_bytes (header sqn flgs buf cksm) ++ buf
  unfolding send_packet
  send_packet-header_bytes = refl

  pub length-send_packet : length (send_packet sqn flgs buf) ≡ length buf + rtp_header_size
  length-send_packet =
      ap length send_packet-header_bytes
      ∙ omega (
        arith,
        length-append (header_bytes (header sqn flgs buf cksm)) buf,
        length-header_bytes (header sqn flgs buf cksm),
      )

  module _ (sqn_fits : sqn < 2 ^ 32) (flgs_fits : flgs < 2 ^ 8) (bytes : IsBytes buf)
      (size_fits : length buf ≤ payload_max) where
    cksm-lt : cksm < 2 ^ 32
    cksm-lt =
        compute_checksum-lt (header_bytes (header sqn flgs buf 0) ++ buf)
          (length buf + rtp_header_size)
          (All-take IsByte (length buf + rtp_header_size) _ (
            All-append IsByte (header_bytes (header sqn flgs buf 0)) buf
              (header_bytes-IsBytes (header sqn flgs buf 0) flgs_fits) bytes))

    valid : IsHeader (header sqn flgs buf cksm)
    valid = record {
      seq_num_fits = sqn_fits;
      length_fits = omega arith;
      checksum_fits = cksm-lt;
      flags_fits = flgs_fits;
    }

    cleared_valid : IsHeader (header sqn flgs buf 0)
    cleared_valid = record {
      seq_num_fits = sqn_fits;
      length_fits = omega arith;
      checksum_fits = omega arith;
      flags_fits = flgs_fits;
    }

    pub send_packet-IsBytes : IsBytes (send_packet sqn flgs buf)
    send_packet-IsBytes = rw send_packet-header_bytes (
        All-append IsByte (header_bytes (header sqn flgs buf cksm)) buf
          (header_bytes-IsBytes (header sqn flgs buf cksm) flgs_fits) bytes)

    -- The tests of recv_packet pass, and leave the buffer with the checksum field cleared.
    check_packet-send_packet :
        (rest : List ℕ)
        → check_packet (send_packet sqn flgs buf ++ rest) (length buf + rtp_header_size)
          ≡ (header_bytes (header sqn flgs buf 0) ++ (buf ++ rest), accepted)
    unfolding check_packet
    check_packet-send_packet rest =
        ap (λ (t : List ℕ). check_packet t (length buf + rtp_header_size)) whole
        ∙ rw
            (
              zero_checksum-header_bytes (header sqn flgs buf cksm) (buf ++ rest),
              checksum_of-header_bytes (header sqn flgs buf cksm) valid (buf ++ rest),
              length_of-header_bytes (header sqn flgs buf 0) cleared_valid (buf ++ rest),
              computed,
            )
            (ground arith)
      where
        cleared : List ℕ
        cleared = header_bytes (header sqn flgs buf 0) ++ buf

        computed :
            compute_checksum
              (header_bytes (header sqn flgs buf 0) ++ (buf ++ rest))
              (length buf + rtp_header_size)
            ≡ cksm
        computed =
            ap (λ (t : List ℕ). compute_checksum t (length buf + rtp_header_size))
              (sym (append_assoc (header_bytes (header sqn flgs buf 0)) buf rest))
            ∙ compute_checksum-prefix cleared rest (length buf + rtp_header_size) (
                omega (
                  arith,
                  length-append (header_bytes (header sqn flgs buf 0)) buf,
                  length-header_bytes (header sqn flgs buf 0),
                ))

        whole :
            send_packet sqn flgs buf ++ rest
            ≡ header_bytes (header sqn flgs buf cksm) ++ (buf ++ rest)
        whole =
            ap (λ (t : List ℕ). t ++ rest) send_packet-header_bytes
            ∙ append_assoc (header_bytes (header sqn flgs buf cksm)) buf rest

    -- The receiver's state after the datagram.
    pub recv_packet-sent :
        (errno : ℕ) (old : List ℕ)
        → errno ≢ eagain
        → recv_packet errno old (datagram (send_packet sqn flgs buf)) ≡ record {
          errno = errno;
          buf =
              header_bytes (header sqn flgs buf 0)
              ++ (buf ++ drop (length (send_packet sqn flgs buf)) old);
          scode = accepted;
        }
    unfolding recv_packet
    recv_packet-sent errno old ne =
        rw
          (
            take-all packet_max (send_packet sqn flgs buf) (omega (arith, length-send_packet)),
            ap
                (check_packet
                  (send_packet sqn flgs buf ++ drop (length (send_packet sqn flgs buf)) old))
                length-send_packet,
            check_packet-send_packet (drop (length (send_packet sqn flgs buf)) old),
          )
          (ground arith)

    -- What send_packet sends, recv_packet accepts with result 0, and its buffer then holds the sequence
    -- number, the length, the flags and the payload that were sent, and nothing of what it held
    -- before counts; errno is not EAGAIN on entry, the fields fit their widths, and the payload is of
    -- bytes and fits.
    pub recv_packet-send_packet :
        (errno : ℕ) (old : List ℕ)
        → errno ≢ eagain
        → let r = recv_packet errno old (datagram (send_packet sqn flgs buf)) in
          (r.scode ≡ accepted)
          × (r.errno ≡ errno)
          × (seq_num_of r.buf ≡ sqn)
          × (length_of r.buf ≡ length buf)
          × (flags_of r.buf ≡ flgs)
          × (take (length_of r.buf) (payload_of r.buf) ≡ buf)
    recv_packet-send_packet errno old ne = rw result (
      refl,
      refl,
      seq_num_of-header_bytes (header sqn flgs buf 0) cleared_valid (buf ++ rest),
      len,
      flags_of-header_bytes (header sqn flgs buf 0) cleared_valid (buf ++ rest),
      rw (len, payload_of-header_bytes (header sqn flgs buf 0) (buf ++ rest))
          (take-append buf rest),
    )
      where
        rest : List ℕ
        rest = drop (length (send_packet sqn flgs buf)) old

        len : length_of (header_bytes (header sqn flgs buf 0) ++ (buf ++ rest)) ≡ length buf
        len =
            length_of-header_bytes (header sqn flgs buf 0) cleared_valid (buf ++ rest) ∙ omega arith

        result : recv_packet errno old (datagram (send_packet sqn flgs buf)) ≡ record {
          errno = errno;
          buf = header_bytes (header sqn flgs buf 0) ++ (buf ++ rest);
          scode = accepted;
        }
        result = recv_packet-sent errno old ne
