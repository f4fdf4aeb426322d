-- ===== src/Rtp/Packet/Fields.antt =====
-- The fields of lab2/src/rtp.h in the bytes of a packet.
use computer_system24fall.Common.{ℕ, ◌^◌, ◌<◌, ◌≡◌, refl, List, ◌++◌, arith}
use computer_system24fall.Rtp.Packet.{
  RtpHeader, header_bytes, seq_num_of, length_of, checksum_of, flags_of, payload_of, zero_checksum,
}

pub record IsHeader (h : RtpHeader) : Type 0 where
  pub seq_num_fits : h.seq_num < 2 ^ 32
  pub length_fits : h.length < 2 ^ 16
  pub checksum_fits : h.checksum < 2 ^ 32
  pub flags_fits : h.flags < 2 ^ 8

module _ (h : RtpHeader) (v : IsHeader h) (rest : List ℕ) where
  pub seq_num_of-header_bytes : seq_num_of (header_bytes h ++ rest) ≡ h.seq_num
  unfolding seq_num_of header_bytes
  seq_num_of-header_bytes = omega arith

  pub length_of-header_bytes : length_of (header_bytes h ++ rest) ≡ h.length
  unfolding length_of header_bytes
  length_of-header_bytes = omega arith

  pub checksum_of-header_bytes : checksum_of (header_bytes h ++ rest) ≡ h.checksum
  unfolding checksum_of header_bytes
  checksum_of-header_bytes = omega arith

  pub flags_of-header_bytes : flags_of (header_bytes h ++ rest) ≡ h.flags
  unfolding flags_of header_bytes
  flags_of-header_bytes = omega arith

pub payload_of-header_bytes :
    (h : RtpHeader) (rest : List ℕ) → payload_of (header_bytes h ++ rest) ≡ rest
unfolding payload_of header_bytes
payload_of-header_bytes h rest = refl

pub zero_checksum-header_bytes :
    (h : RtpHeader) (rest : List ℕ)
    → zero_checksum (header_bytes h ++ rest) ≡ header_bytes (record h { checksum = 0 }) ++ rest
unfolding zero_checksum header_bytes
zero_checksum-header_bytes h rest = refl
