-- ===== src/Rtp/Packet/Corrupt.antt =====
-- recv_packet of lab2/src/rtp.c against a datagram of which one byte was altered on the way.
use computer_system24fall.Common.{
  ℕ, ◌≤◌, ◌<◌, ◌≡◌, ◌≢◌, sym, ap, ◌∙◌, List, ◌++◌, arith, length, drop, set, get_or, take-all,
  length-set, All-take, All-drop,
}
use computer_system24fall.Rtp.Checksum.{compute_checksum}
use computer_system24fall.Rtp.Checksum.Detect.{IsByte, IsBytes}
use computer_system24fall.Rtp.Packet.{
  get_le, length_of, packet_max, eagain, accepted, invalid, Received, datagram, recv_packet,
  rtp_header_size, check_packet, fill,
}
use computer_system24fall.Rtp.Packet.Verdict.{
  verdict, before_of, field_of, after_of, parts, cleared_of, length-before_of, length-field_of,
  verdict-judge, recv_packet-verdict,
}
use computer_system24fall.Rtp.Packet.Altered.{judge_right, refused}

-- A datagram that passes has the whole header.
accepted_long :
    (buf : List ℕ) (size : ℕ) → (check_packet buf size).1 ≡ accepted → rtp_header_size ≤ size
unfolding check_packet
accepted_long buf size ok = ground arith

recv_packet_long :
    (errno : ℕ) (buf bytes : List ℕ)
    → length bytes ≤ packet_max
    → (recv_packet errno buf (datagram bytes)).scode ≡ accepted
    → rtp_header_size ≤ length bytes
unfolding recv_packet
recv_packet_long errno buf bytes fits ok = accepted_long (fill bytes buf) (length bytes) (
    ap (λ (t : List ℕ). (check_packet (fill bytes buf) (length t)).1)
      (sym (take-all packet_max bytes fits))
    ∙ ground arith)

-- A datagram of bytes that passes the tests fails them once any one of its bytes is altered.
verdict-set :
    (bytes : List ℕ) (i b : ℕ)
    → IsBytes bytes
    → verdict bytes ≡ accepted
    → i < length bytes
    → IsByte b
    → b ≢ get_or bytes i 0
    → verdict (set bytes i b) ≡ invalid
unfolding verdict
verdict-set bytes i b v ok l hb ne =
    ap (λ (t : List ℕ). verdict (set t i b)) whole
    ∙ refused (before_of bytes) (field_of bytes) (after_of bytes) (length bytes)
        (length-before_of bytes long) (length-field_of bytes long) (ap length (sym whole)) b hb
        (All-take IsByte 6 bytes v) (All-take IsByte 4 (drop 6 bytes) (All-drop IsByte 6 bytes v))
        (All-drop IsByte 4 (drop 6 bytes) (All-drop IsByte 6 bytes v)) i l
        (λ e. ne (e ∙ ap (λ (t : List ℕ). get_or t i 0) (sym whole)))
        (judge_right (get_le (field_of bytes)) (compute_checksum (cleared_of bytes) (length bytes))
          (length_of (before_of bytes)) (length bytes) (sym (verdict-judge bytes long) ∙ ok))
  where
    long : 10 ≤ length bytes
    long = omega (arith, accepted_long bytes (length bytes) ok)

    whole : bytes ≡ before_of bytes ++ (field_of bytes ++ after_of bytes)
    whole = parts bytes

-- If recv_packet accepts a datagram of bytes, then it answers -1 to the same datagram with any one
-- byte altered, the header's and the checksum's included, whatever its buffer held before; errno
-- is not EAGAIN on entry, and the datagram fits the buffer.
pub recv_packet_detects :
    (errno : ℕ) (buf buf' bytes : List ℕ) (i b : ℕ)
    → errno ≢ eagain
    → IsBytes bytes
    → length bytes ≤ packet_max
    → (recv_packet errno buf (datagram bytes)).scode ≡ accepted
    → i < length bytes
    → IsByte b
    → b ≢ get_or bytes i 0
    → (recv_packet errno buf' (datagram (set bytes i b))).scode ≡ invalid
recv_packet_detects errno buf buf' bytes i b ne v fits ok l hb changed =
    ap (λ (r : Received). r.scode)
      (recv_packet-verdict (set bytes i b) (omega (arith, long, length-set bytes i b)) errno buf' ne
        (omega (arith, length-set bytes i b)))
    ∙ verdict-set bytes i b v passes l hb changed
  where
    long : rtp_header_size ≤ length bytes
    long = recv_packet_long errno buf bytes fits ok

    passes : verdict bytes ≡ accepted
    passes =
        sym (
          ap (λ (r : Received). r.scode)
            (recv_packet-verdict bytes (omega (arith, long)) errno buf ne fits))
        ∙ ok
