-- ===== src/Rtp/Packet.antt =====
-- lab2/src/rtp.h and lab2/src/rtp.c: the packet, send_packet and recv_packet. A packet in memory
-- is its bytes, in the layout of the packed struct on a little-endian machine.
pub mod Fields
pub mod Verdict
pub mod Roundtrip
pub mod Altered
pub mod Corrupt
use computer_system24fall.Common.{
  ℕ, zero, suc, ◌+◌, ◌*◌, ◌/◌, ◌%◌, ◌^◌, ◌||◌, not, List, [], ◌∷◌, ◌++◌, ltb, ◌==◌, if◌then◌else◌,
  get_or, length, take, drop,
}
use computer_system24fall.Rtp.Checksum.{compute_checksum}

-- lab2/src/defs.h, and the flags of `RtpHeaderFlag`; EAGAIN and EWOULDBLOCK are one number on Linux.
abbrev pub payload_max : ℕ
payload_max = 1461

abbrev pub rtp_syn : ℕ
rtp_syn = 0b0001

abbrev pub rtp_ack : ℕ
rtp_ack = 0b0010

abbrev pub rtp_fin : ℕ
rtp_fin = 0b0100

abbrev pub eagain : ℕ
eagain = 11

abbrev pub rtp_header_size : ℕ
rtp_header_size = 11

-- sizeof(rtp_packet_t).
abbrev pub packet_max : ℕ
packet_max = rtp_header_size + payload_max

pub record RtpHeader : Type 0 where
  pub seq_num : ℕ
  pub length : ℕ
  pub checksum : ℕ
  pub flags : ℕ

-- `width` bytes, the lowest first.
abbrev pub put_le : ℕ → ℕ → List ℕ
put_le zero n = []
put_le (suc width) n = n % 256 ∷ put_le width (n / 256)

abbrev pub get_le : List ℕ → ℕ
get_le [] = 0
get_le (b ∷ bytes) = b + 256 * get_le bytes

unfoldable pub header_bytes : RtpHeader → List ℕ
header_bytes h =
    put_le 4 h.seq_num ++ (put_le 2 h.length ++ (put_le 4 h.checksum ++ put_le 1 h.flags))

-- The fields of the packet that stands in a buffer.
unfoldable pub seq_num_of : List ℕ → ℕ
seq_num_of buf = get_le (take 4 buf)

unfoldable pub length_of : List ℕ → ℕ
length_of buf = get_le (take 2 (drop 4 buf))

unfoldable pub checksum_of : List ℕ → ℕ
checksum_of buf = get_le (take 4 (drop 6 buf))

unfoldable pub flags_of : List ℕ → ℕ
flags_of buf = get_or buf 10 0

unfoldable pub payload_of : List ℕ → List ℕ
payload_of buf = drop rtp_header_size buf

-- `buf->rtp.checksum = 0`.
unfoldable pub zero_checksum : List ℕ → List ℕ
zero_checksum buf = take 6 buf ++ (0 ∷ 0 ∷ 0 ∷ 0 ∷ drop 10 buf)

-- The datagram that send_packet hands to sendto; `buf` is the `size` bytes to send, and [] for a
-- null pointer, which the program passes with size 0 only.
unfoldable pub send_packet : ℕ → ℕ → List ℕ → List ℕ
send_packet sqn flgs buf =
    let size : ℕ = length buf in
    let packet : ℕ → List ℕ = λ cksm.
      header_bytes (record { seq_num = sqn; length = size % 2 ^ 16; checksum = cksm; flags = flgs })
      ++ buf in
    packet (compute_checksum (packet 0) (size + rtp_header_size))

-- What recvfrom does: it fails with an errno, or delivers a datagram.
pub data Recv : Type 0 where
  failed : ℕ → Recv
  datagram : List ℕ → Recv

-- The result 0, -1 or -2 of recv_packet, or the exit of LOG_FATAL.
pub data Scode : Type 0 where
  accepted invalid timed_out died : Scode

pub record Received : Type 0 where
  pub errno : ℕ
  pub buf : List ℕ
  pub scode : Scode

-- recvfrom cuts a datagram to the buffer's size and leaves the bytes behind it as they were.
unfoldable pub fill : List ℕ → List ℕ → List ℕ
fill bytes buf = take packet_max bytes ++ drop (length (take packet_max bytes)) buf

-- The tests of recv_packet on a buffer in which recvfrom has put `size` bytes.
unfoldable pub check_packet : List ℕ → ℕ → List ℕ × Scode
check_packet buf size =
    let cksm = checksum_of buf in
    let cleared = zero_checksum buf in
    let cksm_wrong = not (cksm == compute_checksum cleared size) in
    let length_wrong =
      ltb payload_max (length_of cleared) || not (length_of cleared + rtp_header_size == size) in
    (cleared, if cksm_wrong then invalid else if length_wrong then invalid else accepted)

unfoldable pub recv_packet : ℕ → List ℕ → Recv → Received
unfolding fill
recv_packet errno buf (failed e) =
    if e == eagain
    then record { errno = 0; buf = buf; scode = timed_out }
    else record { errno = e; buf = buf; scode = died }
recv_packet errno buf (datagram bytes) =
    let filled = fill bytes buf in
    let (cleared, scode) = check_packet filled (length (take packet_max bytes)) in
    if errno == eagain
    then record { errno = 0; buf = filled; scode = timed_out }
    else record { errno = errno; buf = cleared; scode = scode }
