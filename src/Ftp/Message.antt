-- ===== src/Ftp/Message.antt =====
-- lab1/defs.h, lab1/ftp_utils.hpp: the header of a message, send_post and recv_post. The header in
-- memory is its twelve bytes: the magic number, the type, the status, and the length by htonl.
pub mod Roundtrip
pub mod Bounds
pub mod Open
use computer_system24fall.Common.{
  ℕ, zero, suc, ◌+◌, ◌-◌, ◌*◌, ◌/◌, ◌%◌, ◌^◌, List, [], ◌∷◌, ◌++◌, Option, none, some, ltb,
  if◌then◌else◌, length, get_or,
}
use computer_system24fall.Common.Int.{ℤ, pos, negsuc}
use computer_system24fall.Ftp.Exec.{Exec, pure, ◌>>=◌}
use computer_system24fall.Ftp.Stream.{Link, ssend, srecv}

-- lab1/defs.h.
abbrev pub max_buf : ℕ
max_buf = 2097152

abbrev pub max_conn : ℕ
max_conn = 64

abbrev pub open_request : ℕ
open_request = 0xA1

abbrev pub open_reply : ℕ
open_reply = 0xA2

abbrev pub list_request : ℕ
list_request = 0xA3

abbrev pub list_reply : ℕ
list_reply = 0xA4

abbrev pub cd_request : ℕ
cd_request = 0xA5

abbrev pub cd_reply : ℕ
cd_reply = 0xA6

abbrev pub get_request : ℕ
get_request = 0xA7

abbrev pub get_reply : ℕ
get_reply = 0xA8

abbrev pub put_request : ℕ
put_request = 0xA9

abbrev pub put_reply : ℕ
put_reply = 0xAA

abbrev pub sha_request : ℕ
sha_request = 0xAB

abbrev pub sha_reply : ℕ
sha_reply = 0xAC

abbrev pub quit_request : ℕ
quit_request = 0xAD

abbrev pub quit_reply : ℕ
quit_reply = 0xAE

abbrev pub file_data : ℕ
file_data = 0xFF

abbrev pub magic_number : List ℕ
magic_number = 0xc1 ∷ 0xa1 ∷ 0x10 ∷ b'f' ∷ b't' ∷ b'p' ∷ []

abbrev pub header_size : ℕ
header_size = 12

-- The header that the constructor of ftp_header writes; htonl puts the highest byte first.
unfoldable pub ftp_header : ℕ → ℕ → ℕ → List ℕ
ftp_header type_ length_ status_ =
    magic_number
    ++ type_ % 256
      ∷ status_ % 256
      ∷ length_ / 2 ^ 24 % 256
      ∷ length_ / 2 ^ 16 % 256
      ∷ length_ / 2 ^ 8 % 256
      ∷ length_ % 256
      ∷ []

-- The fields of the header that stands in a buffer.
unfoldable pub m_type_of : List ℕ → ℕ
m_type_of header = get_or header 6 0

unfoldable pub m_status_of : List ℕ → ℕ
m_status_of header = get_or header 7 0

unfoldable pub m_length_of : List ℕ → ℕ
m_length_of header =
    get_or header 8 0 * 2 ^ 24
    + get_or header 9 0 * 2 ^ 16
    + get_or header 10 0 * 2 ^ 8
    + get_or header 11 0

unfoldable pub send_post : ℕ → List ℕ → ℕ → Exec Link ℤ
send_post m_type buf m_status =
    ssend (ftp_header m_type ((header_size + length buf) % 2 ^ 32) m_status) >>= λ scode.
    elim scode [ pos zero ↦ pure (pos zero) | pos (suc n) ↦ ssend buf | negsuc n ↦ pure (negsuc n) ]

-- What recv_post gives its caller: the type, the status, and the bytes in the buffer.
pub record Post : Type 0 where
  pub m_type : ℕ
  pub m_status : ℕ
  pub buf : List ℕ

-- `int length = ntohl(header.m_length) - HEADER_SIZE`, converted back to `size_t` by srecv.
unfoldable pub payload_size : ℕ → ℕ
payload_size m_length =
    let low = (m_length + 2 ^ 32 - header_size) % 2 ^ 32 in
    if ltb low (2 ^ 31) then low else low + (2 ^ 64 - 2 ^ 32)

-- `none` is a negative result. The buffer has room for `room` bytes.
unfoldable pub recv_post : ℕ → Exec Link (Option Post)
unfolding payload_size
recv_post room = srecv header_size header_size >>= λ got. elim got [
  | none ↦ pure none
  | some header ↦ srecv (payload_size (m_length_of header)) room >>= λ more. elim more [
    | none ↦ pure none
    | some bytes ↦
        pure
          (some (record { m_type = m_type_of header; m_status = m_status_of header; buf = bytes }))
  ]
]
