-- ===== src/Rtp/Sender/Chunks.antt =====
-- How transfer_data of lab2/src/sender.c cuts the file into packets.
use computer_system24fall.Common.{
  ℕ, ◌+◌, ◌-◌, ◌*◌, ◌/◌, ◌%◌, ◌≤◌, ◌<◌, ◌≡◌, ◌≢◌, ◌∙◌, inl, inr, arith, eq-cases, length, get_or,
  drop, length-take, length-drop, get_or-take, get_or-drop, All-take, All-drop,
}
use computer_system24fall.Rtp.Packet.{payload_max}
use computer_system24fall.Rtp.Checksum.Detect.{IsByte, IsBytes}
use computer_system24fall.Rtp.Sender.{Job, npacket, tsize, dsize, chunk}

-- The length of the file that the packets make up.
abbrev pub total : Job → ℕ
total j = (npacket j - 1) * payload_max + tsize j

module _ (j : Job) where
  dsize-fits : (k : ℕ) → k < npacket j → k * payload_max + dsize j k ≤ length j.buf
  dsize-fits k h = ground arith

  pub length-chunk : (k : ℕ) → k < npacket j → length (chunk j k) ≡ dsize j k
  unfolding chunk
  length-chunk k h = omega (
    arith,
    length-take (dsize j k) (drop (k * payload_max) j.buf),
    length-drop (k * payload_max) j.buf,
    dsize-fits k h,
  )

  pub length-chunk-le : (k : ℕ) → length (chunk j k) ≤ payload_max
  unfolding chunk
  length-chunk-le k = ground (arith, length-take (dsize j k) (drop (k * payload_max) j.buf))

  -- All packets but the last are full.
  pub length-chunk_full : (k : ℕ) → k + 1 < npacket j → length (chunk j k) ≡ payload_max
  length-chunk_full k h = ground (arith, length-chunk k)

  pub length-chunk_last : (k : ℕ) → k + 1 ≡ npacket j → length (chunk j k) ≡ tsize j
  length-chunk_last k h = ground (arith, length-chunk k)

  pub chunk-within : (k : ℕ) → k < npacket j → k * payload_max + length (chunk j k) ≤ total j
  chunk-within k h = elim (eq-cases (k + 1) (npacket j)) [
    | inl last ↦ omega (arith, length-chunk_last k last)
    | inr other ↦ omega (arith, length-chunk_full k (grind arith))
  ]

  pub get_or-chunk :
      (k i : ℕ)
      → k < npacket j
      → i < length (chunk j k)
      → get_or (chunk j k) i 0 ≡ get_or j.buf (k * payload_max + i) 0
  get_or-chunk k i h l = chunk-at (omega (arith, length-chunk k h))
    where
      chunk-at : i < dsize j k → get_or (chunk j k) i 0 ≡ get_or j.buf (k * payload_max + i) 0
      chunk-at below =
          unfold chunk in
          (get_or-take (dsize j k) (drop (k * payload_max) j.buf) i 0 below
            ∙ get_or-drop (k * payload_max) j.buf i 0)

  pub chunk-IsBytes : (k : ℕ) → IsBytes j.buf → IsBytes (chunk j k)
  unfolding chunk
  chunk-IsBytes k h =
      All-take IsByte (dsize j k) (drop (k * payload_max) j.buf)
        (All-drop IsByte (k * payload_max) j.buf h)

  pub total-le : total j ≤ length j.buf
  total-le = omega arith

  -- Every byte below `total` is in some packet.
  pub place_of :
      (i : ℕ)
      → i < total j
      → (i / payload_max < npacket j) × (i % payload_max < length (chunk j (i / payload_max)))
  place_of i h = (omega arith, inside)
    where
      k : ℕ
      k = i / payload_max

      inside : i % payload_max < length (chunk j k)
      inside = elim (eq-cases (k + 1) (npacket j)) [
        | inl last ↦ omega (arith, length-chunk_last k last)
        | inr other ↦ omega (arith, length-chunk_full k (grind arith))
      ]

  -- The packets carry the whole file, unless its length is a positive multiple of PAYLOAD_MAX: then
  -- the last packet is empty.
  pub total-whole : length j.buf % payload_max ≢ 0 → total j ≡ length j.buf
  total-whole h = omega arith

  pub total-multiple :
      0 < length j.buf → length j.buf % payload_max ≡ 0 → total j + payload_max ≡ length j.buf
  total-multiple h e = omega arith
