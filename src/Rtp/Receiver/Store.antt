-- ===== src/Rtp/Receiver/Store.antt =====
-- The file buffer of transfer_data in lab2/src/receiver.c: what it holds of the sender's packets.
use computer_system24fall.Common.{
  ℕ, zero, suc, ◌+◌, ◌-◌, ◌*◌, ◌/◌, ◌%◌, ◌≤◌, ◌<◌, ◌≡◌, ◌≢◌, refl, sym, ap, ◌∙◌, ◌⊎◌, inl, inr,
  subst, List, arith, eq-cases, lt-cases, length, get_or, take, get_or_at, get_or-take, get_or_ext,
  length-take,
}
use native.Mathlib.Nat.{zero-add}
use computer_system24fall.Rtp.Packet.{payload_max}
use computer_system24fall.Rtp.Sender.{Job, npacket, chunk}
use computer_system24fall.Rtp.Sender.Chunks.{
  total, length-chunk-le, get_or-chunk, total-le, place_of,
}
use computer_system24fall.Rtp.Receiver.{store, bytes_from}

store_inside :
    (buf : ℕ → ℕ) (at i : ℕ) (bytes : List ℕ)
    → i < length bytes
    → store buf at bytes (at + i) ≡ get_or bytes i 0
unfolding store
store_inside buf at i bytes h = ground (arith, get_or_at bytes (at + i - at) i 0)

store_outside :
    (buf : ℕ → ℕ) (at i : ℕ) (bytes : List ℕ)
    → (i < at) ⊎ (at + length bytes ≤ i)
    → store buf at bytes i ≡ buf i
unfolding store
store_outside buf at i bytes h = ground arith

module _ (j : Job) where
  -- The buffer holds packet `k` at its place.
  abbrev pub Holds : (ℕ → ℕ) → ℕ → Type 0
  Holds buf k =
      (i : ℕ) → i < length (chunk j k) → buf (k * payload_max + i) ≡ get_or (chunk j k) i 0

  pub store-Holds_self : (buf : ℕ → ℕ) (k : ℕ) → Holds (store buf (k * payload_max) (chunk j k)) k
  store-Holds_self buf k i h = store_inside buf (k * payload_max) i (chunk j k) h

  -- Storing a packet at its place keeps what is held, since packets do not overlap.
  pub store-Holds :
      (buf : ℕ → ℕ) (k m : ℕ) → Holds buf m → Holds (store buf (k * payload_max) (chunk j k)) m
  store-Holds buf k m held = elim (eq-cases k m) [
    | inl same ↦
        subst (λ (t : ℕ). Holds (store buf (k * payload_max) (chunk j k)) t) same
          (store-Holds_self buf k)
    | inr other ↦ λ i h.
        store_outside buf (k * payload_max) (m * payload_max + i) (chunk j k) (apart other i h)
        ∙ held i h
  ]
    where
      apart :
          k ≢ m
          → (i : ℕ) → i < length (chunk j m)
          → (m * payload_max + i < k * payload_max)
            ⊎ (k * payload_max + length (chunk j k) ≤ m * payload_max + i)
      apart other i h = elim (lt-cases m k) [
        | inl below ↦ inl (omega (arith, length-chunk-le j m))
        | inr above ↦ inr (omega (arith, length-chunk-le j k, k-lt))
      ]
        where
          k-lt : (k < m) ⊎ (m ≤ k)
          k-lt = lt-cases k m

pub length-bytes_from : (buf : ℕ → ℕ) (left i : ℕ) → length (bytes_from buf i left) ≡ left
unfolding bytes_from
length-bytes_from buf zero i = refl
length-bytes_from buf (suc left) i = ap suc (length-bytes_from buf left (i + 1))

get_or-bytes_from :
    (buf : ℕ → ℕ) (left i m : ℕ) → m < left → get_or (bytes_from buf i left) m 0 ≡ buf (i + m)
unfolding bytes_from
get_or-bytes_from buf zero i m h = absurd (omega arith)
get_or-bytes_from buf (suc left) i zero h = ap buf same
  where
    same : i ≡ i + 0
    same = omega arith
get_or-bytes_from buf (suc left) i (suc m) h =
    get_or-bytes_from buf left (i + 1) m (omega arith) ∙ ap buf same
  where
    same : i + 1 + m ≡ i + suc m
    same = omega arith

-- Where the buffer holds every packet that reaches below `m`, its first `m` bytes are the file's.
pub bytes_from-prefix :
    (j : Job) (buf : ℕ → ℕ) (m : ℕ)
    → m ≤ total j
    → ((i : ℕ) → i < m → Holds j buf (i / payload_max))
    → bytes_from buf 0 m ≡ take m j.buf
bytes_from-prefix j buf m h held =
    get_or_ext 0 (bytes_from buf 0 m) (take m j.buf)
      (omega (arith, length-bytes_from buf m 0, length-take m j.buf, total-le j))
      λ i l. at i (omega (arith, length-bytes_from buf m 0))
  where
    at : (i : ℕ) → i < m → get_or (bytes_from buf 0 m) i 0 ≡ get_or (take m j.buf) i 0
    at i l =
        let place = place_of j i (omega arith) in
        let q : ℕ = i / payload_max in
        let r : ℕ = i % payload_max in
        let whole : i ≡ q * payload_max + r = omega arith in
        get_or-bytes_from buf m 0 i l
        ∙ ap buf (zero-add i ∙ whole)
        ∙ held i l r place.1
        ∙ get_or-chunk j q r place.0 place.1
        ∙ get_or_at j.buf (q * payload_max + r) i 0 (sym whole)
        ∙ sym (get_or-take m j.buf i 0 l)

-- A buffer that holds every packet holds the bytes of the file that the packets make up.
pub bytes_from-total :
    (j : Job) (buf : ℕ → ℕ)
    → ((k : ℕ) → k < npacket j → Holds j buf k)
    → bytes_from buf 0 (total j) ≡ take (total j) j.buf
bytes_from-total j buf held =
    bytes_from-prefix j buf (total j) (omega arith) λ i l. held (i / payload_max) (place_of j i l).0
