-- ===== src/Transceiver/Reading/Bounds.antt =====
-- The read of a frame stays within its buffer.
use aliro_ccc_core.Base.{
  ℕ, ◌≤◌, ◌<◌, ◌≡◌, refl, arith, zero, suc, [], ◌∷◌, length, take, drop, ltb, write, length-write,
  length-take, if-elim, ap, ◌∙◌, ◌⊎◌, ◌%◌, ◌^◌, write-zero, take-length_append,
}
use aliro_ccc_core.Base.Words.{Bytes}
use aliro_ccc_core.Core.{Result, ok, err, buffer_overflow}
use aliro_ccc_core.Transceiver.Platform.{
  get_frame_length, read_rx_data, Platform, Controller, issue,
}
use aliro_ccc_core.Transceiver.Reading.{received_length, read_received_data}

drop-write : (n : ℕ) (bs xs : Bytes) → length bs ≤ n → drop n (write 0 bs xs) ≡ drop n xs
drop-write n [] xs h = refl
drop-write zero (b ∷ bs) xs h = absurd (omega arith)
drop-write (suc n) (b ∷ bs) [] h = refl
drop-write (suc n) (b ∷ bs) (x ∷ xs) h = drop-write n bs xs (omega arith)

-- The length that is read: the frame's own, or the buffer's, cut to 16 bits, where the driver reports
-- 0.
abbrev pub IsReadLength : Platform → Bytes → Controller → ℕ → Type 0
IsReadLength platform out c n =
    ((0 < platform.number get_frame_length c.trace)
      × (n ≡ platform.number get_frame_length c.trace))
    ⊎ ((platform.number get_frame_length c.trace ≡ 0) × (n ≡ length out % 2 ^ 16))

-- The bytes that the driver hands over when it is asked for as many.
abbrev pub handed_over : Platform → ℕ → ℕ → Controller → Bytes
handed_over platform n offset c =
    take n (platform.bytes (read_rx_data n offset) (get_frame_length ∷ c.trace))

-- What a read leaves: a frame that fits is asked for with its length, and is stored in front of a
-- buffer of the same size; of a longer one nothing is read.
abbrev pub Bounded : Platform → Bytes → ℕ → Controller → Result ℕ × Bytes × Controller → Type 0
Bounded platform out offset c (ok n, buffer, d) =
    IsReadLength platform out c n
    × (n ≤ length out)
    × (take (length (handed_over platform n offset c)) buffer ≡ handed_over platform n offset c)
    × (length buffer ≡ length out)
    × (drop n buffer ≡ drop n out)
    × (d.trace ≡ read_rx_data n offset ∷ get_frame_length ∷ c.trace)
Bounded platform out offset c (err e, buffer, d) =
    (e ≡ buffer_overflow)
    × (length out < platform.number get_frame_length c.trace)
    × (buffer ≡ out)
    × (d.trace ≡ get_frame_length ∷ c.trace)

received_length-IsReadLength :
    (platform : Platform) (out : Bytes) (c : Controller)
    → IsReadLength platform out c (received_length platform out c)
received_length-IsReadLength platform out c = ground arith

take-write : (bs xs : Bytes) → length bs ≤ length xs → take (length bs) (write 0 bs xs) ≡ bs
take-write bs xs h =
    ap (take (length bs)) (write-zero bs xs h) ∙ take-length_append bs (drop (length bs) xs)

-- A frame that is longer than the buffer is refused before a byte of it is read. Any other is read
-- with its own length, or with the buffer's, cut to 16 bits, where the driver reports 0: that length
-- is the result, the bytes that the driver hands over stand at the front of the buffer, and the
-- buffer keeps its size and what lies behind the frame.
pub read_received_data_lem :
    (platform : Platform) (out : Bytes) (offset : ℕ) (c : Controller)
    → Bounded platform out offset c (read_received_data platform out offset c)
unfolding read_received_data
read_received_data_lem platform out offset c =
    let n = received_length platform out c in
    let answer = platform.bytes (read_rx_data n offset) (issue get_frame_length c).trace in
    if-elim {A = Result ℕ × Bytes × Controller} (Bounded platform out offset c) (ltb (length out) n)
      (λ e. (refl, ground arith, refl, refl))
      (λ e. (
        received_length-IsReadLength platform out c,
        ground arith,
        take-write (take n answer) out (ground (arith, length-take n answer)),
        length-write 0 (take n answer) out,
        drop-write n (take n answer) out (omega (arith, length-take n answer)),
        refl,
      ))
