-- ===== src/Transceiver/StsKeys/Cache.antt =====
-- The cache of the last STS key against the key that the device holds.
use aliro_ccc_core.Base.{
  ◌≡◌, refl, sym, ap, ◌∙◌, arith, Bool, true, false, ◌&&◌, Option, none, some, [], ◌∷◌, ◌++◌,
  length, take, length-append, take-length_append, bytes_eq, bytes_eq→eq, Bool-cases, inl, inr,
  if-elim,
}
use aliro_ccc_core.Base.Words.{Bytes}
use aliro_ccc_core.Core.{Result}
use aliro_ccc_core.Transceiver.Platform.{
  Register, sts_key0, Call, configure, write_to_device, configure_sts_key, reset_pin_low, Trace,
  Controller,
}
use aliro_ccc_core.Transceiver.StsKeys.{pack_sts_register, is_cached, load_sts_key, load_sts_key_iv}
use mathlib.Core.List.{reverse, reverse-cons}

-- What the key registers hold after a call, given what they held before: a reset and a new
-- configuration lose it.
abbrev written_key : Register → Bytes → Option Bytes → Option Bytes
written_key sts_key0 blob held = some (take 16 blob)
written_key _ blob held = held

abbrev key_after : Call → Option Bytes → Option Bytes
key_after (configure_sts_key key) held = some key
key_after (write_to_device r blob) held = written_key r blob held
key_after (configure config) held = none
key_after reset_pin_low held = none
key_after _ held = held

abbrev pub device_key : Trace → Option Bytes
device_key [] = none
device_key (k ∷ trace) = key_after k (device_key trace)

-- A valid cache names the key that the device holds.
abbrev pub IsCoherent : Controller → Type 0
IsCoherent c = c.sts_key_valid ≡ true → device_key c.trace ≡ some (pack_sts_register c.last_sts_key)

length-reverse : (bs : Bytes) → length (reverse bs) ≡ length bs
length-reverse [] = refl
length-reverse (b ∷ bs) =
    ap length (reverse-cons b bs)
    ∙ omega (arith, length-append (reverse bs) (b ∷ []), length-reverse bs)

and-true : (a b : Bool) → (a && b) ≡ true → (a ≡ true) × (b ≡ true)
and-true true b e = (refl, e)
and-true false b e = cc

cached_key :
    (key : Bytes) (c : Controller)
    → IsCoherent c
    → is_cached key c ≡ true
    → device_key c.trace ≡ some (pack_sts_register key)
cached_key key c coherent e =
    let (valid, same) = and-true c.sts_key_valid (bytes_eq key c.last_sts_key) e in
    coherent valid
    ∙ ap (λ k. some (pack_sts_register k)) (sym (bytes_eq→eq key c.last_sts_key same))

abbrev Holds : Bytes → Controller → Type 0
Holds key c = (device_key c.trace ≡ some (pack_sts_register key)) × IsCoherent c

-- After `loadStsKey` the device holds the key, whether it was written or taken to be there, and the
-- cache stays true.
pub load_sts_key-device_key :
    (key : Bytes) (c : Controller) → IsCoherent c → Holds key (load_sts_key key c).1
unfolding load_sts_key
load_sts_key-device_key key c coherent =
    if-elim {A = Result (Unit {0}) × Controller} (λ r. Holds key r.1) (is_cached key c)
      (λ e. (cached_key key c coherent e, coherent)) (λ e. (refl, λ valid. refl))

blob_key :
    (key iv : Bytes)
    → length key ≡ 16
    → take 16 (pack_sts_register key ++ pack_sts_register iv) ≡ pack_sts_register key
blob_key key iv e =
    ap (λ n. take n (pack_sts_register key ++ pack_sts_register iv)) (sym (length-reverse key ∙ e))
    ∙ take-length_append (pack_sts_register key) (pack_sts_register iv)

-- And so it does after `loadStsKeyIv`, for a key of 16 bytes.
pub load_sts_key_iv-device_key :
    (key iv : Bytes) (c : Controller)
    → length key ≡ 16
    → IsCoherent c
    → Holds key (load_sts_key_iv key iv c).1
unfolding load_sts_key_iv
load_sts_key_iv-device_key key iv c e coherent =
    let written = ap (λ k. some k) (blob_key key iv e) in
    elim (Bool-cases (is_cached key c)) [
      | inl hit ↦ rw hit (
        written,
        λ valid.
            written
            ∙ ap (λ k. some (pack_sts_register k))
                (bytes_eq→eq key c.last_sts_key
                  (and-true c.sts_key_valid (bytes_eq key c.last_sts_key) hit).1),
      )
      | inr miss ↦ rw miss (written, λ valid. written)
    ]
