-- ===== src/Core.antt =====
-- include/uwb/core: `StatusCode` and `Result` of StatusCode.hpp, and the domain types of Types.hpp.
-- A strong type over an unsigned integer is the number itself; its range is stated where it matters.
use aliro_ccc_core.Base.{ℕ, ◌≡◌, refl, ◌⊎◌, inl, inr}
use aliro_ccc_core.Base.Words.{Bytes}

pub data StatusCode : Type 0 where
  success invalid_parameter crypto_operation_failed authentication_failed : StatusCode
  buffer_overflow malformed_frame replay_detected hardware_timeout : StatusCode
  transceiver_error late_transmission sts_correlation_failed session_suspended : StatusCode
  invalid_state consensus_not_reached out_of_memory : StatusCode

-- `Result<T, StatusCode>`; `Result<void>` is `Result (Unit {0})`.
pub data Result {ℓ} (A : Type ℓ) : Type ℓ where
  ok : A → Result A
  err : StatusCode → Result A

infixl 5 ◌>>=◌ ◌>>◌
abbrev pub ◌>>=◌ {ℓ κ} : {T : Type ℓ} {U : Type κ} → Result T → (T → Result U) → Result U
err code >>= k = err code
ok value >>= k = k value

-- An operation whose result is its success alone, and the next one.
abbrev pub ◌>>◌ {κ} : {U : Type κ} → Result (Unit {0}) → Result U → Result U
err code >> next = err code
ok value >> next = next

-- A chain that succeeds has succeeded at each of its links.
pub >>=-eq-ok {ℓ κ} :
    {T : Type ℓ} {U : Type κ} (r : Result T) (k : T → Result U) {u : U}
    → (r >>= k) ≡ ok u
    → (t : T) × (r ≡ ok t) × (k t ≡ ok u)
>>=-eq-ok (err code) k e = cc
>>=-eq-ok (ok t) k e = (t, refl, e)

pub ok-injective {ℓ} : {A : Type ℓ} {a b : A} → ok a ≡ ok b → a ≡ b
ok-injective e = cc

pub Result-cases {ℓ} :
    {A : Type ℓ} (r : Result A) → ((a : A) × (r ≡ ok a)) ⊎ ((e : StatusCode) × (r ≡ err e))
Result-cases (ok a) = inl (a, refl)
Result-cases (err e) = inr (e, refl)

pub data UwbChannel : Type 0 where
  channel5 channel9 : UwbChannel

pub data SfdType : Type 0 where
  ieee4a ieee4z : SfdType

pub data HoppingMode : Type 0 where
  disabled enabled continuous_aes continuous_default adaptive_aes adaptive_default : HoppingMode

pub record MacAddresses : Type 0 where
  pub key_source : Bytes
  pub destination_short : ℕ
  pub source_long : Bytes
