-- ===== src/Base/Outcomes.antt =====
-- What a fallible function of the driver does: it returns, fails with a status, or panics.
use mathlib.Core.Bool.{Bool, true, false}
use mathlib.Core.Path.{◌≡◌, refl}
use mathlib.Core.Option.{Option, none, some}

-- The `NTSTATUS` codes that the modelled functions return, by their names in `winresult::STATUS`.
pub data Status : Type 0 where
  no_memory insufficient_resources buffer_too_small invalid_parameter invalid_handle : Status
  invalid_device_state io_device_error unsuccessful already_committed : Status
  reinitialization_needed device_busy device_not_ready invalid_device_request : Status
  device_configuration_error unexpected_network_error : Status
  graphics_invalid_video_present_source graphics_invalid_video_present_target : Status
  graphics_gamma_ramp_not_supported graphics_vidpn_modality_not_supported : Status
  graphics_invalid_video_present_source_mode graphics_invalid_vidpn_topology : Status
  graphics_no_more_elements_in_dataset not_supported : Status

-- `Result<A, NtStatus>`, with a constructor for a panic.
pub data Outcome {ℓ} (A : Type ℓ) : Type ℓ where
  ok : A → Outcome A
  err : Status → Outcome A
  panic : Outcome A

infixl 5 ◌>>=◌ ◌>>◌
abbrev pub ◌>>=◌ {ℓ κ} : {A : Type ℓ} {B : Type κ} → Outcome A → (A → Outcome B) → Outcome B
ok a >>= f = f a
err e >>= f = err e
panic >>= f = panic

abbrev pub ◌>>◌ {ℓ} : {B : Type ℓ} → Outcome (Unit {0}) → Outcome B → Outcome B
m >> k = m >>= λ _. k

-- `assert!`.
abbrev pub assert : Bool → Outcome (Unit {0})
assert true = ok tt
assert false = panic

-- `ok_or`, `unwrap`.
abbrev pub ok_or {ℓ} : {A : Type ℓ} → Option A → Status → Outcome A
ok_or none e = err e
ok_or (some a) e = ok a

abbrev pub unwrap {ℓ} : {A : Type ℓ} → Option A → Outcome A
unwrap none = panic
unwrap (some a) = ok a

module _ {ℓ κ} {A : Type ℓ} {B : Type κ} where
  pub bind_assoc {ν} :
      {C : Type ν} (m : Outcome A) (f : A → Outcome B) (g : B → Outcome C)
      → ((m >>= f) >>= g) ≡ (m >>= λ a. f a >>= g)
  bind_assoc (ok a) f g = refl
  bind_assoc (err s) f g = refl
  bind_assoc panic f g = refl

  pub bind_cong :
      (m : Outcome A) {f g : A → Outcome B} → ((a : A) → f a ≡ g a) → (m >>= f) ≡ (m >>= g)
  bind_cong m h i = m >>= λ a. h a i
