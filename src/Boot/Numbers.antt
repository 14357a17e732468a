-- ===== src/Boot/Numbers.antt =====
-- The pages and texts of bootloader/boot.c: which sizes get too few pages, and that its numbers are
-- the kernel's.
use native.Mathlib.Nat.{mod-lt}
use feral.Base.{ℕ, zero, suc, ◌+◌, ◌*◌, ◌/◌, ◌%◌, ◌^◌, ◌≤◌, ◌<◌, ◌≡◌, ◌≢◌, ◌↔◌, refl, arith, u8}
use feral.Numbers.{emit, digit_char, internal_itoa_base_change}
use feral.Boot.{bytes_to_efi_pages, efi_digit, efi_emit, efi_itoa_base_change}

-- For a size of 64 bits, the pages of `BytesToEfiPages` hold less than the size exactly if it has
-- at least one whole page, the number of its whole pages is a multiple of 4096, and it is not a
-- whole number of pages.
pub bytes_to_efi_pages-short :
    (bytes : ℕ)
    → bytes < 2 ^ 64
    → (bytes_to_efi_pages bytes * 4096 < bytes)
      ↔ ((bytes / 4096 ≢ 0) × (bytes / 4096 % 4096 ≡ 0) × (bytes % 4096 ≢ 0))
unfolding bytes_to_efi_pages
bytes_to_efi_pages-short bytes h = ground arith

same_digit : (rem : ℕ) → rem < 35 → efi_digit rem ≡ digit_char (u8 rem)
unfolding digit_char
same_digit rem h = ground arith

module _ (radix : ℕ) (positive : 0 < radix) (spelled : radix ≤ 35) where
  efi_emit-eq-emit :
      (fuel v len : ℕ) (buf : ℕ → ℕ) → efi_emit radix fuel v len buf ≡ emit radix fuel v len buf
  unfolding efi_emit emit
  efi_emit-eq-emit zero v len buf = refl
  efi_emit-eq-emit (suc fuel) v len buf =
      rw
        (
          efi_emit-eq-emit fuel (v / radix) (len + 1),
          same_digit (v % radix) (omega (arith, mod-lt v {m = radix} positive)),
        )
        refl

  -- For a radix from 1 to 35 the `InternalItoaBaseChange` of the boot loader leaves the same
  -- buffer as the kernel's `internalItoaBaseChange`, for every value, buffer and number of rounds.
  pub efi_itoa_base_change-same :
      (fuel val : ℕ) (buf : ℕ → ℕ)
      → efi_itoa_base_change fuel val buf radix ≡ internal_itoa_base_change fuel val buf radix
  unfolding efi_itoa_base_change internal_itoa_base_change
  efi_itoa_base_change-same fuel val buf = rw (efi_emit-eq-emit fuel val 0 buf) refl
