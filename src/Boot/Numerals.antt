-- ===== src/Boot/Numerals.antt =====
-- The texts of numbers that bootloader/boot.c shows never end the loader.
use feral.Base.{Bool, true, false, if◌then◌else◌, ℕ, ◌<◌, ◌≡◌, Option, some, refl, arith, u64}
use feral.Base.Fault.{◌>>=◌}
use feral.Startup.{BootMemoryRange}
use feral.Numbers.Itoa.{internal_itoa_base_change_lem}
use feral.Boot.Numbers.{efi_itoa_base_change-same}
use feral.Boot.Elf.{Message}
use feral.Boot.Firmware.{Firmware, say, show_number}
use feral.Boot.Displays.{tell_display}
use feral.Boot.Ranges.{tell_range}

-- A computation has a result.
abbrev pub Runs {ℓ} : {A : Type ℓ} → Option A → Type ℓ
Runs {A} o = (a : A) × (o ≡ some a)

pub Runs-bind {ℓ κ} :
    {A : Type ℓ} {B : Type κ} (o : Option A) (k : A → Option B)
    → Runs o
    → ((a : A) → Runs (k a))
    → Runs (o >>= k)
Runs-bind o k (a, e) runs = let (b, e') = runs a in (b, rw (e, ◌>>=◌) e')

pub Runs-if {ℓ} :
    {A : Type ℓ} (b : Bool) (x y : Option A) → Runs x → Runs y → Runs (if b then x else y)
Runs-if true x y runs runs' = runs
Runs-if false x y runs runs' = runs'

module _ {ℓ} {F : Type ℓ} (fw : Firmware F) (fuel : ℕ) (enough : 20 < fuel) where
  pub show_number-hexadecimal :
      (val : ℕ) (buf : ℕ → ℕ) (f : F) → Runs (show_number fw fuel 16 val buf f)
  unfolding show_number
  show_number-hexadecimal val buf f =
      let (len, out, makes, short, is_length, reads) =
        internal_itoa_base_change_lem 16 (omega arith) (omega arith) 16 fuel (u64 val) buf
          (omega arith) (omega arith) (omega arith) in
      (
        (out, say fw (Message.buffer out) f),
        rw
            (
              efi_itoa_base_change-same 16 (omega arith) (omega arith) fuel (u64 val) buf,
              makes,
              ◌>>=◌,
            )
            refl,
      )

  pub show_number-decimal :
      (val : ℕ) (buf : ℕ → ℕ) (f : F) → Runs (show_number fw fuel 10 val buf f)
  unfolding show_number
  show_number-decimal val buf f =
      let (len, out, makes, short, is_length, reads) =
        internal_itoa_base_change_lem 10 (omega arith) (omega arith) 20 fuel (u64 val) buf
          (omega arith) (omega arith) (omega arith) in
      (
        (out, say fw (Message.buffer out) f),
        rw
            (
              efi_itoa_base_change-same 10 (omega arith) (omega arith) fuel (u64 val) buf,
              makes,
              ◌>>=◌,
            )
            refl,
      )

  pub tell_display-Runs :
      (gop width height : ℕ) (buf : ℕ → ℕ) (f : F)
      → Runs (tell_display fw fuel gop width height buf f)
  unfolding tell_display
  tell_display-Runs gop width height buf f =
      Runs-bind _ _ (show_number-decimal width buf _) (λ (buf₁, f₁).
        Runs-bind _ _ (show_number-decimal height buf₁ _)
          (λ (buf₂, f₂). Runs-bind _ _ (show_number-hexadecimal _ buf₂ _) (λ r. (_, refl))))

  pub tell_range-Runs :
      (range : BootMemoryRange) (buf : ℕ → ℕ) (f : F) → Runs (tell_range fw fuel range buf f)
  unfolding tell_range
  tell_range-Runs range buf f =
      Runs-if _ _ _
        (Runs-bind _ _ (show_number-hexadecimal _ buf _)
          (λ (buf₁, f₁). Runs-bind _ _ (show_number-hexadecimal _ buf₁ _) (λ r. (_, refl))))
        (_, refl)
