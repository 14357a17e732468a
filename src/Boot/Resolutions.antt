-- ===== src/Boot/Resolutions.antt =====
-- What `SetupEfiFramebufferData` of bootloader/boot.c leaves in the buffer of the displays.
use feral.Base.{
  ℕ, zero, suc, ◌+◌, ◌*◌, ◌^◌, ◌≤◌, ◌<◌, ◌≡◌, ◌⊎◌, Option, none, some, refl, ◌∙◌, arith, u64,
}
use native.Mathlib.Decide.{ℕ_discrete}
use mathlib.Core.Path.{subst}
use feral.Base.Fault.{◌>>=◌}
use feral.Memory.{Bytes, load64}
use feral.Boot.Elf.{store64}
use feral.Boot.Cells.{load64-SameAt, load64-store64, outside64}
use feral.Boot.Firmware.{Firmware, Protocol}
use feral.Boot.Displays.{buffer_cell, setup_displays, setup_efi_framebuffer_data}
use feral.Boot.Numerals.{tell_display-Runs}

-- The three cells of a display hold its resolution and the base of its framebuffer.
abbrev pub IsDisplay : Bytes → ℕ → ℕ × ℕ × ℕ → Type 0
IsDisplay m p shown =
    (load64 m p ≡ u64 shown.0)
    × (load64 m (p + 8) ≡ u64 shown.1)
    × (load64 m (p + 16) ≡ u64 shown.2)

IsDisplay-SameAt :
    (m m' : Bytes) (p : ℕ) (shown : ℕ × ℕ × ℕ)
    → ((a : ℕ) → p ≤ a → a < p + 24 → m' a ≡ m a)
    → IsDisplay m p shown
    → IsDisplay m' p shown
IsDisplay-SameAt m m' p shown same (w, h, b) = (
  load64-SameAt p m' m (λ a lo hi. same a (omega arith) (omega arith)) ∙ w,
  load64-SameAt (p + 8) m' m (λ a lo hi. same a (omega arith) (omega arith)) ∙ h,
  load64-SameAt (p + 16) m' m (λ a lo hi. same a (omega arith) (omega arith)) ∙ b,
)

abbrev three : ℕ → ℕ → ℕ → ℕ × ℕ × ℕ → Bytes → Bytes
three p q r shown m = store64 r shown.2 (store64 q shown.1 (store64 p shown.0 m))

three-same :
    (p q r p' q' r' : ℕ) (shown : ℕ × ℕ × ℕ) (m : Bytes)
    → p ≡ p'
    → q ≡ q'
    → r ≡ r'
    → three p q r shown m ≡ three p' q' r' shown m
three-same p q r p' q' r' shown m ep eq er = rw (ep, eq, er) refl

abbrev stored : ℕ → ℕ × ℕ × ℕ → Bytes → Bytes
stored p shown m = three p (p + 8) (p + 16) shown m

stored-outside :
    (p a : ℕ) (shown : ℕ × ℕ × ℕ) (m : Bytes) → (a < p) ⊎ (p + 24 ≤ a) → stored p shown m a ≡ m a
stored-outside p a shown m out =
    outside64 (p + 16) shown.2 a (store64 (p + 8) shown.1 (store64 p shown.0 m)) (omega arith)
    ∙ outside64 (p + 8) shown.1 a (store64 p shown.0 m) (omega arith)
    ∙ outside64 p shown.0 a m (omega arith)

stored-IsDisplay : (p : ℕ) (shown : ℕ × ℕ × ℕ) (m : Bytes) → IsDisplay (stored p shown m) p shown
stored-IsDisplay p shown m =
    let m₁ = store64 p shown.0 m in
    let m₂ = store64 (p + 8) shown.1 m₁ in
    let m₃ = stored p shown m in
    (
      load64-SameAt p m₃ m₁ (λ a lo hi.
            outside64 (p + 16) shown.2 a m₂ (omega arith)
            ∙ outside64 (p + 8) shown.1 a m₁ (omega arith))
          ∙ load64-store64 p shown.0 m,
      load64-SameAt (p + 8) m₃ m₂ (λ a lo hi. outside64 (p + 16) shown.2 a m₂ (omega arith))
          ∙ load64-store64 (p + 8) shown.1 m₁,
      load64-store64 (p + 16) shown.2 m₂,
    )

module _ {ℓ} {F : Type ℓ} (fw : Firmware F) (fuel : ℕ) (enough : 20 < fuel) (gop_of : ℕ → ℕ)
    (mode_of : ℕ → ℕ × ℕ × ℕ) (video_buffers : ℕ → ℕ) (display_buffers : ℕ) where
  -- A display opens and takes the mode, and it has a resolution of its own.
  abbrev pub IsOpen : ℕ → Type ℓ
  IsOpen handle =
      (f : F)
      → ((fw.open_protocol Protocol.graphics_output handle f).0 ≡ 0)
        × ((fw.open_protocol Protocol.graphics_output handle f).1 ≡ gop_of handle)
        × ((fw.set_mode (gop_of handle) f).0 ≡ 0)
        × (fw.mode (gop_of handle) f ≡ mode_of (gop_of handle))

  abbrev place_of : ℕ → ℕ
  place_of iterator = display_buffers + 24 * iterator

  abbrev resolution_of : ℕ → ℕ × ℕ × ℕ
  resolution_of iterator = mode_of (gop_of (video_buffers iterator))

  abbrev displays_from : ℕ → ℕ → (ℕ → ℕ) → Bytes → F → Option (Option ℕ × Bytes × F)
  displays_from left iterator = setup_displays fw fuel left iterator video_buffers display_buffers

  cells-stored :
      (iterator : ℕ) (shown : ℕ × ℕ × ℕ) (m : Bytes)
      → place_of (iterator + 1) < 2 ^ 64
      → three
          (buffer_cell display_buffers (3 * iterator + 0))
          (buffer_cell display_buffers (3 * iterator + 1))
          (buffer_cell display_buffers (3 * iterator + 2))
          shown
          m
        ≡ stored (place_of iterator) shown m
  cells-stored iterator shown m small =
      three-same _ _ _ _ _ _ shown m (omega arith) (omega arith) (omega arith)

  setup_round :
      (left iterator : ℕ) (buf : ℕ → ℕ) (m : Bytes) (f : F)
      → IsOpen (video_buffers iterator)
      → place_of (iterator + 1) < 2 ^ 64
      → (buf' : ℕ → ℕ) × (f' : F) × (displays_from (suc left) iterator buf m f
          ≡ displays_from left
              (iterator + 1)
              buf'
              (stored (place_of iterator) (resolution_of iterator) m)
              f')
  unfolding setup_displays
  setup_round left iterator buf m f is_open small =
      let (opened, is_gop, set_here, shown_here) = is_open f in
      let f₁ = (fw.open_protocol Protocol.graphics_output (video_buffers iterator) f).2 in
      let (opened₁, is_gop₁, set, shown₁) = is_open f₁ in
      let f₂ = (fw.set_mode (gop_of (video_buffers iterator)) f₁).1 in
      let (opened₂, is_gop₂, set₂, shown) = is_open f₂ in
      let ((buf', f'), runs) =
        tell_display-Runs fw fuel enough (gop_of (video_buffers iterator))
          (resolution_of iterator).0 (resolution_of iterator).1 buf f₂ in
      (
        buf',
        f',
        rw
            (
              opened,
              is_gop,
              set,
              shown,
              runs,
              ◌>>=◌,
              cells-stored iterator (resolution_of iterator) m small,
            )
            refl,
      )

  displays_lem :
      (left iterator : ℕ) (buf : ℕ → ℕ) (m : Bytes) (f : F)
      → ((i : ℕ) → iterator ≤ i → i < iterator + left → IsOpen (video_buffers i))
      → place_of (iterator + left) < 2 ^ 64
      → (m' : Bytes) × (f' : F) × (displays_from left iterator buf m f ≡ some (none, m', f'))
        × ((i : ℕ)
            → iterator ≤ i
            → i < iterator + left
            → IsDisplay m' (place_of i) (resolution_of i))
        × ((a : ℕ) → (a < place_of iterator) ⊎ (place_of (iterator + left) ≤ a) → m' a ≡ m a)
  unfolding setup_displays
  displays_lem zero iterator buf m f opens small =
      (m, f, refl, (λ i lo hi. absurd (omega arith)), (λ a out. refl))
  displays_lem (suc left) iterator buf m f opens small =
      let (buf', f₁, round) =
        setup_round left iterator buf m f (opens iterator (omega arith) (omega arith))
          (omega arith) in
      let m₁ = stored (place_of iterator) (resolution_of iterator) m in
      let (m', f', runs, holds, same) =
        displays_lem left (iterator + 1) buf' m₁ f₁ (λ i lo hi. opens i (omega arith) (omega arith))
          (omega arith) in
      (
        m',
        f',
        round ∙ runs,
        (λ i lo hi. elim (ℕ_discrete iterator i) [
          | yes e ↦
              subst (λ j. IsDisplay m' (place_of j) (resolution_of j)) e
                (IsDisplay-SameAt m₁ m' (place_of iterator) (resolution_of iterator)
                  (λ a from to. same a (omega arith))
                  (stored-IsDisplay (place_of iterator) (resolution_of iterator) m))
          | no ne ↦ holds i (omega arith) (omega arith)
        ]),
        (λ a out.
            same a (omega arith)
            ∙ stored-outside (place_of iterator) a (resolution_of iterator) m (omega arith)),
      )

  -- Where every display opens and takes its mode, and the buffer for the displays does not reach
  -- the end of the memory, with more than 20 rounds of fuel `SetupEfiFramebufferData` runs to its
  -- end, which returns no status: the buffer holds the width, the height and the framebuffer of
  -- each display, as 64 bits, and the memory outside of the buffer is as before.
  pub setup_efi_framebuffer_data_lem :
      (num_displays : ℕ) (buf : ℕ → ℕ) (m : Bytes) (f : F)
      → ((i : ℕ) → i < num_displays → IsOpen (video_buffers i))
      → place_of num_displays < 2 ^ 64
      → (i a : ℕ) → i < num_displays
      → (a < display_buffers) ⊎ (place_of num_displays ≤ a)
      → (m' : Bytes) × (f' : F) × (setup_efi_framebuffer_data fw fuel video_buffers display_buffers
            num_displays buf m f
          ≡ some (none, m', f'))
        × IsDisplay m' (place_of i) (resolution_of i)
        × (m' a ≡ m a)
  unfolding setup_efi_framebuffer_data
  setup_efi_framebuffer_data_lem num_displays buf m f opens small i a hi out =
      let (m', f', runs, holds, same) =
        displays_lem num_displays 0 buf m f (λ j lo below. opens j (omega arith)) (omega arith) in
      (m', f', runs, holds i (omega arith) (omega arith), same a (omega arith))
