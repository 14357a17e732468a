-- ===== src/Boot/Displays.antt =====
-- `SetupEfiFramebufferData` of bootloader/boot.c. `none` is a loop that ran out of fuel.
use feral.Base.{ℕ, zero, suc, ◌+◌, ◌*◌, not, Option, none, some, ◌==◌, if◌then◌else◌, u64}
use feral.Base.Fault.{◌>>=◌}
use feral.Memory.{Bytes}
use feral.Boot.Elf.{Message, efi_success, store64}
use feral.Boot.Firmware.{Firmware, Protocol, say, report, show_number}

-- `DisplayBuffers[index]`
abbrev pub buffer_cell : ℕ → ℕ → ℕ
buffer_cell display_buffers index = u64 (display_buffers + 8 * index)

module _ {ℓ} {F : Type ℓ} (fw : Firmware F) (fuel : ℕ) where
  -- What is told about a display, with its width and height.
  unfoldable pub tell_display : ℕ → ℕ → ℕ → (ℕ → ℕ) → F → Option ((ℕ → ℕ) × F)
  tell_display gop width height itoa_buf f = do
    (buf₁, f₁) ← show_number fw fuel 10 width itoa_buf (say fw Message.display_width f)
    (buf₂, f₂) ← show_number fw fuel 10 height buf₁ (say fw Message.display_height f₁)
    (buf₃, f₃) ←
        show_number fw fuel 16 (fw.mode gop f₂).2 buf₂
          (say fw Message.framebuffer_at (say fw Message.newline f₂))
    some (buf₃, say fw Message.newline f₃)

  -- The loop, with `left` displays to go: the status that is returned, if there is a `return`, and
  -- the memory and the firmware.
  unfoldable pub setup_displays :
      ℕ → ℕ → (ℕ → ℕ) → ℕ → (ℕ → ℕ) → Bytes → F → Option (Option ℕ × Bytes × F)
  setup_displays zero iterator video_buffers display_buffers itoa_buf m f = some (none, m, f)
  setup_displays (suc left) iterator video_buffers display_buffers itoa_buf m f =
      let (opened, gop, f₁) =
        fw.open_protocol Protocol.graphics_output (video_buffers iterator) f in
      let (set, f₂) = fw.set_mode gop f₁ in
      let (width, height, base) = fw.mode gop f₂ in
      let m₁ = store64 (buffer_cell display_buffers (3 * iterator + 0)) width m in
      let m₂ = store64 (buffer_cell display_buffers (3 * iterator + 1)) height m₁ in
      let m₃ = store64 (buffer_cell display_buffers (3 * iterator + 2)) base m₂ in
      if not (opened == efi_success)
      then some (some opened, m, report fw Message.query_failed opened f₁)
      else if not (set == efi_success)
      then some (some set, m, report fw Message.not_rgb set f₂)
      else (do
        (buf, f₃) ← tell_display gop width height itoa_buf f₂
        setup_displays left (iterator + 1) video_buffers display_buffers buf m₃ f₃)

  unfoldable pub setup_efi_framebuffer_data :
      (ℕ → ℕ) → ℕ → ℕ → (ℕ → ℕ) → Bytes → F → Option (Option ℕ × Bytes × F)
  setup_efi_framebuffer_data video_buffers display_buffers num_displays itoa_buf m f =
      setup_displays num_displays 0 video_buffers display_buffers itoa_buf m f
