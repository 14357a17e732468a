-- ===== src/Boot/Main.antt =====
-- `uefi_main` of bootloader/boot.c, up to the call of the kernel. `none` is a loop that ran out of
-- fuel, or the trap of a division by zero.
use feral.Base.{ℕ, ◌+◌, ◌*◌, ◌/◌, false, not, Option, none, some, ◌==◌, if◌then◌else◌, u64}
use feral.Base.Fault.{◌>>=◌}
use feral.Memory.{Bytes}
use feral.Boot.Elf.{Message, efi_success, store64, overlay, efi_alloc_max_addr}
use feral.Boot.Loader.{elf_load_file}
use feral.Boot.Firmware.{Firmware, Protocol, say, report, show_number}
use feral.Boot.Displays.{setup_efi_framebuffer_data}
use feral.Boot.Ranges.{convert_ranges}

abbrev pub max_init_paged : ℕ
max_init_paged = 0x200000

-- The locals that are not initialized.
pub record Locals : Type 0 where
  pub initial_header : Bytes
  pub program_header : Bytes
  pub elf_itoa_buf : ℕ → ℕ
  pub display_itoa_buf : ℕ → ℕ
  pub itoa_buf : ℕ → ℕ

-- How it ends: with a status, in `ResetSystem`, which powers the machine off and does not return, or
-- in the kernel, at an entry and with a block.
pub data Ending {ℓ} (F : Type ℓ) : Type ℓ where
  returned : ℕ → Bytes → F → Ending F
  shut_down : Bytes → F → Ending F
  entered : ℕ → ℕ → Bytes → F → Ending F

-- The fields of the block.
abbrev pub store_block : ℕ → ℕ → ℕ → ℕ → ℕ → Bytes → Bytes
store_block p num_displays buffers num_ranges ranges m =
    store64 (p + 8) buffers
      (store64 p num_displays (store64 (p + 24) ranges (store64 (p + 16) num_ranges m)))

module _ {ℓ} {F : Type ℓ} (fw : Firmware F) (fuel image_handle : ℕ) where
  -- From the loaded image to the open file: the status, and the handle of the file.
  unfoldable pub open_image : F → ℕ × ℕ × F
  open_image f =
      let (loaded, image, f₁) = fw.open_protocol Protocol.loaded_image image_handle f in
      let (found, file_sys, f₂) =
        fw.open_protocol Protocol.simple_fs (fw.device_handle image f₁) f₁ in
      let (mounted, root, f₃) = fw.open_volume file_sys f₂ in
      let (opened, kernel, f₄) = fw.open_kernel root f₃ in
      if not (loaded == efi_success)
      then (loaded, 0, report fw Message.loaded_image_error loaded f₁)
      else if not (found == efi_success)
      then (found, 0, report fw Message.simple_fs_error found f₂)
      else if not (opened == efi_success)
      then (opened, kernel, report fw Message.kernel_error opened f₄)
      else (efi_success, kernel, f₄)

  -- From the memory map to the call of the kernel.
  unfoldable pub enter_kernel : ℕ → ℕ → ℕ → (ℕ → ℕ) → Bytes → F → Option (Ending F)
  enter_kernel kern_init num_displays display_buffers itoa_buf m f =
      let (sized, i₁, nothing, f₁) =
        fw.get_memory_map 0 (record { map_size = 0; map_key = 0; descriptor_size = 0 }) f in
      let wanted = u64 (i₁.map_size + u64 (i₁.descriptor_size * 2)) in
      let (mapped, memory_map, f₂) =
        efi_alloc_max_addr fw.services wanted max_init_paged false f₁ in
      let (got, i₂, bytes, f₃) =
        fw.get_memory_map memory_map
          (record { map_size = wanted; map_key = 0; descriptor_size = i₁.descriptor_size }) f₂ in
      let num_memory_ranges = i₂.map_size / i₂.descriptor_size in
      let (ranged, memory_ranges, f₄) =
        efi_alloc_max_addr fw.services (u64 (24 * num_memory_ranges)) max_init_paged false f₃ in
      let (blocked, env_block, f₅) = efi_alloc_max_addr fw.services 32 max_init_paged false f₄ in
      let f₆ =
        if not blocked then fw.services.stall 125000 (say fw Message.out_of_memory f₅) else f₅ in
      if i₂.descriptor_size == 0 then none else (do
        (buf, f₇) ← show_number fw fuel 16 env_block itoa_buf (say fw Message.env_block f₆)
        (m₁, f₈) ←
            convert_ranges fw fuel num_memory_ranges 0 memory_map memory_ranges buf
              (overlay memory_map bytes m) (say fw Message.newline f₇)
        some (
            Ending.entered kern_init env_block
              (store_block env_block num_displays display_buffers num_memory_ranges memory_ranges
                m₁)
              (fw.exit_boot_services image_handle i₂.map_key (say fw Message.terminating f₈))))

  -- With the kernel's file open: loading it, and the rest. The entry is null if it was not set.
  unfoldable pub boot_kernel : Locals → ℕ → ℕ → ℕ → Bytes → F → Option (Ending F)
  boot_kernel u num_displays display_buffers kernel m f = do
    (result, kern_init, m₁, f₁) ←
        elf_load_file fw.services fuel u.initial_header u.program_header u.elf_itoa_buf 0 m f
    if not (result == efi_success)
        then some (
            Ending.shut_down m₁ (fw.services.stall 125000 (say fw (Message.status_text result) f₁)))
        else (do
          (buf, f₂) ← show_number fw fuel 16 kern_init u.itoa_buf (say fw Message.got_entry f₁)
          enter_kernel kern_init num_displays display_buffers buf m₁
              (fw.close kernel (say fw Message.newline f₂)))

  unfoldable pub uefi_main : Locals → Bytes → F → Option (Ending F)
  uefi_main u m f =
      let (located, num_displays, video_buffers, f₁) =
        fw.locate_displays (fw.set_watchdog_timer f) in
      let (allocated, display_buffers, f₂) =
        efi_alloc_max_addr fw.services (u64 (8 * num_displays * 3)) max_init_paged false
          (say fw Message.starting (fw.clear_screen f₁)) in
      if not (located == efi_success) then some (Ending.returned located m f₁) else (do
        (set_up, m₁, f₃) ←
            setup_efi_framebuffer_data fw fuel video_buffers display_buffers num_displays
              u.display_itoa_buf m f₂
        (let (result, kernel, f₄) = open_image f₃ in
            if not (result == efi_success)
            then some (Ending.returned result m₁ f₄)
            else boot_kernel u num_displays display_buffers kernel m₁ f₄))
