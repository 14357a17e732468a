-- ===== src/Boot/Endings.antt =====
-- How `uefi_main` of bootloader/boot.c ends.
use feral.Base.{
  ℕ, zero, suc, ◌+◌, ◌*◌, ◌<◌, ◌≡◌, ◌≢◌, inl, inr, true, false, not, Option, none, some, List, [],
  ◌∷◌, refl, ap, sym, ◌∙◌, arith, ◌==◌, if◌then◌else◌, ne→==, ==_iff, Bool-cases, u64,
}
use mathlib.Core.Path.{subst}
use mathlib.Core.Bool.{false≢true}
use feral.Base.Fault.{◌>>=◌}
use feral.Memory.{Bytes}
use feral.Boot.Elf.{store64, Message, efi_success, efi_alloc_max_addr}
use feral.Boot.Loader.{elf_load_file}
use feral.Boot.Firmware.{Firmware, Protocol, MapInfo, say, report}
use feral.Boot.Displays.{buffer_cell, setup_displays, setup_efi_framebuffer_data}
use feral.Boot.Ranges.{convert_ranges}
use feral.Boot.Numerals.{
  Runs, Runs-bind, show_number-hexadecimal, tell_display-Runs, tell_range-Runs,
}
use feral.Boot.Main.{
  Locals, Ending, max_init_paged, open_image, enter_kernel, boot_kernel, uefi_main,
}

-- The first status that is no success, if there is one.
abbrev pub first_failure : List ℕ → ℕ
first_failure [] = 0
first_failure (s ∷ ss) = if s == 0 then first_failure ss else s

abbrev checked {ℓ} : {A : Type ℓ} → ℕ → ℕ → ℕ → ℕ → A → A → A → A → ℕ × ℕ × A
checked a b c k x y z w =
    if not (a == 0)
    then (a, 0, x)
    else if not (b == 0)
    then (b, 0, y)
    else if not (c == 0)
    then (c, k, z)
    else (0, k, w)

three_checks :
    {A : Type 0} (a b c k : ℕ) (x y z w : A)
    → (checked a b c k x y z w).0 ≡ first_failure (a ∷ b ∷ c ∷ [])
three_checks a b c k x y z w = elim (Bool-cases (a == 0)) [
  | inr ea ↦ rw ea refl
  | inl ea ↦ elim (Bool-cases (b == 0)) [
    | inr eb ↦ rw (ea, eb) refl
    | inl eb ↦ elim (Bool-cases (c == 0)) [
      | inr ec ↦ rw (ea, eb, ec) refl
      | inl ec ↦ rw (ea, eb, ec) refl
    ]
  ]
]

nonzero : (s : ℕ) → (s == 0) ≡ false → s ≢ 0
nonzero s e h = false≢true (sym e ∙ (==_iff s 0).1 h)

failed :
    (s : ℕ) (rest : List ℕ)
    → (s == 0) ≡ false
    → (s ≡ first_failure (s ∷ rest)) × (first_failure (s ∷ rest) ≢ 0)
failed s rest e =
    let same : s ≡ first_failure (s ∷ rest) = rw e refl in
    (same, subst (λ t. t ≢ 0) same (nonzero s e))

passed : (s : ℕ) (rest : List ℕ) → (s == 0) ≡ true → first_failure (s ∷ rest) ≡ first_failure rest
passed s rest e = rw e refl

module _ {F : Type 0} (fw : Firmware F) (fuel image_handle : ℕ) (u : Locals) where
  -- The statuses of opening the loaded image, the file system and the kernel's file.
  abbrev pub image_statuses : F → List ℕ
  image_statuses f =
      let (loaded, image, f₁) = fw.open_protocol Protocol.loaded_image image_handle f in
      let (found, file_sys, f₂) =
        fw.open_protocol Protocol.simple_fs (fw.device_handle image f₁) f₁ in
      let (mounted, root, f₃) = fw.open_volume file_sys f₂ in
      loaded ∷ found ∷ (fw.open_kernel root f₃).0 ∷ []

  abbrev pub load_file : Bytes → F → Option (ℕ × ℕ × Bytes × F)
  load_file = elf_load_file fw.services fuel u.initial_header u.program_header u.elf_itoa_buf 0

  -- With a status that is no success the loader returns it. Otherwise what `ElfLoadFile` returns
  -- decides: it ends in the kernel at the entry that comes with success, and powers the machine off
  -- with what was loaded before any failure.
  abbrev pub IsEndingOf : ℕ → Bytes → F → Ending F → Type 0
  IsEndingOf status m f (Ending.returned returned_status m' f') =
      (returned_status ≡ status) × (status ≢ 0)
  IsEndingOf status m f (Ending.shut_down m' f') =
      (result : ℕ) × (kern_init : ℕ) × (f₁ : F) × (status ≡ 0)
      × (load_file m f ≡ some (result, kern_init, m', f₁))
      × (result ≢ 0)
  IsEndingOf status m f (Ending.entered kern_init env_block m' f') =
      (m₁ : Bytes) × (f₁ : F) × (status ≡ 0) × (load_file m f ≡ some (0, kern_init, m₁, f₁))

  -- Setting up the displays, as `uefi_main` does it.
  abbrev pub prepared : Bytes → F → Option (Option ℕ × Bytes × F)
  prepared m f =
      let (located, num_displays, video_buffers, f₁) =
        fw.locate_displays (fw.set_watchdog_timer f) in
      let (allocated, buffers, f₂) =
        efi_alloc_max_addr fw.services (u64 (8 * num_displays * 3)) max_init_paged false
          (say fw Message.starting (fw.clear_screen f₁)) in
      setup_efi_framebuffer_data fw fuel video_buffers buffers num_displays u.display_itoa_buf m f₂

  abbrev pub located : F → ℕ
  located f = (fw.locate_displays (fw.set_watchdog_timer f)).0

  -- The firmware tells how large a descriptor is.
  abbrev pub Sized : Type 0
  Sized =
      (buffer : ℕ) (info : MapInfo) (f : F)
      → 0 < (fw.get_memory_map buffer info f).1.descriptor_size

  module _ (enough : 20 < fuel) where
    setup_displays-Runs :
        (left iterator : ℕ) (video_buffers : ℕ → ℕ) (buffers : ℕ) (buf : ℕ → ℕ) (m : Bytes) (f : F)
        → Runs (setup_displays fw fuel left iterator video_buffers buffers buf m f)
    unfolding setup_displays
    setup_displays-Runs zero iterator video_buffers buffers buf m f = (_, refl)
    setup_displays-Runs (suc left) iterator video_buffers buffers buf m f =
        let (opened, gop, f₁) =
          fw.open_protocol Protocol.graphics_output (video_buffers iterator) f in
        let (set, f₂) = fw.set_mode gop f₁ in
        let (width, height, base) = fw.mode gop f₂ in
        elim (Bool-cases (opened == efi_success)) [
          | inr fails ↦ ((some opened, m, report fw Message.query_failed opened f₁), rw fails refl)
          | inl opens ↦ elim (Bool-cases (set == efi_success)) [
            | inr fails ↦ ((some set, m, report fw Message.not_rgb set f₂), rw (opens, fails) refl)
            | inl sets ↦
                let ((buf', f'), told) = tell_display-Runs fw fuel enough gop width height buf f₂ in
                let m₁ = store64 (buffer_cell buffers (3 * iterator + 0)) width m in
                let m₂ = store64 (buffer_cell buffers (3 * iterator + 1)) height m₁ in
                let m₃ = store64 (buffer_cell buffers (3 * iterator + 2)) base m₂ in
                let (r, runs) =
                  setup_displays-Runs left (iterator + 1) video_buffers buffers buf' m₃ f' in
                (r, rw (opens, sets, told, ◌>>=◌) runs)
          ]
        ]

    convert_ranges-Runs :
        (left iterator map ranges : ℕ) (buf : ℕ → ℕ) (m : Bytes) (f : F)
        → Runs (convert_ranges fw fuel left iterator map ranges buf m f)
    unfolding convert_ranges
    convert_ranges-Runs zero iterator map ranges buf m f = (_, refl)
    convert_ranges-Runs (suc left) iterator map ranges buf m f =
        Runs-bind _ _ (tell_range-Runs fw fuel enough _ buf f)
          (λ (buf', f'). convert_ranges-Runs left (iterator + 1) map ranges buf' _ f')

    -- A computation ends in the kernel, at an entry.
    abbrev Enters : ℕ → Option (Ending F) → Type 0
    Enters kern_init o =
        (block : ℕ) × (m' : Bytes) × (f' : F) × (o ≡ some (Ending.entered kern_init block m' f'))

    Enters-bind :
        {A : Type 0} (kern_init : ℕ) (o : Option A) (k : A → Option (Ending F))
        → Runs o
        → ((a : A) → Enters kern_init (k a))
        → Enters kern_init (o >>= k)
    Enters-bind kern_init o k (a, e) enters =
        let (block, m', f', e') = enters a in (block, m', f', rw (e, ◌>>=◌) e')

    Enters-otherwise :
        (kern_init n : ℕ) (o : Option (Ending F))
        → 0 < n
        → Enters kern_init o
        → Enters kern_init (if n == 0 then none else o)
    Enters-otherwise kern_init n o pos (block, m', f', e) =
        (block, m', f', rw (ne→== n 0 (omega (arith, pos))) e)

    enter_kernel-Enters :
        (kern_init num_displays buffers : ℕ) (buf : ℕ → ℕ) (m : Bytes) (f : F)
        → Sized
        → Enters kern_init
            (enter_kernel fw fuel image_handle kern_init num_displays buffers buf m f)
    unfolding enter_kernel
    enter_kernel-Enters kern_init num_displays buffers buf m f sized =
        Enters-otherwise kern_init _ _ (sized _ _ _) (
          Enters-bind kern_init _ _ (show_number-hexadecimal fw fuel enough _ buf _) (λ (buf', f').
            Enters-bind kern_init _ _ (convert_ranges-Runs _ _ _ _ buf' _ _)
              (λ r. (_, _, _, refl))))

    -- The kernel's file is open.
    boot_kernel-lem :
        (num_displays buffers kernel status : ℕ) (m : Bytes) (f : F)
        → status ≡ 0
        → Sized
        → Runs (load_file m f)
        → (ending : Ending F) × (boot_kernel fw fuel image_handle u num_displays buffers kernel m f
            ≡ some ending)
          × IsEndingOf status m f ending
    unfolding boot_kernel
    boot_kernel-lem num_displays buffers kernel status m f opened sized
          ((result, kern_init, m₁, f₁), loads) =
        elim (Bool-cases (result == efi_success)) [
          | inr fails ↦ (
            Ending.shut_down m₁ (fw.services.stall 125000 (say fw (Message.status_text result) f₁)),
            rw (loads, ◌>>=◌, fails) refl,
            (result, kern_init, f₁, opened, loads, nonzero result fails),
          )
          | inl succeeds ↦
              let ((buf, f₃), shown) =
                show_number-hexadecimal fw fuel enough kern_init u.itoa_buf
                  (say fw Message.got_entry f₁) in
              let (block, m', f', enters) =
                enter_kernel-Enters kern_init num_displays buffers buf m₁
                  (fw.close kernel (say fw Message.newline f₃)) sized in
              (
                Ending.entered kern_init block m' f',
                rw (loads, ◌>>=◌, succeeds, shown, ◌>>=◌) enters,
                (
                  m₁,
                  f₁,
                  opened,
                  loads ∙ ap (λ r. some (r, kern_init, m₁, f₁)) ((==_iff result 0).0 succeeds),
                ),
              )
        ]

    open_image-lem :
        (f : F) → (open_image fw fuel image_handle f).0 ≡ first_failure (image_statuses f)
    unfolding open_image
    open_image-lem f =
        let (loaded, image, f₁) = fw.open_protocol Protocol.loaded_image image_handle f in
        let (found, file_sys, f₂) =
          fw.open_protocol Protocol.simple_fs (fw.device_handle image f₁) f₁ in
        let (mounted, root, f₃) = fw.open_volume file_sys f₂ in
        let (opened, kernel, f₄) = fw.open_kernel root f₃ in
        three_checks loaded found opened kernel (report fw Message.loaded_image_error loaded f₁)
          (report fw Message.simple_fs_error found f₂) (report fw Message.kernel_error opened f₄) f₄

    prepared-Runs : (m : Bytes) (f : F) → Runs (prepared m f)
    unfolding setup_efi_framebuffer_data
    prepared-Runs m f = setup_displays-Runs _ 0 _ _ _ m _

    pub uefi_main_lem :
        (m : Bytes) (f : F)
        → Sized
        → ((m' : Bytes) (f' : F) → Runs (load_file m' f'))
        → (set_up : Option ℕ) × (m₁ : Bytes) × (f₁ : F) × (ending : Ending F) × (prepared m f
            ≡ some (set_up, m₁, f₁))
          × (uefi_main fw fuel image_handle u m f ≡ some ending)
          × IsEndingOf
              (first_failure (located f ∷ image_statuses f₁))
              m₁
              (open_image fw fuel image_handle f₁).2
              ending
    unfolding uefi_main
    uefi_main_lem m f sized runs =
        let ((set_up, m₁, f₁), prepares) = prepared-Runs m f in
        let (result, kernel, f₂) = open_image fw fuel image_handle f₁ in
        let num_displays = (fw.locate_displays (fw.set_watchdog_timer f)).1 in
        elim (Bool-cases (located f == 0)) [
          | inr fails ↦ (
            set_up,
            m₁,
            f₁,
            Ending.returned (located f) m (fw.locate_displays (fw.set_watchdog_timer f)).3,
            prepares,
            rw fails refl,
            failed (located f) (image_statuses f₁) fails,
          )
          | inl locates ↦
              let all = passed (located f) (image_statuses f₁) locates in
              elim (Bool-cases (result == 0)) [
                | inr fails ↦ (
                  set_up,
                  m₁,
                  f₁,
                  Ending.returned result m₁ f₂,
                  prepares,
                  rw (locates, prepares, ◌>>=◌, fails) refl,
                  (
                    open_image-lem f₁ ∙ sym all,
                    subst (λ t. t ≢ 0) (open_image-lem f₁ ∙ sym all) (nonzero result fails),
                  ),
                )
                | inl opens ↦
                    let buffers =
                      (efi_alloc_max_addr fw.services (u64 (8 * num_displays * 3)) max_init_paged
                        false
                        (say fw Message.starting
                          (fw.clear_screen (fw.locate_displays (fw.set_watchdog_timer f)).3))).1 in
                    let (ending, ends, is_ending) =
                      boot_kernel-lem num_displays buffers kernel
                        (first_failure (located f ∷ image_statuses f₁)) m₁ f₂
                        (all ∙ sym (open_image-lem f₁) ∙ (==_iff result 0).0 opens) sized
                        (runs m₁ f₂) in
                    (
                      set_up,
                      m₁,
                      f₁,
                      ending,
                      prepares,
                      rw (locates, prepares, ◌>>=◌, opens) ends,
                      is_ending,
                    )
              ]
        ]
