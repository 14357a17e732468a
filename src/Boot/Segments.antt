-- ===== src/Boot/Segments.antt =====
-- What becomes of the segments in `ElfLoadFile` of bootloader/boot.c.
use feral.Base.{
  ℕ, zero, suc, ◌+◌, ◌^◌, ◌≤◌, ◌<◌, ◌≡◌, ◌≢◌, ◌⊎◌, inl, inr, Bool, true, false, not, some, refl,
  ◌∙◌, arith, ltb, ◌==◌, if◌then◌else◌, u32, Bool-cases, eq→==, ltb→lt,
}
use feral.Base.Fault.{◌>>=◌}
use feral.Memory.{Bytes}
use feral.Boot.{EfiMemoryType}
use feral.Numbers.Itoa.{internal_itoa_base_change_lem}
use feral.Boot.Numbers.{efi_itoa_base_change-same}
use feral.Boot.Elf.{
  Services, Message, efi_alloc_addr, overlay, elf_header_size, program_header_size, e_phoff,
  e_entry, validate_elf_header, to_physical,
}
use feral.Boot.Loader.{
  Loading, Round, load_segment, load_round, load_rounds, show_entry, elf_load_file,
}

module _ {ℓ} {F : Type ℓ} (services : Services F) where
  -- Every page allocation at a given address succeeds.
  abbrev pub Allocates : Type ℓ
  Allocates =
      (mem_type : EfiMemoryType) (pages cell : ℕ) (f : F)
      → (services.allocate_pages true mem_type pages cell f).0 ≡ 0

  -- The answer of an allocation that succeeds is returned as the status 1.
  returns_one :
      (allocated : Bool) (l : Loading F) (r : Round F)
      → allocated ≡ true
      → (l' : Loading F) × ((if not ((if allocated then 1 else 0) == 0)
            then Round.returns (if allocated then 1 else 0) l
            else r)
          ≡ Round.returns 1 l')
  returns_one allocated l r succeeds = (l, rw succeeds refl)

  -- How a round can end: with the memory that it was given, or with the status 1.
  abbrev IsEnd : Loading F → Round F → Type ℓ
  IsEnd l r =
      ((l' : Loading F) × (r ≡ Round.goes_on l') × (l'.memory ≡ l.memory))
      ⊎ ((l' : Loading F) × (r ≡ Round.returns 1 l'))

  rebase : (l l' : Loading F) (r : Round F) → l'.memory ≡ l.memory → IsEnd l' r → IsEnd l r
  rebase l l' r same (inl (l'', e, kept)) = inl (l'', e, kept ∙ same)
  rebase l l' r same (inr ends) = inr ends

  keep_going :
      (fuel : ℕ) (h : Bytes) (index : ℕ) (l l' : Loading F) (r : Round F)
      → ltb index (e_phoff h) ≡ true
      → load_round services h index l ≡ Round.goes_on l'
      → u32 (index + 1) ≡ index + 1
      → load_rounds services fuel h (index + 1) l' ≡ some r
      → load_rounds services (suc fuel) h index l ≡ some r
  unfolding load_rounds
  keep_going fuel h index l l' r below e next run = rw (below, e, next) run

  module _ (allocates : Allocates) where
    allocated-lem :
        (amt ptr : ℕ) (code : Bool) (m : Bytes) (f : F)
        → (efi_alloc_addr services amt ptr code m f).0 ≡ true
    unfolding efi_alloc_addr
    allocated-lem amt ptr code m f = eq→== _ 0 (allocates _ _ _ f)

    segment-returns :
        (l : Loading F) → (l' : Loading F) × (load_segment services l ≡ Round.returns 1 l')
    unfolding load_segment
    segment-returns l = returns_one _ _ _ (allocated-lem _ _ _ l.memory l.firmware)

    branch-IsEnd :
        (loadable : Bool) (l l' : Loading F)
        → l'.memory ≡ l.memory
        → IsEnd l (if loadable then load_segment services l' else Round.goes_on l')
    branch-IsEnd true l l' e = inr (segment-returns l')
    branch-IsEnd false l l' e = inl (l', refl, e)

    round-IsEnd : (h : Bytes) (index : ℕ) (l : Loading F) → IsEnd l (load_round services h index l)
    unfolding load_round
    round-IsEnd h index l = branch-IsEnd _ l _ refl

    rounds-IsEnd :
        (fuel : ℕ) (h : Bytes) (index : ℕ) (l : Loading F)
        → e_phoff h < 2 ^ 32
        → index ≤ e_phoff h
        → e_phoff h < index + fuel
        → (r : Round F) × (load_rounds services fuel h index l ≡ some r) × IsEnd l r
    unfolding load_rounds
    rounds-IsEnd zero h index l small lo enough = absurd (omega arith)
    rounds-IsEnd (suc fuel) h index l small lo enough = elim (Bool-cases (ltb index (e_phoff h))) [
      | inr over ↦ (Round.goes_on l, rw over refl, inl (l, refl, refl))
      | inl below ↦
          let lt = ltb→lt index (e_phoff h) below in
          let next : u32 (index + 1) ≡ index + 1 = omega arith in
          elim (round-IsEnd h index l) [
            | inr (l', e) ↦ (Round.returns 1 l', rw (below, e) refl, inr (l', refl))
            | inl (l', e, same) ↦
                let (r, run, ends) =
                  rounds-IsEnd fuel h (index + 1) l' small (omega arith) (omega arith) in
                (r, keep_going fuel h index l l' r below e next run, rebase l l' r same ends)
          ]
    ]

  show_entry_lem :
      (fuel entry : ℕ) (buf : ℕ → ℕ) (f : F)
      → entry < 2 ^ 64
      → 16 < fuel
      → (f' : F) × (show_entry services fuel entry buf f ≡ some f')
  unfolding show_entry
  show_entry_lem fuel entry buf f h enough =
      let (len, out, makes, short, is_length, reads) =
        internal_itoa_base_change_lem 16 (omega arith) (omega arith) 16 fuel entry buf (omega arith)
          (omega arith) enough in
      (
        services.output_string Message.newline (
            services.output_string (Message.buffer out)
              (services.output_string Message.entry_is_at f)),
        rw (efi_itoa_base_change-same 16 (omega arith) (omega arith) fuel entry buf, makes, ◌>>=◌)
            refl,
      )

  -- The header that `ElfLoadFile` has after the first read.
  abbrev pub header_of : Bytes → F → Bytes
  header_of h f = overlay 0 (services.read elf_header_size f).1 h

  pub elf_load_file-keeps :
      (fuel : ℕ) (h program : Bytes) (itoa_buf : ℕ → ℕ) (entry : ℕ) (m : Bytes) (f : F)
      → Allocates
      → e_phoff (header_of h f) < 2 ^ 32
      → e_phoff (header_of h f) < fuel
      → 16 < fuel
      → e_entry (header_of h f) < 2 ^ 64
      → (status : ℕ) × (entry' : ℕ) × (m' : Bytes) × (f' : F) × (elf_load_file services fuel h
            program itoa_buf entry m f
          ≡ some (status, entry', m', f'))
        × ((m' ≡ m) ⊎ (status ≢ 0))
  unfolding elf_load_file
  elf_load_file-keeps fuel h program itoa_buf entry m f allocates small enough text_fits
        entry_fits =
      let got = services.read elf_header_size f in
      let header = header_of h f in
      let checked = validate_elf_header services header got.2 in
      let start : Loading F = record {
        program = program;
        program_size = program_header_size;
        memory = m;
        firmware = checked.1;
      } in
      elim (Bool-cases (got.0 == 0)) [
        | inr failed ↦ (got.0, entry, m, got.2, rw failed refl, inl refl)
        | inl read_ok ↦ elim (Bool-cases (checked.0 == 0)) [
          | inr invalid ↦ (checked.0, entry, m, checked.1, rw (read_ok, invalid) refl, inl refl)
          | inl valid ↦
              let (r, run, ends) =
                rounds-IsEnd allocates fuel header 0 start small (omega arith) (omega arith) in
              elim ends [
                | inr (l', e) ↦ (
                  1,
                  entry,
                  l'.memory,
                  l'.firmware,
                  rw (read_ok, valid, run, ◌>>=◌, e) refl,
                  inr (omega arith),
                )
                | inl (l', e, same) ↦
                    let (f', shown) =
                      show_entry_lem fuel (e_entry header) itoa_buf l'.firmware entry_fits
                        text_fits in
                    (
                      0,
                      to_physical (e_entry header),
                      l'.memory,
                      f',
                      rw (read_ok, valid, run, ◌>>=◌, e, shown, ◌>>=◌) refl,
                      inl same,
                    )
              ]
        ]
      ]
