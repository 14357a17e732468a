-- ===== src/Paging/Validate.antt =====
-- What `x86ValidateVirtualAddress` says of an address that `x86MapAddress` has just mapped.
use feral.Base.{
  ℕ, ◌+◌, ◌*◌, ◌/◌, ◌%◌, ◌^◌, ◌<◌, ◌≡◌, ◌≢◌, Bool, true, false, some, refl, arith, ne→==,
}
use feral.Status.{Status}
use feral.Paging.{
  Allocator, Words, phys, page_align, entry_at, raw, is_present, x86_map_address,
  x86_validate_virtual_address,
}
use feral.Paging.Levels.{page_align_lem}
use feral.Paging.Mmu.{translate, is_canonical}
use feral.Paging.Walk.{HasTables, IsApart, l₀, l₁, pdp_of, pt_of, x86_map_address-translate}

module _ (allocator : Allocator) (w : Words) (heap : allocator.Heap) (pml4 physical virtual : ℕ)
    (tables : HasTables w pml4 virtual) (apart : IsApart w pml4 virtual) (fits : physical < 2 ^ 52)
    (canonical : is_canonical virtual ≡ true)
    (clear : raw w (pt_of w pml4 virtual) (l₀ w pml4 virtual) ≡ 0) where
  -- Where the three upper entries of a canonical address name tables below 2 ^ 52 and not large
  -- pages, its page entry is clear and is none of the entries above it, the physical address has
  -- 52 bits and the PML4 is not null, if the entry of the PDP at the index of the page directory
  -- is clear, the word of the page table index at physical address 0 has its lowest bit clear, and
  -- the page entry is neither of these two, then after `x86MapAddress` the processor translates
  -- the address and `x86ValidateVirtualAddress` succeeds with the answer that it is not in use.
  pub x86_validate_virtual_address-misses :
      pml4 ≢ 0
      → raw w (pdp_of w pml4 virtual) (l₁ w pml4 virtual) ≡ 0
      → is_present (raw w 0 (l₀ w pml4 virtual)) ≡ false
      → entry_at (pdp_of w pml4 virtual) (l₁ w pml4 virtual)
        ≢ entry_at (pt_of w pml4 virtual) (l₀ w pml4 virtual)
      → entry_at 0 (l₀ w pml4 virtual) ≢ entry_at (pt_of w pml4 virtual) (l₀ w pml4 virtual)
      → (w' : Words) × (x86_map_address allocator w heap pml4 physical virtual
          ≡ (Status.success, w', heap))
        × (translate w' (phys pml4) virtual ≡ some (physical / 4096 * 4096 + virtual % 4096))
        × ((before : Bool)
            → x86_validate_virtual_address w' pml4 virtual before ≡ (Status.success, false))
  unfolding x86_validate_virtual_address
  x86_validate_virtual_address-misses given no_entry absent other low =
      let (w', runs, found, same, again) =
        x86_map_address-translate allocator w heap pml4 physical virtual tables apart fits canonical
          clear in
      let aligned : page_align 0 ≡ 0 = page_align_lem 0 (omega arith) in
      (
        w',
        runs,
        found,
        λ before.
            rw
              (
                ne→== pml4 0 given,
                same _ apart.from_level3,
                tables.at_level3.present,
                same _ apart.from_level2,
                tables.at_level2.present,
                same _ apart.from_level1,
                tables.at_level1.present,
                same _ other,
                no_entry,
                aligned,
                same _ low,
                absent,
              )
              refl,
      )
