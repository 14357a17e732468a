-- ===== src/Paging/Walk.antt =====
-- `x86MapAddress` where the three upper tables exist, against the walk of the processor.
use mathlib.Core.Path.{subst}
use feral.Base.{
  ap, sym, ◌∙◌, false, ℕ, ◌+◌, ◌*◌, ◌/◌, ◌%◌, ◌^◌, ◌<◌, ◌≡◌, ◌≢◌, true, some, arith, refl,
  if◌then◌else◌, ne→==, eq→==,
}
use feral.Status.{Status}
use feral.Paging.{
  Allocator, Words, x86_find_page_levels, page_align, entry_at, raw, set_raw, is_present, entry_of,
  next_table, x86_map_address, phys,
}
use feral.Paging.Entries.{phys_low}
use feral.Paging.Mmu.{
  translate, translate-tables, is_canonical, is_large, frame_of, entry_for, Names,
}
use feral.Paging.Levels.{levels-bits, page_align_lem, entry_of-zero}

-- An entry that names a table below 2 ^ 52 and may be executed: it is present and no large page.
pub record IsTable (entry : ℕ) : Type 0 where
  pub present : is_present entry ≡ true
  pub small : is_large entry ≡ false
  pub narrow : entry < 2 ^ 52

IsTable-Names : (entry : ℕ) → IsTable entry → Names entry (page_align entry)
IsTable-Names entry table =
    let aligned = page_align_lem entry (omega (arith, table.narrow)) in
    record {
      present = table.present;
      small = table.small;
      frame = omega (arith, aligned, table.narrow);
    }

-- A table that an entry names lies in low physical memory.
IsTable-phys : (entry : ℕ) → IsTable entry → phys (page_align entry) ≡ page_align entry
IsTable-phys entry table =
    let aligned = page_align_lem entry (omega (arith, table.narrow)) in
    phys_low (page_align entry) (omega (arith, aligned, table.narrow))

module _ (w : Words) (pml4 virtual : ℕ) where
  abbrev pub l₀ : ℕ
  l₀ = (x86_find_page_levels virtual).level0

  abbrev pub l₁ : ℕ
  l₁ = (x86_find_page_levels virtual).level1

  abbrev pub l₂ : ℕ
  l₂ = (x86_find_page_levels virtual).level2

  abbrev pub l₃ : ℕ
  l₃ = (x86_find_page_levels virtual).level3

  -- The tables on the way to the page of an address.
  abbrev pub pdp_of : ℕ
  pdp_of = page_align (raw w pml4 l₃)

  abbrev pub pd_of : ℕ
  pd_of = page_align (raw w pdp_of l₂)

  abbrev pub pt_of : ℕ
  pt_of = page_align (raw w pd_of l₁)

  -- The three upper levels name tables.
  pub record HasTables : Type 0 where
    pub at_level3 : IsTable (raw w pml4 l₃)
    pub at_level2 : IsTable (raw w pdp_of l₂)
    pub at_level1 : IsTable (raw w pd_of l₁)

  -- The entry of the page is none of the entries above it.
  pub record IsApart : Type 0 where
    pub from_level3 : entry_at pml4 l₃ ≢ entry_at pt_of l₀
    pub from_level2 : entry_at pdp_of l₂ ≢ entry_at pt_of l₀
    pub from_level1 : entry_at pd_of l₁ ≢ entry_at pt_of l₀

module _ (allocator : Allocator) where
  open allocator use {Heap}

  next_table-present :
      (w : Words) (heap : Heap) (table index : ℕ)
      → is_present (raw w table index) ≡ true
      → next_table allocator w heap table index ≡ (page_align (raw w table index), w, heap)
  unfolding next_table
  next_table-present w heap table index h = rw h refl

  module _ (w : Words) (heap : Heap) (pml4 physical virtual : ℕ)
      (tables : HasTables w pml4 virtual) where
    pub x86_map_address-branches : x86_map_address allocator w heap pml4 physical virtual ≡ (
        if is_present (raw w (pt_of w pml4 virtual) (l₀ w pml4 virtual))
        then (Status.memory_page_failure, w, heap)
        else (
          Status.success,
          set_raw w
              (pt_of w pml4 virtual)
              (l₀ w pml4 virtual)
              (entry_of (raw w (pt_of w pml4 virtual) (l₀ w pml4 virtual)) physical),
          heap,
        ))
    unfolding x86_map_address
    x86_map_address-branches =
        rw
          (
            next_table-present w heap pml4 (l₃ w pml4 virtual) tables.at_level3.present,
            next_table-present w heap (pdp_of w pml4 virtual) (l₂ w pml4 virtual)
                tables.at_level2.present,
            next_table-present w heap (pd_of w pml4 virtual) (l₁ w pml4 virtual)
                tables.at_level1.present,
          )
          refl

set_raw-other :
    (w : Words) (table index v a : ℕ) → a ≢ entry_at table index → set_raw w table index v a ≡ w a
set_raw-other w table index v a h = rw (ne→== a (entry_at table index) h) refl

set_raw-at : (w : Words) (table index v : ℕ) → raw (set_raw w table index v) table index ≡ v
set_raw-at w table index v = rw (eq→== (entry_at table index) (entry_at table index) refl) refl

module _ (w : Words) (pml4 virtual : ℕ) (apart : IsApart w pml4 virtual) (v : ℕ) where
  -- The words after the page's entry became `v`.
  abbrev with_page : Words
  with_page = set_raw w (pt_of w pml4 virtual) (l₀ w pml4 virtual) v

  kept₃ : raw with_page pml4 (l₃ w pml4 virtual) ≡ raw w pml4 (l₃ w pml4 virtual)
  kept₃ = set_raw-other w (pt_of w pml4 virtual) (l₀ w pml4 virtual) v _ apart.from_level3

  kept₂ :
      raw with_page (pdp_of w pml4 virtual) (l₂ w pml4 virtual)
      ≡ raw w (pdp_of w pml4 virtual) (l₂ w pml4 virtual)
  kept₂ = set_raw-other w (pt_of w pml4 virtual) (l₀ w pml4 virtual) v _ apart.from_level2

  kept₁ :
      raw with_page (pd_of w pml4 virtual) (l₁ w pml4 virtual)
      ≡ raw w (pd_of w pml4 virtual) (l₁ w pml4 virtual)
  kept₁ = set_raw-other w (pt_of w pml4 virtual) (l₀ w pml4 virtual) v _ apart.from_level1

  translate-with_page :
      HasTables w pml4 virtual
      → is_canonical virtual ≡ true
      → is_present v ≡ true
      → translate with_page (phys pml4) virtual ≡ some (frame_of v + virtual % 2 ^ 12)
  translate-with_page tables canonical h =
      let (e₀, e₁, e₂, e₃) = levels-bits virtual in
      let at₃ : entry_for with_page (phys pml4) 39 virtual ≡ raw w pml4 (l₃ w pml4 virtual) =
        ap (λ i. with_page (phys pml4 + 8 * i)) (sym e₃) ∙ kept₃ in
      let at₂ : entry_for with_page (pdp_of w pml4 virtual) 30 virtual
          ≡ raw w (pdp_of w pml4 virtual) (l₂ w pml4 virtual) =
        ap (λ i. with_page (pdp_of w pml4 virtual + 8 * i)) (sym e₂)
        ∙ ap (λ p. with_page (p + 8 * l₂ w pml4 virtual)) (sym (IsTable-phys _ tables.at_level3))
        ∙ kept₂ in
      let at₁ : entry_for with_page (pd_of w pml4 virtual) 21 virtual
          ≡ raw w (pd_of w pml4 virtual) (l₁ w pml4 virtual) =
        ap (λ i. with_page (pd_of w pml4 virtual + 8 * i)) (sym e₁)
        ∙ ap (λ p. with_page (p + 8 * l₁ w pml4 virtual)) (sym (IsTable-phys _ tables.at_level2))
        ∙ kept₁ in
      let at₀ : entry_for with_page (pt_of w pml4 virtual) 12 virtual ≡ v =
        ap (λ i. with_page (pt_of w pml4 virtual + 8 * i)) (sym e₀)
        ∙ ap (λ p. with_page (p + 8 * l₀ w pml4 virtual)) (sym (IsTable-phys _ tables.at_level1))
        ∙ set_raw-at w (pt_of w pml4 virtual) (l₀ w pml4 virtual) v in
      translate-tables with_page (phys pml4) virtual (pdp_of w pml4 virtual) (pd_of w pml4 virtual)
        (pt_of w pml4 virtual) canonical
        (subst (λ e. Names e (pdp_of w pml4 virtual)) (sym at₃) (IsTable-Names _ tables.at_level3))
        (subst (λ e. Names e (pd_of w pml4 virtual)) (sym at₂) (IsTable-Names _ tables.at_level2))
        (subst (λ e. Names e (pt_of w pml4 virtual)) (sym at₁) (IsTable-Names _ tables.at_level1))
        (subst (λ e. is_present e ≡ true) (sym at₀) h)
      ∙ ap (λ e. some (frame_of e + virtual % 2 ^ 12)) at₀

  HasTables-with_page : HasTables w pml4 virtual → HasTables with_page pml4 virtual
  HasTables-with_page tables = record {
    at_level3 =
        rw (set_raw-other w (pt_of w pml4 virtual) (l₀ w pml4 virtual) v _ apart.from_level3)
          tables.at_level3;
    at_level2 =
        rw
          (
            set_raw-other w (pt_of w pml4 virtual) (l₀ w pml4 virtual) v _ apart.from_level3,
            set_raw-other w (pt_of w pml4 virtual) (l₀ w pml4 virtual) v _ apart.from_level2,
          )
          tables.at_level2;
    at_level1 =
        rw
          (
            set_raw-other w (pt_of w pml4 virtual) (l₀ w pml4 virtual) v _ apart.from_level3,
            set_raw-other w (pt_of w pml4 virtual) (l₀ w pml4 virtual) v _ apart.from_level2,
            set_raw-other w (pt_of w pml4 virtual) (l₀ w pml4 virtual) v _ apart.from_level1,
          )
          tables.at_level1;
  }

  raw-with_page : raw with_page (pt_of with_page pml4 virtual) (l₀ with_page pml4 virtual) ≡ v
  raw-with_page =
      rw
        (
          set_raw-other w (pt_of w pml4 virtual) (l₀ w pml4 virtual) v _ apart.from_level3,
          set_raw-other w (pt_of w pml4 virtual) (l₀ w pml4 virtual) v _ apart.from_level2,
          set_raw-other w (pt_of w pml4 virtual) (l₀ w pml4 virtual) v _ apart.from_level1,
          set_raw-at w (pt_of w pml4 virtual) (l₀ w pml4 virtual) v,
        )
        refl

entry_of-present : (address : ℕ) → address < 2 ^ 64 → is_present (entry_of 0 address) ≡ true
entry_of-present address h =
    rw (entry_of-zero address h) (eq→== ((address / 4096 * 4096 + 3) % 2) 1 (omega arith))

module _ (allocator : Allocator) where
  open allocator use {Heap}

  module _ (w : Words) (heap : Heap) (pml4 physical virtual : ℕ) (tables : HasTables w pml4 virtual)
      (apart : IsApart w pml4 virtual) (fits : physical < 2 ^ 52)
      (canonical : is_canonical virtual ≡ true)
      (clear : raw w (pt_of w pml4 virtual) (l₀ w pml4 virtual) ≡ 0) where
    -- Where the three upper entries of an address name tables below 2 ^ 52 and not large pages,
    -- its page entry is clear and is none of the entries above it, the address is canonical and
    -- the physical one has 52 bits, `x86MapAddress` succeeds and changes no word but the page
    -- entry, the walk of the processor then takes the address to the frame of the physical address
    -- and the offset of the virtual one, and mapping the address once more fails and changes
    -- nothing.
    pub x86_map_address-translate :
        (w' : Words) × (x86_map_address allocator w heap pml4 physical virtual
          ≡ (Status.success, w', heap))
        × (translate w' (phys pml4) virtual ≡ some (physical / 4096 * 4096 + virtual % 4096))
        × ((a : ℕ) → a ≢ entry_at (pt_of w pml4 virtual) (l₀ w pml4 virtual) → w' a ≡ w a)
        × ((other : ℕ)
            → x86_map_address allocator w' heap pml4 other virtual
              ≡ (Status.memory_page_failure, w', heap))
    x86_map_address-translate =
        let w' = with_page w pml4 virtual apart (entry_of 0 physical) in
        let present = entry_of-present physical (omega (arith, fits)) in
        let (e₀, e₁, e₂, e₃) = levels-bits virtual in
        let stored = entry_of-zero physical (omega (arith, fits)) in
        let frame : frame_of (entry_of 0 physical) ≡ physical / 4096 * 4096 =
          omega (arith, stored, fits) in
        (
          w',
          rw (x86_map_address-branches allocator w heap pml4 physical virtual tables, clear) refl,
          translate-with_page w pml4 virtual apart (entry_of 0 physical) tables canonical present
              ∙ ap (λ f. some (f + virtual % 4096)) frame,
          (λ a other. set_raw-other w (pt_of w pml4 virtual) (l₀ w pml4 virtual) _ a other),
          λ other.
              rw
                (
                  x86_map_address-branches allocator w' heap pml4 other virtual
                      (HasTables-with_page w pml4 virtual apart (entry_of 0 physical) tables),
                  raw-with_page w pml4 virtual apart (entry_of 0 physical),
                  present,
                )
                refl,
        )
