-- ===== src/Paging/Unmap.antt =====
-- What `x86UnmapAddress` does, for every address and all tables.
use feral.Base.{
  ℕ, ◌+◌, ◌*◌, ◌/◌, ◌%◌, ◌^◌, ◌≡◌, ◌≢◌, ◌⊎◌, inl, inr, Option, none, refl, ap, sym, ◌∙◌, ne→==,
  eq→==, bit_and, ◌==◌, arith, Bool, true, false, not, if◌then◌else◌,
}
use feral.Base.Bits.{bit_and-half, bit_and-ones}
use native.Mathlib.Decide.{ℕ_discrete}
use feral.Status.{Status}
use feral.Paging.{Words, phys, x86_find_page_levels, entry_at, unmap_level, x86_unmap_address}
use feral.Paging.Levels.{levels-bits}
use feral.Paging.Mmu.{translate, is_canonical}

-- The bits `PAGE_FLAG_PRESENT | PAGE_HUGE` of an entry.
abbrev pub used_bits : ℕ → ℕ
used_bits r = bit_and r 129

-- Where the first entry for an address lies, with the table at `pml4`.
abbrev pub first_entry : ℕ → ℕ → ℕ
first_entry pml4 address = phys pml4 + 8 * (address / 2 ^ 39 % 512)

-- The entry is 0, every other word is as before, and no address that shares the entry is
-- translated.
pub record IsCleared (pml4 virtual : ℕ) (w w' : Words) : Type 0 where
  pub cleared : w' (first_entry pml4 virtual) ≡ 0
  pub others : (a : ℕ) → a ≢ first_entry pml4 virtual → w' a ≡ w a
  pub gone :
      (address : ℕ)
      → address / 2 ^ 39 % 512 ≡ virtual / 2 ^ 39 % 512
      → translate w' (phys pml4) address ≡ none

first_entry-level3 :
    (pml4 virtual : ℕ)
    → entry_at pml4 (x86_find_page_levels virtual).level3 ≡ first_entry pml4 virtual
first_entry-level3 pml4 virtual =
    let (e₀, e₁, e₂, e₃) = levels-bits virtual in ap (λ i. phys pml4 + 8 * i) e₃

none_both : (b : Bool) → Path (Option ℕ) (if b then none else none) none
none_both true = refl
none_both false = refl

unset-present : (r : ℕ) → used_bits r ≡ 0 → bit_and r 1 ≡ 0
unset-present r h = bit_and-ones 1 r ∙ omega (arith, bit_and-half r 129, h)

no_first_entry :
    (w : Words) (cr3 address : ℕ)
    → w (cr3 + 8 * (address / 2 ^ 39 % 512)) ≡ 0
    → translate w cr3 address ≡ none
unfolding translate
no_first_entry w cr3 address zero = rw zero (none_both (not (is_canonical address)))

-- An entry that is not in use translates nothing.
pub unused-none :
    (w : Words) (pml4 address : ℕ)
    → used_bits (w (first_entry pml4 address)) ≡ 0
    → translate w (phys pml4) address ≡ none
unfolding translate
unused-none w pml4 address unused =
    let entry = w (first_entry pml4 address) in
    let low : entry % 2 ≡ 0 = sym (bit_and-ones 1 entry) ∙ unset-present entry unused in
    rw low (none_both (not (is_canonical address)))

-- `x86UnmapAddress` looks at the PML4 only: if the present or the huge bit of the address's entry
-- there is set, it succeeds, that entry is 0, every other word is as before, and no address that
-- shares the entry is translated any more; if neither is set, it fails with a memory page failure
-- and changes nothing.
pub x86_unmap_address-clears :
    (w : Words) (pml4 virtual : ℕ)
    → ((used_bits (w (first_entry pml4 virtual)) ≢ 0)
        × ((w' : Words) × (x86_unmap_address w pml4 virtual ≡ (Status.success, w'))
            × IsCleared pml4 virtual w w'))
      ⊎ ((used_bits (w (first_entry pml4 virtual)) ≡ 0)
          × (x86_unmap_address w pml4 virtual ≡ (Status.memory_page_failure, w)))
unfolding x86_unmap_address unmap_level
x86_unmap_address-clears w pml4 virtual =
    let (e₀, e₁, e₂, e₃) = levels-bits virtual in
    let entry = first_entry pml4 virtual in
    let w' : Words = λ a. if a == entry then 0 else w a in
    let zero : w' entry ≡ 0 = rw (eq→== entry entry refl) refl in
    elim (ℕ_discrete (used_bits (w entry)) 0) [
      | no used ↦ inl (
        used,
        (
          w',
          rw (e₃, ne→== (used_bits (w entry)) 0 used) refl,
          record {
            cleared = zero;
            others = λ a other. rw (ne→== a entry other) refl;
            gone = λ address same.
                no_first_entry w' (phys pml4) address
                  (ap (λ i. w' (phys pml4 + 8 * i)) same ∙ zero);
          },
        ),
      )
      | yes unused ↦ inr (unused, rw (e₃, unused, unset-present (w entry) unused) refl)
    ]
