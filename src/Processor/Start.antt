-- ===== src/Processor/Start.antt =====
-- What holds after the first processor has started: kern/arch/x86_64/archstart.c.
use mathlib.Core.Path.{subst}
use feral.Base.{
  ℕ, ◌<◌, ◌^◌, ◌≡◌, ◌≢◌, true, List, [], ◌∷◌, none, refl, sym, ◌⊎◌, inl, inr, ◌+◌, ◌*◌, ◌/◌, ◌%◌,
  ne→==, arith,
}
use feral.Status.{Status}
use feral.Paging.{Words, phys, x86_unmap_address}
use feral.Paging.Mmu.{translate}
use feral.Paging.Unmap.{used_bits, first_entry, IsCleared, unused-none, x86_unmap_address-clears}
use feral.Interrupts.{Handlers, empty_descriptor, x86_initialize_idt}
use feral.Interrupts.Gates.{handler_of, AreWords, intended, x86_setup_idt_entries_lem}
use feral.Processor.{
  GdtEntry, access_byte, Processor, x86_initialize_gdt, ki_startup_processor_machine_dependent,
  ki_startup_processor,
}

abbrev pub access_bytes : List GdtEntry → List ℕ
access_bytes [] = []
access_bytes (e ∷ es) = access_byte e ∷ access_bytes es

low-first : (address : ℕ) → address < 2 ^ 39 → address / 2 ^ 39 % 512 ≡ 0 / 2 ^ 39 % 512
low-first address low = omega arith

-- The first entry of the first table is cleared if it was in use, and nothing else is changed.
abbrev pub HasLost : ℕ → Words → Words → Type 0
HasLost pml4 w w' =
    ((used_bits (w (first_entry pml4 0)) ≢ 0) × IsCleared pml4 0 w w')
    ⊎ ((used_bits (w (first_entry pml4 0)) ≡ 0) × (w' ≡ w))

unmapped-HasLost : (w : Words) (pml4 : ℕ) → HasLost pml4 w (x86_unmap_address w pml4 0).1
unmapped-HasLost w pml4 = elim (x86_unmap_address-clears w pml4 0) [
  | inl (used, (w', runs, cleared)) ↦ inl (used, rw runs cleared)
  | inr (unused, runs) ↦ inr (unused, rw runs refl)
]

low-none :
    (w w' : Words) (pml4 address : ℕ)
    → HasLost pml4 w w'
    → address < 2 ^ 39
    → translate w' (phys pml4) address ≡ none
low-none w w' pml4 address (inl (used, cleared)) low = cleared.gone address (low-first address low)
low-none w w' pml4 address (inr (unused, same)) low = rw same (
    unused-none w pml4 address
      (subst (λ i. used_bits (w (phys pml4 + 8 * i)) ≡ 0) (sym (low-first address low)) unused))

pub ki_startup_processor_lem :
    (pml4 location : ℕ) (handlers : Handlers) (p : Processor)
    → AreWords handlers
    → (p' : Processor) × (ki_startup_processor pml4 location handlers 0 p ≡ (Status.success, p'))
      × HasLost pml4 p.memory p'.memory
      × ((address : ℕ) → address < 2 ^ 39 → translate p'.memory (phys pml4) address ≡ none)
      × ((n : ℕ) → handler_of (p'.idt n) ≡ intended handlers 0 n)
      × (access_bytes p'.gdt ≡ 0 ∷ 0x9A ∷ 0x92 ∷ 0xFA ∷ 0xF2 ∷ [])
      × (p'.gdt_pointer.limit ≡ 39)
      × (p'.interrupts ≡ true)
      × ((core : ℕ)
          → core ≢ 0
          → ki_startup_processor pml4 location handlers core p
            ≡ (Status.success, record p { interrupts = true }))
unfolding ki_startup_processor ki_startup_processor_machine_dependent x86_initialize_gdt
    x86_initialize_idt
ki_startup_processor_lem pml4 location handlers p words =
    let lost = unmapped-HasLost p.memory pml4 in
    (
      ki_startup_processor_machine_dependent pml4 location handlers 0 p,
      refl,
      lost,
      (λ address low. low-none p.memory _ pml4 address lost low),
      (λ n. x86_setup_idt_entries_lem handlers (λ i. empty_descriptor) n words),
      refl,
      refl,
      refl,
      (λ core other. rw (ne→== core 0 other) refl),
    )
