-- ===== src/Paging/Entries.antt =====
-- Words of physical memory after the writes of kern/arch/x86_64/mm/paging.c to its tables.
use feral.Base.{
  ℕ, ◌+◌, ◌-◌, ◌≤◌, ◌<◌, ◌≡◌, ◌≢◌, ◌⊎◌, ◌&&◌, arith, refl, if◌then◌else◌, ltb, leb, ◌==◌, eq→==,
}
use feral.Paging.{Words, phys, kern_virt_offset}

pub phys_low : (x : ℕ) → x < kern_virt_offset → phys x ≡ x
phys_low x low = ground arith

pub phys_high : (x : ℕ) → kern_virt_offset ≤ x → phys x ≡ x - kern_virt_offset
phys_high x high = ground arith

-- A cleared table, and an entry stored outside of it.
module _ (w : Words) (p cell v a : ℕ) where
  abbrev written : ℕ
  written = if a == cell then v else if leb p a && ltb a (p + 4096) then 0 else w a

  pub written-other : a ≢ cell → (a < p) ⊎ (p + 4096 ≤ a) → written ≡ w a
  written-other other out = ground arith

  pub written-inside : a ≢ cell → p ≤ a → a < p + 4096 → written ≡ 0
  written-inside other lo hi = ground arith

  pub written-at : a ≡ cell → written ≡ v
  written-at e = ground arith

pub cleared-other :
    (w : Words) (p a : ℕ)
    → (a < p) ⊎ (p + 4096 ≤ a)
    → (if leb p a && ltb a (p + 4096) then 0 else w a) ≡ w a
cleared-other w p a out = ground arith

pub this_word : (a v x : ℕ) → (if a == a then v else x) ≡ v
this_word a v x = rw (eq→== a a refl) refl
