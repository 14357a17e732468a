-- ===== src/Boot/Cells.antt =====
-- Cells of four and eight bytes in the memory that bootloader/boot.c writes.
use feral.Base.{
  ◌∙◌, ap, ℕ, ◌+◌, ◌*◌, ◌/◌, ◌%◌, ◌^◌, ◌<◌, ◌≤◌, ◌≡◌, ◌⊎◌, ◌&&◌, Bool, true, refl, arith, ltb, leb,
  if◌then◌else◌, u64, u32,
}
use feral.Memory.{Bytes, load64}
use feral.Boot.Elf.{store64, load32}
use feral.Boot.Firmware.{store32}

-- Two memories agree on `n` bytes from `p` on.
abbrev pub SameAt : ℕ → ℕ → Bytes → Bytes → Type 0
SameAt p n m m' = (a : ℕ) → p ≤ a → a < p + n → m a ≡ m' a

pub load64-SameAt : (p : ℕ) (m m' : Bytes) → SameAt p 8 m m' → load64 m p ≡ load64 m' p
load64-SameAt p m m' same =
    rw
      (
        same p (omega arith) (omega arith),
        same (p + 1) (omega arith) (omega arith),
        same (p + 2) (omega arith) (omega arith),
        same (p + 3) (omega arith) (omega arith),
        same (p + 4) (omega arith) (omega arith),
        same (p + 5) (omega arith) (omega arith),
        same (p + 6) (omega arith) (omega arith),
        same (p + 7) (omega arith) (omega arith),
      )
      refl

pub load32-SameAt : (p : ℕ) (m m' : Bytes) → SameAt p 4 m m' → load32 m p ≡ load32 m' p
load32-SameAt p m m' same =
    rw
      (
        same p (omega arith) (omega arith),
        same (p + 1) (omega arith) (omega arith),
        same (p + 2) (omega arith) (omega arith),
        same (p + 2 + 1) (omega arith) (omega arith),
      )
      refl

true_branch : (b : Bool) (x y : ℕ) → b ≡ true → (if b then x else y) ≡ x
true_branch b x y h = rw h refl

within : (p a n : ℕ) → p ≤ a → a < p + n → (leb p a && ltb a (p + n)) ≡ true
within p a n lo hi = ground arith

-- A byte of a cell.
byte64 : (p v a i : ℕ) (m : Bytes) → a ≡ p + i → i < 8 → store64 p v m a ≡ v / 2 ^ (8 * i) % 2 ^ 8
byte64 p v a i m e h =
    true_branch _ _ _ (within p a 8 (omega arith) (omega arith))
    ∙ ap (λ k. v / 2 ^ (8 * k) % 2 ^ 8) (omega arith)

byte32 : (p v a i : ℕ) (m : Bytes) → a ≡ p + i → i < 4 → store32 p v m a ≡ v / 2 ^ (8 * i) % 2 ^ 8
byte32 p v a i m e h =
    true_branch _ _ _ (within p a 4 (omega arith) (omega arith))
    ∙ ap (λ k. v / 2 ^ (8 * k) % 2 ^ 8) (omega arith)

pub outside64 : (p v a : ℕ) (m : Bytes) → (a < p) ⊎ (p + 8 ≤ a) → store64 p v m a ≡ m a
outside64 p v a m out = ground arith

pub outside32 : (p v a : ℕ) (m : Bytes) → (a < p) ⊎ (p + 4 ≤ a) → store32 p v m a ≡ m a
outside32 p v a m out = ground arith

pub load64-store64 : (p v : ℕ) (m : Bytes) → load64 (store64 p v m) p ≡ u64 v
load64-store64 p v m =
    rw
      (
        byte64 p v p 0 m (omega arith) (omega arith),
        byte64 p v (p + 1) 1 m refl (omega arith),
        byte64 p v (p + 2) 2 m refl (omega arith),
        byte64 p v (p + 3) 3 m refl (omega arith),
        byte64 p v (p + 4) 4 m refl (omega arith),
        byte64 p v (p + 5) 5 m refl (omega arith),
        byte64 p v (p + 6) 6 m refl (omega arith),
        byte64 p v (p + 7) 7 m refl (omega arith),
      )
      (omega arith)

pub load32-store32 : (p v : ℕ) (m : Bytes) → load32 (store32 p v m) p ≡ u32 v
load32-store32 p v m =
    rw
      (
        byte32 p v p 0 m (omega arith) (omega arith),
        byte32 p v (p + 1) 1 m refl (omega arith),
        byte32 p v (p + 2) 2 m refl (omega arith),
        byte32 p v (p + 2 + 1) 3 m (omega arith) (omega arith),
      )
      (omega arith)
