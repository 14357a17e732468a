-- ===== src/Memory/Compare.antt =====
-- `KiCompareMemory`: what its answer means.
use native.Mathlib.Decide.{dec_lt}
use feral.Base.{
  ℕ, zero, suc, ◌+◌, ◌-◌, ◌*◌, ◌%◌, ◌^◌, ◌≤◌, ◌<◌, ◌≡◌, ◌≢◌, ◌↔◌, Bool, true, ◌&&◌, Option, some,
  arith, refl, u32, lt→ltb, ltb-false, ne→==, ==_iff,
}
use feral.Base.Fault.{◌>>=◌}
use feral.Status.{Status}
use feral.Memory.{Bytes, same_byte, compare_blocks, compare_tail, ki_compare_memory}
use feral.Memory.Copy.{rounded}

-- The flags after a round, regrouped.
flags-regroup :
    (a b c d p q r s : Bool)
    → ((a && p) && (b && q) && (c && r) && (d && s)) ≡ true
    → ((a && b && c && d) ≡ true) × (p ≡ true) × (q ≡ true) × (r ≡ true) × (s ≡ true)
flags-regroup a b c d p q r s h = ground arith

flags-join :
    (a b c d p q r s : Bool)
    → (a && b && c && d) ≡ true
    → p ≡ true
    → q ≡ true
    → r ≡ true
    → s ≡ true
    → ((a && p) && (b && q) && (c && r) && (d && s)) ≡ true
flags-join a b c d p q r s h hp hq hr hs = ground arith

module _ (m : Bytes) (source dest amount : ℕ) (short : amount ≤ 2 ^ 32 - 4) where
  abbrev Agree : ℕ → ℕ → Type 0
  Agree i n = (j : ℕ) → i ≤ j → j < n → m (dest + j) ≡ m (source + j)

  -- The four flags that the first loop leaves, and what they stand for together.
  record Compared (i : ℕ) (before : Bool) (out : Option (ℕ × Bool × Bool × Bool × Bool))
      : Type 0 where
    c₁ : Bool
    c₂ : Bool
    c₃ : Bool
    c₄ : Bool
    returns : out ≡ some (rounded amount, c₁, c₂, c₃, c₄)
    meaning : ((c₁ && c₂ && c₃ && c₄) ≡ true) ↔ ((before ≡ true) × Agree i (rounded amount))

  Agree-four :
      (i : ℕ)
      → i + 4 ≤ rounded amount
      → Agree i (rounded amount) ↔ (
          (m (dest + (i + 0)) ≡ m (source + (i + 0)))
          × (m (dest + (i + 1)) ≡ m (source + (i + 1)))
          × (m (dest + (i + 2)) ≡ m (source + (i + 2)))
          × (m (dest + (i + 3)) ≡ m (source + (i + 3)))
          × Agree (i + 4) (rounded amount))
  Agree-four i h = (
    λ all. (
      all (i + 0) (omega arith) (omega arith),
      all (i + 1) (omega arith) (omega arith),
      all (i + 2) (omega arith) (omega arith),
      all (i + 3) (omega arith) (omega arith),
      λ j lo hi. all j (omega arith) hi,
    ),
    λ parts j lo hi. ground (arith, parts.0, parts.1, parts.2, parts.3, parts.4 j),
  )

  -- One round: the flags of the rest say what the flags here and the four bytes say.
  Compared-round :
      (i : ℕ) (c₁ c₂ c₃ c₄ : Bool) {out : Option (ℕ × Bool × Bool × Bool × Bool)}
      → i + 4 ≤ rounded amount
      → Compared
          (i + 4)
          ((c₁ && same_byte m source dest amount (i + 0))
            && (c₂ && same_byte m source dest amount (i + 1))
            && (c₃ && same_byte m source dest amount (i + 2))
            && (c₄ && same_byte m source dest amount (i + 3)))
          out
      → Compared i (c₁ && c₂ && c₃ && c₄) out
  Compared-round i c₁ c₂ c₃ c₄ h rest = record {
    c₁ = rest.c₁;
    c₂ = rest.c₂;
    c₃ = rest.c₃;
    c₄ = rest.c₄;
    returns = rest.returns;
    meaning = (
      λ all.
          let (flags, later) = rest.meaning.0 all in
          let (before, p, q, r, s) = flags-regroup c₁ c₂ c₃ c₄ _ _ _ _ flags in
          (before, (Agree-four i h).1 (eq 0 p, eq 1 q, eq 2 r, eq 3 s, later)),
      λ both.
          let (p, q, r, s, later) = (Agree-four i h).0 both.1 in
          rest.meaning.1
            (flags-join c₁ c₂ c₃ c₄ _ _ _ _ both.0 (qe 0 p) (qe 1 q) (qe 2 r) (qe 3 s), later),
    );
  }
    where
      eq :
          (k : ℕ)
          → same_byte m source dest amount (i + k) ≡ true
          → m (dest + (i + k)) ≡ m (source + (i + k))
      eq k = (==_iff _ _).0

      qe :
          (k : ℕ)
          → m (dest + (i + k)) ≡ m (source + (i + k))
          → same_byte m source dest amount (i + k) ≡ true
      qe k = (==_iff _ _).1

  compare_blocks_lem :
      (fuel i : ℕ) (c₁ c₂ c₃ c₄ : Bool)
      → i % 4 ≡ 0
      → i ≤ rounded amount
      → rounded amount < i + 4 * fuel
      → Compared i (c₁ && c₂ && c₃ && c₄) (compare_blocks m source dest amount fuel i c₁ c₂ c₃ c₄)
  unfolding compare_blocks
  compare_blocks_lem zero i c₁ c₂ c₃ c₄ e lo hi = absurd (omega arith)
  compare_blocks_lem (suc fuel) i c₁ c₂ c₃ c₄ e lo hi = elim (dec_lt i amount) [
    | yes more ↦
        rw (lt→ltb i amount more, wrap more)
          (Compared-round i c₁ c₂ c₃ c₄ (omega arith)
            (compare_blocks_lem fuel (i + 4) _ _ _ _ (omega arith) (omega arith) (omega arith)))
    | no done ↦ rw (ltb-false i amount (omega arith)) (record {
      c₁ = c₁;
      c₂ = c₂;
      c₃ = c₃;
      c₄ = c₄;
      returns = let e' : i ≡ rounded amount = omega arith in rw (← e') refl;
      meaning = (λ all. (all, λ j l h. absurd (omega arith)), λ both. both.0);
    })
  ]
    where
      wrap : i < amount → u32 (i + 4) ≡ i + 4
      wrap h = omega arith

  compare_tail_lem :
      (fuel index : ℕ) (c₁ : Bool)
      → amount ≤ index
      → compare_tail m source dest amount (suc fuel) index c₁ ≡ some c₁
  unfolding compare_tail
  compare_tail_lem fuel index c₁ h = rw (ltb-false index amount h)

  -- If neither pointer is null and `Amount` is at most 2 ^ 32 - 4, `KiCompareMemory` ends within
  -- `Amount / 4 + 2` rounds with success, and its answer is whether the bytes agree up to `Amount`
  -- rounded up to a multiple of four.
  pub ki_compare_memory_lem :
      (fuel : ℕ) (val : Bool)
      → rounded amount < 4 * fuel
      → source ≢ 0
      → dest ≢ 0
      → (answer : Bool) × (ki_compare_memory fuel m source dest amount val
          ≡ some (Status.success, answer))
        × ((answer ≡ true) ↔ ((j : ℕ) → j < rounded amount → m (dest + j) ≡ m (source + j)))
  unfolding ki_compare_memory
  ki_compare_memory_lem zero val enough s d = absurd (omega arith)
  ki_compare_memory_lem (suc fuel) val enough s d =
      let r =
        compare_blocks_lem (suc fuel) 0 true true true true (omega arith) (omega arith)
          (omega arith) in
      (
        r.c₁ && r.c₂ && r.c₃ && r.c₄,
        rw
            (
              ne→== source 0 s,
              ne→== dest 0 d,
              r.returns,
              ◌>>=◌,
              compare_tail_lem fuel (rounded amount) r.c₁ (omega arith),
            )
            refl,
        (
          λ all j h. (r.meaning.0 all).1 j (omega arith) h,
          λ agree. r.meaning.1 (refl, λ j lo hi. agree j hi),
        ),
      )
