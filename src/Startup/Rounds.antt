-- ===== src/Startup/Rounds.antt =====
-- How many rounds the loops of `KiInitializeMemMgr` in kern/mm/mmsetup.c take, and the bitmap before
-- them.
use native.Mathlib.Nat.{
  div-add-mod', mod-lt, mul-le-mul_right, div-lt_iff_lt-mul, add-mul-div_right, suc-mul, mul-div-le,
  zero-div, add-mul,
}
use native.Mathlib.Decide.{dec_lt}
use feral.Base.{
  ℕ, zero, suc, ◌+◌, ◌-◌, ◌*◌, ◌/◌, ◌^◌, ◌≤◌, ◌<◌, ◌≡◌, false, arith, refl, ap, ◌∙◌, u64, replicate,
  length-replicate, get_or,
}
use feral.Pmm.{MemoryManagementState}
use feral.Pmm.Frames.{IsValid, frame_in_use, frame_count}
use feral.Startup.Marking.{IsClear}

-- How many rounds a loop of that step takes.
abbrev pub rounds : ℕ → ℕ → ℕ → ℕ
rounds step index limit = (limit - index + step - 1) / step

module _ (step index limit : ℕ) (positive : 0 < step) where
  rounds_reach : limit ≤ index + rounds step index limit * step
  rounds_reach = omega (
    arith,
    div-add-mod' (limit - index + step - 1) step,
    mod-lt (limit - index + step - 1) positive,
  )

  -- The frame behind the last round is not above that of `limit + step`.
  pub rounds_past : index < limit → index / step + rounds step index limit ≤ (limit + step) / step
  rounds_past h = elim (dec_lt ((limit + step) / step) (index / step + rounds step index limit)) [
    | yes above ↦ absurd (
        omega (
          arith,
          (div-lt_iff_lt-mul {x = limit + step} {y = index / step + rounds step index limit}
                positive).0
              above,
          add-mul (index / step) (rounds step index limit) step,
          div-add-mod' index step,
          div-add-mod' (limit - index + step - 1) step,
        ))
    | no below ↦ omega (arith, below)
  ]

  rounds_before : (k : ℕ) → k < rounds step index limit → index + k * step < limit
  rounds_before k h = omega (
    arith,
    div-add-mod' (limit - index + step - 1) step,
    mul-le-mul_right {m = suc k} {n = rounds step index limit} step h,
    suc-mul k step,
  )

module _ (st : MemoryManagementState) (limit index : ℕ) (valid : IsValid st) where
  pub cleared :
      ((frame : ℕ)
        → index / st.frame_size ≤ frame
        → frame < frame_count st
        → frame_in_use st frame ≡ false)
      → limit ≤ frame_count st * st.frame_size
      → limit + st.frame_size ≤ 2 ^ 64
      → IsClear st limit index (rounds st.frame_size index limit)
  cleared free fits no_wrap = record {
    valid = valid;
    reached = rounds_reach st.frame_size index limit valid.frame_size_pos;
    not_before = rounds_before st.frame_size index limit valid.frame_size_pos;
    free = λ k h. free (index / st.frame_size + k) (omega arith) (inside k h);
    in_bitmap = inside;
    low = low;
    no_wrap = no_wrap;
  }
    where
      inside :
          (k : ℕ)
          → k < rounds st.frame_size index limit
          → index / st.frame_size + k < frame_count st
      inside k h = rw (← add-mul-div_right index k valid.frame_size_pos) (
          (div-lt_iff_lt-mul valid.frame_size_pos).1
            (omega (arith, rounds_before st.frame_size index limit valid.frame_size_pos k h)))

      low : limit ≤ st.max_paddr
      low = grind (arith, valid.one_bit_each, mul-div-le st.max_paddr (8 * st.frame_size))

get_or-replicate : (n i : ℕ) → get_or {A = ℕ} (replicate n 0) i 0 ≡ 0
get_or-replicate zero i = refl
get_or-replicate (suc n) zero = refl
get_or-replicate (suc n) (suc i) = get_or-replicate n i

-- The state before any frame is taken.
module _ (frame_size max_paddr : ℕ) (positive : 0 < frame_size) (group : 8 * frame_size < 2 ^ 64)
    (word : max_paddr < 2 ^ 64) where
  abbrev pub empty_state : MemoryManagementState
  empty_state = record {
    frame_size = frame_size;
    bitmask_used_frames = replicate (max_paddr / u64 (8 * frame_size)) 0;
    max_paddr = max_paddr;
  }

  pub empty_state-IsValid : IsValid empty_state
  empty_state-IsValid = record {
    frame_size_pos = positive;
    group_fits = group;
    paddr_fits = word;
    one_bit_each =
        length-replicate (max_paddr / u64 (8 * frame_size)) 0
        ∙ ap (λ t. max_paddr / t) (omega arith);
    bytes = λ i. omega (arith, get_or-replicate (max_paddr / u64 (8 * frame_size)) i);
  }

  pub empty_state-free : (frame : ℕ) → frame_in_use empty_state frame ≡ false
  empty_state-free frame =
      rw (get_or-replicate (max_paddr / u64 (8 * frame_size)) (frame / 8), zero-div) refl
