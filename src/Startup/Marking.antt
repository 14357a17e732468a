-- ===== src/Startup/Marking.antt =====
-- The loops of `KiInitializeMemMgr` that take frames: which frames are in use after them.
use native.Mathlib.Nat.{add-div_right, suc-mul, zero-mul, add-zero}
use feral.Base.{
  ℕ, zero, suc, ◌+◌, ◌*◌, ◌/◌, ◌%◌, ◌^◌, ◌≤◌, ◌<◌, ◌≡◌, true, false, ◌&&◌, some, arith, refl, sym,
  ap, ◌∙◌, if◌then◌else◌, u64, ltb, leb, lt→ltb, ltb-false, length-set,
}
use feral.Base.Byte.{with_bit}
use feral.Base.Fault.{◌>>=◌}
use feral.Status.{is, code}
use feral.Pmm.{MemoryManagementState}
use feral.Pmm.Frames.{
  IsValid, frame_in_use, frame_count, byte_of, stored, stored-IsValid, frame_in_use-with_bit,
}
use feral.Pmm.Allocate.{take_free}
use feral.Startup.{Outcome, mark_frames}

-- `st'` is `st` with the `n` frames from `first` on in use.
pub record Marked (st st' : MemoryManagementState) (first n : ℕ) : Type 0 where
  pub same_size : st'.frame_size ≡ st.frame_size
  pub same_paddr : st'.max_paddr ≡ st.max_paddr
  pub same_count : frame_count st' ≡ frame_count st
  pub valid : IsValid st'
  pub in_use :
      (frame : ℕ)
      → frame_in_use st' frame
        ≡ (if leb first frame && ltb frame (first + n) then true else frame_in_use st frame)

-- The loop has `n` rounds from `index` to `limit`, all of them on free frames of the bitmap.
pub record IsClear (st : MemoryManagementState) (limit index n : ℕ) : Type 0 where
  pub valid : IsValid st
  pub reached : limit ≤ index + n * st.frame_size
  pub not_before : (k : ℕ) → k < n → index + k * st.frame_size < limit
  pub free : (k : ℕ) → k < n → frame_in_use st (index / st.frame_size + k) ≡ false
  pub in_bitmap : (k : ℕ) → k < n → index / st.frame_size + k < frame_count st
  pub low : limit ≤ st.max_paddr
  pub no_wrap : limit + st.frame_size ≤ 2 ^ 64

module _ (st : MemoryManagementState) (limit index n : ℕ)
    (clear : IsClear st limit index (suc n)) where
  abbrev g : ℕ
  g = index / st.frame_size

  abbrev taken : MemoryManagementState
  taken = stored st g (with_bit (byte_of st g) (g % 8))

  inside : g < frame_count st
  inside = omega (arith, clear.in_bitmap 0 (omega arith))

  below : index < limit
  below = omega (arith, clear.not_before 0 (omega arith))

  taken-count : frame_count taken ≡ frame_count st
  taken-count = ap (λ t. 8 * t) (length-set st.bitmask_used_frames (g / 8) _)

  advanced : u64 (index + st.frame_size) ≡ index + st.frame_size
  advanced = let h = clear.no_wrap in let b = below in omega arith

  next_frame : (index + st.frame_size) / st.frame_size ≡ g + 1
  next_frame = add-div_right index clear.valid.frame_size_pos

  shifted : (k : ℕ) → g + 1 + k ≡ g + suc k
  shifted k = omega arith

  taken-IsClear : IsClear taken limit (index + st.frame_size) n
  taken-IsClear = record {
    valid = stored-IsValid st clear.valid g inside _;
    reached = omega (arith, clear.reached, suc-mul n st.frame_size);
    not_before =
        λ k h. omega (arith, clear.not_before (suc k) (omega arith), suc-mul k st.frame_size);
    free = λ k h.
        rw (next_frame, frame_in_use-with_bit st clear.valid g inside)
          (ground (arith, clear.free (suc k), shifted k));
    in_bitmap =
        λ k h. rw next_frame (omega (arith, taken-count, clear.in_bitmap (suc k) (omega arith)));
    low = clear.low;
    no_wrap = clear.no_wrap;
  }

module _ (limit : ℕ) where
  pub mark_frames_lem :
      (n fuel : ℕ) (st : MemoryManagementState) (index : ℕ)
      → n < fuel
      → IsClear st limit index n
      → (st' : MemoryManagementState) × (mark_frames fuel st limit index
          ≡ some (Outcome.running st'))
        × Marked st st' (index / st.frame_size) n
  unfolding mark_frames is code
  mark_frames_lem n zero st index h clear = absurd (omega arith)
  mark_frames_lem zero (suc fuel) st index h clear = (
    st,
    rw (ltb-false index limit (omega (arith, clear.reached, zero-mul st.frame_size))) refl,
    record {
      same_size = refl;
      same_paddr = refl;
      same_count = refl;
      valid = clear.valid;
      in_use = λ frame. ground arith;
    },
  )
  mark_frames_lem (suc n) (suc fuel) st index h clear =
      let (st', run, marked) =
        mark_frames_lem n fuel (taken st limit index n clear) (index + st.frame_size) (omega arith)
          (taken-IsClear st limit index n clear) in
      (
        st',
        rw
            (
              lt→ltb index limit (below st limit index n clear),
              take_free st clear.valid index
                  (omega (arith, below st limit index n clear, clear.low))
                  (inside st limit index n clear)
                  (sym (ap (frame_in_use st) (add-zero (index / st.frame_size)))
                    ∙ clear.free 0 (omega arith)),
              ◌>>=◌,
              advanced st limit index n clear,
            )
            run,
        record {
          same_size = marked.same_size;
          same_paddr = marked.same_paddr;
          same_count = marked.same_count ∙ taken-count st limit index n clear;
          valid = marked.valid;
          in_use = λ frame. used_after frame st' (marked.in_use frame);
        },
      )
    where
      used_after :
          (frame : ℕ) (st' : MemoryManagementState)
          → frame_in_use st' frame ≡ (
              if leb ((index + st.frame_size) / st.frame_size) frame
                && ltb frame ((index + st.frame_size) / st.frame_size + n)
              then true
              else frame_in_use (taken st limit index n clear) frame)
          → frame_in_use st' frame ≡ (
              if leb (index / st.frame_size) frame && ltb frame (index / st.frame_size + suc n)
              then true
              else frame_in_use st frame)
      used_after frame st' e =
          let moved = next_frame st limit index n clear in
          let here =
            frame_in_use-with_bit st clear.valid (index / st.frame_size)
              (inside st limit index n clear) frame in
          e ∙ rw (moved, here) (ground arith)
