-- ===== src/Pmm/Allocate.antt =====
-- `MmAllocatePhysFrame` and `MmLookupPhysFrame` against a set of used frame numbers.
use feral.Base.{
  ℕ, ◌/◌, ◌%◌, ◌≤◌, ◌<◌, ◌≡◌, Bool, true, false, not, ◌&&◌, some, arith, ◌==◌, if◌then◌else◌,
  get_or, u8, refl, ap, fun_ext, ltb-false, get_elem?-eq-get_or, Bool-cases, inl, inr, set-set,
  set-get_or, get_or-set_self, List, length-set,
}
use feral.Base.Byte.{with_bit, without_bit, bit_of-lt, without_bit-with_bit, with_bit-lt}
use feral.Status.{Status}
use feral.Pmm.{MemoryManagementState, mm_lookup_phys_frame, mm_allocate_phys_frame}
use feral.Pmm.Frames.{
  IsValid, frame_in_use, frame_count, base_addr_lem, bit_num_lem, byte_of, stored, stored-IsValid,
  frame_in_use-with_bit, frame_in_use-without_bit,
}

-- The frames in use, as a set of frame numbers, and what taking or giving one back does to it.
abbrev pub FrameSet : Type 0
FrameSet = ℕ → Bool

abbrev pub set_frame : FrameSet → ℕ → Bool → FrameSet
set_frame used g b frame = if frame == g then b else used frame

pub allocate_frame : FrameSet → ℕ → Bool → Status × FrameSet
allocate_frame used g status =
    if used g && status
    then (Status.memory_access_violation, used)
    else if not (used g) && not status
    then (Status.memory_access_violation, used)
    else (Status.success, set_frame used g status)

module _ (st : MemoryManagementState) (v : IsValid st) (location : ℕ)
    (low : location ≤ st.max_paddr) (inside : location / st.frame_size < frame_count st) where
  abbrev g : ℕ
  g = location / st.frame_size

  -- The branches of the code, with the byte that it reads.
  allocate_branches :
      (status : Bool)
      → mm_allocate_phys_frame st location status ≡ (
          if frame_in_use st g && not status
          then some (Status.success, stored st g (without_bit (byte_of st g) (g % 8)))
          else if not (frame_in_use st g) && status
          then some (Status.success, stored st g (with_bit (byte_of st g) (g % 8)))
          else some (Status.memory_access_violation, st))
  unfolding mm_allocate_phys_frame
  allocate_branches status =
      rw
        (
          ltb-false st.max_paddr location low,
          base_addr_lem v location,
          bit_num_lem v location,
          get_elem?-eq-get_or st.bitmask_used_frames (g / 8) 0 (omega arith),
        )
        refl

  -- Taking a free frame sets its bit.
  pub take_free :
      frame_in_use st g ≡ false
      → mm_allocate_phys_frame st location true
        ≡ some (Status.success, stored st g (with_bit (byte_of st g) (g % 8)))
  take_free free = rw (allocate_branches true, free) refl

  -- A frame in use is not taken again.
  pub take_used :
      frame_in_use st g ≡ true
      → mm_allocate_phys_frame st location true ≡ some (Status.memory_access_violation, st)
  take_used in_use = rw (allocate_branches true, in_use) refl

  -- On a well formed state, for a location that is at most the highest address and whose frame
  -- lies in the bitmap, `MmAllocatePhysFrame` returns the status and makes the change to the set
  -- of used frames that `allocate_frame` says, and the state stays well formed.
  pub mm_allocate_phys_frame_refines :
      (status : Bool)
      → (st' : MemoryManagementState) × (mm_allocate_phys_frame st location status
          ≡ some ((allocate_frame (frame_in_use st) g status).0, st'))
        × (frame_in_use st' ≡ (allocate_frame (frame_in_use st) g status).1)
        × IsValid st'
  unfolding allocate_frame
  mm_allocate_phys_frame_refines true = elim (Bool-cases (frame_in_use st g)) [
    | inl used ↦ (st, rw (allocate_branches true, used) refl, rw used refl, v)
    | inr free ↦ (
      stored st g (with_bit (byte_of st g) (g % 8)),
      rw (allocate_branches true, free) refl,
      rw free (fun_ext (frame_in_use-with_bit st v g inside)),
      stored-IsValid st v g inside _,
    )
  ]
  mm_allocate_phys_frame_refines false = elim (Bool-cases (frame_in_use st g)) [
    | inl used ↦ (
      stored st g (without_bit (byte_of st g) (g % 8)),
      rw (allocate_branches false, used) refl,
      rw used (fun_ext (frame_in_use-without_bit st v g inside)),
      stored-IsValid st v g inside _,
    )
    | inr free ↦ (st, rw (allocate_branches false, free) refl, rw free refl, v)
  ]

  -- On a well formed state, for a location that is at most the highest address and whose frame
  -- lies in the bitmap, `MmLookupPhysFrame` succeeds and reports whether the frame is in use.
  pub mm_lookup_phys_frame_lem :
      (out : ℕ)
      → mm_lookup_phys_frame st location out
        ≡ some (Status.success, if frame_in_use st g then 1 else 0)
  unfolding mm_lookup_phys_frame
  mm_lookup_phys_frame_lem out =
      rw
        (
          ltb-false st.max_paddr location low,
          base_addr_lem v location,
          bit_num_lem v location,
          get_elem?-eq-get_or st.bitmask_used_frames (g / 8) 0 (omega arith),
        )
        (ground
          (arith, bit_of-lt (get_or st.bitmask_used_frames (g / 8) 0) (g % 8) (v.bytes (g / 8))))

-- The byte with a bit set and cleared again, at its place in the bitmap.
restored :
    (st : MemoryManagementState) (g : ℕ)
    → IsValid st
    → g < frame_count st
    → frame_in_use st g ≡ false
    → let taken = stored st g (with_bit (byte_of st g) (g % 8)) in
      stored taken g (without_bit (byte_of taken g) (g % 8)) ≡ st
restored st g v h free =
    ap (λ (t : List ℕ). record st { bitmask_used_frames = t })
      (rw (get_or-set_self bm (g / 8) (u8 (with_bit c (g % 8))) 0 (omega arith), set-set, same)
        (set-get_or bm (g / 8) 0))
  where
    bm : List ℕ
    bm = st.bitmask_used_frames

    c : ℕ
    c = get_or bm (g / 8) 0

    same : u8 (without_bit (u8 (with_bit c (g % 8))) (g % 8)) ≡ c
    same = ground (
      arith,
      with_bit-lt c (g % 8) (v.bytes (g / 8)) (omega arith),
      without_bit-with_bit c (g % 8) (v.bytes (g / 8)) (omega arith),
      v.bytes (g / 8),
    )

-- On a well formed state, for a free frame of the bitmap whose location is at most the highest
-- address, taking the frame and giving it back both succeed, and the state is what it was.
pub free-allocate :
    {st : MemoryManagementState} (v : IsValid st) (location : ℕ)
    → location ≤ st.max_paddr
    → location / st.frame_size < frame_count st
    → frame_in_use st (location / st.frame_size) ≡ false
    → (st' : MemoryManagementState) × (mm_allocate_phys_frame st location true
        ≡ some (Status.success, st'))
      × (mm_allocate_phys_frame st' location false ≡ some (Status.success, st))
free-allocate {st} v location low inside free = (
  taken,
  rw (allocate_branches st v location low inside true, free) refl,
  rw (allocate_branches taken taken_v location low inside' false, in_use)
      (ap (λ (t : MemoryManagementState). some (Status.success, t)) (restored st g v inside free)),
)
  where
    g : ℕ
    g = location / st.frame_size

    taken : MemoryManagementState
    taken = stored st g (with_bit (byte_of st g) (g % 8))

    taken_v : IsValid taken
    taken_v = stored-IsValid st v g inside _

    inside' : location / st.frame_size < frame_count taken
    inside' =
        omega
          (arith, length-set st.bitmask_used_frames (g / 8) (u8 (with_bit (byte_of st g) (g % 8))))

    in_use : frame_in_use taken (location / st.frame_size) ≡ true
    in_use = ground (arith, frame_in_use-with_bit st v g inside g)
