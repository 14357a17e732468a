-- ===== src/Startup/Manager.antt =====
-- The state that `KiInitializeMemMgr` leaves: the frame bitmap is well formed, and the frames in
-- use are the kernel's with the bitmap, and the heap's.
use mathlib.Core.Path.{subst}
use feral.Base.{
  ℕ, ◌+◌, ◌*◌, ◌/◌, ◌^◌, ◌≤◌, ◌<◌, ◌≡◌, Bool, false, ◌&&◌, ◌||◌, some, arith, refl, ap, ◌∙◌, u64,
  ltb, leb, ne→==, length-replicate,
}
use feral.Base.Fault.{◌>>=◌}
use feral.Paging.{Words}
use feral.Pmm.{MemoryManagementState}
use feral.Pmm.Frames.{IsValid, frame_in_use, frame_count}
use feral.Heap.{AllocatorState, mm_create_allocator_state}
use feral.Startup.{
  Outcome, MmCreateInfo, scan_ranges, mark_frames, heap_size, ki_initialize_mem_mgr,
}
use feral.Startup.Marking.{Marked, IsClear, mark_frames_lem}
use feral.Startup.Rounds.{
  rounds, rounds_past, cleared, empty_state, empty_state-IsValid, empty_state-free,
}

-- What `KiInitializeMemMgr` is given: `highest` is the end of the highest range, the kernel lies
-- below `marked_end`, where the loop that marks its frames stops, and everything that is marked has a
-- bit.
module _ (kernel_start : ℕ) (info : MmCreateInfo) where
  abbrev pub highest : ℕ
  highest = (scan_ranges info.ranges 0 0).1

  abbrev pub buffer_size : ℕ
  buffer_size = highest / u64 (8 * info.frame_size)

  abbrev pub marked_end : ℕ
  marked_end = info.safe_pmm_area + buffer_size

  abbrev pub heap_addr : ℕ
  heap_addr = marked_end + info.frame_size

  abbrev pub kernel_frames : ℕ
  kernel_frames = rounds info.frame_size kernel_start marked_end

  abbrev pub heap_frames : ℕ
  heap_frames = rounds info.frame_size heap_addr heap_size

  pub record IsReady : Type 0 where
    pub positive : 0 < info.frame_size
    pub group : 8 * info.frame_size < 2 ^ 64
    pub word : highest < 2 ^ 64
    pub kernel_below : kernel_start < marked_end
    pub bitmap_fits : marked_end ≤ 8 * buffer_size * info.frame_size
    pub heap_fits : heap_size ≤ 8 * buffer_size * info.frame_size
    pub no_wrap : heap_addr < 2 ^ 64
    pub heap_no_wrap : heap_size + info.frame_size ≤ 2 ^ 64

  -- The frames that are in use when the memory manager has started.
  abbrev pub taken_at_start : ℕ → Bool
  taken_at_start frame =
      (leb (kernel_start / info.frame_size) frame
        && ltb frame (kernel_start / info.frame_size + kernel_frames))
      || (leb (heap_addr / info.frame_size) frame
          && ltb frame (heap_addr / info.frame_size + heap_frames))

  module _ (ready : IsReady) where
    abbrev before : MemoryManagementState
    before = empty_state info.frame_size highest ready.positive ready.group ready.word

    before-IsValid : IsValid before
    before-IsValid =
        empty_state-IsValid info.frame_size highest ready.positive ready.group ready.word

    marked_end-fits : u64 marked_end ≡ marked_end
    marked_end-fits = let h = ready.no_wrap in omega arith

    heap_addr-fits : u64 heap_addr ≡ heap_addr
    heap_addr-fits = let h = ready.no_wrap in omega arith

    before-count : frame_count before ≡ 8 * buffer_size
    before-count = ap (λ t. 8 * t) (length-replicate buffer_size 0)

    kernel-IsClear : IsClear before marked_end kernel_start kernel_frames
    kernel-IsClear =
        cleared before marked_end kernel_start before-IsValid
          (λ frame h h'.
            empty_state-free info.frame_size highest ready.positive ready.group ready.word frame)
          (rw before-count ready.bitmap_fits) (omega (arith, ready.no_wrap))

    module _ (st : MemoryManagementState)
        (marked : Marked before st (kernel_start / info.frame_size) kernel_frames) where
      past : kernel_start / info.frame_size + kernel_frames ≤ heap_addr / info.frame_size
      past = rounds_past info.frame_size kernel_start marked_end ready.positive ready.kernel_below

      heap-free : (frame : ℕ) → heap_addr / st.frame_size ≤ frame → frame_in_use st frame ≡ false
      heap-free frame h =
          let h' : heap_addr / info.frame_size ≤ frame =
            subst (λ t. heap_addr / t ≤ frame) marked.same_size h in
          let free =
            empty_state-free info.frame_size highest ready.positive ready.group ready.word frame in
          let p = past in marked.in_use frame ∙ rw free (ground arith)

      heap-IsClear : IsClear st heap_size heap_addr heap_frames
      heap-IsClear =
          subst (λ s. IsClear st heap_size heap_addr (rounds s heap_addr heap_size))
            marked.same_size
            (cleared st heap_size heap_addr marked.valid (λ frame h h'. heap-free frame h)
              (rw (marked.same_count, before-count, marked.same_size) ready.heap_fits)
              (rw marked.same_size ready.heap_no_wrap))

    run_lem :
        (fuel : ℕ) (old : AllocatorState) (w : Words) (st st' : MemoryManagementState)
        → mark_frames fuel before marked_end kernel_start ≡ some (Outcome.running st)
        → mark_frames fuel st heap_size heap_addr ≡ some (Outcome.running st')
        → ki_initialize_mem_mgr fuel kernel_start info old w
          ≡ some (
            Outcome.running st',
            (mm_create_allocator_state 1 heap_addr heap_size w).0,
            (mm_create_allocator_state 1 heap_addr heap_size w).1,
          )
    unfolding ki_initialize_mem_mgr
    run_lem fuel old w st st' run run' =
        rw
          (
            ne→== (u64 (8 * info.frame_size)) 0 (omega (arith, ready.positive, ready.group)),
            marked_end-fits,
            run,
            ◌>>=◌,
            heap_addr-fits,
            run',
            ◌>>=◌,
          )
          refl

    used_lem :
        (st st' : MemoryManagementState)
        → Marked before st (kernel_start / info.frame_size) kernel_frames
        → Marked st st' (heap_addr / info.frame_size) heap_frames
        → (frame : ℕ) → frame_in_use st' frame ≡ taken_at_start frame
    used_lem st st' marked marked' frame =
        marked'.in_use frame
        ∙ rw
            (
              marked.in_use frame,
              empty_state-free info.frame_size highest ready.positive ready.group ready.word frame,
            )
            (ground arith)

    pub ki_initialize_mem_mgr_lem :
        (fuel : ℕ) (old : AllocatorState) (w : Words)
        → kernel_frames < fuel
        → heap_frames < fuel
        → (st : MemoryManagementState) × (ki_initialize_mem_mgr fuel kernel_start info old w
            ≡ some (
              Outcome.running st,
              (mm_create_allocator_state 1 heap_addr heap_size w).0,
              (mm_create_allocator_state 1 heap_addr heap_size w).1,
            ))
          × IsValid st
          × ((frame : ℕ) → frame_in_use st frame ≡ taken_at_start frame)
    ki_initialize_mem_mgr_lem fuel old w enough enough' =
        let (st₁, run₁, marked) =
          mark_frames_lem marked_end kernel_frames fuel before kernel_start enough kernel-IsClear in
        let (st₂, run₂, marked') =
          mark_frames_lem heap_size heap_frames fuel st₁ heap_addr enough'
            (heap-IsClear st₁ marked) in
        let marked₂ : Marked st₁ st₂ (heap_addr / info.frame_size) heap_frames =
          subst (λ s. Marked st₁ st₂ (heap_addr / s) heap_frames) marked.same_size marked' in
        (st₂, run_lem fuel old w st₁ st₂ run₁ run₂, marked₂.valid, used_lem st₁ st₂ marked marked₂)
