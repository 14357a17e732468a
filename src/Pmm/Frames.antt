-- ===== src/Pmm/Frames.antt =====
-- What the bitmap of `MmState` says of each frame, and when it is well formed.
use native.Mathlib.Nat.{div-div-eq-div-mul, mul_comm, mul-div-le, mul-le-mul_right, mul-div_cancel}
use feral.Base.{
  ℕ, ◌*◌, ◌/◌, ◌%◌, ◌^◌, ◌<◌, ◌≡◌, Bool, true, false, not, arith, ◌==◌, if◌then◌else◌, length,
  get_or, set, u8, u64, ◌∙◌, length-set, get_or-set,
}
use feral.Base.Byte.{
  bit_of, with_bit, without_bit, bit_of-with_bit, bit_of-without_bit, with_bit-lt, without_bit-lt,
}
use feral.Pmm.{MemoryManagementState, base_addr, bit_num}

-- Whether frame number `frame` is marked as used; frames past the bitmap are not.
abbrev pub frame_in_use : MemoryManagementState → ℕ → Bool
frame_in_use st frame = not (bit_of (get_or st.bitmask_used_frames (frame / 8) 0) (frame % 8) == 0)

-- The frames that the bitmap has a bit for.
abbrev pub frame_count : MemoryManagementState → ℕ
frame_count st = 8 * length st.bitmask_used_frames

-- The state that `KiInitializeMemMgr` sets up: one bit for each whole group of eight frames
-- below the highest address, in bytes.
pub record IsValid (st : MemoryManagementState) : Type 0 where
  pub frame_size_pos : 0 < st.frame_size
  pub group_fits : 8 * st.frame_size < 2 ^ 64
  pub paddr_fits : st.max_paddr < 2 ^ 64
  pub one_bit_each : length st.bitmask_used_frames ≡ st.max_paddr / (8 * st.frame_size)
  pub bytes : (i : ℕ) → get_or st.bitmask_used_frames i 0 < 256

module _ {st : MemoryManagementState} (v : IsValid st) where
  -- The code's byte and bit are those of the location's frame number.
  pub base_addr_lem : (location : ℕ) → base_addr st location ≡ location / st.frame_size / 8
  base_addr_lem location = rw (group, div-div-eq-div-mul, mul_comm)
    where
      group : u64 (8 * st.frame_size) ≡ 8 * st.frame_size
      group = omega (arith, v.group_fits)

  pub bit_num_lem : (location : ℕ) → bit_num st location ≡ location / st.frame_size % 8
  bit_num_lem location = omega arith

  -- A frame of the bitmap begins below the highest address.
  pub frame-lt-max_paddr :
      (frame : ℕ) → frame < frame_count st → frame * st.frame_size < st.max_paddr
  frame-lt-max_paddr frame h = grind (
    arith,
    v.one_bit_each,
    v.frame_size_pos,
    mul-div-le st.max_paddr (8 * st.frame_size),
    mul-le-mul_right st.frame_size h,
  )

  pub frame-start-div : (frame : ℕ) → frame * st.frame_size / st.frame_size ≡ frame
  frame-start-div frame = mul-div_cancel frame v.frame_size_pos

-- The byte that holds frame `g`, and the state with another byte there.
abbrev pub byte_of : MemoryManagementState → ℕ → ℕ
byte_of st g = get_or st.bitmask_used_frames (g / 8) 0

abbrev pub stored : MemoryManagementState → ℕ → ℕ → MemoryManagementState
stored st g b = record st { bitmask_used_frames = set st.bitmask_used_frames (g / 8) (u8 b) }

-- Setting or clearing the bit of frame `g`, where the bitmap has one, is the update of the set
-- of used frames at `g`.
module _ (st : MemoryManagementState) (v : IsValid st) (g : ℕ) (h : g < frame_count st) where
  byte-with_bit :
      (frame b : ℕ)
      → get_or (stored st g b).bitmask_used_frames (frame / 8) 0
        ≡ (if frame / 8 == g / 8 then u8 b else get_or st.bitmask_used_frames (frame / 8) 0)
  byte-with_bit frame b =
      get_or-set st.bitmask_used_frames (g / 8) (frame / 8) (u8 b) 0 (omega arith)

  pub frame_in_use-with_bit :
      (frame : ℕ)
      → frame_in_use (stored st g (with_bit (byte_of st g) (g % 8))) frame
        ≡ (if frame == g then true else frame_in_use st frame)
  frame_in_use-with_bit frame = ground (
    arith,
    byte-with_bit frame (with_bit (byte_of st g) (g % 8)),
    with_bit-lt (byte_of st g) (g % 8) (v.bytes (g / 8)),
    bit_of-with_bit (byte_of st g) (g % 8) (v.bytes (g / 8)) (omega arith) (frame % 8),
  )

  pub frame_in_use-without_bit :
      (frame : ℕ)
      → frame_in_use (stored st g (without_bit (byte_of st g) (g % 8))) frame
        ≡ (if frame == g then false else frame_in_use st frame)
  frame_in_use-without_bit frame = ground (
    arith,
    byte-with_bit frame (without_bit (byte_of st g) (g % 8)),
    without_bit-lt (byte_of st g) (g % 8) (v.bytes (g / 8)),
    bit_of-without_bit (byte_of st g) (g % 8) (v.bytes (g / 8)) (omega arith) (frame % 8),
  )

  pub stored-IsValid : (b : ℕ) → IsValid (stored st g b)
  stored-IsValid b = record {
    frame_size_pos = v.frame_size_pos;
    group_fits = v.group_fits;
    paddr_fits = v.paddr_fits;
    one_bit_each = length-set st.bitmask_used_frames (g / 8) (u8 b) ∙ v.one_bit_each;
    bytes = λ i. ground (arith, v.bytes i, get_or-set st.bitmask_used_frames (g / 8) i (u8 b) 0);
  }
