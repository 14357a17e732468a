-- ===== src/Multiboot/Tags.antt =====
-- The tags of the Multiboot2 information, as its specification lays them out in memory, and what the
-- loop of `kern_init` of kern/entry/mb2entry.c makes of them.
use Prim.Native.Nat.{max}
use mathlib.Core.Path.{subst}
use feral.Base.{
  ◌*◌, ◌≤◌, ◌&&◌, sym, u64, ltb, leb, ℕ, zero, suc, ◌+◌, ◌/◌, ◌^◌, ◌<◌, ◌≡◌, ◌≢◌, Bool, true, false,
  not, some, List, [], ◌∷◌, refl, ap, ◌∙◌, arith, ◌==◌, if◌then◌else◌, u16, u32, length, ne→==,
}
use feral.Base.Fault.{◌>>=◌}
use feral.Memory.{Bytes, load64}
use feral.Status.{is, code}
use feral.Strings.{char_at, IsLength, ki_get_string_length_lem}
use feral.Boot.Elf.{load32}
use feral.Startup.{MmStructureType, BootMemoryRange, usage_of, read_entries, handle_memory}
use feral.Multiboot.{
  BootState, entries, next_tag, with_command_line, with_bootloader_name, take_string,
  take_framebuffer, handle_tag, walk_tags, read_tags,
}

-- An entry of a memory map: where an area starts, how long it is, and its type.
pub record Area : Type 0 where
  pub start : ℕ
  pub long : ℕ
  pub type : ℕ

-- What a tag says: a string has its length, and the rest its contents.
pub data Meaning : Type 0 where
  command_line : ℕ → Meaning
  boot_loader : ℕ → Meaning
  memory_map : List Area → Meaning
  -- the address, the width, the height and the bits of a point
  frame_buffer : ℕ → ℕ → ℕ → ℕ → Meaning
  other : Meaning

-- A tag with the place that it begins at.
abbrev pub Tag : Type 0
Tag = ℕ × Meaning

-- The areas lie in memory one after the other, 24 bytes each.
abbrev pub Areas : Bytes → ℕ → List Area → Type 0
Areas m at [] = Unit
Areas m at (a ∷ rest) =
    (load64 m at ≡ a.start)
    × (load64 m (at + 8) ≡ a.long)
    × (load32 m (at + 16) ≡ a.type)
    × Areas m (at + 24) rest

module _ (m : Bytes) (bound : ℕ) where
  -- A string of this length.
  pub record IsText (at n : ℕ) : Type 0 where
    pub ends : IsLength (char_at m at) n
    pub short : n < 2 ^ 64
    pub in_bound : n < bound

  -- A memory map whose number of entries is its size over the one of an entry.
  pub record IsMap (at : ℕ) (areas : List Area) : Type 0 where
    pub entry_given : load32 m (at + 8) ≢ 0
    pub count : load32 m (at + 4) / load32 m (at + 8) ≡ length areas
    pub holds : Areas m (at + 16) areas

  pub record IsFrameBuffer (at address width height bits : ℕ) : Type 0 where
    pub is_address : load64 m (at + 8) ≡ address
    pub is_width : load32 m (at + 20) ≡ width
    pub is_height : load32 m (at + 24) ≡ height
    pub is_bits : m (at + 28) ≡ bits

  -- The tag at a place says that, by the numbers of the specification.
  abbrev pub Says : ℕ → Meaning → Type 0
  Says at (Meaning.command_line n) = (load32 m at ≡ 1) × IsText (at + 8) n
  Says at (Meaning.boot_loader n) = (load32 m at ≡ 2) × IsText (at + 8) n
  Says at (Meaning.memory_map areas) = (load32 m at ≡ 6) × IsMap at areas
  Says at (Meaning.frame_buffer address width height bits) =
      (load32 m at ≡ 8) × IsFrameBuffer at address width height bits
  Says at Meaning.other =
      (load32 m at < 2 ^ 16)
      × (load32 m at ≢ 0)
      × (load32 m at ≢ 1)
      × (load32 m at ≢ 2)
      × (load32 m at ≢ 6)
      × (load32 m at ≢ 8)

  -- The next tag begins at the first place behind this one that is a multiple of 8 away.
  pub record Follows (at next : ℕ) : Type 0 where
    pub units : ℕ
    pub is_next : next ≡ at + 8 * units
    pub behind : load32 m (at + 4) ≤ 8 * units
    pub first : 8 * units < load32 m (at + 4) + 8
    pub in_reach : next < 2 ^ 32

  -- The tags lie in memory from a place on, up to the end tag.
  abbrev pub Lie : ℕ → List Tag → Type 0
  Lie at [] = load32 m at ≡ 0
  Lie at ((place, v) ∷ tags) =
      (place ≡ at) × Says at v × ((next : ℕ) × Follows at next × Lie next tags)

-- What the contents of a tag ask for, at a place.
abbrev pub kind_of : ℕ → MmStructureType
kind_of type =
    if type == 1
    then MmStructureType.free_area_range
    else if leb 2 type && leb type 4
    then MmStructureType.reserved_area_range
    else MmStructureType.other_area_range

abbrev pub area_end : Area → ℕ
area_end a = u64 (a.start + a.long)

abbrev pub area_range : Area → BootMemoryRange
area_range a = record { usage = kind_of a.type; start = a.start; end = area_end a }

abbrev pub area_ranges : List Area → List BootMemoryRange
area_ranges [] = []
area_ranges (a ∷ areas) = area_range a ∷ area_ranges areas

-- The highest of a number and the ends of the areas.
abbrev pub highest_end : List Area → ℕ → ℕ
highest_end [] highest = highest
highest_end (a ∷ areas) highest = highest_end areas (max highest (area_end a))

abbrev pub asked : Tag → BootState → BootState
asked (at, Meaning.command_line zero) s = s
asked (at, Meaning.command_line (suc n)) s = record s { command_line = at + 8 }
asked (at, Meaning.boot_loader zero) s = s
asked (at, Meaning.boot_loader (suc n)) s = record s { bootloader_name = at + 8 }
asked (at, Meaning.memory_map areas) s = record s {
  memory_ranges = area_ranges areas;
  max_address = highest_end areas s.max_address;
}
asked (at, Meaning.frame_buffer address width height bits) s = record s {
  framebuffer = address;
  framebuffer_bpp = bits;
  framebuffer_height = height;
  framebuffer_width = width;
  framebuffer_text_only = false;
  num_displays = 1;
}
asked (at, Meaning.other) s = s

abbrev pub all_asked : List Tag → BootState → BootState
all_asked [] s = s
all_asked (tag ∷ tags) s = all_asked tags (asked tag s)

kind_of-usage_of : (type : ℕ) → usage_of type ≡ kind_of type
unfolding usage_of
kind_of-usage_of type = ground arith

raised : (highest end : ℕ) → (if ltb highest end then end else highest) ≡ max highest end
raised highest end = ground arith

read_entries-Areas :
    (m : Bytes) (at index highest : ℕ) (areas : List Area)
    → Areas m (at + 16 + 24 * index) areas
    → read_entries (entries m at) (length areas) index highest
      ≡ (area_ranges areas, highest_end areas highest)
unfolding read_entries
read_entries-Areas m at index highest [] holds = refl
read_entries-Areas m at index highest (a ∷ areas) (start, long, type, holds) =
    rw
      (
        start,
        long,
        type,
        kind_of-usage_of a.type,
        raised highest (area_end a),
        read_entries-Areas m at (index + 1) (max highest (area_end a)) areas
            (subst (λ p. Areas m p areas) (omega arith) holds),
      )
      refl

module _ (m : Bytes) (bound : ℕ) where
  Follows-next_tag : (at next : ℕ) → Follows m bound at next → next_tag m at ≡ next
  unfolding next_tag
  Follows-next_tag at next follows =
      omega (arith, follows.is_next, follows.behind, follows.first, follows.in_reach)

  take_string_lem :
      (at n : ℕ) (taken s : BootState)
      → at < 2 ^ 32
      → IsText m bound (at + 8) n
      → take_string bound m (u64 (at + 8)) taken s ≡ some (if n == 0 then s else taken)
  unfolding take_string is code
  take_string_lem at n taken s low text =
      let fits : u64 (at + 8) ≡ at + 8 = omega arith in
      rw
        (
          fits,
          ki_get_string_length_lem m (at + 8) n 0 bound (λ e. omega (arith, e)) text.ends text.short
              text.in_bound,
          ◌>>=◌,
        )
        (choice (n == 0))
    where
      choice : (b : Bool) → some (if not b then taken else s) ≡ some (if b then s else taken)
      choice true = refl
      choice false = refl

  handle_tag_lem :
      (at : ℕ) (v : Meaning) (s : BootState)
      → at < 2 ^ 32
      → Says m bound at v
      → handle_tag bound m at s ≡ some (asked (at, v) s)
  unfolding handle_tag handle_memory take_framebuffer
  handle_tag_lem at (Meaning.command_line zero) s low (type, text) =
      rw type (take_string_lem at 0 _ s low text)
  handle_tag_lem at (Meaning.command_line (suc n)) s low (type, text) =
      let fits : u64 (at + 8) ≡ at + 8 = omega arith in
      rw type (
        take_string_lem at (suc n) _ s low text
        ∙ rw (ne→== (suc n) 0 (omega arith)) (ap (λ p. some (with_command_line p s)) fits))
  handle_tag_lem at (Meaning.boot_loader zero) s low (type, text) =
      rw type (take_string_lem at 0 _ s low text)
  handle_tag_lem at (Meaning.boot_loader (suc n)) s low (type, text) =
      let fits : u64 (at + 8) ≡ at + 8 = omega arith in
      rw type (
        take_string_lem at (suc n) _ s low text
        ∙ rw (ne→== (suc n) 0 (omega arith)) (ap (λ p. some (with_bootloader_name p s)) fits))
  handle_tag_lem at (Meaning.memory_map areas) s low (type, map) =
      rw
        (
          type,
          ne→== (load32 m (at + 8)) 0 map.entry_given,
          map.count,
          read_entries-Areas m at 0 s.max_address areas
              (subst (λ p. Areas m p areas) (omega arith) map.holds),
        )
        refl
  handle_tag_lem at (Meaning.frame_buffer address width height bits) s low (type, buffer) =
      rw (type, buffer.is_address, buffer.is_width, buffer.is_height, buffer.is_bits) refl
  handle_tag_lem at Meaning.other s low (below, n0, n1, n2, n6, n8) =
      let short : u16 (load32 m at) ≡ load32 m at = omega arith in
      rw
        (
          short,
          ne→== (load32 m at) 1 n1,
          ne→== (load32 m at) 2 n2,
          ne→== (load32 m at) 6 n6,
          ne→== (load32 m at) 8 n8,
        )
        refl

  type_given : (at : ℕ) (v : Meaning) → Says m bound at v → load32 m at ≢ 0
  type_given at (Meaning.command_line n) says = omega (arith, says.0)
  type_given at (Meaning.boot_loader n) says = omega (arith, says.0)
  type_given at (Meaning.memory_map areas) says = omega (arith, says.0)
  type_given at (Meaning.frame_buffer address width height bits) says = omega (arith, says.0)
  type_given at Meaning.other (below, n0, n1, n2, n6, n8) = n0

  walk_tags_lem :
      (tags : List Tag) (fuel at : ℕ) (s : BootState)
      → Lie m bound at tags
      → length tags < fuel
      → walk_tags fuel bound m at s ≡ some (all_asked tags s)
  unfolding walk_tags
  walk_tags_lem tags zero at s lie enough = absurd (omega arith)
  walk_tags_lem [] (suc fuel) at s end enough = rw end refl
  walk_tags_lem ((place, v) ∷ tags) (suc fuel) at s (here, says, (next, follows, lie)) enough =
      let low : at < 2 ^ 32 = omega (arith, follows.is_next, follows.in_reach) in
      rw
        (
          ne→== (load32 m at) 0 (type_given at v says),
          handle_tag_lem at v s low says,
          ◌>>=◌,
          Follows-next_tag at next follows,
        )
        (walk_tags_lem tags fuel next (asked (at, v) s) lie (omega arith)
          ∙ ap (λ p. some (all_asked tags (asked (p, v) s))) (sym here))

  pub read_tags_lem :
      (tags : List Tag) (fuel mb_info : ℕ) (s : BootState)
      → mb_info + 8 < 2 ^ 32
      → Lie m bound (mb_info + 8) tags
      → length tags < fuel
      → read_tags fuel bound m mb_info s ≡ some (all_asked tags s)
  unfolding read_tags
  read_tags_lem tags fuel mb_info s low lie enough =
      let fits : u32 (mb_info + 8) ≡ mb_info + 8 = omega arith in
      rw fits (walk_tags_lem tags fuel (mb_info + 8) s lie enough)
