-- ===== src/Vga/Blank.antt =====
-- What `KiBlankVgaScreen` of kern/arch/x86_64/vga/vga_driver.c leaves on the screen.
use mathlib.Core.Path.{subst}
use native.Mathlib.Nat.{mul-le-mul_right}
use feral.Base.{
  ℕ, zero, suc, ◌+◌, ◌*◌, ◌^◌, ◌≤◌, ◌<◌, ◌≡◌, ◌⊎◌, inl, inr, Option, some, refl, ap, ◌∙◌, arith, u8,
  u16, bit_or, ◌<<<◌, lt→ltb, ltb-false,
}
use native.Mathlib.Decide.{ℕ_discrete}
use feral.Vga.{VgaContext, Screen, put_entry, vga_set_current_position}
use feral.Vga.Lines.{blank_row, blank_rows, ki_blank_vga_screen}
use feral.Vga.Entry.{vga_entry-positive}

-- The color byte of a letter that has the color of its background.
abbrev pub square : ℕ → ℕ
square color = u8 (u16 (bit_or (color <<< 0) (color <<< 4)))

-- The cells from `lo` up to `hi` are blank, and the rest is as before.
pub record IsBlank (base color lo hi : ℕ) (s t : Screen) : Type 0 where
  pub letters : (i : ℕ) → lo ≤ i → i < hi → t.memory (base + 2 * i) ≡ 0
  pub colors : (i : ℕ) → lo ≤ i → i < hi → t.memory (base + 2 * i + 1) ≡ square color
  pub others : (a : ℕ) → (a < base + 2 * lo) ⊎ (base + 2 * hi ≤ a) → t.memory a ≡ s.memory a

IsBlank-none : (base color lo : ℕ) (s : Screen) → IsBlank base color lo lo s s
IsBlank-none base color lo s = record {
  letters = λ i l h. absurd (omega arith);
  colors = λ i l h. absurd (omega arith);
  others = λ a out. refl;
}

IsBlank-same :
    (base color lo lo' hi hi' : ℕ) (s t : Screen)
    → lo ≡ lo'
    → hi ≡ hi'
    → IsBlank base color lo hi s t
    → IsBlank base color lo' hi' s t
IsBlank-same base color lo lo' hi hi' s t el eh blank =
    subst (λ l. IsBlank base color l hi' s t) el (subst (λ h. IsBlank base color lo h s t) eh blank)

IsBlank-append :
    (base color lo mid hi : ℕ) (s t u : Screen)
    → lo ≤ mid
    → mid ≤ hi
    → IsBlank base color lo mid s t
    → IsBlank base color mid hi t u
    → IsBlank base color lo hi s u
IsBlank-append base color lo mid hi s t u le le' first second = record {
  letters = λ i l h. elim (split i) [
    | inl below ↦ second.others (base + 2 * i) (inl (omega arith)) ∙ first.letters i l below
    | inr above ↦ second.letters i above h
  ];
  colors = λ i l h. elim (split i) [
    | inl below ↦ second.others (base + 2 * i + 1) (inl (omega arith)) ∙ first.colors i l below
    | inr above ↦ second.colors i above h
  ];
  others = λ a out. second.others a (omega arith) ∙ first.others a (omega arith);
}
  where
    split : (i : ℕ) → (i < mid) ⊎ (mid ≤ i)
    split i = omega arith

module _ (fuel : ℕ) (some_fuel : 0 < fuel) (color : ℕ) (c : VgaContext)
    (fits : c.screen_width < 2 ^ 16) where
  abbrev with_col : ℕ → VgaContext
  with_col x = record c { current_col = x }

  -- The cells from `lo` up to `hi` are blank, and nothing but the column has changed.
  abbrev IsDone : ℕ → ℕ → Screen → Option Screen → Type 0
  IsDone lo hi s o =
      (t : Screen) × (x : ℕ) × (o ≡ some t)
      × (t.context ≡ with_col x)
      × IsBlank c.swapped_buffer color lo hi s t

  put_entry-IsBlank :
      (w h x : ℕ) (s : Screen)
      → s.context ≡ with_col x
      → w < c.screen_width
      → 2 * (h * c.screen_width + c.screen_width) ≤ 2 ^ 16
      → IsBlank c.swapped_buffer color
          (h * c.screen_width + w)
          (h * c.screen_width + w + 1)
          s
          (put_entry color color 0 w h s)
  unfolding put_entry
  put_entry-IsBlank w h x s e inside flat =
      let width : s.context.screen_width ≡ c.screen_width = ap (λ d. d.screen_width) e in
      let base : s.context.swapped_buffer ≡ c.swapped_buffer = ap (λ d. d.swapped_buffer) e in
      let index : u16 (2 * (w + h * c.screen_width)) ≡ 2 * (h * c.screen_width + w) = omega arith in
      record {
        letters = λ i l u. rw (width, base, index) (ground arith);
        colors = λ i l u. rw (width, base, index) (ground arith);
        others = λ a out. rw (width, base, index) (ground arith);
      }

  blank_row-suc :
      (left w h : ℕ) (s : Screen)
      → w < c.screen_width
      → h < s.context.screen_height
      → blank_row fuel (suc left) c.screen_width color h w s
        ≡ blank_row fuel left c.screen_width color h (w + 1) (put_entry color color 0 w h s)
  unfolding blank_row
  blank_row-suc left w h s inside row =
      let next : u16 (w + 1) ≡ w + 1 = omega arith in
      rw
        (
          lt→ltb w c.screen_width inside,
          vga_entry-positive fuel color color 0 w h s some_fuel row,
          next,
        )
        refl

  blank_row_lem :
      (left w h x : ℕ) (s : Screen)
      → s.context ≡ with_col x
      → h < c.screen_height
      → w ≤ c.screen_width
      → c.screen_width < left + w
      → 2 * (h * c.screen_width + c.screen_width) ≤ 2 ^ 16
      → IsDone
          (h * c.screen_width + w)
          (h * c.screen_width + c.screen_width)
          s
          (blank_row fuel left c.screen_width color h w s)
  unfolding blank_row put_entry
  blank_row_lem zero w h x s e row inside enough flat = absurd (omega arith)
  blank_row_lem (suc left) w h x s e row inside enough flat = elim (ℕ_discrete w c.screen_width) [
    | yes end ↦ (
      s,
      x,
      rw (ltb-false w c.screen_width (omega arith)) refl,
      e,
      subst
          (λ d.
            IsBlank c.swapped_buffer color (h * c.screen_width + w) (h * c.screen_width + d) s s)
          end (IsBlank-none c.swapped_buffer color (h * c.screen_width + w) s),
    )
    | no more ↦
        let height : s.context.screen_height ≡ c.screen_height = ap (λ d. d.screen_height) e in
        let (t, x', runs, same, blank) =
          blank_row_lem left (w + 1) h (u16 w) (put_entry color color 0 w h s)
            (ap {A = VgaContext} (λ d. record d { current_col = u16 w }) e) row (omega arith)
            (omega arith) flat in
        (
          t,
          x',
          blank_row-suc left w h s (omega arith) (omega arith) ∙ runs,
          same,
          IsBlank-append c.swapped_buffer color (h * c.screen_width + w)
              (h * c.screen_width + w + 1) (h * c.screen_width + c.screen_width) s
              (put_entry color color 0 w h s) t (omega arith) (omega arith)
              (put_entry-IsBlank w h x s e (omega arith) flat)
              (IsBlank-same c.swapped_buffer color (h * c.screen_width + (w + 1))
                (h * c.screen_width + w + 1) (h * c.screen_width + c.screen_width)
                (h * c.screen_width + c.screen_width) (put_entry color color 0 w h s) t
                (omega arith) refl blank),
        )
  ]

  blank_rows-suc :
      (left height h : ℕ) (s t : Screen)
      → h < height
      → height < 2 ^ 16
      → blank_row fuel fuel c.screen_width color h 0 s ≡ some t
      → blank_rows fuel (suc left) height c.screen_width color h s
        ≡ blank_rows fuel left height c.screen_width color (h + 1) t
  unfolding blank_rows
  blank_rows-suc left height h s t inside small runs =
      let next : u16 (h + 1) ≡ h + 1 = omega arith in rw (lt→ltb h height inside, next, runs) refl

  blank_rows_lem :
      (left height h x : ℕ) (s : Screen)
      → s.context ≡ with_col x
      → height ≤ c.screen_height
      → height < 2 ^ 16
      → h ≤ height
      → height < left + h
      → c.screen_width < fuel
      → 2 * (height * c.screen_width) ≤ 2 ^ 16
      → IsDone
          (h * c.screen_width)
          (height * c.screen_width)
          s
          (blank_rows fuel left height c.screen_width color h s)
  unfolding blank_rows
  blank_rows_lem zero height h x s e screen small inside enough room flat = absurd (omega arith)
  blank_rows_lem (suc left) height h x s e screen small inside enough room flat =
      elim (ℕ_discrete h height) [
        | yes end ↦ (
          s,
          x,
          rw (ltb-false h height (omega arith)) refl,
          e,
          subst (λ d. IsBlank c.swapped_buffer color (h * c.screen_width) (d * c.screen_width) s s)
              end (IsBlank-none c.swapped_buffer color (h * c.screen_width) s),
        )
        | no more ↦
            let product : (h + 1) * c.screen_width ≤ height * c.screen_width =
              mul-le-mul_right c.screen_width (omega arith) in
            let (t₁, x₁, runs₁, same₁, blank₁) =
              blank_row_lem fuel 0 h x s e (omega arith) (omega arith) (omega arith)
                (omega arith) in
            let (t, x', runs, same, blank) =
              blank_rows_lem left height (h + 1) x₁ t₁ same₁ screen small (omega arith)
                (omega arith) room flat in
            (
              t,
              x',
              blank_rows-suc left height h s t₁ (omega arith) small runs₁ ∙ runs,
              same,
              IsBlank-append c.swapped_buffer color (h * c.screen_width) ((h + 1) * c.screen_width)
                  (height * c.screen_width) s t₁ t (omega arith) product
                  (IsBlank-same c.swapped_buffer color (h * c.screen_width + 0) (h * c.screen_width)
                    (h * c.screen_width + c.screen_width) ((h + 1) * c.screen_width) s t₁
                    (omega arith) (omega arith) blank₁)
                  blank,
            )
      ]

-- For a height that is not above the screen's and a width that is the screen's, both below 2 ^ 16
-- and below the fuel, with all their cells in 64 KiB, `KiBlankVgaScreen` ends with the position at
-- row 0 and column 0, the color as the background and nothing else of the context changed: every
-- cell holds the letter 0 in the color on itself, and the memory outside of the cells is as
-- before.
pub ki_blank_vga_screen_lem :
    (fuel height color : ℕ) (s : Screen)
    → height ≤ s.context.screen_height
    → height < 2 ^ 16
    → s.context.screen_width < 2 ^ 16
    → 2 * (height * s.context.screen_width) ≤ 2 ^ 16
    → height < fuel
    → s.context.screen_width < fuel
    → (t : Screen) × (ki_blank_vga_screen fuel height s.context.screen_width color s ≡ some t)
      × (t.context ≡ record s.context { background = color; current_row = 0; current_col = 0 })
      × IsBlank s.context.swapped_buffer color 0 (height * s.context.screen_width) s t
unfolding ki_blank_vga_screen vga_set_current_position
ki_blank_vga_screen_lem fuel height color s screen small narrow flat rows room =
    let start : Screen = record s { context = record s.context { background = color } } in
    let (t, x, runs, same, blank) =
      blank_rows_lem fuel (omega arith) color start.context narrow fuel height 0
        s.context.current_col start refl screen small (omega arith) (omega arith) room flat in
    let whole =
      IsBlank-same s.context.swapped_buffer color (0 * s.context.screen_width) 0
        (height * s.context.screen_width) (height * s.context.screen_width) start t (omega arith)
        refl blank in
    (
      vga_set_current_position 0 0 t,
      rw runs refl,
      ap {A = VgaContext} (λ d. record d { current_row = 0; current_col = 0 }) same,
      record { letters = whole.letters; colors = whole.colors; others = whole.others },
    )
