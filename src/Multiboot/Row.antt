-- ===== src/Multiboot/Row.antt =====
-- `KiPrint` of kern/lib/kernel_printfuncs.c over the screen that kern/entry/mb2entry.c hands to the
-- kernel, on a row that has room for the string.
use mathlib.Core.Path.{subst}
use native.Mathlib.Decide.{ℕ_discrete}
use feral.Base.{
  ◌≢◌, ℕ, zero, suc, ◌+◌, ◌-◌, ◌*◌, ◌^◌, ◌≤◌, ◌<◌, ◌≡◌, ◌⊎◌, inl, true, Option, some, refl, ap, sym,
  ◌∙◌, arith, u8,
}
use feral.Base.Fault.{◌>>=◌}
use feral.Memory.{Bytes}
use feral.Status.{Status, is}
use feral.Strings.{char_at, IsLength, ki_get_string_length_lem}
use feral.Vga.{VgaContext, Screen}
use feral.Vga.Lines.{vga_put_char}
use feral.Print.{KrnlFirmwareFunctions, ki_put_char, put_chars, ki_print}
use feral.Multiboot.Letters.{cell, at_column, KeepsOthers, put_char-advances}
use feral.Multiboot.Screen.{internal_put_char, screen_functions}

module _ (fuel : ℕ) (some_fuel : 0 < fuel) (c : VgaContext) (on : c.cursor_enabled ≡ true)
    (row : c.current_row < c.screen_height) (fits : c.screen_width < 2 ^ 15)
    (flat : 2 * (c.screen_width + c.current_row * c.screen_width) ≤ 2 ^ 16) where
  cell-flat :
      (x : ℕ)
      → x < c.screen_width
      → cell x c ≡ c.swapped_buffer + 2 * (x + c.current_row * c.screen_width)
  cell-flat x below = omega arith

  -- A letter is put, and the next place is made ready.
  abbrev IsPut : ℕ → Screen → VgaContext → Type 0
  IsPut letter s d =
      (t : Screen) × (vga_put_char fuel letter s ≡ some t)
      × (t.context ≡ at_column (d.current_col + 1) d)
      × (t' : Screen) × (t'.memory (cell d.current_col d) ≡ u8 letter)
      × KeepsOthers (cell d.current_col d) s t'
      × KeepsOthers (cell (d.current_col + 1) d) t' t

  one_char :
      (letter col : ℕ) (s : Screen)
      → s.context ≡ at_column col c
      → col + 1 < c.screen_width
      → IsPut letter s (at_column col c)
  one_char letter col s e room = subst (IsPut letter s) e (
      put_char-advances fuel some_fuel letter s (subst (λ d. d.cursor_enabled ≡ true) (sym e) on)
        (subst (λ d. d.current_row < d.screen_height) (sym e) row)
        (subst (λ d. d.current_col + 1 < d.screen_width) (sym e) room)
        (subst (λ d. d.screen_width < 2 ^ 15) (sym e) fits))

  module _ (println : Bytes → ℕ → ℕ → Screen → Option Screen) (bound place : ℕ) (m : Bytes)
      (string : ℕ) where
    abbrev functions : KrnlFirmwareFunctions Screen
    functions = screen_functions fuel println

    -- The letter of an index is in its cell.
    abbrev IsShown : Screen → ℕ → ℕ → Type 0
    IsShown t col i = t.memory (cell col c) ≡ u8 (char_at m string i)

    IsShown-same : (t : Screen) (x x' y y' : ℕ) → x ≡ x' → y ≡ y' → IsShown t x y → IsShown t x' y'
    IsShown-same t x x' y y' ex ey shown =
        subst (λ x. IsShown t x y') ex (subst (λ y. IsShown t x y) ey shown)

    put_chars_lem :
        (left i col : ℕ) (s : Screen)
        → s.context ≡ at_column col c
        → col + left < c.screen_width
        → (t : Screen) × (put_chars functions bound place m string left i s ≡ some t)
          × (t.context ≡ at_column (col + left) c)
          × ((j : ℕ) → j < left → IsShown t (col + j) (i + j))
          × ((a : ℕ) → (a < cell col c) ⊎ (cell (col + left) c + 2 ≤ a) → t.memory a ≡ s.memory a)
    unfolding put_chars ki_put_char internal_put_char
    put_chars_lem zero i col s e room = (
      s,
      refl,
      e ∙ ap (λ x. at_column x c) (omega arith),
      (λ j lt. absurd (omega arith)),
      (λ a out. refl),
    )
    put_chars_lem (suc left) i col s e room =
        let (t₁, runs, next, t', shown, keeps, others) =
          one_char (char_at m string i) col s e (omega arith) in
        let (t, runs', last, letters, same) =
          put_chars_lem left (i + 1) (col + 1) t₁ next (omega arith) in
        let here = cell-flat col (omega arith) in
        let there = cell-flat (col + 1) (omega arith) in
        let end = cell-flat (col + 1 + left) (omega arith) in
        (
          t,
          rw (runs, ◌>>=◌) runs',
          last ∙ ap (λ x. at_column x c) (omega arith),
          (λ j lt. elim (ℕ_discrete j 0) [
            | yes e ↦ IsShown-same t col (col + j) i (i + j) (omega arith) (omega arith) (
                same (cell col c) (inl (omega arith))
                ∙ others (cell col c) (inl (omega arith))
                ∙ shown)
            | no ne ↦
                IsShown-same t (col + 1 + (j - 1)) (col + j) (i + 1 + (j - 1)) (i + j) (omega arith)
                  (omega arith) (letters (j - 1) (omega arith))
          ]),
          (λ a out. same a (omega arith) ∙ others a (omega arith) ∙ keeps a (omega arith)),
        )

module _ (fuel : ℕ) (some_fuel : 0 < fuel) (println : Bytes → ℕ → ℕ → Screen → Option Screen)
    (bound place : ℕ) (m : Bytes) (string n : ℕ) (given : string ≢ 0)
    (is_length : IsLength (char_at m string) n) (short : n < 2 ^ 64) (enough : n < bound) where
  -- Over the screen that the Multiboot entry hands to the kernel, with the cursor enabled, some
  -- fuel, and a row on the screen that has room for the string and lies in 64 KiB, for a string
  -- that is not null and shorter than the fuel for strings, `KiPrint` succeeds with the position
  -- moved on by the length of the string and nothing else of the context changed, with each letter
  -- in its cell, and with the memory around these cells and the one of the cursor as before.
  pub ki_print-row :
      (s : Screen)
      → s.context.cursor_enabled ≡ true
      → s.context.current_row < s.context.screen_height
      → s.context.current_col + n < s.context.screen_width
      → s.context.screen_width < 2 ^ 15
      → 2 * (s.context.screen_width + s.context.current_row * s.context.screen_width) ≤ 2 ^ 16
      → (j a : ℕ) → j < n
      → (a < cell s.context.current_col s.context)
        ⊎ (cell (s.context.current_col + n) s.context + 2 ≤ a)
      → (t : Screen) × (ki_print (screen_functions fuel println) bound place m string s
          ≡ some (Status.success, t))
        × (t.context ≡ at_column (s.context.current_col + n) s.context)
        × (t.memory (cell (s.context.current_col + j) s.context) ≡ u8 (char_at m string j))
        × (t.memory a ≡ s.memory a)
  unfolding ki_print is
  ki_print-row s on row room fits flat j a lt out =
      let (t, runs, last, letters, same) =
        put_chars_lem fuel some_fuel s.context on row fits flat println bound place m string n 0
          s.context.current_col s refl room in
      (
        t,
        rw
            (
              ki_get_string_length_lem m string n 0 bound given is_length short enough,
              ◌>>=◌,
              runs,
              ◌>>=◌,
            )
            refl,
        last,
        letters j lt ∙ ap (λ i. u8 (char_at m string i)) (omega arith),
        same a out,
      )
