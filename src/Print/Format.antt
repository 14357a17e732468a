-- ===== src/Print/Format.antt =====
-- `KiPrintFmt` of kern/lib/kernel_printfuncs.c against the description of format strings.
use mathlib.Core.Path.{subst}
use feral.Base.{
  ℕ, zero, suc, ◌+◌, ◌-◌, ◌^◌, ◌≤◌, ◌<◌, ◌≡◌, ◌≢◌, Bool, false, Option, some, List, [], ◌∷◌, ◌++◌,
  length, length-append, refl, ap, sym, ◌∙◌, fun_ext, arith, ne→==,
}
use feral.Base.Fault.{◌>>=◌}
use feral.Memory.{Bytes}
use feral.Status.{Status}
use feral.Strings.{char_at}
use feral.Print.{KrnlFirmwareFunctions, convert, fmt_round, fmt_loop, ki_print_fmt}
use feral.Print.Chars.{takes_none, digit, after_rounds, after_rounds_lem}
use feral.Print.Pieces.{
  Op, Piece, spelled, passed, passed_all, All, IsPiece, ShownAll, Holds, perform_all,
  perform_all-append,
}
use feral.Print.Numerals.{>>=-assoc}
use feral.Print.Steps.{loop, Advances}
use feral.Print.Advance.{advance}

-- A format string with its end.
abbrev pub format_of : List Piece → List ℕ
format_of [] = 0 ∷ []
format_of (p ∷ ps) = spelled p ++ format_of ps

Holds-append :
    (m : Bytes) (at : ℕ) (xs ys : List ℕ)
    → Holds m at (xs ++ ys)
    → Holds m at xs × Holds m (at + length xs) ys
Holds-append m at [] ys holds = (tt, subst (λ t. Holds m t ys) (omega arith) holds)
Holds-append m at (x ∷ xs) ys (here, rest) =
    let (front, back) = Holds-append m (at + 1) xs ys rest in
    ((here, front), subst (λ t. Holds m t ys) (omega arith) back)

module _ {ℓ} {S : Type ℓ} (functions : KrnlFirmwareFunctions S) (bound place : ℕ) (m : Bytes)
    (fmt : ℕ) where
  abbrev loop_from : ℕ → List ℕ → ℕ → Bool → S → Option (Status × S)
  loop_from = loop functions bound place m fmt

  advance_fuel :
      (p : Piece) (index fuel : ℕ) (args : List ℕ) (ops : List Op) (s : S) (n : ℕ)
      → Advances functions bound place m fmt index p ops
      → length (spelled p) + n ≤ fuel
      → (left : ℕ) × (n ≤ left)
        × (loop_from fuel (passed p ++ args) index false s ≡ (
            perform_all functions place ops s
            >>= loop_from left args (index + length (spelled p)) false))
  unfolding Advances
  advance_fuel p index fuel args ops s n (rounds, short, advances) enough =
      let e : after_rounds rounds (fuel - rounds) ≡ fuel =
        after_rounds_lem rounds (fuel - rounds) ∙ omega arith in
      (
        fuel - rounds,
        omega arith,
        subst
            (λ t. loop_from t (passed p ++ args) index false s ≡ (
              perform_all functions place ops s
              >>= loop_from (fuel - rounds) args (index + length (spelled p)) false))
            e (advances (fuel - rounds) args s),
      )

  module _ (given : place ≢ 0) (enough : 20 < bound) where
    -- From `index` on `ps` and the end of the string are left.
    loop_lem :
        (ps : List Piece) (index : ℕ)
        → All (IsPiece m bound) ps
        → Holds m (fmt + index) (format_of ps)
        → index + length (format_of ps) + 3 < 2 ^ 64
        → (ops : List Op) × ShownAll m ps ops
          × ((fuel : ℕ) (s : S)
              → length (format_of ps) ≤ fuel
              → loop_from fuel (passed_all ps) index false s
                ≡ (perform_all functions place ops s >>= (λ s'. some (Status.success, s'))))
    unfolding fmt_loop
    loop_lem [] index pieces (end, rest) small = ([], refl, ends)
      where
        ends :
            (fuel : ℕ) (s : S)
            → 1 ≤ fuel
            → loop_from fuel [] index false s ≡ some (Status.success, s)
        ends zero s h = absurd (omega arith)
        ends (suc fuel) s h = rw end refl
    loop_lem (p ∷ ps) index (piece, pieces) holds small =
        let sizes = length-append (spelled p) (format_of ps) in
        let (front, back) = Holds-append m (fmt + index) (spelled p) (format_of ps) holds in
        let (a, shown, advances) =
          advance functions bound place m fmt given enough p index piece front (omega arith) in
        let (b, shown_rest, runs) =
          loop_lem ps (index + length (spelled p)) pieces
            (subst (λ t. Holds m t (format_of ps)) (omega arith) back) (omega arith) in
        (
          a ++ b,
          (a, b, shown, shown_rest, refl),
          λ fuel s fits.
              let (left, more, run) =
                advance_fuel p index fuel (passed_all ps) a s (length (format_of ps)) advances
                  (omega arith) in
              run
              ∙ ap (λ k. perform_all functions place a s >>= k) (fun_ext (λ s'. runs left s' more))
              ∙ sym (
                  >>=-assoc (perform_all functions place a s) (perform_all functions place b)
                    (λ s'. some (Status.success, s')))
              ∙ ap (λ o. o >>= (λ s'. some (Status.success, s')))
                  (sym (perform_all-append functions place a b s)),
        )

    -- What is shown does not hang on the state.
    pub ki_print_fmt-always :
        (ps : List Piece)
        → All (IsPiece m bound) ps
        → Holds m fmt (format_of ps)
        → length (format_of ps) + 3 < 2 ^ 64
        → (ops : List Op) × ShownAll m ps ops
          × ((fuel : ℕ) (s : S)
              → length (format_of ps) ≤ fuel
              → ki_print_fmt functions bound place fuel m fmt (passed_all ps) s
                ≡ (perform_all functions place ops s >>= (λ s'. some (Status.success, s'))))
    unfolding ki_print_fmt
    ki_print_fmt-always ps pieces holds small =
        loop_lem ps 0 pieces (subst (λ t. Holds m t (format_of ps)) (omega arith) holds)
          (omega arith)

    -- For a format string in memory that is made of pieces, whose strings are shorter than the
    -- fuel, with the arguments that the pieces take, fuel for the length of the format and above
    -- 20 for the numbers, and a buffer that does not lie at 0, `KiPrintFmt` succeeds and calls the
    -- functions that print with what each piece shows, in order: a number is a text of at most 20
    -- characters, or 16 for the hexadecimal ones, that reads back as the argument.
    pub ki_print_fmt_lem :
        (ps : List Piece) (fuel : ℕ) (s : S)
        → All (IsPiece m bound) ps
        → Holds m fmt (format_of ps)
        → length (format_of ps) + 3 < 2 ^ 64
        → length (format_of ps) ≤ fuel
        → (ops : List Op) × ShownAll m ps ops
          × (ki_print_fmt functions bound place fuel m fmt (passed_all ps) s
              ≡ (perform_all functions place ops s >>= (λ s'. some (Status.success, s'))))
    unfolding ki_print_fmt
    ki_print_fmt_lem ps fuel s pieces holds small fits =
        let (ops, shown, runs) =
          loop_lem ps 0 pieces (subst (λ t. Holds m t (format_of ps)) (omega arith) holds)
            (omega arith) in
        (ops, shown, runs fuel s fits)

  -- For a format string of a percent sign and a digit, `KiPrintFmt` prints nothing for it and goes
  -- on with the character behind the end of the string.
  pub ki_print_fmt-overruns :
      (d fuel : ℕ) (args : List ℕ) (s : S)
      → b'0' ≤ d
      → d ≤ b'9'
      → Holds m fmt (b'%' ∷ d ∷ 0 ∷ [])
      → ki_print_fmt functions bound place (suc (suc fuel)) m fmt args s
        ≡ fmt_loop functions bound place fuel m fmt args 3 false s
  unfolding ki_print_fmt fmt_loop fmt_round convert
  ki_print_fmt-overruns d fuel args s lo hi (at_percent, (here, (end, rest))) =
      let at_start : char_at m fmt 0 ≡ b'%' = ap m (omega arith) ∙ at_percent in
      let then_digit : char_at m fmt 1 ≡ d = here in
      let then_end : char_at m fmt 2 ≡ 0 = ap m (omega arith) ∙ end in
      rw
        (
          at_start,
          then_digit,
          ne→== d 0 (omega arith),
          ne→== d b'%' (omega arith),
          takes_none d (
            omega (arith, hi),
            omega (arith, hi),
            omega (arith, hi),
            omega (arith, hi),
            omega (arith, hi),
          ),
          digit d lo hi,
          then_end,
        )
        refl
