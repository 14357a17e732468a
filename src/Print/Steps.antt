-- ===== src/Print/Steps.antt =====
-- One piece of a format string in the loop of `KiPrintFmt`.
use feral.Base.{
  ℕ, suc, ◌+◌, ◌-◌, ◌^◌, ◌≤◌, ◌<◌, ◌≡◌, ◌≢◌, inl, inr, Bool, true, false, Option, some, List, [],
  ◌∷◌, ◌++◌, length, replicate, refl, ap, ◌∙◌, arith, Option-cases, ◌==◌, u8, u64, ne→==,
}
use feral.Base.Fault.{◌>>=◌}
use feral.Memory.{Bytes}
use feral.Status.{Status}
use feral.Strings.{char_at}
use feral.Print.{
  KrnlFirmwareFunctions, print_argument, takes_argument, convert, print_plain, fmt_round, fmt_loop,
}
use feral.Print.Chars.{&&-false, digit, takes_none, after_rounds}
use feral.Print.Pieces.{Op, Piece, spelled, passed, Holds, perform_all}
use feral.Print.Numerals.{>>=-assoc, repeat_vga_lem}

module _ {ℓ} {S : Type ℓ} (functions : KrnlFirmwareFunctions S) (bound place : ℕ) (m : Bytes)
    (fmt : ℕ) where
  abbrev pub loop : ℕ → List ℕ → ℕ → Bool → S → Option (Status × S)
  loop fuel = fmt_loop functions bound place fuel m fmt

  plain_round :
      (c fuel index : ℕ) (args : List ℕ) (ops : List Op) (s : S)
      → char_at m fmt index ≡ c
      → c ≢ 0
      → c ≢ b'%'
      → index + 1 < 2 ^ 64
      → print_plain functions bound place c s ≡ perform_all functions place ops s
      → loop (suc fuel) args index false s
        ≡ (perform_all functions place ops s >>= loop fuel args (index + 1) false)
  unfolding fmt_loop fmt_round
  plain_round c fuel index args ops s here given plain small prints =
      let next : u64 (index + 1) ≡ index + 1 = omega arith in
      rw (here, ne→== c 0 given, ne→== c b'%' plain, prints)
        (>>=-assoc (perform_all functions place ops s) _ _ ∙ rw next refl)

  percent_round :
      (fuel index : ℕ) (args : List ℕ) (s : S)
      → char_at m fmt index ≡ b'%'
      → index + 1 < 2 ^ 64
      → loop (suc fuel) args index false s ≡ loop fuel args (index + 1) true s
  unfolding fmt_loop fmt_round
  percent_round fuel index args s here small =
      let next : u64 (index + 1) ≡ index + 1 = omega arith in rw (here, next) refl

  conversion_round :
      (c fuel index index' : ℕ) (args args' : List ℕ) (ops : List Op) (s : S)
      → char_at m fmt index ≡ c
      → c ≢ 0
      → index' + 1 < 2 ^ 64
      → convert functions bound place m fmt c args index s
        ≡ (perform_all functions place ops s >>= (λ s'. some (args', index', s')))
      → loop (suc fuel) args index true s
        ≡ (perform_all functions place ops s >>= loop fuel args' (index' + 1) false)
  unfolding fmt_loop fmt_round
  conversion_round c fuel index index' args args' ops s here given small converts =
      let next : u64 (index' + 1) ≡ index' + 1 = omega arith in
      rw (here, ne→== c 0 given, &&-false (c == b'%'), converts)
        (elim (Option-cases (perform_all functions place ops s)) [
          | inl e ↦ rw e refl
          | inr (s', e) ↦ rw (e, next) refl
        ])

  -- The piece is in the loop what `ops` are.
  unfoldable pub Advances : ℕ → Piece → List Op → Type ℓ
  Advances index p ops =
      (rounds : ℕ) × (rounds ≤ length (spelled p))
      × ((fuel : ℕ) (args : List ℕ) (s : S)
          → loop (after_rounds rounds fuel) (passed p ++ args) index false s ≡ (
              perform_all functions place ops s
              >>= loop fuel args (index + length (spelled p)) false))

  pub plain-Advances :
      (p : Piece) (c index : ℕ) (ops : List Op)
      → spelled p ≡ c ∷ []
      → passed p ≡ []
      → char_at m fmt index ≡ c
      → c ≢ 0
      → c ≢ b'%'
      → index + 1 < 2 ^ 64
      → ((s : S) → print_plain functions bound place c s ≡ perform_all functions place ops s)
      → Advances index p ops
  unfolding Advances
  plain-Advances p c index ops spells takes here given plain small prints =
      rw (spells, takes)
        (
          1,
          omega arith,
          λ fuel args s. plain_round c fuel index args ops s here given plain small (prints s),
        )

  pub conversion-Advances :
      (p : Piece) (c index : ℕ) (ops : List Op)
      → spelled p ≡ b'%' ∷ c ∷ []
      → char_at m fmt index ≡ b'%'
      → char_at m fmt (index + 1) ≡ c
      → c ≢ 0
      → index + 2 < 2 ^ 64
      → ((args : List ℕ) (s : S)
          → convert functions bound place m fmt c (passed p ++ args) (index + 1) s
            ≡ (perform_all functions place ops s >>= (λ s'. some (args, index + 1, s'))))
      → Advances index p ops
  unfolding Advances
  conversion-Advances p c index ops spells at_percent here given small converts =
      let after : index + 1 + 1 ≡ index + 2 = omega arith in
      rw spells (
        2,
        omega arith,
        λ fuel args s.
            percent_round (suc fuel) index (passed p ++ args) s at_percent (omega arith)
            ∙ conversion_round c fuel (index + 1) (index + 1) (passed p ++ args) args ops s here
                given (omega arith) (converts args s)
            ∙ rw after refl,
      )

  argument_converts :
      (c v index : ℕ) (args : List ℕ) (ops : List Op) (s : S)
      → takes_argument c ≡ true
      → print_argument functions bound place m c v s ≡ perform_all functions place ops s
      → convert functions bound place m fmt c (v ∷ args) index s
        ≡ (perform_all functions place ops s >>= (λ s'. some (args, index, s')))
  unfolding convert
  argument_converts c v index args ops s takes prints = rw (takes, prints) refl

  -- A piece with one argument.
  pub argument-Advances :
      (p : Piece) (c v index : ℕ) (ops : List Op)
      → spelled p ≡ b'%' ∷ c ∷ []
      → passed p ≡ v ∷ []
      → Holds m (fmt + index) (b'%' ∷ c ∷ [])
      → takes_argument c ≡ true
      → c ≢ 0
      → index + 2 < 2 ^ 64
      → ((s : S) → print_argument functions bound place m c v s ≡ perform_all functions place ops s)
      → Advances index p ops
  argument-Advances p c v index ops spells takes (at_percent, (here, end)) takes_one given small
        prints =
      conversion-Advances p c index ops spells at_percent (ap m (omega arith) ∙ here) given small
        (λ args s. rw takes (argument_converts c v (index + 1) args ops s takes_one (prints s)))

  repeated_converts :
      (d c index : ℕ)
      → b'0' ≤ d
      → d ≤ b'9'
      → c ≢ 0
      → char_at m fmt (index + 2) ≡ c
      → index + 3 < 2 ^ 64
      → (args : List ℕ) (s : S)
      → convert functions bound place m fmt d args (index + 1) s ≡ (
          perform_all functions place (replicate (u8 (c + 256 - b'0')) (Op.vga d)) s
          >>= (λ s'. some (args, index + 2, s')))
  unfolding convert
  repeated_converts d c index lo hi present behind small args s =
      let next : u64 (index + 1 + 1) ≡ index + 2 = omega arith in
      rw
        (
          takes_none d (
            omega (arith, hi),
            omega (arith, hi),
            omega (arith, hi),
            omega (arith, hi),
            omega (arith, hi),
          ),
          ne→== d b'%' (omega (arith, lo)),
          digit d lo hi,
          next,
          behind,
          ne→== c 0 present,
          repeat_vga_lem functions bound place (u8 (c + 256 - b'0')) d s,
        )
        refl

  -- A digit takes the character behind it as well.
  pub repeated-Advances :
      (d c index : ℕ)
      → b'0' ≤ d
      → d ≤ b'9'
      → c ≢ 0
      → char_at m fmt index ≡ b'%'
      → char_at m fmt (index + 1) ≡ d
      → char_at m fmt (index + 2) ≡ c
      → index + 3 < 2 ^ 64
      → Advances index (Piece.repeated d c) (replicate (u8 (c + 256 - b'0')) (Op.vga d))
  unfolding Advances
  repeated-Advances d c index lo hi present at_percent here behind small =
      let after : index + 2 + 1 ≡ index + 3 = omega arith in
      (
        2,
        omega arith,
        λ fuel args s.
            percent_round (suc fuel) index args s at_percent (omega arith)
            ∙ conversion_round d fuel (index + 1) (index + 2) args args
                (replicate (u8 (c + 256 - b'0')) (Op.vga d)) s here (omega (arith, lo))
                (omega arith) (repeated_converts d c index lo hi present behind small args s)
            ∙ rw after refl,
      )
