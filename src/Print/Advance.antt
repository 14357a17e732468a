-- ===== src/Print/Advance.antt =====
-- Each piece of a format string in the loop of `KiPrintFmt` of kern/lib/kernel_printfuncs.c.
use feral.Base.{
  ℕ, ◌+◌, ◌-◌, ◌^◌, ◌<◌, ◌≡◌, ◌≢◌, true, List, [], ◌∷◌, replicate, refl, ap, sym, ◌∙◌, arith, u8,
  ne→==,
}
use feral.Memory.{Bytes}
use feral.Strings.{char_at}
use feral.Print.{
  KrnlFirmwareFunctions, sign_extend, print_argument, takes_argument, convert, print_plain,
}
use feral.Print.Chars.{printable, unprintable, no_digit, takes_none, sign_extend-lt}
use feral.Print.Pieces.{
  Op, Piece, spelled, passed, IsPiece, Shown, Holds, letters, perform, perform_all,
}
use feral.Print.Numerals.{
  >>=-some, drop_status, ki_print_lem, print_signed_lem, print_unsigned_lem, print_hexadecimal_lem,
  print_times_lem, ki_print_line-empty,
}
use feral.Print.Steps.{
  Advances, plain-Advances, conversion-Advances, argument-Advances, repeated-Advances,
}

module _ {ℓ} {S : Type ℓ} (functions : KrnlFirmwareFunctions S) (bound place : ℕ) (m : Bytes)
    (fmt : ℕ) where
  module _ (given : place ≢ 0) (enough : 20 < bound) where
    abbrev Found : ℕ → Piece → Type ℓ
    Found index p =
        (ops : List Op) × Shown m p ops × Advances functions bound place m fmt index p ops

    number-Found :
        (p : Piece) (c v index : ℕ)
        → spelled p ≡ b'%' ∷ c ∷ []
        → passed p ≡ v ∷ []
        → Holds m (fmt + index) (b'%' ∷ c ∷ [])
        → takes_argument c ≡ true
        → c ≢ 0
        → index + 2 < 2 ^ 64
        → ((ops : List Op) × Shown m p ops
            × ((s : S)
                → print_argument functions bound place m c v s ≡ perform_all functions place ops s))
        → Found index p
    number-Found p c v index spells takes holds takes_one present small (ops, shown, prints) = (
      ops,
      shown,
      argument-Advances functions bound place m fmt p c v index ops spells takes holds takes_one
          present small prints,
    )

    pub advance :
        (p : Piece) (index : ℕ)
        → IsPiece m bound p
        → Holds m (fmt + index) (spelled p)
        → index + 3 < 2 ^ 64
        → (ops : List Op) × Shown m p ops × Advances functions bound place m fmt index p ops
    unfolding print_plain print_argument convert
    advance (Piece.plain c) index (lo, hi, other) (here, end) small = (
      Op.put c ∷ [],
      refl,
      plain-Advances functions bound place m fmt (Piece.plain c) c index (Op.put c ∷ []) refl refl
          here (omega (arith, lo)) other (omega arith)
          (λ s. rw (printable c lo hi) (sym (>>=-some (functions.put_char c s)))),
    )
    advance Piece.newline index piece (here, end) small = (
      Op.line ∷ [],
      refl,
      plain-Advances functions bound place m fmt Piece.newline 10 index (Op.line ∷ []) refl refl
          here (omega arith) (omega arith) (omega arith)
          (λ s. rw (ki_print_line-empty functions bound place s given (omega arith)) (
            drop_status (perform functions place Op.line s)
            ∙ sym (>>=-some (perform functions place Op.line s)))),
    )
    advance Piece.tab index piece (here, end) small = (
      replicate 8 (Op.put b' '),
      refl,
      plain-Advances functions bound place m fmt Piece.tab 9 index (replicate 8 (Op.put b' ')) refl
          refl here (omega arith) (omega arith) (omega arith)
          (λ s. print_times_lem functions bound place 8 b' ' s given (omega arith) (omega arith)),
    )
    advance (Piece.control c) index (out, n0, n9, n10) (here, end) small = (
      [],
      refl,
      plain-Advances functions bound place m fmt (Piece.control c) c index [] refl refl here n0
          (ground (arith, out)) (omega arith)
          (λ s. rw (unprintable c out, ne→== c 10 n10, ne→== c 9 n9) refl),
    )
    advance Piece.percent index piece (at_percent, (here, end)) small = (
      Op.put b'%' ∷ [],
      refl,
      conversion-Advances functions bound place m fmt Piece.percent b'%' index (Op.put b'%' ∷ [])
          refl at_percent (ap m (omega arith) ∙ here) (omega arith) (omega arith)
          (λ args s.
            rw (print_times_lem functions bound place 1 b'%' s given (omega arith) (omega arith))
              refl),
    )
    advance (Piece.text p n) index (present, is_length, short, fits) holds small = (
      letters (char_at m p) n 0,
      refl,
      argument-Advances functions bound place m fmt (Piece.text p n) b's' p index
          (letters (char_at m p) n 0) refl refl holds refl (omega arith) (omega arith)
          (λ s.
            rw (ki_print_lem functions bound place m p n s present is_length short fits)
              (drop_status (perform_all functions place (letters (char_at m p) n 0) s))),
    )
    advance (Piece.int32 v) index h holds small =
        number-Found (Piece.int32 v) b'i' v index refl refl holds refl (omega arith) (omega arith)
          (print_signed_lem functions bound place given enough (sign_extend v) (sign_extend-lt v))
    advance (Piece.int64 v) index h holds small =
        number-Found (Piece.int64 v) b'l' v index refl refl holds refl (omega arith) (omega arith)
          (print_signed_lem functions bound place given enough v h)
    advance (Piece.unsigned v) index h holds small =
        number-Found (Piece.unsigned v) b'u' v index refl refl holds refl (omega arith)
          (omega arith) (print_unsigned_lem functions bound place given enough v h)
    advance (Piece.hexadecimal v) index h holds small =
        number-Found (Piece.hexadecimal v) b'x' v index refl refl holds refl (omega arith)
          (omega arith) (print_hexadecimal_lem functions bound place given enough v h)
    advance (Piece.repeated d c) index (lo, hi, present) (at_percent, (here, (behind, end))) small =
        (
          replicate (u8 (c + 256 - b'0')) (Op.vga d),
          refl,
          repeated-Advances functions bound place m fmt d c index lo hi present at_percent
              (ap m (omega arith) ∙ here) (ap m (omega arith) ∙ behind) small,
        )
    advance (Piece.unknown c) index (n0, np, out, ns, ni, nl, nu, nx) (at_percent, (here, end))
          small =
        (
          [],
          refl,
          conversion-Advances functions bound place m fmt (Piece.unknown c) c index [] refl
              at_percent (ap m (omega arith) ∙ here) n0 (omega arith)
              (λ args s.
                rw (takes_none c (ns, ni, nl, nu, nx), ne→== c b'%' np, no_digit c out) refl),
        )
