-- ===== src/Print/Pieces.antt =====
-- What a format string is made of, and what printing each part of it comes to: an independent
-- description of `KiPrintFmt` of kern/lib/kernel_printfuncs.c.
use feral.Base.{
  ℕ, zero, suc, ◌+◌, ◌-◌, ◌^◌, ◌≤◌, ◌<◌, ◌≡◌, ◌≢◌, ◌⊎◌, Option, none, some, List, [], ◌∷◌, ◌++◌, u8,
  ltb, if◌then◌else◌, replicate, refl,
}
use feral.Base.Fault.{◌>>=◌}
use feral.Memory.{Bytes}
use feral.Strings.{char_at, IsLength}
use feral.Numbers.Itoa.{read_digits}
use feral.Print.{KrnlFirmwareFunctions, at_place, literal, sign_extend}

-- A call of one of the functions that print; `line` is `Println` of the empty string.
pub data Op : Type 0 where
  put : ℕ → Op
  vga : ℕ → Op
  line : Op

pub data Piece : Type 0 where
  plain : ℕ → Piece
  newline : Piece
  tab : Piece
  control : ℕ → Piece
  percent : Piece
  -- the string at an address, with its length
  text : ℕ → ℕ → Piece
  int32 : ℕ → Piece
  int64 : ℕ → Piece
  unsigned : ℕ → Piece
  hexadecimal : ℕ → Piece
  -- a digit, and the character behind it
  repeated : ℕ → ℕ → Piece
  unknown : ℕ → Piece

-- How it is spelled in the format string.
abbrev pub spelled : Piece → List ℕ
spelled (plain c) = c ∷ []
spelled newline = 10 ∷ []
spelled tab = 9 ∷ []
spelled (control c) = c ∷ []
spelled percent = b'%' ∷ b'%' ∷ []
spelled (text p n) = b'%' ∷ b's' ∷ []
spelled (int32 v) = b'%' ∷ b'i' ∷ []
spelled (int64 v) = b'%' ∷ b'l' ∷ []
spelled (unsigned v) = b'%' ∷ b'u' ∷ []
spelled (hexadecimal v) = b'%' ∷ b'x' ∷ []
spelled (repeated d c) = b'%' ∷ d ∷ c ∷ []
spelled (unknown c) = b'%' ∷ c ∷ []

-- The arguments that it takes.
abbrev pub passed : Piece → List ℕ
passed (text p n) = p ∷ []
passed (int32 v) = v ∷ []
passed (int64 v) = v ∷ []
passed (unsigned v) = v ∷ []
passed (hexadecimal v) = v ∷ []
passed _ = []

abbrev pub spelled_all : List Piece → List ℕ
spelled_all [] = []
spelled_all (p ∷ ps) = spelled p ++ spelled_all ps

abbrev pub passed_all : List Piece → List ℕ
passed_all [] = []
passed_all (p ∷ ps) = passed p ++ passed_all ps

-- When a piece stands for itself: `bound` is the fuel for the loops over its text.
abbrev pub IsPiece : Bytes → ℕ → Piece → Type 0
IsPiece m bound (plain c) = (b' ' ≤ c) × (c < 128) × (c ≢ b'%')
IsPiece m bound newline = Unit
IsPiece m bound tab = Unit
IsPiece m bound (control c) = ((c < b' ') ⊎ (128 ≤ c)) × (c ≢ 0) × (c ≢ 9) × (c ≢ 10)
IsPiece m bound percent = Unit
IsPiece m bound (text p n) = (p ≢ 0) × IsLength (char_at m p) n × (n < 2 ^ 64) × (n < bound)
IsPiece m bound (int32 v) = v < 2 ^ 64
IsPiece m bound (int64 v) = v < 2 ^ 64
IsPiece m bound (unsigned v) = v < 2 ^ 64
IsPiece m bound (hexadecimal v) = v < 2 ^ 64
IsPiece m bound (repeated d c) = (b'0' ≤ d) × (d ≤ b'9') × (c ≢ 0)
IsPiece m bound (unknown c) =
    (c ≢ 0)
    × (c ≢ b'%')
    × ((c < b'0') ⊎ (b'9' < c))
    × (c ≢ b's')
    × (c ≢ b'i')
    × (c ≢ b'l')
    × (c ≢ b'u')
    × (c ≢ b'x')

abbrev pub All {ℓ κ} : {A : Type ℓ} → (A → Type κ) → List A → Type κ
All P [] = Unit
All P (x ∷ xs) = P x × All P xs

-- The first `n` characters from index `i` on, each of them printed.
abbrev pub letters : (ℕ → ℕ) → ℕ → ℕ → List Op
letters at zero i = []
letters at (suc n) i = Op.put (at i) ∷ letters at n (i + 1)

-- A text of at most `most` characters that reads back as `v`.
abbrev pub IsNumeral : ℕ → ℕ → ℕ → List Op → Type 0
IsNumeral radix most v ops =
    (buf : Bytes) × (n : ℕ) × (n ≤ most)
    × IsLength buf n
    × (read_digits radix buf n 0 0 ≡ v)
    × (ops ≡ letters buf n 0)

-- A minus sign and the magnitude, for a bit pattern with the sign bit.
abbrev pub IsNegative : ℕ → List Op → Type 0
IsNegative v ops =
    (buf : Bytes) × (n : ℕ) × (n < 20)
    × IsLength buf (n + 1)
    × (buf 0 ≡ b'-')
    × (read_digits 10 buf n 1 0 ≡ 2 ^ 64 - v)
    × (ops ≡ letters buf (n + 1) 0)

abbrev pub IsSigned : ℕ → List Op → Type 0
IsSigned v ops = if ltb v (2 ^ 63) then IsNumeral 10 20 v ops else IsNegative v ops

-- What is printed for a piece.
abbrev pub Shown : Bytes → Piece → List Op → Type 0
Shown m (plain c) ops = ops ≡ Op.put c ∷ []
Shown m newline ops = ops ≡ Op.line ∷ []
Shown m tab ops = ops ≡ replicate 8 (Op.put b' ')
Shown m (control c) ops = ops ≡ []
Shown m percent ops = ops ≡ Op.put b'%' ∷ []
Shown m (text p n) ops = ops ≡ letters (char_at m p) n 0
Shown m (int32 v) ops = IsSigned (sign_extend v) ops
Shown m (int64 v) ops = IsSigned v ops
Shown m (unsigned v) ops = IsNumeral 10 20 v ops
Shown m (hexadecimal v) ops = IsNumeral 16 16 v ops
Shown m (repeated d c) ops = ops ≡ replicate (u8 (c + 256 - b'0')) (Op.vga d)
Shown m (unknown c) ops = ops ≡ []

abbrev pub ShownAll : Bytes → List Piece → List Op → Type 0
ShownAll m [] ops = ops ≡ []
ShownAll m (p ∷ ps) ops =
    (a : List Op) × (b : List Op) × Shown m p a × ShownAll m ps b × (ops ≡ a ++ b)

-- The characters stand in memory from `at` on.
abbrev pub Holds : Bytes → ℕ → List ℕ → Type 0
Holds m at [] = Unit
Holds m at (c ∷ cs) = (m at ≡ c) × Holds m (at + 1) cs

module _ {ℓ} {S : Type ℓ} (functions : KrnlFirmwareFunctions S) (place : ℕ) where
  abbrev pub perform : Op → S → Option S
  perform (Op.put c) s = functions.put_char c s
  perform (Op.vga c) s = functions.vga_put_char c s
  perform Op.line s = functions.println (at_place place (literal [])) place 0 s

  abbrev pub perform_all : List Op → S → Option S
  perform_all [] s = some s
  perform_all (op ∷ ops) s = perform op s >>= perform_all ops

  pub perform_all-append :
      (a b : List Op) (s : S) → perform_all (a ++ b) s ≡ (perform_all a s >>= perform_all b)
  perform_all-append [] b s = refl
  perform_all-append (op ∷ a) b s =
      elim (perform op s)
        as (λ o. (o >>= perform_all (a ++ b)) ≡ (o >>= perform_all a >>= perform_all b)) [
          | none ↦ refl
          | some s' ↦ perform_all-append a b s'
        ]
