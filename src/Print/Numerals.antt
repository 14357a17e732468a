-- ===== src/Print/Numerals.antt =====
-- The strings and numbers that `KiPrintFmt` prints: what each call comes to.
use mathlib.Core.Path.{subst}
use feral.Base.{
  ℕ, zero, suc, ◌+◌, ◌^◌, ◌≤◌, ◌<◌, ◌≡◌, ◌≢◌, inl, inr, Option, none, some, List, [], ◌∷◌, ltb,
  replicate, refl, ap, sym, fun_ext, arith, Option-cases, Bool-cases, ltb→le,
}
use feral.Base.Fault.{◌>>=◌}
use feral.Memory.{Bytes}
use feral.Status.{Status, is, code}
use feral.Strings.{char_at, IsLength, ki_get_string_length_lem}
use feral.Numbers.{ki_itoa, ki_itoa_signed, ki_itoa_base, internal_itoa, internal_signed_itoa}
use feral.Numbers.Itoa.{internal_itoa_base_change_lem}
use feral.Numbers.Signed.{internal_signed_itoa-negative}
use feral.Print.{
  KrnlFirmwareFunctions, at_place, literal, cleared, ki_put_char, put_chars, ki_print,
  ki_print_line, print_number, repeat_vga, print_times,
}
use feral.Print.Pieces.{Op, letters, perform, perform_all, IsNumeral, IsSigned}

pub >>=-assoc {ℓ κ μ} :
    {A : Type ℓ} {B : Type κ} {C : Type μ} (o : Option A) (f : A → Option B) (g : B → Option C)
    → (o >>= f >>= g) ≡ (o >>= (λ a. f a >>= g))
>>=-assoc none f g = refl
>>=-assoc (some a) f g = refl

pub >>=-some {ℓ} : {S : Type ℓ} (o : Option S) → (o >>= (λ s. some s)) ≡ o
>>=-some none = refl
>>=-some (some s) = refl

pub drop_status {ℓ} :
    {S : Type ℓ} (o : Option S)
    → (o >>= (λ s. some (Status.success, s)) >>= (λ (r : Status × S). some r.1)) ≡ o
drop_status none = refl
drop_status (some s) = refl

pub char_at-at_place : (place : ℕ) (buf : Bytes) → char_at (at_place place buf) place ≡ buf
char_at-at_place place buf = fun_ext (λ i. ap buf (omega arith))

module _ {ℓ} {S : Type ℓ} (functions : KrnlFirmwareFunctions S) (bound place : ℕ) where
  put_chars_lem :
      (m : Bytes) (string left i : ℕ) (s : S)
      → put_chars functions bound place m string left i s
        ≡ perform_all functions place (letters (char_at m string) left i) s
  unfolding put_chars ki_put_char
  put_chars_lem m string zero i s = refl
  put_chars_lem m string (suc left) i s =
      elim (Option-cases (functions.put_char (char_at m string i) s)) [
        | inl e ↦ rw e refl
        | inr (s', e) ↦ rw e (put_chars_lem m string left (i + 1) s')
      ]

  pub ki_print_lem :
      (m : Bytes) (string n : ℕ) (s : S)
      → string ≢ 0
      → IsLength (char_at m string) n
      → n < 2 ^ 64
      → n < bound
      → ki_print functions bound place m string s ≡ (
          perform_all functions place (letters (char_at m string) n 0) s
          >>= (λ s'. some (Status.success, s')))
  unfolding ki_print is code
  ki_print_lem m string n s given is_length small enough =
      rw
        (
          ki_get_string_length_lem m string n 0 bound given is_length small enough,
          ◌>>=◌,
          put_chars_lem m string n 0 s,
        )
        refl

  pub ki_print-place :
      (buf : Bytes) (n : ℕ) (s : S)
      → place ≢ 0
      → IsLength buf n
      → n < 2 ^ 64
      → n < bound
      → ki_print functions bound place (at_place place buf) place s
        ≡ (perform_all functions place (letters buf n 0) s >>= (λ s'. some (Status.success, s')))
  ki_print-place buf n s given is_length small enough =
      let e = char_at-at_place place buf in
      subst
        (λ t.
          ki_print functions bound place (at_place place buf) place s
          ≡ (perform_all functions place (letters t n 0) s >>= (λ s'. some (Status.success, s'))))
        e
        (ki_print_lem (at_place place buf) place n s given
          (subst (λ t. IsLength t n) (sym e) is_length) small enough)

  print_number_lem :
      (made : Option (Status × Bytes)) (buf : Bytes) (n : ℕ) (s : S)
      → made ≡ some (Status.success, buf)
      → place ≢ 0
      → IsLength buf n
      → n < 2 ^ 64
      → n < bound
      → print_number functions bound place made s ≡ perform_all functions place (letters buf n 0) s
  unfolding print_number
  print_number_lem made buf n s makes given is_length small enough =
      rw (makes, ◌>>=◌, ki_print-place buf n s given is_length small enough)
        (drop_status (perform_all functions place (letters buf n 0) s))

  -- What a conversion of a number prints.
  abbrev pub Prints : Option (Status × Bytes) → List Op → Type ℓ
  Prints made ops =
      (s : S) → print_number functions bound place made s ≡ perform_all functions place ops s

  module _ (given : place ≢ 0) (enough : 20 < bound) where
    print_base_lem :
        (radix most v : ℕ)
        → 1 < radix
        → radix ≤ 35
        → v < radix ^ most
        → 0 < most
        → most ≤ 20
        → (ops : List Op) × IsNumeral radix most v ops
          × Prints (ki_itoa_base bound v radix cleared) ops
    unfolding ki_itoa_base
    print_base_lem radix most v lo hi h pos le =
        let (n, buf, makes, short, is_length, reads) =
          internal_itoa_base_change_lem radix lo hi most bound v cleared h pos (omega arith) in
        (
          letters buf n 0,
          (buf, n, short, is_length, reads, refl),
          λ s.
              print_number_lem _ buf n s (rw makes refl) given is_length (omega arith)
                (omega arith),
        )

    pub print_unsigned_lem :
        (v : ℕ)
        → v < 2 ^ 64
        → (ops : List Op) × IsNumeral 10 20 v ops × Prints (ki_itoa bound v cleared) ops
    unfolding ki_itoa internal_itoa ki_itoa_base
    print_unsigned_lem v h =
        print_base_lem 10 20 v (omega arith) (omega arith) (omega arith) (omega arith) (omega arith)

    pub print_hexadecimal_lem :
        (v : ℕ)
        → v < 2 ^ 64
        → (ops : List Op) × IsNumeral 16 16 v ops × Prints (ki_itoa_base bound v 16 cleared) ops
    print_hexadecimal_lem v h =
        print_base_lem 16 16 v (omega arith) (omega arith) (omega arith) (omega arith) (omega arith)

    pub print_signed_lem :
        (v : ℕ)
        → v < 2 ^ 64
        → (ops : List Op) × IsSigned v ops × Prints (ki_itoa_signed bound v cleared) ops
    unfolding ki_itoa_signed internal_signed_itoa ki_itoa
    print_signed_lem v h = elim (Bool-cases (ltb v (2 ^ 63))) [
      | inl below ↦
          let (ops, shown, prints) = print_unsigned_lem v h in
          (ops, rw below shown, λ s. rw below (prints s))
      | inr above ↦
          let (n, buf, makes, short, is_length, minus, reads) =
            internal_signed_itoa-negative bound v cleared (ltb→le v (2 ^ 63) above) h
              (omega arith) in
          (
            letters buf (n + 1) 0,
            rw above (buf, n, short, is_length, minus, reads, refl),
            λ s.
                print_number_lem (ki_itoa_signed bound v cleared) buf (n + 1) s (rw makes refl)
                  given is_length (omega arith) (omega arith),
          )
    ]

  pub repeat_vga_lem :
      (n c : ℕ) (s : S)
      → repeat_vga functions bound place n c s
        ≡ perform_all functions place (replicate n (Op.vga c)) s
  unfolding repeat_vga
  repeat_vga_lem zero c s = refl
  repeat_vga_lem (suc n) c s =
      ap (λ k. functions.vga_put_char c s >>= k) (fun_ext (λ s'. repeat_vga_lem n c s'))

  pub print_times_lem :
      (n c : ℕ) (s : S)
      → place ≢ 0
      → 1 < bound
      → c ≢ 0
      → print_times functions bound place n (c ∷ []) s
        ≡ perform_all functions place (replicate n (Op.put c)) s
  unfolding print_times
  print_times_lem zero c s given enough printable = refl
  print_times_lem (suc n) c s given enough printable =
      rw (ki_print-place (literal (c ∷ [])) 1 s given one (omega arith) enough)
        (elim (Option-cases (functions.put_char c s)) [
          | inl e ↦ rw e refl
          | inr (s', e) ↦ rw e (print_times_lem n c s' given enough printable)
        ])
    where
      at_first : (i : ℕ) → i < 1 → literal (c ∷ []) i ≢ 0
      at_first zero h = printable
      at_first (suc i) h = absurd (omega arith)

      one : IsLength (literal (c ∷ [])) 1
      one = record { ends = refl; before = at_first }

  pub ki_print_line-empty :
      (s : S)
      → place ≢ 0
      → 0 < bound
      → ki_print_line functions bound place (at_place place (literal [])) place s
        ≡ (perform functions place Op.line s >>= (λ s'. some (Status.success, s')))
  unfolding ki_print_line is code
  ki_print_line-empty s given enough =
      rw
        (ki_get_string_length_lem (at_place place (literal [])) place 0 0 bound given none_left
          (omega arith) enough)
        refl
    where
      none_left : IsLength (char_at (at_place place (literal [])) place) 0
      none_left = record { ends = refl; before = λ i h. absurd (omega arith) }
