-- ===== src/Numbers/Itoa.antt =====
-- `internalItoaBaseChange`: the text that it writes reads back as the number, for each radix that
-- its digits can spell.
use native.Mathlib.Nat.{
  pow-suc, div-add-mod, mod-lt, div-lt_iff_lt-mul, mul_comm, le_refl, pow-zero,
}
use native.Mathlib.Numerals.{add-one}
use mathlib.Core.Path.{subst}
use native.Mathlib.Decide.{ℕ_discrete}
use feral.Base.{
  ℕ, zero, suc, ◌+◌, ◌-◌, ◌*◌, ◌/◌, ◌%◌, ◌^◌, ◌≤◌, ◌<◌, ◌≡◌, ◌≢◌, ◌&&◌, ◌||◌, Option, some, arith,
  refl, fun_ext, ap, ◌∙◌, sym, ltb, leb, if◌then◌else◌, u8, ne→==,
}
use feral.Base.Fault.{◌>>=◌}
use feral.Memory.{Bytes, write}
use feral.Strings.{IsLength}
use feral.Numbers.{digit_char, emit, swap, flip, internal_itoa_base_change}

-- The digit that a character stands for: 0 to 9, then a to y.
abbrev pub digit_value : ℕ → ℕ
digit_value c = if ltb c b'a' then c - b'0' else c - b'a' + 10

digit_char_lem :
    (rem : ℕ) → rem < 35 → (digit_value (digit_char (u8 rem)) ≡ rem) × (digit_char (u8 rem) ≢ 0)
unfolding digit_char
digit_char_lem rem h = (ground arith, ground arith)

-- The number that the first `n` characters spell, the last digit first.
abbrev pub reversed_value : ℕ → Bytes → ℕ → ℕ
reversed_value radix buf zero = 0
reversed_value radix buf (suc n) = reversed_value radix buf n + radix ^ n * digit_value (buf n)

-- The number that `n` characters from `i` on spell, read from the left behind `acc`.
abbrev pub read_digits : ℕ → Bytes → ℕ → ℕ → ℕ → ℕ
read_digits radix buf zero i acc = acc
read_digits radix buf (suc n) i acc =
    read_digits radix buf n (i + 1) (acc * radix + digit_value (buf i))

pub reversed_value-write :
    (radix : ℕ) (buf : Bytes) (at v n : ℕ)
    → n ≤ at
    → reversed_value radix (write buf at v) n ≡ reversed_value radix buf n
reversed_value-write radix buf at v zero h = refl
reversed_value-write radix buf at v (suc n) h =
    ground (arith, reversed_value-write radix buf at v n)

-- The characters with the first and last `i` of the `len` in reverse order.
abbrev flipped : ℕ → ℕ → Bytes → Bytes
flipped len i b = λ j. if ltb j len && (ltb j i || leb (len - i) j) then b (len - j - 1) else b j

flip_round :
    (len i : ℕ) (b : Bytes) → i < len / 2 → swap len i (flipped len i b) ≡ flipped len (i + 1) b
flip_round len i b h = fun_ext λ j. ground arith

flip_lem :
    (len left i : ℕ) (b : Bytes)
    → i + left ≡ len / 2
    → flip len left i (flipped len i b) ≡ flipped len (len / 2) b
unfolding flip
flip_lem len zero i b h = ap (λ (t : ℕ). flipped len t b) (omega arith)
flip_lem len (suc left) i b h =
    rw (flip_round len i b (omega arith)) (flip_lem len left (i + 1) b (omega arith))

flip-reverses :
    (len : ℕ) (b : Bytes)
    → flip len (len / 2) 0 b ≡ (λ j. if ltb j len then b (len - j - 1) else b j)
flip-reverses len b =
    subst (λ t. flip len (len / 2) 0 t ≡ (λ j. if ltb j len then b (len - j - 1) else b j)) start
      (flip_lem len (len / 2) 0 b (omega arith) ∙ end)
  where
    start : flipped len 0 b ≡ b
    start = fun_ext λ j. ground arith

    end : flipped len (len / 2) b ≡ (λ j. if ltb j len then b (len - j - 1) else b j)
    end = fun_ext λ j. middle j
      where
        middle : (j : ℕ) → flipped len (len / 2) b j ≡ (if ltb j len then b (len - j - 1) else b j)
        middle j = elim (ℕ_discrete j (len - j - 1)) [
          | yes same ↦ ground (arith, ap b same)
          | no ne ↦ ground arith
        ]

-- Reading the reversed characters from the left gives the number that they spell.
pub read_digits-reverse :
    (radix len : ℕ) (r b : Bytes)
    → ((j : ℕ) → j < len → r j ≡ b (len - j - 1))
    → (n i acc : ℕ) → n + i ≡ len
    → read_digits radix r n i acc ≡ acc * radix ^ n + reversed_value radix b n
read_digits-reverse radix len r b rev zero i acc e =
    omega (arith, ap (λ (t : ℕ). acc * t) (pow-zero radix))
read_digits-reverse radix len r b rev (suc n) i acc e =
    read_digits-reverse radix len r b rev n (i + 1) (acc * radix + digit_value (r i)) (omega arith)
    ∙ omega (
      arith,
      ap (λ (t : ℕ). acc * t) (pow-suc radix n),
      ap (λ (t : ℕ). radix ^ n * digit_value t) (rev i (omega arith) ∙ ap b last),
    )
  where
    last : len - i - 1 ≡ n
    last = omega arith

-- What the second loop and the last store make of `len` characters.
abbrev pub text : ℕ → Bytes → Bytes
text len digits = write (flip len (len / 2) 0 digits) len 0

pub text_at :
    (len : ℕ) (digits : Bytes) (j : ℕ) → j < len → text len digits j ≡ digits (len - j - 1)
text_at len digits j below = rw (flip-reverses len digits) (ground arith)

pub text-IsLength :
    (len : ℕ) (digits : Bytes) → ((i : ℕ) → i < len → digits i ≢ 0) → IsLength (text len digits) len
text-IsLength len digits nonzero = record {
  ends = ground arith;
  before = λ i below e. nonzero (len - i - 1) (omega arith) (sym (text_at len digits i below) ∙ e);
}

module _ (radix : ℕ) (two : 2 ≤ radix) (spelled : radix ≤ 35) where
  pub record Emitted (v len k : ℕ) (buf : Bytes) (out : Option (ℕ × Bytes)) : Type 0 where
    pub new_len : ℕ
    pub digits : Bytes
    pub returns : out ≡ some (new_len, digits)
    pub short : new_len ≤ len + k
    pub longer : len ≤ new_len
    pub value : reversed_value radix digits new_len ≡ reversed_value radix buf len + radix ^ len * v
    pub chars : (i : ℕ) → i < new_len → (i < len → buf i ≢ 0) → digits i ≢ 0

  Emitted-done : (v len k : ℕ) (buf : Bytes) → v ≡ 0 → Emitted v len k buf (some (len, buf))
  Emitted-done v len k buf e = record {
    new_len = len;
    digits = buf;
    returns = refl;
    short = omega arith;
    longer = omega arith;
    value = omega (arith, ap (λ (t : ℕ). radix ^ len * t) e);
    chars = λ i h old. old h;
  }

  -- One round adds the lowest digit at its weight.
  round_value :
      (v len : ℕ) (buf : Bytes)
      → reversed_value radix (write buf len (digit_char (u8 (v % radix)))) (len + 1)
          + radix ^ (len + 1) * (v / radix)
        ≡ reversed_value radix buf len + radix ^ len * v
  round_value v len buf = rw add-one (
      omega (
        arith,
        reversed_value-write radix buf len (digit_char (u8 (v % radix))) len (le_refl _),
        ap (λ (t : ℕ). radix ^ len * t) read_back,
        ap (λ (t : ℕ). t * (v / radix)) (pow-suc radix len),
        ap (λ (t : ℕ). radix ^ len * t) (div-add-mod v radix),
      ))
    where
      read_back : digit_value (write buf len (digit_char (u8 (v % radix))) len) ≡ v % radix
      read_back = ground (arith, digit_char_lem (v % radix), mod-lt v {m = radix} (omega arith))

  Emitted-round :
      (v len k : ℕ) (buf : Bytes) {out : Option (ℕ × Bytes)}
      → Emitted (v / radix) (len + 1) k (write buf len (digit_char (u8 (v % radix)))) out
      → Emitted v len (suc k) buf out
  Emitted-round v len k buf rest = record {
    new_len = rest.new_len;
    digits = rest.digits;
    returns = rest.returns;
    short = omega (arith, rest.short);
    longer = omega (arith, rest.longer);
    value = rest.value ∙ round_value v len buf;
    chars = λ i h old. rest.chars i h λ h'. ground (arith, digit_char_lem (v % radix));
  }

  pub emit_lem :
      (k fuel v len : ℕ) (buf : Bytes)
      → v < radix ^ k
      → k < fuel
      → Emitted v len k buf (emit radix fuel v len buf)
  unfolding emit
  emit_lem k zero v len buf h lt = elim lt [ ]
  emit_lem zero (suc fuel) v len buf h lt =
      let e : v ≡ 0 = omega (arith, pow-zero radix) in rw e (Emitted-done 0 len 0 buf refl)
  emit_lem (suc k) (suc fuel) v len buf h lt = elim (ℕ_discrete v 0) [
    | yes e ↦ rw e (Emitted-done 0 len (suc k) buf refl)
    | no ne ↦
        rw (ne→== v 0 ne) (
          Emitted-round v len k buf (emit_lem k fuel (v / radix) (len + 1) _ smaller (omega arith)))
  ]
    where
      smaller : v / radix < radix ^ k
      smaller =
          (div-lt_iff_lt-mul (omega arith)).1
            (omega (arith, pow-suc radix k, mul_comm radix (radix ^ k)))

  pub internal_itoa_base_change_lem :
      (k fuel val : ℕ) (buf : Bytes)
      → val < radix ^ k
      → 0 < k
      → k < fuel
      → (len : ℕ) × (out : Bytes) × (internal_itoa_base_change fuel val buf radix ≡ some out)
        × (len ≤ k)
        × IsLength out len
        × (read_digits radix out len 0 0 ≡ val)
  unfolding internal_itoa_base_change
  internal_itoa_base_change_lem k fuel val buf h pos lt = elim (ℕ_discrete val 0) [
    | yes e ↦ (
      1,
      write (write buf 0 b'0') 1 0,
      rw e refl,
      pos,
      record { ends = refl; before = λ i below. ground arith },
      ground arith,
    )
    | no ne ↦
        let r = emit_lem k fuel val 0 buf h lt in
        (
          r.new_len,
          text r.new_len r.digits,
          rw (ne→== val 0 ne, ne→== radix 0 (omega arith), r.returns, ◌>>=◌) refl,
          omega (arith, r.short),
          text-IsLength r.new_len r.digits
              (λ i below. r.chars i below (λ past. absurd (omega arith))),
          text-value r.new_len r.digits
              ∙ r.value
              ∙ omega (arith, ap (λ (t : ℕ). t * val) (pow-zero radix)),
        )
  ]
    where
      text-value :
          (len : ℕ) (digits : Bytes)
          → read_digits radix (text len digits) len 0 0 ≡ reversed_value radix digits len
      text-value len digits =
          read_digits-reverse radix len (text len digits) digits (text_at len digits) len 0 0
            (omega arith)
          ∙ omega arith
