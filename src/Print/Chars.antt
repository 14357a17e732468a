-- ===== src/Print/Chars.antt =====
-- The tests on characters of `KiPrintFmt` of kern/lib/kernel_printfuncs.c.
use feral.Base.{
  ℕ, zero, suc, ◌+◌, ◌^◌, ◌≤◌, ◌<◌, ◌≡◌, ◌≢◌, ◌⊎◌, Bool, true, false, ◌&&◌, ltb, leb, refl, arith,
  ne→==,
}
use feral.Print.{sign_extend, takes_argument}

pub &&-false : (b : Bool) → (b && false) ≡ false
&&-false true = refl
&&-false false = refl

pub printable : (c : ℕ) → b' ' ≤ c → c < 128 → (leb b' ' c && ltb c 128) ≡ true
printable c lo hi = ground arith

pub unprintable : (c : ℕ) → (c < b' ') ⊎ (128 ≤ c) → (leb b' ' c && ltb c 128) ≡ false
unprintable c out = ground arith

pub digit : (d : ℕ) → b'0' ≤ d → d ≤ b'9' → (leb b'0' d && leb d b'9') ≡ true
digit d lo hi = ground arith

pub no_digit : (c : ℕ) → (c < b'0') ⊎ (b'9' < c) → (leb b'0' c && leb c b'9') ≡ false
no_digit c out = ground arith

pub takes_none :
    (c : ℕ)
    → (c ≢ b's') × (c ≢ b'i') × (c ≢ b'l') × (c ≢ b'u') × (c ≢ b'x')
    → takes_argument c ≡ false
takes_none c (ns, ni, nl, nu, nx) =
    rw (ne→== c b's' ns, ne→== c b'i' ni, ne→== c b'l' nl, ne→== c b'u' nu, ne→== c b'x' nx) refl

pub sign_extend-lt : (v : ℕ) → sign_extend v < 2 ^ 64
sign_extend-lt v = ground arith

-- A number of rounds on top of some fuel.
abbrev pub after_rounds : ℕ → ℕ → ℕ
after_rounds zero fuel = fuel
after_rounds (suc rounds) fuel = suc (after_rounds rounds fuel)

pub after_rounds_lem : (rounds fuel : ℕ) → after_rounds rounds fuel ≡ rounds + fuel
after_rounds_lem zero fuel = omega arith
after_rounds_lem (suc rounds) fuel = omega (arith, after_rounds_lem rounds fuel)
