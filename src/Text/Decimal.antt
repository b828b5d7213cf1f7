-- ===== src/Text/Decimal.antt =====
-- `str(n)` of a natural number, and that different numbers have different texts.
use Prim.Native.Char.{Char, code}
use py_auth.Prelude.{
  ℕ, zero, suc, ◌+◌, ◌-◌, ◌*◌, ◌/◌, ◌%◌, ◌≤◌, ◌<◌, String, ◌≡◌, refl, ltb, if◌then◌else◌, arith, ap,
  Bool-cases, inl, inr, ◌∙◌,
}
use py_auth.Text.{append}

abbrev pub digit : ℕ → Char
digit zero = "0"
digit (suc zero) = "1"
digit (suc (suc zero)) = "2"
digit (suc (suc (suc zero))) = "3"
digit (suc (suc (suc (suc zero)))) = "4"
digit (suc (suc (suc (suc (suc zero))))) = "5"
digit (suc (suc (suc (suc (suc (suc zero)))))) = "6"
digit (suc (suc (suc (suc (suc (suc (suc zero))))))) = "7"
digit (suc (suc (suc (suc (suc (suc (suc (suc zero)))))))) = "8"
digit (suc (suc (suc (suc (suc (suc (suc (suc (suc _))))))))) = "9"

-- The digits of a number before a text. As many rounds as the number itself are enough, since it is
-- divided by 10.
unfoldable pub digits_before : ℕ → ℕ → String → String
digits_before zero n out = String.◌∷◌ (digit (n % 10)) out
digits_before (suc fuel) n out =
    let more = digits_before fuel (n / 10) (String.◌∷◌ (digit (n % 10)) out) in
    if ltb n 10 then String.◌∷◌ (digit n) out else more

-- `str(n)`
unfoldable pub decimal : ℕ → String
unfolding digits_before
decimal n = digits_before n n ""

-- the number that a text of digits is read as, after those read before
value : ℕ → String → ℕ
value read String.[] = read
value read (String.◌∷◌ c s) = value (read * 10 + (code c - 48)) s

digit-code : (n : ℕ) → n < 10 → code (digit n) - 48 ≡ n
digit-code zero h = refl
digit-code (suc zero) h = refl
digit-code (suc (suc zero)) h = refl
digit-code (suc (suc (suc zero))) h = refl
digit-code (suc (suc (suc (suc zero)))) h = refl
digit-code (suc (suc (suc (suc (suc zero))))) h = refl
digit-code (suc (suc (suc (suc (suc (suc zero)))))) h = refl
digit-code (suc (suc (suc (suc (suc (suc (suc zero))))))) h = refl
digit-code (suc (suc (suc (suc (suc (suc (suc (suc zero)))))))) h = refl
digit-code (suc (suc (suc (suc (suc (suc (suc (suc (suc n))))))))) h =
    let last : n ≡ 0 = omega arith in rw last refl

value-digit : (n : ℕ) (out : String) → n < 10 → value 0 (String.◌∷◌ (digit n) out) ≡ value n out
unfolding value
value-digit n out h = ap (λ (k : ℕ). value k out) (omega (arith, digit-code n h))

value-digits :
    (fuel n : ℕ) (out : String) → n ≤ fuel → value 0 (digits_before fuel n out) ≡ value n out
unfolding digits_before
value-digits zero n out h =
    value-digit (n % 10) out (omega arith) ∙ ap (λ (k : ℕ). value k out) (omega arith)
value-digits (suc fuel) n out h = elim (Bool-cases (ltb n 10)) [
  | inl e ↦ rw e (value-digit n out (ground arith))
  | inr e ↦ rw e (
      value-digits fuel (n / 10) (String.◌∷◌ (digit (n % 10)) out) (omega arith)
      ∙ unfold value in
        ap (λ (k : ℕ). value k out) {x = n / 10 * 10 + (code (digit (n % 10)) - 48)} {y = n}
          (omega (arith, digit-code (n % 10) (omega arith))))
]

value-append : (read : ℕ) (s t : String) → value read (append s t) ≡ value (value read s) t
unfolding value
value-append read String.[] t = refl
value-append read (String.◌∷◌ c s) t = value-append (read * 10 + (code c - 48)) s t

-- The text of a number, followed by the same text, tells the number.
pub decimal-inj : (n m : ℕ) → append (decimal n) ")" ≡ append (decimal m) ")" → n ≡ m
unfolding decimal
decimal-inj n m e =
    let read = ap (value 0) e in
    let left = value-append 0 (decimal n) ")" in
    let right = value-append 0 (decimal m) ")" in
    let x = value-digits n n "" (omega arith) in
    let y = value-digits m m "" (omega arith) in
    unfold value in omega (arith, read, left, right, x, y)
