-- ===== src/Text/Decimal.antt =====
-- `%d` loses nothing: the number is read back from its digits, which hold no other character.
use Prim.Native.Char.{code}
use op_stack_operator.Prelude.{
  ℕ, zero, suc, ◌+◌, ◌-◌, ◌*◌, ◌/◌, ◌%◌, ◌<◌, String, ◌≡◌, refl, ◌∙◌, ap, false, inl, inr, arith,
  ltb, Bool-cases,
}
use op_stack_operator.Text.{digit_char, digits_onto, format_nat}
use op_stack_operator.Text.Laws.{has_char}

-- The number that a run of digits extends `n` to.
pub read_nat : ℕ → String → ℕ
read_nat n String.[] = n
read_nat n (String.◌∷◌ c s) = read_nat (n * 10 + (code c - 48)) s

code-digit_char : (d : ℕ) → d < 10 → code (digit_char d) - 48 ≡ d
code-digit_char zero h = refl
code-digit_char (suc zero) h = refl
code-digit_char (suc (suc zero)) h = refl
code-digit_char (suc (suc (suc zero))) h = refl
code-digit_char (suc (suc (suc (suc zero)))) h = refl
code-digit_char (suc (suc (suc (suc (suc zero))))) h = refl
code-digit_char (suc (suc (suc (suc (suc (suc zero)))))) h = refl
code-digit_char (suc (suc (suc (suc (suc (suc (suc zero))))))) h = refl
code-digit_char (suc (suc (suc (suc (suc (suc (suc (suc zero)))))))) h = refl
code-digit_char (suc (suc (suc (suc (suc (suc (suc (suc (suc d))))))))) h =
    let e : d ≡ 0 = omega arith in rw e refl

read_nat-digit :
    (m n : ℕ) (acc : String)
    → m * 10 + n % 10 ≡ n
    → read_nat m (String.◌∷◌ (digit_char (n % 10)) acc) ≡ read_nat n acc
unfolding read_nat
read_nat-digit m n acc h =
    ap (λ k. read_nat k acc) (omega (arith, code-digit_char (n % 10) (omega arith)))

read_nat-digits_onto :
    (fuel n : ℕ) (acc : String) → n < fuel → read_nat 0 (digits_onto fuel n acc) ≡ read_nat n acc
unfolding digits_onto
read_nat-digits_onto zero n acc h = elim h [ ]
read_nat-digits_onto (suc fuel) n acc h = elim (Bool-cases (ltb n 10)) [
  | inl small ↦ rw small (read_nat-digit 0 n acc (ground arith))
  | inr large ↦ rw large (
      read_nat-digits_onto fuel (n / 10) (String.◌∷◌ (digit_char (n % 10)) acc) (ground arith)
      ∙ read_nat-digit (n / 10) n acc (omega arith))
]

-- Reading what `%d` prints gives the number back.
pub read_nat-format_nat : (n : ℕ) → read_nat 0 (format_nat n) ≡ n
unfolding format_nat read_nat
read_nat-format_nat n = read_nat-digits_onto (suc n) n "" (omega arith)

digit_char-ne-dash :
    (d : ℕ) (acc : String) → has_char "-" (String.◌∷◌ (digit_char d) acc) ≡ has_char "-" acc
unfolding has_char
digit_char-ne-dash zero acc = refl
digit_char-ne-dash (suc zero) acc = refl
digit_char-ne-dash (suc (suc zero)) acc = refl
digit_char-ne-dash (suc (suc (suc zero))) acc = refl
digit_char-ne-dash (suc (suc (suc (suc zero)))) acc = refl
digit_char-ne-dash (suc (suc (suc (suc (suc zero))))) acc = refl
digit_char-ne-dash (suc (suc (suc (suc (suc (suc zero)))))) acc = refl
digit_char-ne-dash (suc (suc (suc (suc (suc (suc (suc zero))))))) acc = refl
digit_char-ne-dash (suc (suc (suc (suc (suc (suc (suc (suc zero)))))))) acc = refl
digit_char-ne-dash (suc (suc (suc (suc (suc (suc (suc (suc (suc d))))))))) acc = refl

has_char-digits_onto :
    (fuel n : ℕ) (acc : String) → has_char "-" (digits_onto fuel n acc) ≡ has_char "-" acc
unfolding digits_onto
has_char-digits_onto zero n acc = refl
has_char-digits_onto (suc fuel) n acc = elim (Bool-cases (ltb n 10)) [
  | inl small ↦ rw small (digit_char-ne-dash (n % 10) acc)
  | inr large ↦ rw large (
      has_char-digits_onto fuel (n / 10) (String.◌∷◌ (digit_char (n % 10)) acc)
      ∙ digit_char-ne-dash (n % 10) acc)
]

pub has_char-format_nat : (n : ℕ) → has_char "-" (format_nat n) ≡ false
unfolding format_nat has_char
has_char-format_nat n = has_char-digits_onto (suc n) n ""
