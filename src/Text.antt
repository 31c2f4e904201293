-- ===== src/Text.antt =====
-- The functions of Go's packages strings, strconv and fmt that the operator calls, over native
-- texts: Split and Contains for the image tags, HasPrefix for URLs, `%d` for numbers. A separator
-- of Split is one character in all calls.
pub mod Laws
pub mod Decimal
pub mod Bytes
pub mod Hex
use Prim.Native.Char.{Char, code}
use op_stack_operator.Prelude.{
  ℕ, zero, suc, ◌/◌, ◌%◌, String, ◌<>◌, Bool, true, false, ◌&&◌, ◌||◌, List, [], ◌∷◌, ltb, ◌==◌,
  if◌then◌else◌,
}
use op_stack_operator.Prelude.Int.{ℤ, pos, negsuc}

abbrev pub same_char : Char → Char → Bool
same_char c d = code c == code d

-- The first part grows by a character.
abbrev pub grow_head : Char → List String → List String
grow_head c [] = String.◌∷◌ c String.[] ∷ []
grow_head c (s ∷ parts) = String.◌∷◌ c s ∷ parts

-- strings.Split(s, sep), one part more than there are separators.
unfoldable pub split : Char → String → List String
split sep String.[] = "" ∷ []
split sep (String.◌∷◌ c s) =
    let parts = split sep s in if same_char c sep then "" ∷ parts else grow_head c parts

-- strings.Join
unfoldable pub join : String → List String → String
join sep [] = ""
join sep (s ∷ []) = s
join sep (s ∷ t ∷ parts) = s <> sep <> join sep (t ∷ parts)

-- strings.HasPrefix(s, prefix)
unfoldable pub has_prefix : String → String → Bool
has_prefix s String.[] = true
has_prefix String.[] (String.◌∷◌ d t) = false
has_prefix (String.◌∷◌ c s) (String.◌∷◌ d t) = same_char c d && has_prefix s t

-- strings.Contains(s, substr)
unfoldable pub contains : String → String → Bool
unfolding has_prefix
contains String.[] t = has_prefix "" t
contains (String.◌∷◌ c s) t = has_prefix (String.◌∷◌ c s) t || contains s t

abbrev pub digit_char : ℕ → Char
digit_char zero = "0"
digit_char (suc zero) = "1"
digit_char (suc (suc zero)) = "2"
digit_char (suc (suc (suc zero))) = "3"
digit_char (suc (suc (suc (suc zero)))) = "4"
digit_char (suc (suc (suc (suc (suc zero))))) = "5"
digit_char (suc (suc (suc (suc (suc (suc zero)))))) = "6"
digit_char (suc (suc (suc (suc (suc (suc (suc zero))))))) = "7"
digit_char (suc (suc (suc (suc (suc (suc (suc (suc zero)))))))) = "8"
digit_char _ = "9"

-- The digits of `n` in front of `acc`; each round takes one digit off.
unfoldable pub digits_onto : ℕ → ℕ → String → String
digits_onto zero n acc = acc
digits_onto (suc fuel) n acc =
    let acc' = String.◌∷◌ (digit_char (n % 10)) acc in
    let rest = digits_onto fuel (n / 10) acc' in if ltb n 10 then acc' else rest

-- `%d` of a number that is not negative; `n` + 1 rounds are more than its digits.
unfoldable pub format_nat : ℕ → String
unfolding digits_onto
format_nat n = digits_onto (suc n) n ""

-- `%d` of an int32 or int64.
unfoldable pub format_int : ℤ → String
unfolding format_nat
format_int (pos n) = format_nat n
format_int (negsuc n) = "-" <> format_nat (suc n)
