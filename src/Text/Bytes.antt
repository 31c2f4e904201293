-- ===== src/Text/Bytes.antt =====
-- Go's len of a text: the bytes of its UTF-8 encoding.
use Prim.Native.Char.{Char, code}
use op_stack_operator.Prelude.{
  refl, ℕ, ◌+◌, ◌≤◌, String, ◌≡◌, true, arith, ltb, if◌then◌else◌, ==_iff,
}
use op_stack_operator.Text.{same_char, has_prefix}

abbrev pub utf8_size : Char → ℕ
utf8_size c =
    if ltb (code c) 128
    then 1
    else if ltb (code c) 2048
    then 2
    else if ltb (code c) 65536
    then 3
    else 4

-- len(s)
unfoldable pub byte_length : String → ℕ
byte_length String.[] = 0
byte_length (String.◌∷◌ c s) = utf8_size c + byte_length s

utf8_size_of_same : (c d : Char) → same_char c d ≡ true → utf8_size c ≡ utf8_size d
utf8_size_of_same c d h = let e : code c ≡ code d = (==_iff (code c) (code d)).0 h in rw e refl

-- A prefix is no longer than the text.
pub byte_length_of_prefix : (s t : String) → has_prefix s t ≡ true → byte_length t ≤ byte_length s
unfolding byte_length has_prefix
byte_length_of_prefix s String.[] h = omega arith
byte_length_of_prefix String.[] (String.◌∷◌ d t) h = cc
byte_length_of_prefix (String.◌∷◌ c s) (String.◌∷◌ d t) h =
    let first : same_char c d ≡ true = ground arith in
    let rest : has_prefix s t ≡ true = ground arith in
    omega (arith, utf8_size_of_same c d first, byte_length_of_prefix s t rest)
