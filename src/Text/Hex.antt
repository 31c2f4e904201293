-- ===== src/Text/Hex.antt =====
-- hex.EncodeToString of Go's encoding/hex, and reading the bytes back.
use Prim.Native.Char.{Char, code}
use op_stack_operator.Prelude.{
  ℕ, zero, suc, ◌+◌, ◌-◌, ◌*◌, ◌/◌, ◌%◌, ◌<◌, String, ◌≡◌, refl, ap, List, [], ◌∷◌, arith, ltb,
  if◌then◌else◌, length, All,
}
use op_stack_operator.Text.Bytes.{byte_length, utf8_size}

abbrev pub nibble_char : ℕ → Char
nibble_char zero = "0"
nibble_char (suc zero) = "1"
nibble_char (suc (suc zero)) = "2"
nibble_char (suc (suc (suc zero))) = "3"
nibble_char (suc (suc (suc (suc zero)))) = "4"
nibble_char (suc (suc (suc (suc (suc zero))))) = "5"
nibble_char (suc (suc (suc (suc (suc (suc zero)))))) = "6"
nibble_char (suc (suc (suc (suc (suc (suc (suc zero))))))) = "7"
nibble_char (suc (suc (suc (suc (suc (suc (suc (suc zero)))))))) = "8"
nibble_char (suc (suc (suc (suc (suc (suc (suc (suc (suc zero))))))))) = "9"
nibble_char (suc (suc (suc (suc (suc (suc (suc (suc (suc (suc zero)))))))))) = "a"
nibble_char (suc (suc (suc (suc (suc (suc (suc (suc (suc (suc (suc zero))))))))))) = "b"
nibble_char (suc (suc (suc (suc (suc (suc (suc (suc (suc (suc (suc (suc zero)))))))))))) = "c"
nibble_char (suc (suc (suc (suc (suc (suc (suc (suc (suc (suc (suc (suc (suc zero))))))))))))) = "d"
nibble_char
      (suc (suc (suc (suc (suc (suc (suc (suc (suc (suc (suc (suc (suc (suc zero)))))))))))))) =
    "e"
nibble_char _ = "f"

-- hex.EncodeToString(bytes)
unfoldable pub encode_to_string : List ℕ → String
encode_to_string [] = ""
encode_to_string (b ∷ bytes) =
    String.◌∷◌ (nibble_char (b / 16)) (String.◌∷◌ (nibble_char (b % 16)) (encode_to_string bytes))

abbrev pub nibble_value : Char → ℕ
nibble_value c = if ltb (code c) 58 then code c - 48 else code c - 87

-- The bytes that a text of hexadecimal digits stands for.
abbrev pub read_hex : String → List ℕ
read_hex String.[] = []
read_hex (String.◌∷◌ c String.[]) = []
read_hex (String.◌∷◌ c (String.◌∷◌ d s)) = (16 * nibble_value c + nibble_value d) ∷ read_hex s

nibble_value-nibble_char : (d : ℕ) → d < 16 → nibble_value (nibble_char d) ≡ d
nibble_value-nibble_char zero h = refl
nibble_value-nibble_char (suc zero) h = refl
nibble_value-nibble_char (suc (suc zero)) h = refl
nibble_value-nibble_char (suc (suc (suc zero))) h = refl
nibble_value-nibble_char (suc (suc (suc (suc zero)))) h = refl
nibble_value-nibble_char (suc (suc (suc (suc (suc zero))))) h = refl
nibble_value-nibble_char (suc (suc (suc (suc (suc (suc zero)))))) h = refl
nibble_value-nibble_char (suc (suc (suc (suc (suc (suc (suc zero))))))) h = refl
nibble_value-nibble_char (suc (suc (suc (suc (suc (suc (suc (suc zero)))))))) h = refl
nibble_value-nibble_char (suc (suc (suc (suc (suc (suc (suc (suc (suc zero))))))))) h = refl
nibble_value-nibble_char (suc (suc (suc (suc (suc (suc (suc (suc (suc (suc zero)))))))))) h = refl
nibble_value-nibble_char (suc (suc (suc (suc (suc (suc (suc (suc (suc (suc (suc zero))))))))))) h =
    refl
nibble_value-nibble_char
      (suc (suc (suc (suc (suc (suc (suc (suc (suc (suc (suc (suc zero)))))))))))) h =
    refl
nibble_value-nibble_char
      (suc (suc (suc (suc (suc (suc (suc (suc (suc (suc (suc (suc (suc zero))))))))))))) h =
    refl
nibble_value-nibble_char
      (suc (suc (suc (suc (suc (suc (suc (suc (suc (suc (suc (suc (suc (suc zero)))))))))))))) h =
    refl
nibble_value-nibble_char
      (suc (suc (suc (suc (suc (suc (suc (suc (suc (suc (suc (suc (suc (suc (suc d)))))))))))))))
      h =
    let e : d ≡ 0 = omega arith in rw e refl

-- Encoded bytes can be read back: the encoding loses none of them.
pub read_hex-encode_to_string :
    (bytes : List ℕ) → All (λ b. b < 256) bytes → read_hex (encode_to_string bytes) ≡ bytes
unfolding encode_to_string
read_hex-encode_to_string [] h = refl
read_hex-encode_to_string (b ∷ bytes) (h, hs) =
    let high = nibble_value-nibble_char (b / 16) (omega arith) in
    let low = nibble_value-nibble_char (b % 16) (omega arith) in
    rw (high, low, read_hex-encode_to_string bytes hs) (ap (λ c. c ∷ bytes) (omega arith))

utf8_size-nibble_char : (d : ℕ) → utf8_size (nibble_char d) ≡ 1
utf8_size-nibble_char zero = refl
utf8_size-nibble_char (suc zero) = refl
utf8_size-nibble_char (suc (suc zero)) = refl
utf8_size-nibble_char (suc (suc (suc zero))) = refl
utf8_size-nibble_char (suc (suc (suc (suc zero)))) = refl
utf8_size-nibble_char (suc (suc (suc (suc (suc zero))))) = refl
utf8_size-nibble_char (suc (suc (suc (suc (suc (suc zero)))))) = refl
utf8_size-nibble_char (suc (suc (suc (suc (suc (suc (suc zero))))))) = refl
utf8_size-nibble_char (suc (suc (suc (suc (suc (suc (suc (suc zero)))))))) = refl
utf8_size-nibble_char (suc (suc (suc (suc (suc (suc (suc (suc (suc zero))))))))) = refl
utf8_size-nibble_char (suc (suc (suc (suc (suc (suc (suc (suc (suc (suc zero)))))))))) = refl
utf8_size-nibble_char (suc (suc (suc (suc (suc (suc (suc (suc (suc (suc (suc zero))))))))))) = refl
utf8_size-nibble_char (suc (suc (suc (suc (suc (suc (suc (suc (suc (suc (suc (suc zero)))))))))))) =
    refl
utf8_size-nibble_char
      (suc (suc (suc (suc (suc (suc (suc (suc (suc (suc (suc (suc (suc zero))))))))))))) =
    refl
utf8_size-nibble_char
      (suc (suc (suc (suc (suc (suc (suc (suc (suc (suc (suc (suc (suc (suc zero)))))))))))))) =
    refl
utf8_size-nibble_char
      (suc (suc (suc (suc (suc (suc (suc (suc (suc (suc (suc (suc (suc (suc (suc d))))))))))))))) =
    refl

pub byte_length-encode_to_string :
    (bytes : List ℕ) → byte_length (encode_to_string bytes) ≡ 2 * length bytes
unfolding encode_to_string byte_length
byte_length-encode_to_string [] = refl
byte_length-encode_to_string (b ∷ bytes) = omega (
  arith,
  utf8_size-nibble_char (b / 16),
  utf8_size-nibble_char (b % 16),
  byte_length-encode_to_string bytes,
)
