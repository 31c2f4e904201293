-- ===== src/Text/Laws.antt =====
-- Facts about Split, Join and Contains.
use Prim.Native.Char.{Char}
use text.Mathlib.TextLemmas.{cons-append, nil-append}
use op_stack_operator.Prelude.{
  ◌≤◌, String, ◌<>◌, ◌≡◌, refl, inl, inr, Bool, true, false, ◌||◌, List, [], ◌∷◌, ◌++◌, arith,
  length, length-append, last_or, Bool-cases,
}
use op_stack_operator.Text.{same_char, split, has_prefix, contains}

-- The character stands somewhere in the text.
unfoldable pub has_char : Char → String → Bool
has_char c String.[] = false
has_char c (String.◌∷◌ d s) = same_char d c || has_char c s

pub has_char-append : (c : Char) (s t : String) → has_char c (s <> t) ≡ has_char c s || has_char c t
unfolding has_char
has_char-append c String.[] t = rw nil-append
has_char-append c (String.◌∷◌ d s) t = rw cons-append (ground (arith, has_char-append c s t))

split_cons : (sep : Char) (s : String) → (p : String) × (ps : List String) × (split sep s ≡ p ∷ ps)
unfolding split
split_cons sep String.[] = ("", [], refl)
split_cons sep (String.◌∷◌ c s) =
    let (p, ps, e) = split_cons sep s in
    elim (Bool-cases (same_char c sep)) [
      | inl h ↦ ("", split sep s, rw h)
      | inr h ↦ (String.◌∷◌ c p, ps, rw (h, e))
    ]

split-append_of_char :
    (sep : Char) (s t : String) → split sep (s <> String.◌∷◌ sep t) ≡ split sep s ++ split sep t
unfolding split
split-append_of_char sep String.[] t = rw nil-append (ground arith)
split-append_of_char sep (String.◌∷◌ c s) t =
    let (p, ps, e) = split_cons sep s in
    rw (cons-append, split-append_of_char sep s t, e) (ground arith)

split_of_no_char : (sep : Char) (s : String) → has_char sep s ≡ false → split sep s ≡ s ∷ []
unfolding split has_char
split_of_no_char sep String.[] h = refl
split_of_no_char sep (String.◌∷◌ c s) h = ground (arith, split_of_no_char sep s)

last_or-concat {ℓ} : {A : Type ℓ} (d : A) (xs : List A) (x : A) → last_or d (xs ++ x ∷ []) ≡ x
last_or-concat d [] x = refl
last_or-concat d (y ∷ ys) x = last_or-concat y ys x

-- The part behind the last separator.
pub last_or-split :
    (sep : Char) (d s t : String)
    → has_char sep t ≡ false
    → last_or d (split sep (s <> String.◌∷◌ sep t)) ≡ t
last_or-split sep d s t h =
    rw (split-append_of_char sep s t, split_of_no_char sep t h) (last_or-concat d (split sep s) t)

pub length-split :
    (sep : Char) (s t : String)
    → has_char sep t ≡ false
    → 2 ≤ length (split sep (s <> String.◌∷◌ sep t))
length-split sep s t h =
    let (p, ps, e) = split_cons sep s in
    rw (split-append_of_char sep s t, split_of_no_char sep t h, e)
      (omega (arith, length-append {0} (p ∷ ps) (t ∷ [])))

has_char_of_prefix :
    (c : Char) (s t : String) → has_prefix s t ≡ true → has_char c t ≡ true → has_char c s ≡ true
unfolding has_prefix has_char
has_char_of_prefix c s String.[] p h = cc
has_char_of_prefix c String.[] (String.◌∷◌ d t) p h = cc
has_char_of_prefix c (String.◌∷◌ b s) (String.◌∷◌ d t) p h =
    ground (arith, has_char_of_prefix c s t)

has_char-cons : (c d : Char) (s : String) → has_char c s ≡ true → has_char c (String.◌∷◌ d s) ≡ true
unfolding has_char
has_char-cons c d s h = ground arith

-- What a text contains has only characters of the text.
pub has_char_of_contains :
    (c : Char) (s t : String) → contains s t ≡ true → has_char c t ≡ true → has_char c s ≡ true
unfolding contains
has_char_of_contains c String.[] t p h = has_char_of_prefix c "" t p h
has_char_of_contains c (String.◌∷◌ d s) t p h = elim (Bool-cases (has_prefix (String.◌∷◌ d s) t)) [
  | inl q ↦ has_char_of_prefix c (String.◌∷◌ d s) t q h
  | inr q ↦ has_char-cons c d s (has_char_of_contains c s t (ground arith) h)
]
