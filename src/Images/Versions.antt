-- ===== src/Images/Versions.antt =====
-- Tags and versions: what the version of an image is, and what GetCompatibleOpGethVersion returns.
use Prim.Native.Char.{Char}
use text.Mathlib.TextLemmas.{cons-append, nil-append, append_assoc}
use op_stack_operator.Prelude.{
  String, ◌<>◌, ◌≡◌, refl, ap, ◌⊎◌, inl, inr, true, false, Option, none, some, List, [], ◌∷◌, arith,
  Bool-cases, Option-cases, if◌then◌else◌, str_eq, is_empty, eq_iff,
}
use op_stack_operator.Text.{split, join, contains}
use op_stack_operator.Text.Laws.{
  has_char, has_char-append, has_char_of_contains, last_or-split, length-split,
}
use op_stack_operator.Images.{
  optimism_registry, default_op_geth_version, registry_image, extract_version_from_image,
  MatrixOrder, stable_first, latest_first, version_compatibility_matrix, find_op_geth, major_minor,
  get_compatible_op_geth_version,
}

has_char-middle : (c : Char) (s t : String) → has_char c (s <> String.◌∷◌ c t) ≡ true
has_char-middle c s t = rw (has_char-append c s (String.◌∷◌ c t)) (unfold has_char in ground arith)

is_empty_of_has_char : (c : Char) (s : String) → has_char c s ≡ true → is_empty s ≡ false
unfolding has_char
is_empty_of_has_char c s h = elim (Bool-cases (is_empty s)) [
  | inl e ↦ let p : s ≡ "" = (eq_iff s "").0 e in ground (arith, ap (has_char c) p)
  | inr e ↦ e
]

extract_version_of_tag :
    (name tag : String)
    → has_char ":" tag ≡ false
    → extract_version_from_image (name <> String.◌∷◌ ":" tag) ≡ tag
unfolding extract_version_from_image
extract_version_of_tag name tag h =
    rw (is_empty_of_has_char ":" (name <> String.◌∷◌ ":" tag) (has_char-middle ":" name tag))
      (ground (arith, length-split ":" name tag h, last_or-split ":" "" name tag h))

colon-append : (s : String) → ":" <> s ≡ String.◌∷◌ ":" s
colon-append s = rw (cons-append, nil-append)

registry_image_lem :
    (component version : String)
    → registry_image (component <> ":") version
      ≡ (optimism_registry <> component) <> String.◌∷◌ ":" version
registry_image_lem component version = simp (append_assoc, colon-append)

-- The version of an image that the operator names is the version it was named with, if that has no
-- colon in it.
pub extract_version-image :
    (component version : String)
    → has_char ":" version ≡ false
    → extract_version_from_image (registry_image (component <> ":") version) ≡ version
extract_version-image component version h =
    rw (registry_image_lem component version)
      (extract_version_of_tag (optimism_registry <> component) version h)

has_char-major_minor :
    (parts : List String) (prefix : String)
    → major_minor parts ≡ some prefix
    → has_char "." prefix ≡ true
unfolding major_minor join
has_char-major_minor [] prefix h = cc
has_char-major_minor (a ∷ []) prefix h = cc
has_char-major_minor (a ∷ b ∷ parts) prefix h =
    let e : a <> "." <> b ≡ prefix = cc in
    rw (← e, has_char-append "." a ("." <> b), has_char-append "." "." b)
      (unfold has_char in ground arith)

contains-latest : (prefix : String) → has_char "." prefix ≡ true → contains "latest" prefix ≡ false
contains-latest prefix h = elim (Bool-cases (contains "latest" prefix)) [
  | inl c ↦ unfold has_char in cc (has_char_of_contains "." "latest" prefix c h)
  | inr c ↦ c
]

-- An entry of the matrix other than "latest" gives the default op-geth version, and "latest" itself
-- is never found for a version with a dot in it.
find_op_geth-matrix :
    (order : MatrixOrder) (prefix version : String)
    → has_char "." prefix ≡ true
    → str_eq version "latest" ≡ false
    → (o : Option String) × (find_op_geth (version_compatibility_matrix order) prefix version ≡ o)
      × ((o ≡ none) ⊎ (o ≡ some default_op_geth_version))
unfolding find_op_geth
find_op_geth-matrix stable_first prefix version h n = (
  _,
  refl,
  ground (arith, contains-latest prefix h, eq_iff version "latest", eq_iff "latest" version),
)
find_op_geth-matrix latest_first prefix version h n = (
  _,
  refl,
  ground (arith, contains-latest prefix h, eq_iff version "latest", eq_iff "latest" version),
)

-- Whatever order the range takes, the result is "latest" for "latest" and the default op-geth version for every
-- other version.
pub get_compatible_op_geth_version_lem :
    (order : MatrixOrder) (version : String)
    → get_compatible_op_geth_version order version
      ≡ (if str_eq version "latest" then "latest" else default_op_geth_version)
unfolding get_compatible_op_geth_version
get_compatible_op_geth_version_lem order version = elim (Bool-cases (str_eq version "latest")) [
  | inl e ↦ let p = (eq_iff version "latest").0 e in rw p refl
  | inr n ↦ elim (Option-cases (major_minor (split "." version))) [
    | inl e ↦ rw (n, e) (ground arith)
    | inr (prefix, e) ↦
        let h = has_char-major_minor (split "." version) prefix e in
        ground (arith, e, find_op_geth-matrix order prefix version h n)
  ]
]
