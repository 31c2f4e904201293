-- ===== src/Discovery/CacheKey.antt =====
-- The keys of the discovery cache of pkg/discovery/discovery.go.
use text.Mathlib.TextLemmas.{cons-append, nil-append, append_assoc}
use op_stack_operator.Prelude.{
  ℕ, suc, String, ◌<>◌, ◌≡◌, refl, ap, ◌∙◌, sym, false, Option, none, some, if◌then◌else◌, arith,
}
use op_stack_operator.Prelude.Int.{ℤ, pos, negsuc}
use op_stack_operator.Text.{same_char, format_int, format_nat}
use op_stack_operator.Text.Laws.{has_char}
use op_stack_operator.Text.Decimal.{read_nat, read_nat-format_nat, has_char-format_nat}

-- fmt.Sprintf("%s-%d", networkName, chainID)
unfoldable pub cache_key : String → ℤ → String
cache_key network_name chain_id = network_name <> "-" <> format_int chain_id

-- What stands before and behind the last dash of a text.
split_last : String → Option (String × String)
split_last String.[] = none
split_last (String.◌∷◌ c s) = elim (split_last s) [
  | some (before, behind) ↦ some (String.◌∷◌ c before, behind)
  | none ↦ if same_char c "-" then some ("", s) else none
]

split_last_of_no_dash : (s : String) → has_char "-" s ≡ false → split_last s ≡ none
unfolding split_last has_char
split_last_of_no_dash String.[] h = refl
split_last_of_no_dash (String.◌∷◌ c s) h = ground (arith, split_last_of_no_dash s)

split_last-append :
    (s t : String) → has_char "-" t ≡ false → split_last (s <> String.◌∷◌ "-" t) ≡ some (s, t)
unfolding split_last
split_last-append String.[] t h = rw (nil-append, split_last_of_no_dash t h) refl
split_last-append (String.◌∷◌ c s) t h = rw (cons-append, split_last-append s t h, split_last) refl

dash-append : (s : String) → "-" <> s ≡ String.◌∷◌ "-" s
dash-append s = rw (cons-append, nil-append)

split_last-cache_key :
    (name : String) (n : ℕ) → split_last (cache_key name (pos n)) ≡ some (name, format_nat n)
unfolding cache_key format_int
split_last-cache_key name n =
    rw (dash-append (format_nat n)) (split_last-append name (format_nat n) (has_char-format_nat n))

-- Networks with chain IDs that are not negative share a cache entry only if they have the same name
-- and the same chain ID.
pub cache_key_injective :
    (name name' : String) (n n' : ℕ)
    → cache_key name (pos n) ≡ cache_key name' (pos n')
    → (name ≡ name') × (n ≡ n')
cache_key_injective name name' n n' h =
    let e = sym (split_last-cache_key name n) ∙ ap split_last h ∙ split_last-cache_key name' n' in
    (
      ground (arith, e),
      sym (read_nat-format_nat n) ∙ ap (read_nat 0) (ground (arith, e)) ∙ read_nat-format_nat n',
    )

-- A negative chain ID shares its entry with another network: the dash that ends one name is the
-- sign of the other's number.
pub cache_key_collision :
    (name : String) (n : ℕ) → cache_key name (negsuc n) ≡ cache_key (name <> "-") (pos (suc n))
unfolding cache_key format_int
cache_key_collision name n = simp append_assoc
