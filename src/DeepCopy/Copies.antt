-- ===== src/DeepCopy/Copies.antt =====
-- The law of a deep copy, and that the steps of the generated functions keep it.
use op_stack_operator.Prelude.{
  ℕ, suc, ◌≤◌, ◌<◌, ◌≡◌, refl, none, some, List, [], ◌∷◌, ◌++◌, All, arith,
}
use op_stack_operator.DeepCopy.Memory.{
  Pointer, Alloc, pure, ◌>>=◌, copy_pointer, copy_each, copy_entry, copy_both, contents_pointer,
  contents_each, contents_entry, addresses_pointer, addresses_each, addresses_entry, no_addresses,
  itself,
}

-- The addresses are distinct, in increasing order, and all were free at `n` and are not at `m`.
abbrev pub Between : ℕ → ℕ → List ℕ → Type 0
Between n m [] = n ≤ m
Between n m (a ∷ as') = (n ≤ a) × Between (suc a) m as'

pub Between-le : (n m : ℕ) (xs : List ℕ) → Between n m xs → n ≤ m
Between-le n m [] h = h
Between-le n m (x ∷ xs) h = omega (arith, Between-le (suc x) m xs h.1, h.0)

Between-weaken : (k n m : ℕ) (xs : List ℕ) → k ≤ n → Between n m xs → Between k m xs
Between-weaken k n m [] le h = omega arith
Between-weaken k n m (x ∷ xs) le h = (omega (arith, h.0), h.1)

pub Between-append :
    (n k m : ℕ) (xs ys : List ℕ) → Between n k xs → Between k m ys → Between n m (xs ++ ys)
Between-append n k m [] ys h g = Between-weaken n k m ys h g
Between-append n k m (x ∷ xs) ys h g = (h.0, Between-append (suc x) k m xs ys h.1 g)

pub Between-All : (n m : ℕ) (xs : List ℕ) → Between n m xs → All (λ a. (n ≤ a) × (a < m)) xs
Between-All n m [] h = tt
Between-All n m (x ∷ xs) h = (
  (h.0, omega (arith, Between-le (suc x) m xs h.1)),
  Between-All n m xs (Between-weaken n (suc x) m xs (omega (arith, h.0)) h.1),
)

module _ {A : Type 0} (contents : A → A) (addresses : A → List ℕ) where
  -- `made` is a copy of `x` that stands in memory taken from the address `n` on: the contents are
  -- the same, and no address is taken twice or from before.
  abbrev pub IsCopy : A → ℕ → A × ℕ → Type 0
  IsCopy x n (y, m) = (contents y ≡ contents x) × Between n m (addresses y)

  -- Every value is copied so, wherever the free memory begins.
  pub record Copies (copy : A → Alloc A) : Type 0 where
    pub copied : (x : A) (n : ℕ) → IsCopy x n (copy x n)

-- A value without pointers is copied by assignment.
pub pure-Copies : {A : Type 0} → Copies {A = A} itself no_addresses pure
pure-Copies = record { copied = λ x n. (refl, omega arith) }

module _ {A : Type 0} {contents : A → A} {addresses : A → List ℕ} {copy : A → Alloc A}
    (law : Copies contents addresses copy) where
  copied_pointer :
      (p : Pointer A) (n : ℕ)
      → IsCopy (contents_pointer contents) (addresses_pointer addresses) p n (copy_pointer copy p n)
  unfolding copy_pointer contents_pointer addresses_pointer
  copied_pointer none n = (refl, omega arith)
  copied_pointer (some p) n =
      let h = law.copied p.content (suc n) in (rw h.0 refl, (omega arith, h.1))

  pub copy_pointer-Copies :
      Copies (contents_pointer contents) (addresses_pointer addresses) (copy_pointer copy)
  copy_pointer-Copies = record { copied = copied_pointer }

  copied_each :
      (xs : List A) (n : ℕ)
      → IsCopy (contents_each contents) (addresses_each addresses) xs n (copy_each copy xs n)
  unfolding copy_each contents_each addresses_each
  copied_each [] n = (refl, omega arith)
  copied_each (x ∷ xs) n =
      let h = law.copied x n in
      let g = copied_each xs (copy x n).1 in (rw (h.0, g.0) refl, Between-append n _ _ _ _ h.1 g.1)

  pub copy_each-Copies : Copies (contents_each contents) (addresses_each addresses) (copy_each copy)
  copy_each-Copies = record { copied = copied_each }

  pub copy_entry-Copies :
      {K : Type 0}
      → Copies {A = K × A} (contents_entry contents) (addresses_entry addresses) (copy_entry copy)
  unfolding copy_entry contents_entry addresses_entry
  copy_entry-Copies = record {
    copied = λ (key, val) n. let h = law.copied val n in (rw h.0 refl, h.1);
  }

module _ {A B : Type 0} {contents : A → A} {addresses : A → List ℕ} {copy : A → Alloc A}
    {contents' : B → B} {addresses' : B → List ℕ} {copy' : B → Alloc B}
    (law : Copies contents addresses copy) (law' : Copies contents' addresses' copy') where
  -- So copies of two fields take memory one behind the other.
  infixr 5 ◌then_field◌
  pub ◌then_field◌ :
      Copies {A = A × B}
        (λ (a, b). (contents a, contents' b))
        (λ (a, b). addresses a ++ addresses' b)
        (copy_both copy copy')
  ◌then_field◌ = record {
    copied = λ (a, b) n.
        let h = law.copied a n in
        let g = law'.copied b (copy a n).1 in
        (rw (h.0, g.0) refl, Between-append n _ _ _ _ h.1 g.1);
  }

-- A struct whose pointers stand in the fields that `get` reads and `set` writes.
module _ {X P : Type 0} (get : X → P) (set : X → P → X)
    (get-set : (x : X) (p : P) → get (set x p) ≡ p)
    (set-set : (x : X) (p q : P) → set (set x p) q ≡ set x q) {contents : P → P}
    {addresses : P → List ℕ} {copy : P → Alloc P} (law : Copies contents addresses copy) where
  pub fields-Copies :
      Copies
        (λ x. set x (contents (get x)))
        (λ x. addresses (get x))
        (λ x. copy (get x) >>= λ p. pure (set x p))
  fields-Copies = record {
    copied = λ x n.
        let h = law.copied (get x) n in
        (
          rw (get-set x (copy (get x) n).0, set-set x (copy (get x) n).0, h.0) refl,
          rw (get-set x (copy (get x) n).0) h.1,
        );
  }
