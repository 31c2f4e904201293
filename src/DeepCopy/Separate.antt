-- ===== src/DeepCopy/Separate.antt =====
-- What a caller has of a deep copy whose original stands in memory that was in use.
use op_stack_operator.Prelude.{ℕ, suc, ◌≤◌, ◌<◌, ◌≡◌, List, [], ◌∷◌, All, All-map, ◌≢◌, arith}
use op_stack_operator.DeepCopy.Copies.{Between, Between-All, IsCopy}

-- No address of one list is in the other.
abbrev pub Apart : List ℕ → List ℕ → Type 0
Apart xs ys = All (λ x. All (λ y. x ≢ y) ys) xs

-- No address stands twice.
abbrev pub Distinct : List ℕ → Type 0
Distinct [] = Unit
Distinct (x ∷ xs) = All (λ y. x ≢ y) xs × Distinct xs

pub Between-Distinct : (n m : ℕ) (xs : List ℕ) → Between n m xs → Distinct xs
Between-Distinct n m [] h = tt
Between-Distinct n m (x ∷ xs) h = (
  All-map (λ a b. omega (arith, b.0)) xs (Between-All (suc x) m xs h.1),
  Between-Distinct (suc x) m xs h.1,
)

pub Between-Apart : (n m : ℕ) (xs ys : List ℕ) → Between n m xs → All (λ y. y < n) ys → Apart xs ys
Between-Apart n m xs ys h below =
    All-map (λ x (b : (n ≤ x) × (x < m)). All-map (λ y (c : y < n). omega (arith, b.0, c)) ys below)
      xs (Between-All n m xs h)

-- `y` is a deep copy of `x`: the same contents, at addresses of its own, each used once.
module _ {A : Type 0} (contents : A → A) (addresses : A → List ℕ) where
  pub record IsDeepCopy (x y : A) : Type 0 where
    pub same : contents y ≡ contents x
    pub apart : Apart (addresses y) (addresses x)
    pub distinct : Distinct (addresses y)

  -- So every copy into memory that was free is one, if no address of the original was free.
  pub IsCopy-IsDeepCopy :
      (x : A) (n : ℕ) (y : A) (m : ℕ)
      → IsCopy contents addresses x n (y, m)
      → All (λ a. a < n) (addresses x)
      → IsDeepCopy x y
  IsCopy-IsDeepCopy x n y m (same, between) below = record {
    same = same;
    apart = Between-Apart n m (addresses y) (addresses x) between below;
    distinct = Between-Distinct n m (addresses y) between;
  }
