-- ===== src/DeepCopy/Memory.antt =====
-- Values as they stand in memory, the allocation of fresh addresses, and the steps that the
-- functions of api/v1alpha1/zz_generated.deepcopy.go are made of.
-- A pointer `*T`, a slice or a map is `none` for nil, or an address together with what stands there;
-- a struct is a record of its fields. An allocation takes the next free address.
use op_stack_operator.Prelude.{ℕ, suc, Option, none, some, List, [], ◌∷◌, ◌++◌}

pub record Ref (A : Type 0) : Type 0 where
  pub address : ℕ
  pub content : A

-- nil, or an address and what stands there: `*T` with `T`, and a slice or a map with the list of its
-- elements
abbrev pub Pointer : Type 0 → Type 0
Pointer A = Option (Ref A)

-- a computation that may allocate, given the next free address
abbrev pub Alloc : Type 0 → Type 0
Alloc A = ℕ → A × ℕ

abbrev pub pure : {A : Type 0} → A → Alloc A
pure a n = (a, n)

infixl 5 ◌>>=◌
abbrev pub ◌>>=◌ : {A B : Type 0} → Alloc A → (A → Alloc B) → Alloc B
◌>>=◌ m k n = let (a, n') = m n in k a n'

-- `new` and `make`: the address of memory that is not in use
abbrev pub allocate : Alloc ℕ
allocate n = (n, suc n)

module _ {A : Type 0} (copy : A → Alloc A) where
  -- if in.F != nil { in, out := &in.F, &out.F; *out = new(T); (*in).DeepCopyInto(*out) }
  -- and likewise with `make` for a slice or a map, whose elements `copy` then fills in
  -- The same is DeepCopy, which answers nil for nil and else calls DeepCopyInto with a new struct.
  unfoldable pub copy_pointer : Pointer A → Alloc (Pointer A)
  copy_pointer none = pure none
  copy_pointer (some p) = do
    address ← allocate
    content ← copy p.content
    pure (some (record { address = address; content = content }))

  -- for i := range *in { (*in)[i].DeepCopyInto(&(*out)[i]) }
  unfoldable pub copy_each : List A → Alloc (List A)
  copy_each [] = pure []
  copy_each (x ∷ xs) = do y ← copy x; ys ← copy_each xs; pure (y ∷ ys)

module _ {K A : Type 0} (copy : A → Alloc A) where
  -- (*out)[key] = val.DeepCopy(), for one key of a map
  unfoldable pub copy_entry : K × A → Alloc (K × A)
  copy_entry (key, val) = do val' ← copy val; pure (key, val')

-- What a reader sees who cannot tell one address from another: every address is replaced by 0. So two
-- values have the same contents when they differ in nothing but where they stand; nil and an empty
-- slice have different contents.
module _ {A : Type 0} (contents : A → A) where
  unfoldable pub contents_pointer : Pointer A → Pointer A
  contents_pointer none = none
  contents_pointer (some p) = some (record { address = 0; content = contents p.content })

  unfoldable pub contents_each : List A → List A
  contents_each [] = []
  contents_each (x ∷ xs) = contents x ∷ contents_each xs

unfoldable pub contents_entry : {K A : Type 0} → (A → A) → K × A → K × A
contents_entry contents (key, val) = (key, contents val)

-- Every address that a value holds, directly or through other pointers.
module _ {A : Type 0} (addresses : A → List ℕ) where
  unfoldable pub addresses_pointer : Pointer A → List ℕ
  addresses_pointer none = []
  addresses_pointer (some p) = p.address ∷ addresses p.content

  unfoldable pub addresses_each : List A → List ℕ
  addresses_each [] = []
  addresses_each (x ∷ xs) = addresses x ++ addresses_each xs

unfoldable pub addresses_entry : {K A : Type 0} → (A → List ℕ) → K × A → List ℕ
addresses_entry addresses (key, val) = addresses val

-- A value without pointers.
abbrev pub no_addresses : {A : Type 0} → A → List ℕ
no_addresses x = []

abbrev pub itself : {A : Type 0} → A → A
itself x = x

-- Two fields, copied one after the other.
module _ {A B : Type 0} (copy : A → Alloc A) (copy' : B → Alloc B) where
  abbrev pub copy_both : A × B → Alloc (A × B)
  copy_both (a, b) = do a' ← copy a; b' ← copy' b; pure (a', b')
