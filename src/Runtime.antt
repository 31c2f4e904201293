-- ===== src/Runtime.antt =====
-- What the operator's code runs on: Go's error values, and functions that read and change the world
-- outside the process. `W` is the state of that world (the API server, the L1 endpoint, the clock,
-- the random source); it is never looked into here.
use op_stack_operator.Prelude.{String, ◌<>◌, ◌≡◌, refl, ◌⊎◌, inl, inr, Bool, true, false}

-- What apierrors.IsNotFound and apierrors.IsConflict tell apart; fmt.Errorf with %w keeps it.
pub data Reason : Type 0 where
  not_found conflict other : Reason

pub record Error : Type 0 where
  pub reason : Reason
  pub text : String

pub data Result (A : Type 0) : Type 0 where
  ok : A → Result A
  err : Error → Result A

-- fmt.Errorf with no %w
abbrev pub errorf : String → Error
errorf text = record { reason = other; text = text }

-- fmt.Errorf(prefix + "%w", e)
abbrev pub wrap : String → Error → Error
wrap prefix e = record e { text = prefix <> e.text }

abbrev pub reason_is_not_found : Reason → Bool
reason_is_not_found not_found = true
reason_is_not_found _ = false

abbrev pub is_not_found : Error → Bool
is_not_found e = reason_is_not_found e.reason

abbrev pub reason_is_conflict : Reason → Bool
reason_is_conflict conflict = true
reason_is_conflict _ = false

abbrev pub is_conflict : Error → Bool
is_conflict e = reason_is_conflict e.reason

abbrev pub Eff : Type 0 → Type 0 → Type 0
Eff W A = W → A × W

abbrev pub pure : {W A : Type 0} → A → Eff W A
pure a w = (a, w)

infixl 5 ◌>>=◌ ◌>>◌
abbrev pub ◌>>=◌ : {W A B : Type 0} → Eff W A → (A → Eff W B) → Eff W B
◌>>=◌ m f w = let (a, w') = m w in f a w'

abbrev pub ◌>>◌ : {W B : Type 0} → Eff W (Unit {0}) → Eff W B → Eff W B
m >> k = m >>= λ _. k

-- `if err != nil { return err }`
abbrev pub or_return : {W A B : Type 0} → Result A → (A → Eff W (Result B)) → Eff W (Result B)
or_return (ok a) k = k a
or_return (err e) k = pure (err e)

-- `if err != nil { return fmt.Errorf(prefix + "%w", err) }`
abbrev pub or_wrap :
    {W A B : Type 0} → String → Result A → (A → Eff W (Result B)) → Eff W (Result B)
or_wrap prefix (ok a) k = k a
or_wrap prefix (err e) k = pure (err (wrap prefix e))

pub Result-cases :
    {A : Type 0} (r : Result A) → ((e : Error) × (r ≡ err e)) ⊎ ((a : A) × (r ≡ ok a))
Result-cases (err e) = inl (e, refl)
Result-cases (ok a) = inr (a, refl)
