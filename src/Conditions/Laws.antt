-- ===== src/Conditions/Laws.antt =====
-- A list of conditions is a map from condition types, and stays one.
use op_stack_operator.Prelude.{
  String, ◌≡◌, refl, Option, none, some, List, [], ◌∷◌, ◌++◌, map, arith, if◌then◌else◌, str_eq,
  eq_iff,
}
use op_stack_operator.Prelude.Int.{ℤ, pos}
use op_stack_operator.Api.Meta.{Condition, ConditionStatus}
use op_stack_operator.Conditions.{set_condition, get_condition, has_status_true, is_condition_true}

-- What the entry of a type holds after a write: a new entry has no observed generation.
abbrev pub written : ℤ → Option Condition → String → ConditionStatus → String → String → Condition
written now none condition_type status reason message = record {
  type = condition_type;
  status = status;
  observed_generation = pos 0;
  last_transition_time = now;
  reason = reason;
  message = message;
}
written now (some old) condition_type status reason message = record {
  type = condition_type;
  status = status;
  observed_generation = old.observed_generation;
  last_transition_time = now;
  reason = reason;
  message = message;
}

-- After SetCondition, GetCondition of the type that was written finds the new status, reason,
-- message and time, with the observed generation of the old entry (0 if there was none), and of
-- any other type what it found before.
pub get_condition-set_condition :
    (now : ℤ) (conditions : List Condition) (t : String) (status : ConditionStatus)
    (reason message u : String)
    → get_condition (set_condition now conditions t status reason message) u ≡ (
        if str_eq t u
        then some (written now (get_condition conditions t) t status reason message)
        else get_condition conditions u)
unfolding set_condition get_condition
get_condition-set_condition now [] t status reason message u = refl
get_condition-set_condition now (c ∷ cs) t status reason message u = ground (
  arith,
  get_condition-set_condition now cs t status reason message u,
  eq_iff c.type t,
  eq_iff c.type u,
  eq_iff t u,
)

-- Every type stands in the list once.
abbrev pub UniqueTypes : List Condition → Type 0
UniqueTypes [] = Unit
UniqueTypes (c ∷ cs) = (get_condition cs c.type ≡ none) × UniqueTypes cs

-- SetCondition keeps the condition types distinct.
pub set_condition-UniqueTypes :
    (now : ℤ) (conditions : List Condition) (t : String) (status : ConditionStatus)
    (reason message : String)
    → UniqueTypes conditions
    → UniqueTypes (set_condition now conditions t status reason message)
unfolding set_condition
set_condition-UniqueTypes now [] t status reason message h = unfold get_condition in (refl, tt)
set_condition-UniqueTypes now (c ∷ cs) t status reason message h = ground (
  arith,
  set_condition-UniqueTypes now cs t status reason message h.1,
  get_condition-set_condition now cs t status reason message c.type,
  eq_iff c.type t,
  eq_iff t c.type,
)

abbrev types : List Condition → List String
types = map (λ c. c.type)

-- SetCondition moves no entry: the types in order stay as they are if the type is in the list, and
-- otherwise the new one is put behind them.
pub types-set_condition :
    (now : ℤ) (conditions : List Condition) (t : String) (status : ConditionStatus)
    (reason message : String)
    → types (set_condition now conditions t status reason message)
      ≡ elim (get_condition conditions t) [
        | none ↦ types conditions ++ t ∷ []
        | some _ ↦ types conditions
      ]
unfolding set_condition get_condition
types-set_condition now [] t status reason message = refl
types-set_condition now (c ∷ cs) t status reason message =
    ground (arith, types-set_condition now cs t status reason message, eq_iff c.type t)

-- IsConditionTrue of `u` after SetCondition of `t`: for `t` itself exactly whether the status that
-- was written is True, and unchanged for every other type.
pub is_condition_true-set_condition :
    (now : ℤ) (conditions : List Condition) (t : String) (status : ConditionStatus)
    (reason message u : String)
    → is_condition_true (set_condition now conditions t status reason message) u
      ≡ (if str_eq t u then has_status_true status else is_condition_true conditions u)
unfolding is_condition_true
is_condition_true-set_condition now conditions t status reason message u =
    ground (arith, get_condition-set_condition now conditions t status reason message u, eq_iff t u)
