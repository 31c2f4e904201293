-- ===== src/Conditions/Marks.antt =====
-- Conditions that a list shows as True or as False, and what SetCondition of
-- pkg/utils/conditions.go does to them.
use text.Mathlib.TextPositions.{eq_refl}
use op_stack_operator.Prelude.{
  String, ◌≡◌, refl, true, Option, none, some, List, ◌∷◌, arith, All, All-map,
}
use op_stack_operator.Prelude.Int.{ℤ}
use op_stack_operator.Api.Meta.{Condition, ConditionStatus, condition_true, condition_false}
use op_stack_operator.Conditions.{get_condition, is_condition_true, set_condition}
use op_stack_operator.Conditions.Laws.{
  written, get_condition-set_condition, is_condition_true-set_condition,
}

abbrev pub ShowsTrue : List Condition → String → Type 0
ShowsTrue conditions type = is_condition_true conditions type ≡ true

abbrev pub ShowsFalse : List Condition → String → Type 0
ShowsFalse conditions type =
    (c : Condition) × (get_condition conditions type ≡ some c) × (c.status ≡ condition_false)

status-written :
    (now : ℤ) (old : Option Condition) (type : String) (status : ConditionStatus)
    (reason message : String)
    → (written now old type status reason message).status ≡ status
status-written now none type status reason message = refl
status-written now (some c) type status reason message = refl

module _ (now : ℤ) (conditions : List Condition) (type reason message : String) where
  pub ShowsTrue-set_condition :
      ShowsTrue (set_condition now conditions type condition_true reason message) type
  ShowsTrue-set_condition = rw (is_condition_true-set_condition, eq_refl type) refl

  ShowsTrue-kept :
      (u : String)
      → ShowsTrue conditions u
      → ShowsTrue (set_condition now conditions type condition_true reason message) u
  ShowsTrue-kept u h = rw is_condition_true-set_condition (ground (arith, h))

  pub All-ShowsTrue-set_condition :
      (types : List String)
      → All (ShowsTrue conditions) types
      → All
          (ShowsTrue (set_condition now conditions type condition_true reason message))
          (type ∷ types)
  All-ShowsTrue-set_condition types h = (ShowsTrue-set_condition, All-map ShowsTrue-kept types h)

  pub ShowsFalse-set_condition :
      ShowsFalse (set_condition now conditions type condition_false reason message) type
  ShowsFalse-set_condition =
      let old = get_condition conditions type in
      let c : Condition = written now old type condition_false reason message in
      let found =
        get_condition-set_condition now conditions type condition_false reason message type in
      (c, rw (eq_refl type) at found, status-written now old type _ reason message)
