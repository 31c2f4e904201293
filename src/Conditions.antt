-- ===== src/Conditions.antt =====
-- pkg/utils/conditions.go. A function that writes through `*[]metav1.Condition` returns the new
-- list; `now` is what its call of time.Now() read.
pub mod Laws
pub mod Marks
use op_stack_operator.Prelude.{
  String, Bool, true, false, Option, none, some, List, [], ◌∷◌, if◌then◌else◌, str_eq,
}
use op_stack_operator.Prelude.Int.{ℤ, pos}
use op_stack_operator.Api.Meta.{
  Condition, ConditionStatus, condition_true, condition_false, condition_unknown,
}

unfoldable pub set_condition :
    ℤ → List Condition → String → ConditionStatus → String → String → List Condition
set_condition now [] condition_type status reason message =
    record {
      type = condition_type;
      status = status;
      observed_generation = pos 0;
      last_transition_time = now;
      reason = reason;
      message = message;
    }
    ∷ []
set_condition now (condition ∷ conditions) condition_type status reason message =
    let rest = set_condition now conditions condition_type status reason message in
    if str_eq condition.type condition_type
    then record condition {
      status = status;
      reason = reason;
      message = message;
      last_transition_time = now;
    }
      ∷ conditions
    else condition ∷ rest

unfoldable pub get_condition : List Condition → String → Option Condition
get_condition [] condition_type = none
get_condition (condition ∷ conditions) condition_type =
    if str_eq condition.type condition_type
    then some condition
    else get_condition conditions condition_type

abbrev pub has_status_true : ConditionStatus → Bool
has_status_true condition_true = true
has_status_true _ = false

unfoldable pub is_condition_true : List Condition → String → Bool
is_condition_true conditions condition_type = elim (get_condition conditions condition_type) [
  | none ↦ false
  | some condition ↦ has_status_true condition.status
]

unfoldable pub set_condition_true : ℤ → List Condition → String → String → String → List Condition
set_condition_true now conditions condition_type reason message =
    set_condition now conditions condition_type condition_true reason message

unfoldable pub set_condition_false : ℤ → List Condition → String → String → String → List Condition
set_condition_false now conditions condition_type reason message =
    set_condition now conditions condition_type condition_false reason message

unfoldable pub set_condition_unknown :
    ℤ → List Condition → String → String → String → List Condition
set_condition_unknown now conditions condition_type reason message =
    set_condition now conditions condition_type condition_unknown reason message
