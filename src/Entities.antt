-- ===== src/Entities.antt =====
-- Functions, activations and annotations (pkg/entities/function.go, activation.go and
-- annotations.go), and the message that asks for an invocation (pkg/protocol/activation.go). A text
-- that the program cuts, joins or measures is the list of its bytes.
use functions_invoker.Base.{ℕ, Bool, true, false, not, String, none, some, List, lookup, string_eq}
use functions_invoker.Container.{ActivationMessageFunction}
pub mod Code
mod Tests

abbrev pub Text : Type 0
Text = List ℕ

-- The dynamic types that `IsTruthy` tells apart. Of a number only whether it is 0 matters.
pub data AnnotationValue : Type 0 where
  boolean : Bool → AnnotationValue
  number : (is_zero : Bool) → AnnotationValue
  text : String → AnnotationValue
  null : AnnotationValue
  composite : AnnotationValue

abbrev pub Annotations : Type 0
Annotations = List (String × AnnotationValue)

abbrev pub is_empty : String → Bool
is_empty String.[] = true
is_empty (String.◌∷◌ c s) = false

unfoldable pub truthy_value : AnnotationValue → Bool
truthy_value (boolean b) = b
truthy_value (number is_zero) = not is_zero
truthy_value (text s) = not (is_empty s)
truthy_value null = false
truthy_value composite = true

unfoldable pub is_truthy : Annotations → String → Bool → Bool
unfolding truthy_value
is_truthy a key for_non_existent = elim (lookup key a) [
  | none ↦ for_non_existent
  | some v ↦ truthy_value v
]

-- Times and durations are nanoseconds.
pub record Limits : Type 0 where
  pub timeout : ℕ
  pub memory : ℕ
  pub logs : ℕ

pub record Exec : Type 0 where
  pub kind : String
  pub code : Text
  pub main : String
  pub binary : Bool

pub record Function : Type 0 where
  pub name : String
  pub namespace : String
  pub exec : Exec
  pub annotations : Annotations
  pub limits : Limits

pub data StatusCode : Type 0 where
  success application_error developer_error system_error : StatusCode

pub record ActivationFunction : Type 0 where
  pub name : String
  pub version : String
  pub path : Text
  pub kind : String
  pub entrypoint : String
  pub limits : Limits
  pub binding : String

pub record ActivationResponse : Type 0 where
  pub result : Text
  pub error : Text
  pub status_code : StatusCode

pub record Activation : Type 0 where
  pub activation_id : String
  pub namespace : String
  pub subject : String
  pub cause : String
  pub annotations : Annotations
  pub function : ActivationFunction
  pub start : ℕ
  pub finish : ℕ
  pub is_timeout : Bool
  pub init_time : ℕ
  pub wait_time : ℕ
  pub response : ActivationResponse
  pub logs : List Text

pub record InvocationIdentity : Type 0 where
  pub subject : String
  pub namespace : String
  pub annotations : List (String × String)
  pub api_key : String
  pub store_activations : Bool

-- The parameters are maps from names to raw JSON.
pub record ActivationMessage : Type 0 where
  pub transaction_id : String
  pub transaction_start : ℕ
  pub activation_id : String
  pub root_controller_index : String
  pub caused_by : String
  pub is_blocking : Bool
  pub function : ActivationMessageFunction
  pub invocation_identity : InvocationIdentity
  pub parameters : List (String × Text)
  pub init_parameters : List (String × Text)
