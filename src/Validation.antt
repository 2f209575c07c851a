-- ===== src/Validation.antt =====
-- `ConfigValidator` (src/validation/config_validator.cpp, include/validation/config_validator.h). The
-- functions of the standard library are parameters, over any type `D` for `double`; `std::stod` may
-- throw, and so may then `validate_field` and `validate_config` (`none`). A dictionary has no order,
-- and the bounds of a length are not negative.
use distributed_data_science.Prelude.{
  ℕ, Bool, true, false, not, ◌&&◌, ◌||◌, Option, none, some, String, List, [], ◌∷◌, ◌++◌, ltb, ◌==◌,
  if◌then◌else◌, ◌=?◌, string_key, concat,
}
use distributed_data_science.Prelude.Maps.{lookup, insert, lookup_or}
use Prim.Native.String.{len}

pub data ValidationRule : Type 0 where
  required numeric_range string_length file_exists directory_exists : ValidationRule
  positive_number valid_email valid_url : ValidationRule

pub record ValidationError : Type 0 where
  pub field_name : String
  pub error_message : String
  pub rule_type : ValidationRule

pub record ConfigValidator (D : Type 0) : Type 0 where
  pub field_rules : List (String × List ValidationRule)
  pub numeric_ranges : List (String × (D × D))
  pub string_lengths : List (String × (ℕ × ℕ))
  pub errors : List ValidationError

-- `strtod` gives a value and how many characters it read.
pub record Library (D : Type 0) : Type 0 where
  pub strtod : String → D × ℕ
  pub stod : String → Option D
  pub less : D → D → Bool
  pub at_most : D → D → Bool
  pub zero_double : D
  pub double_to_string : D → String
  pub int_to_string : ℕ → String
  pub regex_match : String → String → Bool
  pub exists : String → Bool

module _ {D : Type 0} where
  unfoldable pub push_rule : String → ValidationRule → ConfigValidator D → ConfigValidator D
  unfolding insert lookup_or
  push_rule field rule v = record v {
    field_rules = insert field (lookup_or [] field v.field_rules ++ rule ∷ []) v.field_rules;
  }

  unfoldable pub add_required_field : String → ConfigValidator D → ConfigValidator D
  unfolding push_rule
  add_required_field field v = push_rule field required v

  unfoldable pub add_numeric_range : String → D → D → ConfigValidator D → ConfigValidator D
  unfolding push_rule insert
  add_numeric_range field low high v = record (push_rule field numeric_range v) {
    numeric_ranges = insert field (low, high) v.numeric_ranges;
  }

  unfoldable pub add_string_length : String → ℕ → ℕ → ConfigValidator D → ConfigValidator D
  unfolding push_rule insert
  add_string_length field low high v = record (push_rule field string_length v) {
    string_lengths = insert field (low, high) v.string_lengths;
  }

  unfoldable pub add_file_exists : String → ConfigValidator D → ConfigValidator D
  unfolding push_rule
  add_file_exists field v = push_rule field file_exists v

  unfoldable pub add_positive_number : String → ConfigValidator D → ConfigValidator D
  unfolding push_rule
  add_positive_number field v = push_rule field positive_number v

  unfoldable pub add_email_validation : String → ConfigValidator D → ConfigValidator D
  unfolding push_rule
  add_email_validation field v = push_rule field valid_email v

  unfoldable pub add_url_validation : String → ConfigValidator D → ConfigValidator D
  unfolding push_rule
  add_url_validation field v = push_rule field valid_url v

module _ {D : Type 0} (lib : Library D) where
  -- `*endptr == '\0'`: all of the text was read. The texts hold no NUL.
  unfoldable pub is_valid_number : String → Bool
  is_valid_number value =
      let (_, consumed) = lib.strtod value in
      not (value =? "") && not (consumed == 0) && consumed == len value

  unfoldable pub is_valid_email : String → Bool
  is_valid_email email = lib.regex_match "[a-zA-Z0-9._%+-]+@[a-zA-Z0-9.-]+\\.[a-zA-Z]{2,}" email

  unfoldable pub is_valid_url : String → Bool
  is_valid_url url = lib.regex_match "https?://[^\\s/$.?#].[^\\s]*" url

  -- The message of a rule that fails, if it fails; `none` where `std::stod` throws.
  unfoldable pub check_rule :
      ConfigValidator D → String → String → ValidationRule → Option (Option String)
  unfolding lookup_or is_valid_number is_valid_email is_valid_url
  check_rule v field value numeric_range =
      if not (is_valid_number value)
      then some (some "Must be a valid number")
      else elim (lib.stod value) [
        | none ↦ none
        | some number ↦
            let (low, high) = lookup_or (lib.zero_double, lib.zero_double) field v.numeric_ranges in
            if lib.less number low || lib.less high number
            then some (
                some (
                  concat
                    (concat (concat (concat "Value out of range [" (lib.double_to_string low)) ", ")
                      (lib.double_to_string high))
                    "]"))
            else some none
      ]
  check_rule v field value string_length =
      let (low, high) = lookup_or (0, 0) field v.string_lengths in
      if ltb (len value) low || ltb high (len value)
      then some (
          some (
            concat
              (concat (concat "String length must be between " (lib.int_to_string low)) " and ")
              (lib.int_to_string high)))
      else some none
  check_rule v field value file_exists =
      if lib.exists value then some none else some (some (concat "File does not exist: " value))
  check_rule v field value positive_number =
      if not (is_valid_number value)
      then some (some "Must be a positive number")
      else elim (lib.stod value) [
        | none ↦ none
        | some number ↦
            if lib.at_most number lib.zero_double
            then some (some "Must be a positive number")
            else some none
      ]
  check_rule v field value valid_email =
      if is_valid_email value then some none else some (some "Invalid email format")
  check_rule v field value valid_url =
      if is_valid_url value then some none else some (some "Invalid URL format")
  check_rule v field value _ = some none

  unfoldable pub add_error :
      String → String → ValidationRule → List ValidationError → List ValidationError
  add_error field message rule errors =
      errors ++ record { field_name = field; error_message = message; rule_type = rule } ∷ []

  -- The `for` of `validate_field` over the rules: whether all held, and the errors.
  unfoldable pub check_rules :
      ConfigValidator D
      → String
      → String
      → List ValidationRule
      → List ValidationError
      → Option (Bool × List ValidationError)
  unfolding check_rule add_error
  check_rules v field value [] errors = some (true, errors)
  check_rules v field value (rule ∷ rules) errors = elim (check_rule v field value rule) [
    | none ↦ none
    | some none ↦ check_rules v field value rules errors
    | some (some message) ↦
        elim (check_rules v field value rules (add_error field message rule errors)) [
          | none ↦ none
          | some (_, errors') ↦ some (false, errors')
        ]
  ]

  unfoldable pub validate_field :
      ConfigValidator D
      → String
      → String
      → List ValidationError
      → Option (Bool × List ValidationError)
  unfolding lookup check_rules
  validate_field v field value errors = elim (lookup field v.field_rules) [
    | none ↦ some (true, errors)
    | some rules ↦ check_rules v field value rules errors
  ]

  unfoldable pub is_required : ValidationRule → Bool
  is_required required = true
  is_required _ = false

  -- The inner `for` of `validate_config`, for one field.
  unfoldable pub each_rule :
      ConfigValidator D
      → String
      → String
      → List ValidationRule
      → List ValidationError
      → Option (List ValidationError)
  unfolding validate_field is_required add_error
  each_rule v field value [] errors = some errors
  each_rule v field value (rule ∷ rules) errors =
      if value =? ""
      then each_rule v field value rules
          (if is_required rule then add_error field "Field is required" rule errors else errors)
      else elim (validate_field v field value errors) [
        | none ↦ none
        | some (_, errors') ↦ each_rule v field value rules errors'
      ]

  -- The outer `for`.
  unfoldable pub each_field :
      ConfigValidator D
      → List (String × String)
      → List (String × List ValidationRule)
      → List ValidationError
      → Option (List ValidationError)
  unfolding lookup_or each_rule
  each_field v config [] errors = some errors
  each_field v config ((field, rules) ∷ rest) errors =
      elim (each_rule v field (lookup_or "" field config) rules errors) [
        | none ↦ none
        | some errors' ↦ each_field v config rest errors'
      ]

  unfoldable pub validate_config :
      ConfigValidator D → List (String × String) → Option (Bool × ConfigValidator D)
  unfolding each_field
  validate_config v config = elim (each_field v config v.field_rules []) [
    | none ↦ none
    | some errors ↦ some (elim errors [ [] ↦ true | _ ∷ _ ↦ false ], record v { errors = errors })
  ]
