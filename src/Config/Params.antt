-- ===== src/Config/Params.antt =====
-- convert, choiceAllowed, validateSpec and ResolveParams. A floating-point number and its reading
-- are strconv's; how fmt.Sprint prints a value is fmt's: both are parameters.
pub mod Chosen
use mathlib.Core.Option
use joyrun.Base.{
  ℕ, Bool, true, false, ◌&&◌, ◌||◌, not, Option, none, some, List, [], ◌∷◌, if◌then◌else◌, is_some,
  nat_eq, length, arith, ◌≡◌,
}
use joyrun.Base.Text.{Text, codes, text_eq, is_one_of, get_entry, set_entry}
use joyrun.Base.Strings.{is_empty}
use joyrun.Base.Numbers.{ℤ, parse_int}
use joyrun.Fault.{
  Result, ok, err, fail, ◌>>=◌, config_invalid, invalid_parameter, unknown_parameter,
  missing_parameter, internal_error,
}
use joyrun.Config.{ParamSpec}

-- What convert answers.
pub data Value (Float : Type 0) : Type 0 where
  string : Text → Value Float
  int : ℤ → Value Float
  float : Float → Value Float
  bool : Bool → Value Float

pub data ValueSource : Type 0 where
  target_default cli : ValueSource

-- strconv.ParseBool
unfoldable pub parse_bool : Text → Option Bool
parse_bool s =
    if is_one_of
      (codes "1" ∷ codes "t" ∷ codes "T" ∷ codes "true" ∷ codes "TRUE" ∷ codes "True" ∷ []) s
    then some true
    else if is_one_of
        (codes "0" ∷ codes "f" ∷ codes "F" ∷ codes "false" ∷ codes "FALSE" ∷ codes "False" ∷ []) s
    then some false
    else none

abbrev after_byte : ℕ → Option (Text × Text) → Option (Text × Text)
after_byte c none = none
after_byte c (some (key, raw)) = some (c ∷ key, raw)

-- `strings.Cut(item, "=")` where "=" stands in the item.
unfoldable pub cut_equals : Text → Option (Text × Text)
cut_equals [] = none
cut_equals (c ∷ s) = if nat_eq c b'=' then some ([], s) else after_byte c (cut_equals s)

-- `parse_float` is strconv.ParseFloat followed by the test that the number is finite.
module _ {Float : Type 0} (parse_float : Text → Option Float) (sprint : Value Float → Text) where
  -- convert; `none` is an error.
  unfoldable pub convert : Text → Text → Option (Value Float)
  convert kind raw =
      if text_eq kind (codes "string")
      then some (Value.string raw)
      else if text_eq kind (codes "int")
      then Option.map Value.int (parse_int raw)
      else if text_eq kind (codes "float")
      then Option.map Value.float (parse_float raw)
      else if text_eq kind (codes "bool")
      then Option.map Value.bool (parse_bool raw)
      else none

  abbrev same_print : Value Float → Option (Value Float) → Bool
  same_print value none = false
  same_print value (some converted) = text_eq (sprint converted) (sprint value)

  -- choiceAllowed
  unfoldable pub choice_allowed : Value Float → List Text → Text → Bool
  choice_allowed value [] kind = false
  choice_allowed value (choice ∷ choices) kind =
      same_print value (convert kind choice) || choice_allowed value choices kind

  -- The test after a conversion, with `len(choices) > 0` in front of it.
  abbrev pub in_choices : ParamSpec → Value Float → Bool
  in_choices spec value = is_empty_list spec.choices || choice_allowed value spec.choices spec.type
    where
      is_empty_list : List Text → Bool
      is_empty_list [] = true
      is_empty_list (c ∷ cs) = false

  abbrev pub valid_choices : Text → List Text → Bool
  valid_choices kind [] = true
  valid_choices kind (choice ∷ choices) =
      is_some (convert kind choice) && valid_choices kind choices

  abbrev pub valid_converted : ParamSpec → Option (Value Float) → Bool
  valid_converted spec none = false
  valid_converted spec (some value) = in_choices spec value

  abbrev pub valid_default : ParamSpec → Option Text → Bool
  valid_default spec none = spec.required
  valid_default spec (some default) = valid_converted spec (convert spec.type default)

  -- validateSpec: every failure is CONFIG_INVALID.
  unfoldable pub validate_spec : ParamSpec → Result (Unit {0})
  validate_spec spec =
      if is_one_of (codes "string" ∷ codes "int" ∷ codes "float" ∷ codes "bool" ∷ []) spec.type
        && valid_default spec spec.default
        && valid_choices spec.type spec.choices
      then ok tt
      else fail config_invalid false

  abbrev pub Values : Type 0
  Values = List (Text × (Value Float × ValueSource))

  abbrev pub with_default : Text → Option (Value Float) → Values → Result Values
  with_default name none values = fail internal_error false
  with_default name (some value) values =
      ok (set_entry name (value, ValueSource.target_default) values)

  abbrev pub add_default : Text → ParamSpec → Option Text → Values → Result Values
  add_default name spec none values = ok values
  add_default name spec (some default) values = with_default name (convert spec.type default) values

  -- The first loop: the defaults.
  unfoldable pub default_values : List (Text × ParamSpec) → Values → Result Values
  default_values [] values = ok values
  default_values ((name, spec) ∷ params) values =
      add_default name spec spec.default values >>= default_values params

  abbrev pub with_value : Text → ParamSpec → Option (Value Float) → Values → Result Values
  with_value key spec none values = fail invalid_parameter false
  with_value key spec (some value) values =
      if in_choices spec value
      then ok (set_entry key (value, ValueSource.cli) values)
      else fail invalid_parameter false

  abbrev pub set_declared : Text → Text → Option ParamSpec → Values → Result Values
  set_declared key raw none values = fail unknown_parameter false
  set_declared key raw (some spec) values = with_value key spec (convert spec.type raw) values

  abbrev pub set_cut : List (Text × ParamSpec) → Option (Text × Text) → Values → Result Values
  set_cut params none values = fail invalid_parameter false
  set_cut params (some (key, raw)) values =
      if is_empty key
      then fail invalid_parameter false
      else set_declared key raw (get_entry key params) values

  -- The second loop: `--set key=value`.
  unfoldable pub set_values : List (Text × ParamSpec) → List Text → Values → Result Values
  set_values params [] values = ok values
  set_values params (item ∷ sets) values =
      set_cut params (cut_equals item) values >>= set_values params sets

  -- The third loop: the required parameters.
  unfoldable pub check_required : List (Text × ParamSpec) → Values → Result Values
  check_required [] values = ok values
  check_required ((name, spec) ∷ params) values =
      if spec.required && not (is_some (get_entry name values))
      then fail missing_parameter false
      else check_required params values

  -- ResolveParams
  unfoldable pub resolve_params : List (Text × ParamSpec) → List Text → Result Values
  resolve_params params sets =
      default_values params [] >>= set_values params sets >>= check_required params
