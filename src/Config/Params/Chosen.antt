-- ===== src/Config/Params/Chosen.antt =====
-- What ResolveParams answers: declared parameters, with values that their choices allow.
use joyrun.Base.{
  ◌≡◌, refl, ap, ◌∙◌, subst, Bool, true, ◌&&◌, ◌||◌, not, Option, none, some, List, [], ◌∷◌,
  is_some, arith, inl, inr, Bool-cases, any, All,
}
use joyrun.Base.Text.{
  Text, text_eq, text_eq_iff, text_eq_refl, get_entry, set_entry, get_entry-set_entry,
}
use joyrun.Base.Strings.{is_empty}
use joyrun.Fault.{Result, ok, err, is_ok, ◌>>=◌}
use joyrun.Config.{ParamSpec}
use joyrun.Config.Params.{
  Value, ValueSource, convert, in_choices, valid_default, valid_converted, validate_spec, Values,
  with_default, add_default, default_values, with_value, set_declared, set_cut, cut_equals,
  set_values, check_required, resolve_params,
}

bind-inv :
    {A B : Type 0} (r : Result A) (f : A → Result B) {b : B}
    → (r >>= f) ≡ ok b
    → (a : A) × (r ≡ ok a) × (f a ≡ ok b)
bind-inv (ok a) f {b} h = (a, refl, h)
bind-inv (err e) f {b} h = ground arith

module _ {Float : Type 0} (parse_float : Text → Option Float) (sprint : Value Float → Text) where
  -- A parameter of that name is declared, and its choices, if it has any, allow the value.
  abbrev pub is_chosen : List (Text × ParamSpec) → Text → Value Float → Bool
  is_chosen params name value =
      any (λ e. text_eq e.0 name && in_choices parse_float sprint e.1 value) params

  abbrev AreChosen : List (Text × ParamSpec) → Values parse_float sprint → Type 0
  AreChosen params values =
      (name : Text) (v : Value Float × ValueSource)
      → get_entry name values ≡ some v
      → is_chosen params name v.0 ≡ true

  set_entry-AreChosen :
      (params : List (Text × ParamSpec)) (key : Text) (value : Value Float) (source : ValueSource)
      (values : Values parse_float sprint)
      → is_chosen params key value ≡ true
      → AreChosen params values
      → AreChosen params (set_entry key (value, source) values)
  set_entry-AreChosen params key value source values c h name v e =
      elim (Bool-cases (text_eq key name)) [
        | inl q ↦
            subst (λ n. is_chosen params n v.0 ≡ true) ((text_eq_iff key name).0 q)
              (subst (λ x. is_chosen params key x ≡ true)
                (ground (arith, get_entry-set_entry key name (value, source) values)) c)
        | inr q ↦ h name v (ground (arith, get_entry-set_entry key name (value, source) values))
      ]

  -- validateSpec passes every parameter.
  abbrev pub AreValid : List (Text × ParamSpec) → Type 0
  AreValid params = All (λ e. is_ok (validate_spec parse_float sprint e.1) ≡ true) params

  valid-default :
      (spec : ParamSpec)
      → is_ok (validate_spec parse_float sprint spec) ≡ true
      → valid_default parse_float sprint spec spec.default ≡ true
  unfolding validate_spec
  valid-default spec h = ground arith

  -- The default of a valid parameter is read, and its choices allow it.
  add_default-AreChosen :
      (params : List (Text × ParamSpec)) (name : Text) (spec : ParamSpec) (o : Option Text)
      (values : Values parse_float sprint) {after : Values parse_float sprint}
      → ((value : Value Float)
          → in_choices parse_float sprint spec value ≡ true
          → is_chosen params name value ≡ true)
      → (is_some o ≡ true → valid_default parse_float sprint spec o ≡ true)
      → AreChosen params values
      → add_default parse_float sprint name spec o values ≡ ok after
      → AreChosen params after
  add_default-AreChosen params name spec none values {after} declared valid h e =
      subst (AreChosen params) (ground arith) h
  add_default-AreChosen params name spec (some default) values {after} declared valid h e =
      go (convert parse_float sprint spec.type default) (valid refl) e
    where
      go :
          (o : Option (Value Float))
          → valid_converted parse_float sprint spec o ≡ true
          → with_default parse_float sprint name o values ≡ ok after
          → AreChosen params after
      go none v e = ground arith
      go (some value) v e = subst (AreChosen params) (ground arith) (
          set_entry-AreChosen params name value ValueSource.target_default values (declared value v)
            h)

  default_values-AreChosen :
      (params rest : List (Text × ParamSpec)) (values : Values parse_float sprint)
      {after : Values parse_float sprint}
      → ((name : Text) (value : Value Float)
          → is_chosen rest name value ≡ true
          → is_chosen params name value ≡ true)
      → AreValid rest
      → AreChosen params values
      → default_values parse_float sprint rest values ≡ ok after
      → AreChosen params after
  unfolding default_values
  default_values-AreChosen params [] values {after} inc valid h e =
      subst (AreChosen params) (ground arith) h
  default_values-AreChosen params ((name, spec) ∷ rest) values {after} inc valid h e =
      let (middle, first, more) =
        bind-inv (add_default parse_float sprint name spec spec.default values)
          (default_values parse_float sprint rest) e in
      default_values-AreChosen params rest middle (λ n v k. inc n v (ground arith)) valid.1
        (add_default-AreChosen params name spec spec.default values
          (λ v k. inc name v (ground (arith, text_eq_refl name))) (λ _. valid-default spec valid.0)
          h first)
        more

  get_entry-is_chosen :
      (params : List (Text × ParamSpec)) (key : Text) (value : Value Float) {spec : ParamSpec}
      → get_entry key params ≡ some spec
      → in_choices parse_float sprint spec value ≡ true
      → is_chosen params key value ≡ true
  unfolding get_entry
  get_entry-is_chosen [] key value {spec} e c = ground arith
  get_entry-is_chosen ((k, s) ∷ params) key value {spec} e c = elim (Bool-cases (text_eq k key)) [
    | inl q ↦
        let same : s ≡ spec = ground arith in
        let allowed : in_choices parse_float sprint s value ≡ true =
          ap (λ x. in_choices parse_float sprint x value) same ∙ c in
        rw (q, allowed) refl
    | inr q ↦ ground (arith, get_entry-is_chosen params key value {spec = spec} (ground arith) c)
  ]

  with_value-AreChosen :
      (params : List (Text × ParamSpec)) (key : Text) (spec : ParamSpec) (o : Option (Value Float))
      (values : Values parse_float sprint) {after : Values parse_float sprint}
      → get_entry key params ≡ some spec
      → AreChosen params values
      → with_value parse_float sprint key spec o values ≡ ok after
      → AreChosen params after
  with_value-AreChosen params key spec none values {after} d h e = ground arith
  with_value-AreChosen params key spec (some value) values {after} d h e =
      elim (Bool-cases (in_choices parse_float sprint spec value)) [
        | inl q ↦ subst (AreChosen params) (ground arith) (
            set_entry-AreChosen params key value ValueSource.cli values
              (get_entry-is_chosen params key value d q) h)
        | inr q ↦ ground arith
      ]

  set_declared-AreChosen :
      (params : List (Text × ParamSpec)) (key raw : Text) (o : Option ParamSpec)
      (values : Values parse_float sprint) {after : Values parse_float sprint}
      → get_entry key params ≡ o
      → AreChosen params values
      → set_declared parse_float sprint key raw o values ≡ ok after
      → AreChosen params after
  set_declared-AreChosen params key raw none values {after} d h e = ground arith
  set_declared-AreChosen params key raw (some spec) values {after} d h e =
      with_value-AreChosen params key spec (convert parse_float sprint spec.type raw) values d h e

  set_cut-AreChosen :
      (params : List (Text × ParamSpec)) (o : Option (Text × Text))
      (values : Values parse_float sprint) {after : Values parse_float sprint}
      → AreChosen params values
      → set_cut parse_float sprint params o values ≡ ok after
      → AreChosen params after
  set_cut-AreChosen params none values {after} h e = ground arith
  set_cut-AreChosen params (some (key, raw)) values {after} h e = elim (Bool-cases (is_empty key)) [
    | inl q ↦ ground arith
    | inr q ↦
        set_declared-AreChosen params key raw (get_entry key params) values refl h (ground arith)
  ]

  set_values-AreChosen :
      (params : List (Text × ParamSpec)) (sets : List Text) (values : Values parse_float sprint)
      {after : Values parse_float sprint}
      → AreChosen params values
      → set_values parse_float sprint params sets values ≡ ok after
      → AreChosen params after
  unfolding set_values
  set_values-AreChosen params [] values {after} h e = subst (AreChosen params) (ground arith) h
  set_values-AreChosen params (item ∷ sets) values {after} h e =
      let (middle, first, more) =
        bind-inv (set_cut parse_float sprint params (cut_equals item) values)
          (set_values parse_float sprint params sets) e in
      set_values-AreChosen params sets middle
        (set_cut-AreChosen params (cut_equals item) values h first) more

  -- Every required parameter has a value.
  abbrev pub are_given : List (Text × ParamSpec) → Values parse_float sprint → Bool
  are_given [] values = true
  are_given ((name, spec) ∷ params) values =
      (not spec.required || is_some (get_entry name values)) && are_given params values

  check_required-inv :
      (params : List (Text × ParamSpec)) (values : Values parse_float sprint)
      {after : Values parse_float sprint}
      → check_required parse_float sprint params values ≡ ok after
      → (values ≡ after) × (are_given params after ≡ true)
  unfolding check_required
  check_required-inv [] values {after} h = (ground arith, refl)
  check_required-inv ((name, spec) ∷ params) values {after} h =
      elim (Bool-cases (spec.required && not (is_some (get_entry name values)))) [
        | inl q ↦ ground arith
        | inr q ↦
            let (same, given) = check_required-inv params values {after = after} (ground arith) in
            (same, ground arith)
      ]

  -- What ResolveParams answers has a value for every required parameter.
  pub resolve_params-are_given :
      (params : List (Text × ParamSpec)) (sets : List Text) {values : Values parse_float sprint}
      → resolve_params parse_float sprint params sets ≡ ok values
      → are_given params values ≡ true
  unfolding resolve_params
  resolve_params-are_given params sets {values} h =
      let (chosen, set, last) =
        bind-inv
          (default_values parse_float sprint params []
            >>= set_values parse_float sprint params sets)
          (check_required parse_float sprint params) h in
      (check_required-inv params chosen last).1

  none-AreChosen : (params : List (Text × ParamSpec)) → AreChosen params []
  unfolding get_entry
  none-AreChosen params name v e = ground arith

  -- With parameters that validateSpec passes, each value that ResolveParams answers belongs to a
  -- declared parameter whose choices, if it has any, allow it.
  pub resolve_params-is_chosen :
      (params : List (Text × ParamSpec)) (sets : List Text) {values : Values parse_float sprint}
      (name : Text) (v : Value Float × ValueSource)
      → AreValid params
      → resolve_params parse_float sprint params sets ≡ ok values
      → get_entry name values ≡ some v
      → is_chosen params name v.0 ≡ true
  unfolding resolve_params
  resolve_params-is_chosen params sets {values} name v valid h e =
      let (chosen, set, last) =
        bind-inv
          (default_values parse_float sprint params []
            >>= set_values parse_float sprint params sets)
          (check_required parse_float sprint params) h in
      let (defaults, first, more) =
        bind-inv (default_values parse_float sprint params [])
          (set_values parse_float sprint params sets) set in
      subst (AreChosen params) (check_required-inv params chosen last).0
        (set_values-AreChosen params sets defaults
          (default_values-AreChosen params params [] (λ n v k. k) valid (none-AreChosen params)
            first)
          more)
        name v e
