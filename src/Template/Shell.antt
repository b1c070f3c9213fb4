-- ===== src/Template/Shell.antt =====
-- shellData: the values of a rendered script are quoted for the shell.
use joyrun.Base.{
  Bool-cases, refl, Bool, true, false, ◌||◌, some, List, [], ◌∷◌, if◌then◌else◌, any, nat_eq, ◌≡◌,
  arith, inl, inr,
}
use joyrun.Base.Text.{Text, get_entry}
use joyrun.Fault.{Result, ok, err, fail, unsafe_template_value, Result-cases}
use joyrun.Config.{ResolvedPartition}
use joyrun.Remote.{quote}
use joyrun.Remote.Words.{Mode, read_word, read_word-last}

-- A value of `Data.Params`: a text, or something that is printed as it is.
pub data Param : Type 0 where
  text other : Text → Param

pub record Data : Type 0 where
  pub input : Text
  pub stem : Text
  pub name : Text
  pub task_id : Text
  pub work_dir : Text
  pub params : List (Text × Param)
  pub partition : ResolvedPartition

-- hasLineBreak: "\r", "\n" and "\0".
unfoldable pub has_line_break : Text → Bool
has_line_break value = any (λ c. nat_eq c 13 || nat_eq c 10 || nat_eq c 0) value

abbrev unsafe_param : Param → Bool
unsafe_param (Param.text t) = has_line_break t
unsafe_param (Param.other t) = false

abbrev quote_param : Param → Param
quote_param (Param.text t) = Param.text (quote t)
quote_param (Param.other t) = Param.other t

abbrev put_param : Text → Param → Result (List (Text × Param)) → Result (List (Text × Param))
put_param key value (err e) = err e
put_param key value (ok done) = ok ((key, quote_param value) ∷ done)

-- The loop over the parameters.
unfoldable pub shell_params : List (Text × Param) → Result (List (Text × Param))
shell_params [] = ok []
shell_params ((key, value) ∷ params) =
    if unsafe_param value
    then fail unsafe_template_value false
    else put_param key value (shell_params params)

abbrev quoted_data : Data → Result (List (Text × Param)) → Result Data
quoted_data d (err e) = err e
quoted_data d (ok params) = ok (record {
  input = quote d.input;
  stem = quote d.stem;
  name = quote d.name;
  task_id = quote d.task_id;
  work_dir = quote d.work_dir;
  params = params;
  partition = record d.partition {
    name = quote d.partition.name;
    memory_per_node = quote d.partition.memory_per_node;
  };
})

-- shellData
unfoldable pub shell_data : Data → Result Data
shell_data d =
    if has_line_break d.input
      || has_line_break d.stem
      || has_line_break d.name
      || has_line_break d.task_id
      || has_line_break d.work_dir
    then fail unsafe_template_value false
    else quoted_data d (shell_params d.params)

-- The shell reads a rendered text as one word, the value itself, which has no line break.
abbrev pub IsSafe : Text → Text → Type 0
IsSafe value rendered =
    (has_line_break value ≡ false) × (read_word Mode.bare rendered ≡ some (value, []))

-- Rendered parameters: the same keys, each text as one safe word, any other value as it was.
abbrev pub AreSafe : List (Text × Param) → List (Text × Param) → Type 0
AreSafe [] [] = Unit
AreSafe ((k, Param.text t) ∷ params) ((k', Param.text r) ∷ done) =
    (k' ≡ k) × IsSafe t r × AreSafe params done
AreSafe ((k, Param.other t) ∷ params) ((k', Param.other r) ∷ done) =
    (k' ≡ k) × (r ≡ t) × AreSafe params done
AreSafe _ _ = true ≡ false

shell_params-text :
    (params : List (Text × Param)) (key : Text) {done : List (Text × Param)} {value : Text}
    → shell_params params ≡ ok done
    → get_entry key params ≡ some (Param.text value)
    → (has_line_break value ≡ false) × (get_entry key done ≡ some (Param.text (quote value)))
unfolding shell_params get_entry
shell_params-text [] key {done} {value} h e = ground arith
shell_params-text ((k, Param.text t) ∷ params) key {done} {value} h e =
    elim (Result-cases (shell_params params)) [
      | inr (x, q) ↦ ground arith
      | inl (ps, q) ↦ ground (arith, shell_params-text params key {done = ps} {value = value} q)
    ]
shell_params-text ((k, Param.other t) ∷ params) key {done} {value} h e =
    elim (Result-cases (shell_params params)) [
      | inr (x, q) ↦ ground arith
      | inl (ps, q) ↦ ground (arith, shell_params-text params key {done = ps} {value = value} q)
    ]

shell_params-AreSafe :
    (params : List (Text × Param)) {done : List (Text × Param)}
    → shell_params params ≡ ok done
    → AreSafe params done
unfolding shell_params
shell_params-AreSafe [] {done} h = let is : [] ≡ done = ground arith in rw (← is) tt
shell_params-AreSafe ((k, Param.text t) ∷ params) {done} h = elim (Bool-cases (has_line_break t)) [
  | inl bad ↦ absurd (ground arith)
  | inr fine ↦ elim (Result-cases (shell_params params)) [
    | inr (x, q) ↦ absurd (ground arith)
    | inl (ps, q) ↦
        let is : (k, Param.text (quote t)) ∷ ps ≡ done = ground arith in
        rw (← is) (refl, (fine, read_word-last t), shell_params-AreSafe params q)
  ]
]
shell_params-AreSafe ((k, Param.other t) ∷ params) {done} h =
    elim (Result-cases (shell_params params)) [
      | inr (x, q) ↦ absurd (ground arith)
      | inl (ps, q) ↦
          let is : (k, Param.other t) ∷ ps ≡ done = ground arith in
          rw (← is) (refl, refl, shell_params-AreSafe params q)
    ]

-- If shellData does not refuse the values, the shell reads each rendered field, and each parameter
-- that is a text, as one word: the value that was given, which has no line break. It reads the name
-- of the partition and its memory as one word too, line breaks or not, and every other parameter is
-- handed on as it was given.
pub shell_data-IsSafe :
    (d : Data) {e : Data}
    → shell_data d ≡ ok e
    → IsSafe d.input e.input
      × IsSafe d.stem e.stem
      × IsSafe d.name e.name
      × IsSafe d.task_id e.task_id
      × IsSafe d.work_dir e.work_dir
      × AreSafe d.params e.params
      × (read_word Mode.bare e.partition.name ≡ some (d.partition.name, []))
      × (read_word Mode.bare e.partition.memory_per_node ≡ some (d.partition.memory_per_node, []))
unfolding shell_data
shell_data-IsSafe d {e} h = elim (Result-cases (shell_params d.params)) [
  | inr (x, q) ↦ absurd (ground arith)
  | inl (ps, q) ↦ (
    (ground arith, ground (arith, read_word-last d.input)),
    (ground arith, ground (arith, read_word-last d.stem)),
    (ground arith, ground (arith, read_word-last d.name)),
    (ground arith, ground (arith, read_word-last d.task_id)),
    (ground arith, ground (arith, read_word-last d.work_dir)),
    (let same : ps ≡ e.params = ground arith in rw (← same) (shell_params-AreSafe d.params q)),
    ground (arith, read_word-last d.partition.name),
    ground (arith, read_word-last d.partition.memory_per_node),
  )
]

-- If shellData does not refuse the values, the shell reads each rendered parameter that is a text
-- as one word: the value that was given, which has no line break.
pub shell_data-param :
    (d : Data) {e : Data} (key value : Text)
    → shell_data d ≡ ok e
    → get_entry key d.params ≡ some (Param.text value)
    → (rendered : Text) × (get_entry key e.params ≡ some (Param.text rendered))
      × IsSafe value rendered
unfolding shell_data
shell_data-param d {e} key value h p = elim (Result-cases (shell_params d.params)) [
  | inr (x, q) ↦ ground arith
  | inl (ps, q) ↦
      let (fine, found) = shell_params-text d.params key {done = ps} {value = value} q p in
      (quote value, ground arith, (fine, read_word-last value))
]
