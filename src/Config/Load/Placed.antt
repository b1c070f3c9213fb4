-- ===== src/Config/Load/Placed.antt =====
-- What a loaded configuration promises to ResolvePartition.
use joyrun.Base.{
  ◌≡◌, refl, ap, sym, ◌∙◌, Bool, true, false, ◌||◌, not, Option, none, some, List, [], ◌∷◌,
  if◌then◌else◌, is_some, arith, inl, inr, Bool-cases,
}
use joyrun.Base.Text.{Text, is_one_of, text_eq, text_eq_iff, get_entry}
use joyrun.Base.Strings.{is_empty, trim_space}
use joyrun.Fault.{is_ok}
use joyrun.Template.{Node}
use joyrun.Config.{Partition, Cluster, Placement, Target, Config}
use joyrun.Config.Params.{Value}
use joyrun.Config.Partitions.{Origin, resolve_partition, named_partition, declared}
use joyrun.Config.Load.{
  Verdict, test, ◌then◌, each, check_cluster, check_allowed, check_placement, check_in_cluster,
  check_target, normalized, check_config, loaded, load,
}

then-passed :
    (v w : Verdict) → (v then w) ≡ Verdict.passed → (v ≡ Verdict.passed) × (w ≡ Verdict.passed)
then-passed Verdict.passed w h = (refl, h)
then-passed Verdict.invalid w h = ground arith
then-passed Verdict.panicked w h = ground arith

test-passed : (b : Bool) → test b ≡ Verdict.passed → b ≡ true
test-passed true h = refl
test-passed false h = ground arith

each-get_entry :
    {V : Type 0} (g : V → Verdict) (k : Text) (m : List (Text × V)) {v : V}
    → each (λ e. g e.1) m ≡ Verdict.passed
    → get_entry k m ≡ some v
    → g v ≡ Verdict.passed
unfolding get_entry
each-get_entry g k [] {v} h e = ground arith
each-get_entry g k ((j, u) ∷ m) {v} h e =
    let (first, rest) = then-passed (g u) (each (λ e. g e.1) m) h in
    elim (Bool-cases (text_eq j k)) [
      | inl q ↦ ap g (ground arith) ∙ first
      | inr q ↦ each-get_entry g k m rest (ground arith)
    ]

check_allowed-known :
    (partitions : List (Text × Partition)) (seen names : List Text) (name : Text)
    → check_allowed partitions seen names ≡ Verdict.passed
    → is_one_of names name ≡ true
    → is_some (get_entry name partitions) ≡ true
unfolding check_allowed
check_allowed-known partitions seen [] name h e = ground arith
check_allowed-known partitions seen (n ∷ names) name h e =
    let (fresh, more) = then-passed (test (not (is_one_of seen n))) _ h in
    let (known, rest) = then-passed (test (is_some (get_entry n partitions))) _ more in
    elim (Bool-cases (text_eq n name)) [
      | inl q ↦
          sym (ap (λ t. is_some (get_entry t partitions)) ((text_eq_iff n name).0 q))
          ∙ test-passed _ known
      | inr q ↦ check_allowed-known partitions (n ∷ seen) names name rest (ground arith)
    ]

-- The default is a name, it is allowed, and the cluster has every partition that is allowed.
abbrev IsPlaced : List (Text × Partition) → Placement → Type 0
IsPlaced partitions placement =
    (is_empty placement.default_partition ≡ false)
    × (is_one_of placement.allowed_partitions placement.default_partition ≡ true)
    × ((name : Text)
        → is_one_of placement.allowed_partitions name ≡ true
        → is_some (get_entry name partitions) ≡ true)

check_placement-IsPlaced :
    (partitions : List (Text × Partition)) (placement : Placement)
    → check_placement partitions placement ≡ Verdict.passed
    → IsPlaced partitions placement
unfolding check_placement
check_placement-IsPlaced partitions placement h =
    let (named, h1) = then-passed (test (not (is_empty placement.default_partition))) _ h in
    let (some_allowed, h2) = then-passed (test _) _ h1 in
    let (allowed, default) =
      then-passed (check_allowed partitions [] placement.allowed_partitions) _ h2 in
    (
      ground (arith, test-passed _ named),
      test-passed _ default,
      λ name. check_allowed-known partitions [] placement.allowed_partitions name allowed,
    )

declared-ok :
    (name : Text) (from : Origin) (o : Option Partition) → is_ok (declared name from o) ≡ is_some o
declared-ok name from none = refl
declared-ok name from (some partition) = refl

named_partition-ok :
    (cluster : Cluster) (target : Target) (name : Text) (from : Origin)
    → is_empty name ≡ false
    → ((n : Text)
        → is_one_of target.placement.allowed_partitions n ≡ true
        → is_some (get_entry n cluster.partitions) ≡ true)
    → is_ok (named_partition cluster target name from)
      ≡ is_one_of target.placement.allowed_partitions name
unfolding named_partition
named_partition-ok cluster target name from solid known =
    elim (Bool-cases (is_one_of target.placement.allowed_partitions name)) [
      | inl e ↦
          rw (solid, e) (declared-ok name from (get_entry name cluster.partitions) ∙ known name e)
      | inr e ↦ rw (solid, e) refl
    ]

resolve_partition-ok :
    (cluster : Cluster) (target : Target) (override : Text)
    → IsPlaced cluster.partitions target.placement
    → is_ok (resolve_partition cluster target override)
      ≡ (is_empty override || is_one_of target.placement.allowed_partitions override)
unfolding resolve_partition
resolve_partition-ok cluster target override (solid, default, known) =
    elim (Bool-cases (is_empty override)) [
      | inl e ↦
          rw e (named_partition-ok cluster target _ Origin.target_default solid known ∙ default)
      | inr e ↦ rw e (named_partition-ok cluster target _ Origin.cli e known)
    ]

loaded-inv :
    (d : Config) (v : Verdict) {c : Config}
    → loaded d v ≡ (Verdict.passed, some c)
    → (v ≡ Verdict.passed) × (d ≡ c)
loaded-inv d Verdict.passed {c} h = (refl, ground arith)
loaded-inv d Verdict.invalid {c} h = ground arith
loaded-inv d Verdict.panicked {c} h = ground arith

module _ {Float : Type 0} (parse_float : Text → Option Float) (sprint : Value Float → Text)
    (parse : Text → Option (List Node)) (is_pattern : Text → Bool) where
  check_in_cluster-IsPlaced :
      (target : Target) (o : Option Cluster)
      → check_in_cluster parse_float sprint parse is_pattern target o ≡ Verdict.passed
      → (cluster : Cluster) × (o ≡ some cluster) × IsPlaced cluster.partitions target.placement
  check_in_cluster-IsPlaced target none h = ground arith
  check_in_cluster-IsPlaced target (some cluster) h =
      let (software, h1) = then-passed (test (not (is_empty (trim_space target.software)))) _ h in
      let (placed, h2) = then-passed (check_placement cluster.partitions target.placement) _ h1 in
      (cluster, refl, check_placement-IsPlaced cluster.partitions target.placement placed)

  -- In a configuration that Load accepts, each target has its cluster, and ResolvePartition
  -- succeeds without an override, and with one exactly if the target allows that partition.
  pub load-resolve_partition :
      (cfg : Config) {c : Config} (name : Text) {target : Target} (override : Text)
      → load parse_float sprint parse is_pattern cfg ≡ (Verdict.passed, some c)
      → get_entry name c.targets ≡ some target
      → (cluster : Cluster) × (get_entry target.cluster c.clusters ≡ some cluster)
        × (is_ok (resolve_partition cluster target override)
            ≡ (is_empty override || is_one_of target.placement.allowed_partitions override))
  unfolding load check_target
  load-resolve_partition cfg {c} name {target} override h e =
      let (checked, same) =
        loaded-inv (normalized cfg) (check_config parse_float sprint parse is_pattern cfg) h in
      let (version, h1) = then-passed _ _ checked in
      let (clusters, targets) = then-passed (each (λ e. check_cluster e.1) cfg.clusters) _ h1 in
      let (cluster, found, placed) =
        check_in_cluster-IsPlaced target (get_entry target.cluster (normalized cfg).clusters) (
          each-get_entry
            (check_target parse_float sprint parse is_pattern (normalized cfg).clusters) name
            cfg.targets targets (ap (λ d. get_entry name d.targets) same ∙ e)) in
      (
        cluster,
        ap (λ d. get_entry target.cluster d.clusters) (sym same) ∙ found,
        resolve_partition-ok cluster target override placed,
      )
