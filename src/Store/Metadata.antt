-- ===== src/Store/Metadata.antt =====
-- internal/store/store.go: the metadata map of a task, and the flag that is stored in it.
use joyrun.Base.{
  inl, inr, Bool-cases, ◌∙◌, String, ◌≡◌, refl, false, ◌||◌, List, [], ◌∷◌, ◌==◌, eq_iff, arith,
  if◌then◌else◌,
}
use joyrun.Model.{Task}

abbrev pub Metadata : Type 0
Metadata = List (String × String)

-- `m[key]`: "" for a missing key, and for a nil map.
unfoldable pub get_meta : String → Metadata → String
get_meta key [] = ""
get_meta key ((k, v) ∷ m) = let rest = get_meta key m in if k == key then v else rest

-- `m[key] = value`
unfoldable pub set_meta : String → String → Metadata → Metadata
set_meta key value [] = (key, value) ∷ []
set_meta key value ((k, v) ∷ m) =
    let rest = set_meta key value m in if k == key then (k, value) ∷ m else (k, v) ∷ rest

-- `delete(m, key)`
unfoldable pub delete_meta : String → Metadata → Metadata
delete_meta key [] = []
delete_meta key ((k, v) ∷ m) =
    let rest = delete_meta key m in if k == key then rest else (k, v) ∷ rest

-- encodeTask: the flag is a metadata entry, and no column of its own.
unfoldable pub encode_task : Task → Task
encode_task t = record t {
  dry_run = false;
  metadata =
      if t.dry_run then set_meta "dry_run" "1" t.metadata else delete_meta "dry_run" t.metadata;
}

-- scanTask: the flag as the metadata has it.
unfoldable pub scan_task : Task → Task
scan_task t = record t {
  dry_run = get_meta "dry_run" t.metadata == "1" || get_meta "dry_run" t.metadata == "true";
}

pub get_meta-set_meta :
    (j k v : String) (m : Metadata)
    → get_meta j (set_meta k v m) ≡ (if k == j then v else get_meta j m)
unfolding get_meta set_meta
get_meta-set_meta j k v [] = refl
get_meta-set_meta j k v ((i, w) ∷ m) =
    ground (arith, eq_iff k j, eq_iff i k, eq_iff i j, get_meta-set_meta j k v m)

pub get_meta-delete_meta :
    (j k : String) (m : Metadata)
    → get_meta j (delete_meta k m) ≡ (if k == j then "" else get_meta j m)
unfolding get_meta delete_meta
get_meta-delete_meta j k [] = ground arith
get_meta-delete_meta j k ((i, w) ∷ m) =
    ground (arith, eq_iff k j, eq_iff i k, eq_iff i j, get_meta-delete_meta j k m)

-- A stored task is read back with the same flag, and with every other metadata entry as it was.
pub scan_task-encode_task :
    (t : Task) (key : String)
    → (key == "dry_run") ≡ false
    → ((scan_task (encode_task t)).dry_run ≡ t.dry_run)
      × (get_meta key (scan_task (encode_task t)).metadata ≡ get_meta key t.metadata)
unfolding scan_task encode_task
scan_task-encode_task t key other = elim (Bool-cases t.dry_run) [
  | inl e ↦ rw e (
    rw (get_meta-set_meta "dry_run" "dry_run" "1" t.metadata),
    get_meta-set_meta key "dry_run" "1" t.metadata
        ∙ ground (arith, eq_iff key "dry_run", eq_iff "dry_run" key),
  )
  | inr e ↦ rw e (
    rw (get_meta-delete_meta "dry_run" "dry_run" t.metadata),
    get_meta-delete_meta key "dry_run" t.metadata
        ∙ ground (arith, eq_iff key "dry_run", eq_iff "dry_run" key),
  )
]
