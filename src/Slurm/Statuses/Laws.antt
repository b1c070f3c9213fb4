-- ===== src/Slurm/Statuses/Laws.antt =====
-- A query for many jobs: it never panics, and it answers for the jobs that were asked for.
use joyrun.Base.{
  ℕ, ◌≡◌, refl, ◌∙◌, Bool, true, false, ◌&&◌, ◌||◌, Option, none, some, List, [], ◌∷◌, ◌⊎◌, inl,
  inr, arith, is_some, ◌++◌, Bool-cases,
}
use joyrun.Base.Text.{Text, codes, text_eq, text_eq_iff, set_entry}
use joyrun.Base.Strings.{trim_space, is_empty}
use joyrun.Fault.{Result, ok, err}
use joyrun.Slurm.{Reply, JobStatus, unknown_status, status_from_fields}
use joyrun.Slurm.Panics.{status_from_fields-total}
use joyrun.Slurm.Statuses.{
  StatusMap, has_key, requested, read_row, read_rows, store_status, rows_of, statuses, ask,
  answered,
}

has_key-set_entry :
    (k j : Text) (s : JobStatus) (m : StatusMap)
    → has_key j m ≡ true
    → has_key k (set_entry j s m) ≡ has_key k m
unfolding set_entry
has_key-set_entry k j s [] h = ground arith
has_key-set_entry k j s ((i, t) ∷ m) h =
    ground (arith, has_key-set_entry k j s m, text_eq_iff i j, text_eq_iff i k, text_eq_iff j k)

-- Rows were read: no panic, and the jobs of the answer are those of the map before.
abbrev IsRead : StatusMap → Option StatusMap → Type 0
IsRead m o = (q : StatusMap) × (o ≡ some q) × ((k : Text) → has_key k q ≡ has_key k m)

store_status-IsRead :
    (id : Text) (m : StatusMap) (fs : List Text)
    → has_key id m ≡ true
    → IsRead m (store_status id m (status_from_fields fs))
store_status-IsRead id m fs known =
    let (s, e) = status_from_fields-total fs in
    (set_entry id s m, rw e refl, λ k. has_key-set_entry k id s m known)

read_row-IsRead : (row : List Text) (m : StatusMap) → IsRead m (read_row row m)
unfolding read_row
read_row-IsRead [] m = (m, refl, λ k. refl)
read_row-IsRead (a ∷ []) m = (m, refl, λ k. refl)
read_row-IsRead (a ∷ b ∷ []) m = (m, refl, λ k. refl)
read_row-IsRead (source ∷ given ∷ f ∷ fs) m = go (
    Bool-cases
      (has_key (trim_space given) m && (text_eq source (codes "A") || text_eq source (codes "Q"))))
  where
    go :
        (has_key (trim_space given) m && (text_eq source (codes "A") || text_eq source (codes "Q"))
            ≡ true)
          ⊎ (has_key (trim_space given) m
                && (text_eq source (codes "A") || text_eq source (codes "Q"))
              ≡ false)
        → IsRead m (read_row (source ∷ given ∷ f ∷ fs) m)
    go (inl e) = rw e (store_status-IsRead (trim_space given) m (f ∷ fs) (ground arith))
    go (inr e) = rw e (m, refl, λ k. refl)

read_rows-IsRead : (rows : List (List Text)) (m : StatusMap) → IsRead m (read_rows rows m)
unfolding read_rows
read_rows-IsRead [] m = (m, refl, λ k. refl)
read_rows-IsRead (row ∷ rows) m =
    let (q, e, same) = read_row-IsRead row m in
    let (p, f, more) = read_rows-IsRead rows q in (p, rw e f, λ k. more k ∙ same k)

-- A job ID stands in the list, once its spaces are trimmed.
abbrev pub is_asked : Text → List Text → Bool
is_asked k [] = false
is_asked k (id ∷ ids) = text_eq (trim_space id) k || is_asked k ids

has_key-append : (k : Text) (m n : StatusMap) → has_key k (m ++ n) ≡ (has_key k m || has_key k n)
has_key-append k [] n = refl
has_key-append k (e ∷ m) n = ground (arith, has_key-append k m n)

text_eq-empty : (s : Text) (c : ℕ) (k : Text) → is_empty s ≡ true → text_eq s (c ∷ k) ≡ false
unfolding text_eq
text_eq-empty [] c k e = refl
text_eq-empty (d ∷ s) c k e = ground arith

-- The map of the request has the jobs asked for and those of the map before; "" is no job.
requested-keys :
    (ids : List Text) (m : StatusMap) {q : StatusMap} (c : ℕ) (k : Text)
    → requested ids m ≡ ok q
    → has_key (c ∷ k) q ≡ (has_key (c ∷ k) m || is_asked (c ∷ k) ids)
unfolding requested
requested-keys [] m {q} c k h = ground arith
requested-keys (given ∷ ids) m {q} c k h = elim (Bool-cases (is_empty (trim_space given))) [
  | inl e ↦ ground (arith, text_eq-empty (trim_space given) c k e, requested-keys ids m {q = q} c k)
  | inr e ↦ elim (Bool-cases (has_key (trim_space given) m)) [
    | inl known ↦
        ground (arith, text_eq_iff (trim_space given) (c ∷ k), requested-keys ids m {q = q} c k)
    | inr fresh ↦
        let entry : Text × JobStatus = (trim_space given, unknown_status) in
        ground (
          arith,
          has_key-append (c ∷ k) m (entry ∷ []),
          requested-keys ids (m ++ entry ∷ []) {q = q} c k,
        )
  ]
]

answered-keys :
    (k : Text) (m : StatusMap) (o : Option StatusMap) {q : StatusMap}
    → IsRead m o
    → answered o ≡ some (ok q)
    → has_key k q ≡ has_key k m
answered-keys k m none {q} h e = ground arith
answered-keys k m (some p) {q} (r, f, same) e = ground (arith, same k)

ask-keys :
    (reply : Reply) (k : Text) (o : Result StatusMap) {m q : StatusMap}
    → o ≡ ok m
    → ask reply o ≡ some (ok q)
    → has_key k q ≡ has_key k m
ask-keys reply k (err x) {m} {q} e h = ground arith
ask-keys reply k (ok []) {m} {q} e h = ground arith
ask-keys reply k (ok (entry ∷ n)) {m} {q} e h = elim (Bool-cases reply.failed) [
  | inl f ↦ ground arith
  | inr f ↦
      answered-keys k (entry ∷ n) _ (read_rows-IsRead (rows_of reply.stdout) (entry ∷ n))
        (ground arith)
      ∙ ground arith
]

ask-total : (reply : Reply) (o : Result StatusMap) → is_some (ask reply o) ≡ true
ask-total reply (err x) = refl
ask-total reply (ok []) = refl
ask-total reply (ok (entry ∷ n)) = elim (Bool-cases reply.failed) [
  | inl f ↦ rw f refl
  | inr f ↦ let (q, e, same) = read_rows-IsRead (rows_of reply.stdout) (entry ∷ n) in rw (f, e) refl
]

-- Whatever the remote shell prints, reading it for many jobs does not panic.
pub statuses-total : (ids : List Text) (reply : Reply) → is_some (statuses ids reply) ≡ true
unfolding statuses
statuses-total ids reply = ask-total reply (requested ids [])

-- If Statuses answers, the answer has an entry for a job exactly if the trimmed ID, which is not
-- empty, was asked for: jobs that the output does not mention keep an entry, and others get none.
pub statuses-keys :
    (ids : List Text) (reply : Reply) {q : StatusMap} (c : ℕ) (k : Text)
    → statuses ids reply ≡ some (ok q)
    → has_key (c ∷ k) q ≡ is_asked (c ∷ k) ids
unfolding statuses
statuses-keys ids reply {q} c k h = go (requested ids []) refl h
  where
    go :
        (o : Result StatusMap)
        → requested ids [] ≡ o
        → ask reply o ≡ some (ok q)
        → has_key (c ∷ k) q ≡ is_asked (c ∷ k) ids
    go (err x) e a = ground arith
    go (ok m) e a = ask-keys reply (c ∷ k) (ok m) refl a ∙ requested-keys ids [] c k e
