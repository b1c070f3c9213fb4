-- ===== src/Base/Rows.antt =====
-- Rows by position, and tables in which no two rows are related: what `UPDATE … WHERE` does to them.
use Prim.Native.Nat.{ℕ, zero, suc}
use mathlib.Core.Path.{◌≡◌, refl, ◌∙◌}
use mathlib.Core.Logic.{inl, inr}
use mathlib.Core.Bool.{Bool, true, false}
use mathlib.Core.Option.{Option, none, some}
use mathlib.Core.List.{List, [], ◌∷◌, ◌++◌}
use native.Mathlib.Omega.{arith}
use joyrun.Base.Tests.{if◌then◌else◌, Bool-cases}
use joyrun.Base.Lists.{any, All, update_where, select_where, any-append, any-update_where}

module _ {ℓ} {A : Type ℓ} where
  abbrev pub get_elem? : List A → ℕ → Option A
  get_elem? [] i = none
  get_elem? (x ∷ xs) zero = some x
  get_elem? (x ∷ xs) (suc i) = get_elem? xs i

  -- No two rows at different positions are related.
  abbrev pub Unique : (A → A → Bool) → List A → Type 0
  Unique r [] = Unit
  Unique r (x ∷ xs) = (any (r x) xs ≡ false) × Unique r xs

module _ {ℓ} {A : Type ℓ} where
  -- A row that the test does not select keeps its place and its value.
  pub get_elem?-update_where_other :
      (p : A → Bool) (f : A → A) (xs : List A) (i : ℕ) {a : A}
      → get_elem? xs i ≡ some a
      → p a ≡ false
      → get_elem? (update_where p f xs) i ≡ some a
  unfolding update_where
  get_elem?-update_where_other p f [] i h n = ground arith
  get_elem?-update_where_other p f (x ∷ xs) zero {a} h n = ground arith
  get_elem?-update_where_other p f (x ∷ xs) (suc i) h n = get_elem?-update_where_other p f xs i h n

  pub get_elem?-update_where_hit :
      (p : A → Bool) (f : A → A) (xs : List A) (i : ℕ) {a : A}
      → get_elem? xs i ≡ some a
      → p a ≡ true
      → get_elem? (update_where p f xs) i ≡ some (f a)
  unfolding update_where
  get_elem?-update_where_hit p f [] i h n = ground arith
  get_elem?-update_where_hit p f (x ∷ xs) zero {a} h n = ground arith
  get_elem?-update_where_hit p f (x ∷ xs) (suc i) h n = get_elem?-update_where_hit p f xs i h n

  -- Every row of the new table comes from the row at its position.
  pub get_elem?-update_where_from :
      (p : A → Bool) (f : A → A) (xs : List A) (i : ℕ) {b : A}
      → get_elem? (update_where p f xs) i ≡ some b
      → (a : A) × (get_elem? xs i ≡ some a) × (b ≡ (if p a then f a else a))
  unfolding update_where
  get_elem?-update_where_from p f [] i h = ground arith
  get_elem?-update_where_from p f (x ∷ xs) zero {b} h = (x, refl, ground arith)
  get_elem?-update_where_from p f (x ∷ xs) (suc i) h = get_elem?-update_where_from p f xs i h

  -- A selected row stands somewhere in the table.
  pub get_elem?-select_where :
      (p : A → Bool) (xs : List A) (i : ℕ) {a : A}
      → get_elem? (select_where p xs) i ≡ some a
      → (j : ℕ) × (get_elem? xs j ≡ some a) × (p a ≡ true)
  unfolding select_where
  get_elem?-select_where p [] i h = ground arith
  get_elem?-select_where p (x ∷ xs) zero {a} h = elim (Bool-cases (p x)) [
    | inl e ↦ (zero, rw e at h, ground arith)
    | inr e ↦ let (j, q, r) = get_elem?-select_where p xs zero (rw e at h) in (suc j, q, r)
  ]
  get_elem?-select_where p (x ∷ xs) (suc i) {a} h = elim (Bool-cases (p x)) [
    | inl e ↦ let (j, q, r) = get_elem?-select_where p xs i (rw e at h) in (suc j, q, r)
    | inr e ↦ let (j, q, r) = get_elem?-select_where p xs (suc i) (rw e at h) in (suc j, q, r)
  ]

  pub All-select_where {κ} :
      (P : A → Type κ) (p : A → Bool) (xs : List A)
      → All P (select_where p xs)
      → All (λ x. p x ≡ true → P x) xs
  unfolding select_where
  All-select_where P p [] h = tt
  All-select_where P p (x ∷ xs) h = elim (Bool-cases (p x)) [
    | inl e ↦
        let k : All P (x ∷ select_where p xs) = rw e at h in (λ _. k.0, All-select_where P p xs k.1)
    | inr e ↦
        let k : All P (select_where p xs) = rw e at h in
        (λ q. ground arith, All-select_where P p xs k)
  ]

  pub All-get_elem? {κ} :
      (P : A → Type κ) (xs : List A) (i : ℕ) {a : A} → All P xs → get_elem? xs i ≡ some a → P a
  All-get_elem? P [] i h e = ground arith
  All-get_elem? P (x ∷ xs) zero {a} h e = let q : a ≡ x = cc in rw q h.0
  All-get_elem? P (x ∷ xs) (suc i) h e = All-get_elem? P xs i h.1 e

  -- Rewriting rows that the second test passes over before and after shows nothing to it.
  pub select_where-update_where :
      (q p : A → Bool) (f : A → A) (xs : List A)
      → ((x : A) → p x ≡ true → (q x ≡ false) × (q (f x) ≡ false))
      → select_where q (update_where p f xs) ≡ select_where q xs
  unfolding select_where update_where
  select_where-update_where q p f [] over = refl
  select_where-update_where q p f (x ∷ xs) over =
      ground (arith, over x, select_where-update_where q p f xs over)

  pub Unique-update_where :
      (r : A → A → Bool) (p : A → Bool) (f : A → A) (xs : List A)
      → ((x y : A) → r (f x) y ≡ r x y)
      → ((x y : A) → r x (f y) ≡ r x y)
      → Unique r xs
      → Unique r (update_where p f xs)
  unfolding update_where
  Unique-update_where r p f [] left right h = tt
  Unique-update_where r p f (x ∷ xs) left right h = elim (Bool-cases (p x)) [
    | inl e ↦ rw e (
      any-update_where (r (f x)) p f xs (λ y. right (f x) y) ∙ any-ext xs ∙ h.0,
      Unique-update_where r p f xs left right h.1,
    )
    | inr e ↦ rw e (
      any-update_where (r x) p f xs (λ y. right x y) ∙ h.0,
      Unique-update_where r p f xs left right h.1,
    )
  ]
    where
      any-ext : (ys : List A) → any (r (f x)) ys ≡ any (r x) ys
      any-ext [] = refl
      any-ext (y ∷ ys) = ground (arith, left x y, any-ext ys)

  pub Unique-append :
      (r : A → A → Bool) (xs : List A) (y : A)
      → any (λ x. r x y) xs ≡ false
      → Unique r xs
      → Unique r (xs ++ y ∷ [])
  Unique-append r [] y n h = (refl, tt)
  Unique-append r (x ∷ xs) y n h =
      (any-append (r x) xs (y ∷ []) ∙ ground arith, Unique-append r xs y (ground arith) h.1)

  pub select_where-nil :
      (p : A → Bool) (xs : List A)
      → (select_where p xs ≡ [] → any p xs ≡ false) × (any p xs ≡ false → select_where p xs ≡ [])
  unfolding select_where
  select_where-nil p [] = (λ _. refl, λ _. refl)
  select_where-nil p (x ∷ xs) = ground (arith, select_where-nil p xs)
