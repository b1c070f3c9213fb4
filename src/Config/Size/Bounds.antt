-- ===== src/Config/Size/Bounds.antt =====
-- Which sizes are read, and when reading one panics.
use native.Mathlib.Nat.{div-mul-le_self, mul-le-mul_right}
use joyrun.Base.{
  ℕ, zero, suc, ◌+◌, ◌*◌, ◌-◌, ◌/◌, ◌^◌, ◌≤◌, ◌≡◌, refl, Bool, true, false, ◌&&◌, Option, none,
  some, [], ◌∷◌, nat_eq, arith, inl, inr, Bool-cases, map, any,
}
use joyrun.Base.Text.{Text, text_eq, get_entry}
use joyrun.Base.Strings.{trim_space, trim_left, trim_right, upper, to_upper, is_space}
use joyrun.Base.Numbers.{parse_digits, digits_from, below}
use joyrun.Config.Size.{
  Size, is_panic, kelvin, fold, multiplier, is_unit, cut_digits, starts_positive, max_int64, scaled,
  parse_parts, parse_byte_size,
}

digits_from-ge : (n : ℕ) (s : Text) {v : ℕ} → digits_from n s ≡ some v → n ≤ v
unfolding digits_from
digits_from-ge n [] {v} h = ground arith
digits_from-ge n (c ∷ s) {v} h = ground (arith, digits_from-ge (n * 10 + (c - b'0')) s {v = v})

parse_digits-positive :
    (s : Text) {v : ℕ} → starts_positive s ≡ true → parse_digits s ≡ some v → 1 ≤ v
unfolding parse_digits digits_from
parse_digits-positive [] {v} h e = ground arith
parse_digits-positive (c ∷ s) {v} h e =
    ground (arith, digits_from-ge (0 * 10 + (c - b'0')) s {v = v})

scaled-bounds :
    (o : Option ℕ) (m : ℕ) {n : ℕ}
    → ((v : ℕ) → o ≡ some v → 1 ≤ v)
    → scaled o m ≡ Size.size n
    → (1 ≤ n) × (n ≤ max_int64)
scaled-bounds none m {n} pos h = ground arith
scaled-bounds (some v) zero {n} pos h = ground arith
scaled-bounds (some v) (suc m) {n} pos h = ground (
  arith,
  div-mul-le_self max_int64 (suc m),
  mul-le-mul_right {m = v} {n = max_int64 / suc m} (suc m),
  mul-le-mul_right {m = 1} {n = v} (suc m),
  pos v refl,
)

-- A size that ParseByteSize reads is at least one byte and fits a signed 64-bit integer: the product
-- with the unit does not overflow.
pub parse_byte_size-bounds :
    (raw : Text) {n : ℕ} → parse_byte_size raw ≡ Size.size n → (1 ≤ n) × (n ≤ max_int64)
unfolding parse_byte_size
parse_byte_size-bounds raw {n} h = go (cut_digits (trim_space raw)) h
  where
    go : (p : Text × Text) → parse_parts p ≡ Size.size n → (1 ≤ n) × (n ≤ max_int64)
    go (digits, unit) h = elim (Bool-cases (starts_positive digits && is_unit unit)) [
      | inl e ↦
          scaled-bounds (below (2 ^ 63) (parse_digits digits)) (multiplier (to_upper unit))
            (λ v k. parse_digits-positive digits (ground arith) (ground arith)) (ground arith)
      | inr e ↦ ground arith
    ]

abbrev NoKelvin : Text → Type 0
NoKelvin s = any (nat_eq kelvin) s ≡ false

trim_left-NoKelvin : (s : Text) → NoKelvin s → NoKelvin (trim_left s)
unfolding trim_left
trim_left-NoKelvin [] h = h
trim_left-NoKelvin (c ∷ s) h = ground (arith, trim_left-NoKelvin s)

trim_right-NoKelvin : (p : ℕ → Bool) (s : Text) → NoKelvin s → NoKelvin (trim_right p s)
unfolding trim_right
trim_right-NoKelvin p [] h = h
trim_right-NoKelvin p (c ∷ s) h = ground (arith, trim_right-NoKelvin p s)

cut_digits-NoKelvin : (s : Text) → NoKelvin s → NoKelvin (cut_digits s).1
unfolding cut_digits
cut_digits-NoKelvin [] h = h
cut_digits-NoKelvin (c ∷ s) h = ground (arith, cut_digits-NoKelvin s)

fold-upper : (s : Text) → NoKelvin s → map fold s ≡ map upper s
fold-upper [] h = refl
fold-upper (c ∷ s) h = ground (arith, fold-upper s)

multiplier-positive :
    (unit : Text)
    → NoKelvin unit
    → is_unit unit ≡ true
    → nat_eq (multiplier (to_upper unit)) 0 ≡ false
unfolding is_unit multiplier to_upper get_entry
multiplier-positive unit h u = ground (arith, fold-upper unit h)

scaled-no_panic : (o : Option ℕ) (m : ℕ) → nat_eq m 0 ≡ false → is_panic (scaled o m) ≡ false
scaled-no_panic none m h = refl
scaled-no_panic (some v) zero h = ground arith
scaled-no_panic (some v) (suc m) h = ground arith

-- ParseByteSize panics on no text without the sign for kelvin, U+212A.
pub parse_byte_size-no_panic :
    (raw : Text) → any (nat_eq kelvin) raw ≡ false → is_panic (parse_byte_size raw) ≡ false
unfolding parse_byte_size trim_space
parse_byte_size-no_panic raw h = go (cut_digits (trim_space raw)) (
    cut_digits-NoKelvin (trim_space raw)
      (trim_right-NoKelvin is_space (trim_left raw) (trim_left-NoKelvin raw h)))
  where
    go : (p : Text × Text) → NoKelvin p.1 → is_panic (parse_parts p) ≡ false
    go (digits, unit) k = elim (Bool-cases (starts_positive digits && is_unit unit)) [
      | inl e ↦ rw e (
          scaled-no_panic (below (2 ^ 63) (parse_digits digits)) _
            (multiplier-positive unit k (ground arith)))
      | inr e ↦ rw e refl
    ]

-- ParseByteSize panics on every digit from 1 to 9 with the sign for kelvin behind it: the regular
-- expression takes the sign for a "K" and the table of units has no entry for it.
pub parse_byte_size-kelvin :
    (c : ℕ) → starts_positive (c ∷ []) ≡ true → parse_byte_size (c ∷ kelvin ∷ []) ≡ Size.panics
unfolding parse_byte_size trim_space trim_left trim_right is_space cut_digits is_unit multiplier
    to_upper get_entry parse_digits digits_from text_eq upper
parse_byte_size-kelvin c h = ground arith
