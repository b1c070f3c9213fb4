-- ===== src/Config/Size.antt =====
-- ParseByteSize: the sizes of the configuration, in bytes of a signed 64-bit integer.
pub mod Bounds
use joyrun.Base.{
  ℕ, zero, suc, ◌+◌, ◌*◌, ◌-◌, ◌/◌, ◌^◌, ◌<◌, ◌≤◌, ◌≡◌, refl, ◌∙◌, Bool, true, false, ◌&&◌, ◌||◌,
  not, Option, none, some, List, [], ◌∷◌, if◌then◌else◌, nat_eq, ltb, leb, arith, inl, inr, ◌⊎◌,
  Bool-cases, map, any,
}
use joyrun.Base.Text.{Text, codes, text_eq, is_one_of, get_entry}
use joyrun.Base.Strings.{trim_space, is_empty, upper, to_upper}
use joyrun.Base.Numbers.{parse_digits, is_digit, below}

-- A division by zero panics.
pub data Size : Type 0 where
  size : ℕ → Size
  refused : Size
  panics : Size

abbrev pub is_panic : Size → Bool
is_panic Size.panics = true
is_panic s = false

-- The sign for kelvin, U+212A, which `(?i)K` matches and which strings.ToUpper leaves as it is.
abbrev pub kelvin : ℕ
kelvin = 8490

abbrev fold : ℕ → ℕ
fold c = if nat_eq c kelvin then b'K' else upper c

abbrev multipliers : List (Text × ℕ)
multipliers =
    ([], 1)
    ∷ (codes "B", 1)
    ∷ (codes "K", 2 ^ 10)
    ∷ (codes "M", 2 ^ 20)
    ∷ (codes "G", 2 ^ 30)
    ∷ (codes "T", 2 ^ 40)
    ∷ (codes "KB", 1000)
    ∷ (codes "MB", 1000000)
    ∷ (codes "GB", 1000000000)
    ∷ (codes "TB", 1000000000000)
    ∷ (codes "KIB", 2 ^ 10)
    ∷ (codes "MIB", 2 ^ 20)
    ∷ (codes "GIB", 2 ^ 30)
    ∷ (codes "TIB", 2 ^ 40)
    ∷ []

abbrev or_zero : Option ℕ → ℕ
or_zero none = 0
or_zero (some m) = m

-- `multipliers[…]`: 0 for a key that is missing.
unfoldable pub multiplier : Text → ℕ
multiplier unit = or_zero (get_entry unit multipliers)

-- The second group of the regular expression: no unit, or one in any case.
unfoldable pub is_unit : Text → Bool
is_unit unit =
    is_one_of
      ([]
        ∷ codes "B"
        ∷ codes "K"
        ∷ codes "M"
        ∷ codes "G"
        ∷ codes "T"
        ∷ codes "KB"
        ∷ codes "MB"
        ∷ codes "GB"
        ∷ codes "TB"
        ∷ codes "KIB"
        ∷ codes "MIB"
        ∷ codes "GIB"
        ∷ codes "TIB"
        ∷ [])
      (map fold unit)

abbrev cons_digit : ℕ → Text × Text → Text × Text
cons_digit c (digits, unit) = (c ∷ digits, unit)

-- The digits in front, and what follows them.
unfoldable pub cut_digits : Text → Text × Text
cut_digits [] = ([], [])
cut_digits (c ∷ s) =
    let rest = cut_digits s in if is_digit c then cons_digit c rest else ([], c ∷ s)

abbrev starts_positive : Text → Bool
starts_positive [] = false
starts_positive (c ∷ s) = leb b'1' c && leb c b'9'

abbrev pub max_int64 : ℕ
max_int64 = 2 ^ 63 - 1

abbrev scaled : Option ℕ → ℕ → Size
scaled none m = Size.refused
scaled (some value) zero = Size.panics
scaled (some value) (suc m) =
    if ltb (max_int64 / suc m) value then Size.refused else Size.size (value * suc m)

abbrev parse_parts : Text × Text → Size
parse_parts (digits, unit) =
    if starts_positive digits && is_unit unit
    then scaled (below (2 ^ 63) (parse_digits digits)) (multiplier (to_upper unit))
    else Size.refused

-- ParseByteSize
unfoldable pub parse_byte_size : Text → Size
parse_byte_size raw = parse_parts (cut_digits (trim_space raw))
