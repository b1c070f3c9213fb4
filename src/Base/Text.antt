-- ===== src/Base/Text.antt =====
-- Go strings that the program walks, as lists of bytes, and the functions of package strings that
-- it applies to them.
use Prim.Native.Nat.{ℕ, ◌+◌, ◌-◌}
use Prim.Native.Char.{code}
use Prim.Native.String.{String, char_at}
use mathlib.Core.Path.{◌≡◌, refl}
use mathlib.Core.Logic.{◌↔◌}
use mathlib.Core.Option.{Option, none, some}
use native.Mathlib.Omega.{arith}
use mathlib.Core.Bool.{Bool, true, false, ◌&&◌, ◌||◌}
use mathlib.Core.List.{List, [], ◌∷◌, map}
use joyrun.Base.Tests.{nat_eq, leb, if◌then◌else◌}

abbrev pub Text : Type 0
Text = List ℕ

abbrev pub codes : String → Text
codes String.[] = []
codes (String.◌∷◌ c s) = code c ∷ codes s

-- The string of a text of decimal digits.
unfoldable pub of_digits : Text → String
of_digits [] = ""
of_digits (c ∷ s) = String.◌∷◌ (char_at "0123456789" (c - b'0')) (of_digits s)

unfoldable pub text_eq : Text → Text → Bool
text_eq [] [] = true
text_eq (x ∷ s) (y ∷ t) = nat_eq x y && text_eq s t
text_eq _ _ = false

-- strings.ToLower, on ASCII
unfoldable pub lower : ℕ → ℕ
lower c = if leb b'A' c && leb c b'Z' then c + 32 else c

unfoldable pub to_lower : Text → Text
unfolding lower
to_lower s = map lower s

-- strings.HasPrefix
unfoldable pub has_prefix : Text → Text → Bool
has_prefix s [] = true
has_prefix [] (y ∷ t) = false
has_prefix (x ∷ s) (y ∷ t) = nat_eq x y && has_prefix s t

-- strings.Contains
unfoldable pub contains : Text → Text → Bool
unfolding has_prefix
contains [] t = has_prefix [] t
contains (x ∷ s) t = has_prefix (x ∷ s) t || contains s t

pub text_eq_iff : (s t : Text) → (text_eq s t ≡ true) ↔ (s ≡ t)
unfolding text_eq
text_eq_iff [] [] = ground arith
text_eq_iff [] (y ∷ t) = ground arith
text_eq_iff (x ∷ s) [] = ground arith
text_eq_iff (x ∷ s) (y ∷ t) = ground (arith, text_eq_iff s t)

pub text_eq_refl : (s : Text) → text_eq s s ≡ true
text_eq_refl s = (text_eq_iff s s).1 refl

-- A Go map with text keys, as a list of entries.
module _ {ℓ} {V : Type ℓ} where
  unfoldable pub get_entry : Text → List (Text × V) → Option V
  get_entry k [] = none
  get_entry k ((j, v) ∷ m) = let rest = get_entry k m in if text_eq j k then some v else rest

  unfoldable pub set_entry : Text → V → List (Text × V) → List (Text × V)
  set_entry k v [] = (k, v) ∷ []
  set_entry k v ((j, w) ∷ m) =
      let rest = set_entry k v m in if text_eq j k then (j, v) ∷ m else (j, w) ∷ rest

  pub get_entry-set_entry :
      (k j : Text) (v : V) (m : List (Text × V))
      → get_entry j (set_entry k v m) ≡ (if text_eq k j then some v else get_entry j m)
  unfolding get_entry set_entry
  get_entry-set_entry k j v [] = refl
  get_entry-set_entry k j v ((i, w) ∷ m) =
      ground (arith, text_eq_iff k j, text_eq_iff i k, text_eq_iff i j, get_entry-set_entry k j v m)

abbrev pub is_one_of : List Text → Text → Bool
is_one_of [] s = false
is_one_of (t ∷ ts) s = text_eq t s || is_one_of ts s
