-- ===== src/Base/Strings.antt =====
-- Trimming and cutting of Go strings, as package strings does it on ASCII text.
use Prim.Native.Nat.{ℕ, zero, suc, ◌-◌}
use mathlib.Core.Path.{◌≡◌, refl}
use mathlib.Core.Logic.{inl, inr}
use mathlib.Core.Bool.{Bool, true, false, ◌&&◌, ◌||◌}
use mathlib.Core.List.{List, [], ◌∷◌, map}
use native.Mathlib.Omega.{arith}
use joyrun.Base.Tests.{nat_eq, leb, if◌then◌else◌, Bool-cases}
use joyrun.Base.Text.{Text}

-- The ASCII part of unicode.IsSpace.
unfoldable pub is_space : ℕ → Bool
is_space c = nat_eq c b' ' || (leb 9 c && leb c 13)

abbrev pub is_empty : Text → Bool
is_empty [] = true
is_empty (c ∷ s) = false

unfoldable pub trim_left : Text → Text
unfolding is_space
trim_left [] = []
trim_left (c ∷ s) = let rest = trim_left s in if is_space c then rest else c ∷ s

-- strings.TrimRight with the bytes that pass the test.
unfoldable pub trim_right : (ℕ → Bool) → Text → Text
trim_right p [] = []
trim_right p (c ∷ s) = let rest = trim_right p s in if is_empty rest && p c then [] else c ∷ rest

-- strings.TrimSpace
unfoldable pub trim_space : Text → Text
unfolding trim_left trim_right
trim_space s = trim_right is_space (trim_left s)

-- strings.TrimSuffix with a suffix of one byte.
unfoldable pub trim_suffix : ℕ → Text → Text
trim_suffix b [] = []
trim_suffix b (c ∷ []) = if nat_eq c b then [] else c ∷ []
trim_suffix b (c ∷ d ∷ s) = c ∷ trim_suffix b (d ∷ s)

-- A byte in front of the first part.
abbrev pub push : ℕ → List Text → List Text
push c [] = (c ∷ []) ∷ []
push c (w ∷ ws) = (c ∷ w) ∷ ws

-- strings.Split at one byte.
unfoldable pub split : ℕ → Text → List Text
split b [] = [] ∷ []
split b (c ∷ s) = let rest = split b s in if nat_eq c b then [] ∷ rest else push c rest

-- strings.SplitN at one byte with `cuts` + 1 parts at most.
unfoldable pub split_cuts : ℕ → ℕ → Text → List Text
split_cuts zero b s = s ∷ []
split_cuts (suc k) b [] = [] ∷ []
split_cuts (suc k) b (c ∷ s) =
    let last = split_cuts k b s in
    let rest = split_cuts (suc k) b s in if nat_eq c b then [] ∷ last else push c rest

abbrev attach : ℕ → Text → List Text → List Text
attach c [] ws = (c ∷ []) ∷ ws
attach c (d ∷ s) ws = if is_space d then (c ∷ []) ∷ ws else push c ws

-- strings.Fields
unfoldable pub fields : Text → List Text
unfolding is_space
fields [] = []
fields (c ∷ s) = let rest = fields s in if is_space c then rest else attach c s rest

unfoldable pub upper : ℕ → ℕ
upper c = if leb b'a' c && leb c b'z' then c - 32 else c

-- strings.ToUpper
unfoldable pub to_upper : Text → Text
unfolding upper
to_upper s = map upper s

trim_left-head : (s : Text) {c : ℕ} {t : Text} → trim_left s ≡ c ∷ t → is_space c ≡ false
unfolding trim_left
trim_left-head [] h = ground arith
trim_left-head (x ∷ s) {c} {t} h = elim (Bool-cases (is_space x)) [
  | inl e ↦ trim_left-head s {c = c} {t = t} (ground arith)
  | inr e ↦ ground arith
]

trim_right-head :
    (p : ℕ → Bool) (x : ℕ) (s : Text) {c : ℕ} {t : Text} → trim_right p (x ∷ s) ≡ c ∷ t → x ≡ c
unfolding trim_right
trim_right-head p x s {c} {t} h = ground arith

-- A trimmed text that is not empty begins with no space.
pub trim_space-head : (s : Text) {c : ℕ} {t : Text} → trim_space s ≡ c ∷ t → is_space c ≡ false
unfolding trim_space
trim_space-head s {c} {t} h = go (trim_left s) refl h
  where
    go : (u : Text) → trim_left s ≡ u → trim_right is_space u ≡ c ∷ t → is_space c ≡ false
    go [] e k = ground arith
    go (x ∷ u) e k = ground (arith, trim_left-head s e, trim_right-head is_space x u k)

-- A text that begins with no space has a first word.
pub fields-head :
    (c : ℕ) (s : Text)
    → is_space c ≡ false
    → (w : Text) × (ws : List Text) × (fields (c ∷ s) ≡ w ∷ ws)
unfolding fields
fields-head c [] h = (c ∷ [], [], ground arith)
fields-head c (d ∷ s) h = elim (Bool-cases (is_space d)) [
  | inl e ↦ (c ∷ [], fields s, ground arith)
  | inr e ↦ in_word (fields (d ∷ s)) refl e
]
  where
    in_word :
        (r : List Text)
        → fields (d ∷ s) ≡ r
        → is_space d ≡ false
        → (w : Text) × (ws : List Text) × (fields (c ∷ d ∷ s) ≡ w ∷ ws)
    in_word [] e n = (c ∷ [], [], ground arith)
    in_word (w ∷ ws) e n = (c ∷ w, ws, ground arith)
