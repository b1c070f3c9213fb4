-- ===== src/Localfs/Inside.antt =====
-- A path that is accepted stays below the destination.
use joyrun.Base.{
  ℕ, ◌≡◌, refl, ap, sym, ◌∙◌, Bool, true, false, ◌&&◌, ◌||◌, not, List, [], ◌∷◌, ◌++◌, any, arith,
  ◌⊎◌, inl, inr, Bool-cases, nat_eq, append-nil,
}
use joyrun.Base.Text.{Text, text_eq, text_eq_iff, codes, has_prefix}
use joyrun.Base.Strings.{is_empty, split, push}
use joyrun.Localfs.Clean.{clean, step, keep, join_back, dot, dots, or_dot}
use joyrun.Fault.{is_ok}
use joyrun.Localfs.{is_safe_relative, validate_pull_paths}
use joyrun.Localfs.Safe.{recorded-has}

-- The name of a file or a directory: not empty, "." or "..".
abbrev pub is_name : Text → Bool
is_name w = not (is_empty w || text_eq w dot || text_eq w dots)

abbrev pub are_names : List Text → Bool
are_names [] = true
are_names (w ∷ ws) = is_name w && are_names ws

abbrev no_slash : Text → Bool
no_slash w = not (any (λ c. nat_eq c b'/') w)

abbrev no_slashes : List Text → Bool
no_slashes [] = true
no_slashes (w ∷ ws) = no_slash w && no_slashes ws

push-no_slashes :
    (c : ℕ) (ws : List Text)
    → nat_eq c b'/' ≡ false
    → no_slashes ws ≡ true
    → no_slashes (push c ws) ≡ true
push-no_slashes c [] n h = ground arith
push-no_slashes c (w ∷ ws) n h = ground arith

split-no_slashes : (s : Text) → no_slashes (split b'/' s) ≡ true
unfolding split
split-no_slashes [] = refl
split-no_slashes (c ∷ s) = ground (arith, split-no_slashes s, push-no_slashes c (split b'/' s))

abbrev all_dots : List Text → Bool
all_dots [] = true
all_dots (w ∷ ws) = text_eq w dots && all_dots ws

-- Kept components, the last one first: names, and ".." only below them.
abbrev is_stack : List Text → Bool
is_stack [] = true
is_stack (w ∷ ws) = (is_name w && is_stack ws) || all_dots (w ∷ ws)

all_dots-is_stack : (ws : List Text) → all_dots ws ≡ true → is_stack ws ≡ true
all_dots-is_stack [] h = refl
all_dots-is_stack (w ∷ ws) h = ground arith

step-is_stack :
    (w : Text) (ws : List Text)
    → is_stack ws ≡ true
    → no_slash w ≡ true
    → no_slashes ws ≡ true
    → (is_stack (step false w ws) ≡ true) × (no_slashes (step false w ws) ≡ true)
unfolding step text_eq
step-is_stack w [] h n ns = (ground arith, ground arith)
step-is_stack w (v ∷ ws) h n ns = (ground (arith, all_dots-is_stack ws), ground arith)

keep-is_stack :
    (ws kept : List Text)
    → is_stack kept ≡ true
    → no_slashes ws ≡ true
    → no_slashes kept ≡ true
    → (is_stack (keep false ws kept) ≡ true) × (no_slashes (keep false ws kept) ≡ true)
unfolding keep
keep-is_stack [] kept h n ns = (h, ns)
keep-is_stack (w ∷ ws) kept h n ns =
    let (s, t) = step-is_stack w kept h (ground arith) ns in
    keep-is_stack ws (step false w kept) s (ground arith) t

split-append :
    (w rest : Text) → no_slash w ≡ true → split b'/' (w ++ b'/' ∷ rest) ≡ w ∷ split b'/' rest
unfolding split
split-append [] rest n = refl
split-append (c ∷ w) rest n = ground (arith, split-append w rest)

split-alone : (w : Text) → no_slash w ≡ true → split b'/' w ≡ w ∷ []
unfolding split
split-alone [] n = refl
split-alone (c ∷ w) n = ground (arith, split-alone w)

abbrev onto : List Text → List Text → List Text
onto [] rest = rest
onto (w ∷ ws) rest = onto ws (w ∷ rest)

split-join_back :
    (w : Text) (ws : List Text) (rest : Text)
    → no_slashes ws ≡ true
    → split b'/' (join_back (w ∷ ws) rest) ≡ onto ws (split b'/' (w ++ rest))
unfolding join_back
split-join_back w [] rest n = refl
split-join_back w (v ∷ ws) rest n =
    split-join_back v ws (b'/' ∷ (w ++ rest)) (ground arith)
    ∙ ap (onto ws) (split-append v (w ++ rest) (ground arith))

onto-are_names :
    (ws rest : List Text)
    → are_names ws ≡ true
    → are_names rest ≡ true
    → are_names (onto ws rest) ≡ true
onto-are_names [] rest h k = k
onto-are_names (w ∷ ws) rest h k = onto-are_names ws (w ∷ rest) (ground arith) (ground arith)

-- The path as a whole begins with "..".
abbrev StartsWithDots : List Text → Type 0
StartsWithDots ws = (rest : List Text) → (t : List Text) × (onto ws rest ≡ dots ∷ t)

all_dots-StartsWithDots :
    (w : Text) (ws : List Text)
    → text_eq w dots ≡ true
    → all_dots ws ≡ true
    → StartsWithDots (w ∷ ws)
all_dots-StartsWithDots w [] e h rest = (rest, ap (λ v. v ∷ rest) ((text_eq_iff w dots).0 e))
all_dots-StartsWithDots w (v ∷ ws) e h rest =
    all_dots-StartsWithDots v ws (ground arith) (ground arith) (w ∷ rest)

is_stack-cases : (ws : List Text) → is_stack ws ≡ true → (are_names ws ≡ true) ⊎ StartsWithDots ws
is_stack-cases [] h = inl refl
is_stack-cases (w ∷ ws) h = elim (Bool-cases (is_name w && is_stack ws)) [
  | inr e ↦ inr (all_dots-StartsWithDots w ws (ground arith) (ground arith))
  | inl e ↦ elim (is_stack-cases ws (ground arith)) [
    | inl names ↦ inl (ground arith)
    | inr below ↦ inr (λ rest. below (w ∷ rest))
  ]
]

split-nonempty : (s : Text) → (w : Text) × (ws : List Text) × (split b'/' s ≡ w ∷ ws)
unfolding split
split-nonempty [] = ([], [], refl)
split-nonempty (c ∷ s) = elim (Bool-cases (nat_eq c b'/')) [
  | inl e ↦ ([], split b'/' s, rw e refl)
  | inr e ↦ let (w, ws, h) = split-nonempty s in (c ∷ w, ws, rw (e, h) refl)
]

-- A text begins with its first component.
split-head :
    (s : Text) {w : Text} {t : List Text}
    → split b'/' s ≡ w ∷ t
    → (s ≡ w) ⊎ ((r : Text) × (s ≡ w ++ b'/' ∷ r))
unfolding split
split-head [] {w} {t} h = inl (ground arith)
split-head (c ∷ s) {w} {t} h = elim (Bool-cases (nat_eq c b'/')) [
  | inl e ↦
      let slash : c ≡ b'/' = ground arith in
      let none_before : [] ≡ w = ground arith in
      inr (s, ap (λ d. d ∷ s) slash ∙ ap (λ u. u ++ b'/' ∷ s) none_before)
  | inr e ↦
      let (v, vs, q) = split-nonempty s in
      elim (split-head s {w = v} {t = vs} q) [
        | inl same ↦ inl (ground arith)
        | inr (r, same) ↦
            let word : c ∷ v ≡ w = ground arith in
            inr (r, ap (λ u. c ∷ u) same ∙ ap (λ u. u ++ b'/' ∷ r) word)
      ]
]

dots-head :
    (s : Text) {t : List Text}
    → split b'/' s ≡ dots ∷ t
    → (text_eq s dots || has_prefix s (codes "../")) ≡ true
unfolding text_eq has_prefix
dots-head s {t} h = elim (split-head s h) [ inl e ↦ rw e refl | inr (r, e) ↦ rw e refl ]

clean-relative :
    (f : Text)
    → has_prefix f (codes "/") ≡ false
    → clean f ≡ or_dot (join_back (keep false (split b'/' f) []) [])
unfolding clean
clean-relative f h = rw h refl

or_dot-some : (s : Text) → text_eq (or_dot s) dot ≡ false → or_dot s ≡ s
unfolding text_eq
or_dot-some [] h = ground arith
or_dot-some (c ∷ s) h = refl

join_back-nil : or_dot (join_back [] []) ≡ dot
unfolding join_back
join_back-nil = refl

-- Components that are kept, joined to a path that is not "." and does not begin with "..".
joined-are_names :
    (ks : List Text) (f : Text)
    → f ≡ or_dot (join_back ks [])
    → is_stack ks ≡ true
    → no_slashes ks ≡ true
    → text_eq f dot ≡ false
    → (text_eq f dots || has_prefix f (codes "../")) ≡ false
    → are_names (split b'/' f) ≡ true
joined-are_names [] f e h n d b = ground (arith, (text_eq_iff f dot).1 (e ∙ join_back-nil))
joined-are_names (w ∷ ws) f e h n d b =
    let plain : f ≡ join_back (w ∷ ws) [] =
      e ∙ or_dot-some (join_back (w ∷ ws) []) (ap (λ t. text_eq t dot) (sym e) ∙ d) in
    let cut : split b'/' f ≡ onto (w ∷ ws) [] =
      ap (split b'/') plain
      ∙ split-join_back w ws [] (ground arith)
      ∙ ap (λ u. onto ws (split b'/' u)) (append-nil w)
      ∙ ap (onto ws) (split-alone w (ground arith)) in
    elim (is_stack-cases (w ∷ ws) h) [
      | inl names ↦ ap are_names cut ∙ onto-are_names (w ∷ ws) [] names refl
      | inr below ↦ let (t, q) = below [] in ground (arith, dots-head f (cut ∙ q))
    ]

-- A path that passes the tests names a file below the destination.
is_safe_relative-Inside :
    (valid_utf8 : Text → Bool) (file : Text)
    → is_safe_relative valid_utf8 file ≡ true
    → are_names (split b'/' file) ≡ true
unfolding is_safe_relative
is_safe_relative-Inside valid_utf8 file h =
    let same : clean file ≡ file = (text_eq_iff (clean file) file).0 (ground arith) in
    let (s, n) = keep-is_stack (split b'/' file) [] refl (split-no_slashes file) refl in
    joined-are_names (keep false (split b'/' file) []) file
      (sym same ∙ clean-relative file (ground arith)) s n (ground arith) (ground arith)

-- If validatePullPaths accepts a list, every file of it stays below the destination: between its
-- slashes stand names only, none of them empty, "." or "..".
pub validate_pull_paths-Inside :
    (valid_utf8 : Text → Bool) (windows : Bool) (files : List Text) (file : Text)
    → is_ok (validate_pull_paths valid_utf8 files windows) ≡ true
    → any (text_eq file) files ≡ true
    → are_names (split b'/' file) ≡ true
unfolding validate_pull_paths
validate_pull_paths-Inside valid_utf8 windows files file h listed =
    is_safe_relative-Inside valid_utf8 file
      (recorded-has valid_utf8 windows files [] file h listed).1
