-- ===== src/Localfs/Clean.antt =====
-- path.Clean of Go, by components: empty ones and "." go, and ".." takes the component before it.
use joyrun.Base.{Bool, true, false, ◌||◌, List, [], ◌∷◌, ◌++◌, if◌then◌else◌}
use joyrun.Base.Text.{Text, codes, text_eq, has_prefix}
use joyrun.Base.Strings.{is_empty, split}

abbrev pub dot : Text
dot = codes "."

abbrev pub dots : Text
dots = codes ".."

-- ".." after the components so far, the last one first.
abbrev pub back : Bool → List Text → List Text
back rooted [] = if rooted then [] else dots ∷ []
back rooted (w ∷ ws) = if text_eq w dots then dots ∷ w ∷ ws else ws

-- One more component.
unfoldable pub step : Bool → Text → List Text → List Text
step rooted w kept =
    if is_empty w || text_eq w dot
    then kept
    else if text_eq w dots
    then back rooted kept
    else w ∷ kept

unfoldable pub keep : Bool → List Text → List Text → List Text
keep rooted [] kept = kept
keep rooted (w ∷ ws) kept = keep rooted ws (step rooted w kept)

-- Components, the last one first, with slashes between them and `rest` behind.
unfoldable pub join_back : List Text → Text → Text
join_back [] rest = rest
join_back (w ∷ []) rest = w ++ rest
join_back (w ∷ v ∷ ws) rest = join_back (v ∷ ws) (b'/' ∷ (w ++ rest))

abbrev pub or_dot : Text → Text
or_dot [] = dot
or_dot (c ∷ s) = c ∷ s

-- path.Clean
unfoldable pub clean : Text → Text
clean path =
    if has_prefix path (codes "/")
    then b'/' ∷ join_back (keep true (split b'/' path) []) []
    else or_dot (join_back (keep false (split b'/' path) []) [])
