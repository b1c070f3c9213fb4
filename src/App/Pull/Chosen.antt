-- ===== src/App/Pull/Chosen.antt =====
-- internal/app/app.go: the files of a pull are the remote files that its policy wants.
use joyrun.Base.{false, ◌≡◌, List, [], ◌∷◌}
use joyrun.Base.Text.{Text}
use joyrun.Timestamp.{bytes_lt}

-- The first of some texts, if there is one, does not sort before that text.
abbrev pub IsFollowed : Text → List Text → Type 0
IsFollowed s [] = Unit
IsFollowed s (t ∷ ts) = bytes_lt t s ≡ false

-- No text sorts before the one in front of it.
abbrev pub IsOrdered : List Text → Type 0
IsOrdered [] = Unit
IsOrdered (s ∷ ss) = IsFollowed s ss × IsOrdered ss
