-- ===== src/Remote/Words.antt =====
-- What a POSIX shell makes of quoted words: a reader of words, written from the rules of the shell
-- and not from `quote`, and what it reads back.
use joyrun.Base.{
  ℕ, zero, suc, ◌≡◌, refl, sym, ap, ◌∙◌, Bool, true, false, ◌||◌, Option, none, some, List, [], ◌∷◌,
  ◌++◌, if◌then◌else◌, nat_eq, arith, ◌⊎◌, inl, inr, Bool-cases, any, append_assoc, append-nil,
  length, map,
}
use joyrun.Base.Text.{Text, codes}
use joyrun.Base.Strings.{is_empty}
use joyrun.Remote.{
  escape, quote, open_ssh_options_for, quoted_pairs, join_blank, open_ssh_shell_for,
}

pub data Mode : Type 0 where
  bare single double : Mode

abbrev is_blank : ℕ → Bool
is_blank c = nat_eq c b' ' || nat_eq c 9

-- What a bare word may not hold without being expanded or ending a command.
abbrev is_special : ℕ → Bool
is_special c = nat_eq c 10 || any (nat_eq c) (codes "$`\\;&|<>()*?[]#~{}!^")

-- What double quotes do not protect.
abbrev is_expanded : ℕ → Bool
is_expanded c = any (nat_eq c) (codes "$`\\!")

abbrev pub after : ℕ → Option (Text × Text) → Option (Text × Text)
after c none = none
after c (some (w, rest)) = some (c ∷ w, rest)

abbrev pub after_all : Text → Option (Text × Text) → Option (Text × Text)
after_all s none = none
after_all s (some (w, rest)) = some (s ++ w, rest)

-- One word and what follows it; `none` where the shell would expand something, end the command or
-- miss a closing quote.
unfoldable pub read_word : Mode → Text → Option (Text × Text)
read_word Mode.bare [] = some ([], [])
read_word Mode.bare (c ∷ s) =
    let in_single = read_word Mode.single s in
    let in_double = read_word Mode.double s in
    let more = read_word Mode.bare s in
    if nat_eq c b'\''
    then in_single
    else if nat_eq c b'"'
    then in_double
    else if is_blank c
    then some ([], c ∷ s)
    else if is_special c
    then none
    else after c more
read_word Mode.single [] = none
read_word Mode.single (c ∷ s) =
    let closed = read_word Mode.bare s in
    let more = read_word Mode.single s in if nat_eq c b'\'' then closed else after c more
read_word Mode.double [] = none
read_word Mode.double (c ∷ s) =
    let closed = read_word Mode.bare s in
    let more = read_word Mode.double s in
    if nat_eq c b'"' then closed else if is_expanded c then none else after c more

after-after_all :
    (c : ℕ) (s : Text) (o : Option (Text × Text)) → after c (after_all s o) ≡ after_all (c ∷ s) o
after-after_all c s none = refl
after-after_all c s (some (w, rest)) = refl

after_all-nil : (o : Option (Text × Text)) → after_all [] o ≡ o
after_all-nil none = refl
after_all-nil (some (w, rest)) = refl

-- What the shell reads after an open apostrophe and an escaped text.
abbrev tail_of : Text → Text → Text
tail_of s rest = escape s ++ b'\'' ∷ rest

read_word-escape :
    (s rest : Text)
    → read_word Mode.single (tail_of s rest) ≡ after_all s (read_word Mode.bare rest)
unfolding read_word escape
read_word-escape [] rest = sym (after_all-nil _)
read_word-escape (c ∷ s) rest = go (Bool-cases (nat_eq c b'\'')) (read_word-escape s rest)
  where
    go :
        (nat_eq c b'\'' ≡ true) ⊎ (nat_eq c b'\'' ≡ false)
        → read_word Mode.single (tail_of s rest) ≡ after_all s (read_word Mode.bare rest)
        → read_word Mode.single (tail_of (c ∷ s) rest)
          ≡ after_all (c ∷ s) (read_word Mode.bare rest)
    go (inl e) ih =
        rw (e, ih)
          (ap (λ d. after d (after_all s (read_word Mode.bare rest))) (ground arith)
            ∙ after-after_all c s _)
    go (inr e) ih = rw (e, e, ih) (after-after_all c s _)

-- A quoted text is read as one word, the text itself, which goes on with what stands behind it.
pub read_word-quote :
    (s rest : Text) → read_word Mode.bare (quote s ++ rest) ≡ after_all s (read_word Mode.bare rest)
unfolding read_word quote
read_word-quote s rest =
    ap (read_word Mode.single) (append_assoc (escape s) (b'\'' ∷ []) rest) ∙ read_word-escape s rest

abbrev skip_blank : Text → Text
skip_blank [] = []
skip_blank (c ∷ s) = if is_blank c then s else c ∷ s

abbrev put : Text → Option (List Text) → Option (List Text)
put w none = none
put w (some ws) = some (w ∷ ws)

abbrev next : Option (Text × Text) → (Text → Option (List Text)) → Option (List Text)
next none f = none
next (some (w, rest)) f = put w (f (skip_blank rest))

-- A text that is so many words, one blank between two of them, and nothing more.
unfoldable pub read_words : ℕ → Text → Option (List Text)
read_words zero [] = some []
read_words zero (c ∷ s) = none
read_words (suc n) s = next (read_word Mode.bare s) (read_words n)

-- A quoted text alone is one word, the text itself.
pub read_word-last : (s : Text) → read_word Mode.bare (quote s) ≡ some (s, [])
unfolding read_word
read_word-last s =
    ap (read_word Mode.bare) (sym (append-nil (quote s)))
    ∙ read_word-quote s []
    ∙ ap (λ w. some (w, [])) (append-nil s)

read_word-blank :
    (s rest : Text) → read_word Mode.bare (quote s ++ b' ' ∷ rest) ≡ some (s, b' ' ∷ rest)
unfolding read_word
read_word-blank s rest =
    read_word-quote s (b' ' ∷ rest) ∙ ap (λ w. some (w, b' ' ∷ rest)) (append-nil s)

-- Quoted words that blanks join are read back as the same words.
pub read_words-join_blank :
    (w : Text) (ws : List Text)
    → read_words (suc (length ws)) (join_blank (map quote (w ∷ ws))) ≡ some (w ∷ ws)
unfolding read_words join_blank
read_words-join_blank w [] = rw (read_word-last w) refl
read_words-join_blank w (v ∷ ws) =
    rw (read_word-blank w (join_blank (map quote (v ∷ ws))), read_words-join_blank v ws) refl

ssh-words :
    (w : Text) (ws : List Text)
    → quoted_pairs (w ∷ ws) ≡ map quote (w ∷ ws)
    → read_words (suc (suc (length ws))) (join_blank (codes "ssh" ∷ quoted_pairs (w ∷ ws)))
      ≡ some (codes "ssh" ∷ w ∷ ws)
unfolding read_word read_words join_blank
ssh-words w ws even = rw even (ap (put (codes "ssh")) (read_words-join_blank w ws))

-- The command that OpenSSHShellFor hands to rsync is read by a POSIX shell as "ssh" and then exactly
-- the options of OpenSSHOptionsFor, whatever bytes the control path holds.
pub open_ssh_shell_for-words :
    (control_path : Text)
    → read_words
        (suc (length (open_ssh_options_for control_path)))
        (open_ssh_shell_for control_path)
      ≡ some (codes "ssh" ∷ open_ssh_options_for control_path)
unfolding open_ssh_shell_for open_ssh_options_for quoted_pairs
open_ssh_shell_for-words control_path = elim (Bool-cases (is_empty control_path)) [
  | inl e ↦ rw e (ssh-words _ _ refl)
  | inr e ↦ rw e (ssh-words _ _ refl)
]
