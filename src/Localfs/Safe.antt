-- ===== src/Localfs/Safe.antt =====
-- Two remote files never fall on one local file.
use joyrun.Base.{
  ◌≡◌, refl, ap, sym, ◌∙◌, Bool, true, false, Option, none, some, List, [], ◌∷◌, if◌then◌else◌, any,
  arith, inl, inr, Bool-cases, subst,
}
use joyrun.Base.Text.{
  Text, text_eq, text_eq_iff, get_entry, set_entry, get_entry-set_entry, to_lower, text_eq_refl,
}
use joyrun.Fault.{is_ok}
use joyrun.Localfs.Clean.{clean}
use joyrun.Localfs.{is_safe_relative, key_of, collides, validate_seen, validate_pull_paths}

collides-some : (c : Text) (o : Option Text) {p : Text} → collides c o ≡ false → o ≡ some p → p ≡ c
collides-some c none {p} free e = ground arith
collides-some c (some q) {p} free e = ground (arith, text_eq_iff q c)

-- The map after the loop.
unfoldable pub recorded : Bool → List Text → List (Text × Text) → List (Text × Text)
recorded windows [] seen = seen
recorded windows (file ∷ files) seen =
    recorded windows files (set_entry (key_of windows file) (clean file) seen)

module _ (valid_utf8 : Text → Bool) (windows : Bool) where
  accepted :
      (file : Text) (files : List Text) (seen : List (Text × Text))
      → is_ok (validate_seen valid_utf8 windows (file ∷ files) seen) ≡ true
      → (is_safe_relative valid_utf8 file ≡ true)
        × (collides (clean file) (get_entry (key_of windows file) seen) ≡ false)
        × (is_ok (
              validate_seen valid_utf8 windows files
                (set_entry (key_of windows file) (clean file) seen))
            ≡ true)
  unfolding validate_seen
  accepted file files seen h = (ground arith, ground arith, ground arith)

  -- What the map has stays in it.
  recorded-keeps :
      (files : List Text) (seen : List (Text × Text)) (key : Text) {path : Text}
      → is_ok (validate_seen valid_utf8 windows files seen) ≡ true
      → get_entry key seen ≡ some path
      → get_entry key (recorded windows files seen) ≡ some path
  unfolding recorded
  recorded-keeps [] seen key {path} h e = e
  recorded-keeps (file ∷ files) seen key {path} h e =
      let (safe, free, rest) = accepted file files seen h in
      recorded-keeps files (set_entry (key_of windows file) (clean file) seen) key {path = path}
        rest (get_entry-set_entry (key_of windows file) key (clean file) seen ∙ unchanged free)
    where
      unchanged :
          collides (clean file) (get_entry (key_of windows file) seen) ≡ false
          → (if text_eq (key_of windows file) key then some (clean file) else get_entry key seen)
            ≡ some path
      unchanged free = elim (Bool-cases (text_eq (key_of windows file) key)) [
        | inr q ↦ rw q e
        | inl q ↦ rw q (
            ap some (
              sym (
                collides-some (clean file) (get_entry (key_of windows file) seen) free
                  (ap (λ k. get_entry k seen) ((text_eq_iff (key_of windows file) key).0 q) ∙ e))))
      ]

  pub recorded-has :
      (files : List Text) (seen : List (Text × Text)) (f : Text)
      → is_ok (validate_seen valid_utf8 windows files seen) ≡ true
      → any (text_eq f) files ≡ true
      → (get_entry (key_of windows f) (recorded windows files seen) ≡ some (clean f))
        × (is_safe_relative valid_utf8 f ≡ true)
  unfolding recorded
  recorded-has [] seen f h e = ground arith
  recorded-has (file ∷ files) seen f h e = elim (Bool-cases (text_eq f file)) [
    | inl q ↦
        let (safe, free, rest) = accepted file files seen h in
        let same : file ≡ f = sym ((text_eq_iff f file).0 q) in
        subst
          (λ g.
            (get_entry (key_of windows g) (recorded windows (file ∷ files) seen) ≡ some (clean g))
            × (is_safe_relative valid_utf8 g ≡ true))
          same
          (
            recorded-keeps files (set_entry (key_of windows file) (clean file) seen)
                (key_of windows file) rest
                (get_entry-set_entry (key_of windows file) (key_of windows file) (clean file) seen
                  ∙ rw (text_eq_refl (key_of windows file)) refl),
            safe,
          )
    | inr q ↦
        let (safe, free, rest) = accepted file files seen h in
        recorded-has files (set_entry (key_of windows file) (clean file) seen) f rest (ground arith)
  ]

  safe-clean : (f : Text) → is_safe_relative valid_utf8 f ≡ true → clean f ≡ f
  unfolding is_safe_relative
  safe-clean f h = (text_eq_iff (clean f) f).0 (ground arith)

  -- If validatePullPaths accepts a list, two files of it with the same key are the same file. On
  -- Windows the key is the path in lower case, elsewhere it is the path.
  pub validate_pull_paths-NoCollision :
      (files : List Text) (f g : Text)
      → is_ok (validate_pull_paths valid_utf8 files windows) ≡ true
      → any (text_eq f) files ≡ true
      → any (text_eq g) files ≡ true
      → (if windows then to_lower f else f) ≡ (if windows then to_lower g else g)
      → f ≡ g
  unfolding validate_pull_paths key_of
  validate_pull_paths-NoCollision files f g h hf hg same =
      let (ef, sf) = recorded-has files [] f h hf in
      let (eg, sg) = recorded-has files [] g h hg in
      let key : Text → Text = λ t. if windows then to_lower t else t in
      let keys : key_of windows f ≡ key_of windows g =
        ap key (safe-clean f sf) ∙ same ∙ sym (ap key (safe-clean g sg)) in
      let found : some (clean f) ≡ some (clean g) =
        sym ef ∙ ap (λ k. get_entry k (recorded windows files [])) keys ∙ eg in
      sym (safe-clean f sf) ∙ ground arith ∙ safe-clean g sg
