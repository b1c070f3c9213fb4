-- ===== src/Manifest/Selected.antt =====
-- internal/manifest/manifest.go: the walk, which passes over whole directories, takes the files that a
-- test of every file by itself selects.
use joyrun.Base.{
  ◌+◌, ◌≤◌, ◌<◌, ◌≡◌, refl, sym, ap, ◌∙◌, Bool, true, false, ◌&&◌, not, List, [], ◌∷◌, ◌++◌, any,
  map, ltb, length, arith, select_where, append_assoc, append-nil, length-append, inl, inr,
  Bool-cases,
}
use joyrun.Base.Text.{Text}
use joyrun.Fault.{ok, first_step, Result-cases}
use joyrun.Manifest.{
  Selection, ManifestEntry, File, Forest, nil, leaf, folder, Scan, matches, selected, ignore,
  enforce_limits, add_file, visit_file, walk, snapshot, validate_selection,
}

-- A file of the tree, with the directories above it, the nearest first.
pub record Found : Type 0 where
  pub folders : List Text
  pub path : Text

abbrev pub flatten : List Text → Forest → List Found
flatten above nil = []
flatten above (leaf rel file next) = record { folders = above; path = rel } ∷ flatten above next
flatten above (folder rel kids next) = flatten (rel ∷ above) kids ++ flatten above next

module _ (glob : Text → Text → Bool) (s : Selection) where
  abbrev pub is_excluded_folder : Text → Bool
  is_excluded_folder rel = matches glob rel true s.exclude

  -- Neither the file nor a directory above it is excluded, and it is selected.
  abbrev pub is_uploaded : Found → Bool
  is_uploaded f =
      not (any is_excluded_folder f.folders)
      && not (matches glob f.path false s.exclude)
      && selected glob f.path s

  abbrev pub paths_of : List ManifestEntry → List Text
  paths_of = map (λ e. e.path)

  abbrev pub uploaded_paths : List Found → List Text
  uploaded_paths fs = map (λ f. f.path) (select_where is_uploaded fs)

  uploaded-append :
      (xs ys : List Found) → uploaded_paths (xs ++ ys) ≡ uploaded_paths xs ++ uploaded_paths ys
  unfolding select_where
  uploaded-append [] ys = refl
  uploaded-append (x ∷ xs) ys = ground (arith, uploaded-append xs ys)

  -- Below an excluded directory nothing is uploaded.
  uploaded-below :
      (above : List Text) (tree : Forest)
      → any is_excluded_folder above ≡ true
      → uploaded_paths (flatten above tree) ≡ []
  unfolding select_where
  uploaded-below above nil h = refl
  uploaded-below above (leaf rel file next) h = ground (arith, uploaded-below above next)
  uploaded-below above (folder rel kids next) h =
      uploaded-append (flatten (rel ∷ above) kids) (flatten above next)
      ∙ rw (uploaded-below (rel ∷ above) kids (ground arith), uploaded-below above next h) refl

  paths-append : (xs ys : List ManifestEntry) → paths_of (xs ++ ys) ≡ paths_of xs ++ paths_of ys
  paths-append [] ys = refl
  paths-append (x ∷ xs) ys = ground (arith, paths-append xs ys)

  -- A file that is added is the last entry, and the limit on the files holds with it.
  add_file-inv :
      (rel : Text) (file : File) (scan : Scan) {after : Scan}
      → add_file glob s rel file scan ≡ ok after
      → (e : ManifestEntry) × (e.path ≡ rel)
        × (after.entries ≡ scan.entries ++ e ∷ [])
        × ((ltb 0 s.max_files && ltb s.max_files (length scan.entries + 1)) ≡ false)
  unfolding add_file enforce_limits
  add_file-inv rel file scan {after} h = elim (Result-cases file.checked) [
    | inr (x, e) ↦ ground arith
    | inl (size, e) ↦ elim (Result-cases file.content) [
      | inr (x, q) ↦ ground arith
      | inl ((copied, hash), q) ↦
          (record { path = rel; size = copied; sha256 = hash }, refl, ground arith, ground arith)
    ]
  ]

  visit-paths :
      (rel : Text) (file : File) (scan : Scan) {after : Scan} (above : List Text)
      → any is_excluded_folder above ≡ false
      → visit_file glob s rel file scan ≡ ok after
      → paths_of after.entries
        ≡ paths_of scan.entries ++ uploaded_paths (record { folders = above; path = rel } ∷ [])
  unfolding visit_file select_where
  visit-paths rel file scan {after} above open_above h =
      elim (Bool-cases (matches glob rel false s.exclude)) [
        | inl out ↦ ground (arith, append-nil (paths_of scan.entries))
        | inr kept ↦ elim (Bool-cases (selected glob rel s)) [
          | inr unselected ↦ ground (arith, append-nil (paths_of scan.entries))
          | inl chosen ↦
              let (e, p, q, _) = add_file-inv rel file scan {after = after} (ground arith) in
              ground (arith, p, q, paths-append scan.entries (e ∷ []))
        ]
      ]

  walk-paths :
      (tree : Forest) (scan : Scan) {after : Scan} (above : List Text)
      → any is_excluded_folder above ≡ false
      → walk glob s tree scan ≡ ok after
      → paths_of after.entries ≡ paths_of scan.entries ++ uploaded_paths (flatten above tree)
  unfolding walk select_where
  walk-paths nil scan {after} above free h = ground (arith, append-nil (paths_of scan.entries))
  walk-paths (leaf rel file next) scan {after} above free h =
      let (mid, q, e) = first_step (visit_file glob s rel file scan) h in
      let this : Found = record { folders = above; path = rel } in
      walk-paths next mid above free q
      ∙ ap (λ ps. ps ++ uploaded_paths (flatten above next))
          (visit-paths rel file scan above free e)
      ∙ append_assoc (paths_of scan.entries) (uploaded_paths (this ∷ []))
          (uploaded_paths (flatten above next))
      ∙ ap (λ ps. paths_of scan.entries ++ ps)
          (sym (uploaded-append (this ∷ []) (flatten above next)))
  walk-paths (folder rel kids next) scan {after} above free h =
      elim (Bool-cases (matches glob rel true s.exclude)) [
        | inl out ↦
            walk-paths next (ignore rel scan) above free (rw out at h)
            ∙ ap (λ ps. paths_of scan.entries ++ ps)
                (sym (
                  uploaded-append (flatten (rel ∷ above) kids) (flatten above next)
                  ∙ rw (uploaded-below (rel ∷ above) kids (ground arith)) refl))
        | inr within ↦
            let (mid, q, e) = first_step (walk glob s kids scan) (rw within at h) in
            walk-paths next mid above free q
            ∙ ap (λ ps. ps ++ uploaded_paths (flatten above next))
                (walk-paths kids scan (rel ∷ above) (ground arith) e)
            ∙ append_assoc (paths_of scan.entries) (uploaded_paths (flatten (rel ∷ above) kids))
                (uploaded_paths (flatten above next))
            ∙ ap (λ ps. paths_of scan.entries ++ ps)
                (sym (uploaded-append (flatten (rel ∷ above) kids) (flatten above next)))
      ]

  -- The walk over the directories, which passes over the excluded ones, takes exactly the files of the
  -- whole tree that are selected, are not excluded and lie below no excluded directory, in the order
  -- of the walk.
  pub snapshot-uploaded :
      (tree : Forest) {scan : Scan}
      → snapshot glob s tree ≡ ok scan
      → paths_of scan.entries ≡ uploaded_paths (flatten [] tree)
  unfolding snapshot
  snapshot-uploaded tree h =
      let (_, q, e) = first_step (validate_selection glob s) h in
      walk-paths tree (record { entries = []; ignored = []; total = 0 }) [] refl q

  visit-few :
      (rel : Text) (file : File) (scan : Scan) {after : Scan}
      → 0 < s.max_files
      → length scan.entries ≤ s.max_files
      → visit_file glob s rel file scan ≡ ok after
      → length after.entries ≤ s.max_files
  unfolding visit_file
  visit-few rel file scan {after} bound few h =
      elim (Bool-cases (matches glob rel false s.exclude)) [
        | inl out ↦ ground arith
        | inr kept ↦ elim (Bool-cases (selected glob rel s)) [
          | inr unselected ↦ ground arith
          | inl chosen ↦
              let (e, p, q, room) = add_file-inv rel file scan {after = after} (ground arith) in
              ground (arith, q, room, length-append scan.entries (e ∷ []))
        ]
      ]

  walk-few :
      (tree : Forest) (scan : Scan) {after : Scan}
      → 0 < s.max_files
      → length scan.entries ≤ s.max_files
      → walk glob s tree scan ≡ ok after
      → length after.entries ≤ s.max_files
  unfolding walk
  walk-few nil scan {after} bound few h = ground arith
  walk-few (leaf rel file next) scan bound few h =
      let (mid, q, e) = first_step (visit_file glob s rel file scan) h in
      walk-few next mid bound (visit-few rel file scan bound few e) q
  walk-few (folder rel kids next) scan bound few h =
      elim (Bool-cases (matches glob rel true s.exclude)) [
        | inl out ↦ walk-few next (ignore rel scan) bound few (rw out at h)
        | inr within ↦
            let (mid, q, e) = first_step (walk glob s kids scan) (rw within at h) in
            walk-few next mid bound (walk-few kids scan bound few e) q
      ]

  -- With a limit on the files, an upload that is accepted has no more files than that.
  pub snapshot-few :
      (tree : Forest) {scan : Scan}
      → 0 < s.max_files
      → snapshot glob s tree ≡ ok scan
      → length scan.entries ≤ s.max_files
  unfolding snapshot
  snapshot-few tree bound h =
      let (_, q, e) = first_step (validate_selection glob s) h in
      walk-few tree (record { entries = []; ignored = []; total = 0 }) bound (omega arith) q
