-- ===== src/FileDelete/Kept.antt =====
-- `delete_file` of file/src/file_delete.c takes nothing away but regular files and directories.
use linux_c_code.Base.{
  ℕ, ◌+◌, ◌<◌, ◌≡◌, refl, ap, ap₂, ◌∙◌, true, false, ◌&&◌, Option, none, some, List, [], ◌∷◌, ◌++◌,
  length, arith, Bool-cases, inl, inr, if_case,
}
use linux_c_code.FileDelete.{
  Permissions, Node, regular, other, above, directory, Entries, last, entry, is_above, is_dir,
  is_file, is_special_dir, is_empty, rmdir_at, keep, delete_file, read_loop, get_file_path,
}
use linux_c_code.FileDelete.Reference.{
  valid, valid_entries, longest, longest_entries, others, others_entries, others_left,
}
use linux_c_code.FileDelete.Steps.{
  get_file_path_lem, read_loop-special, read_loop-entry, delete_file-directory, delete_file-closed,
}

is_empty-others :
    (trail : List (List ℕ)) (es : Entries) → is_empty es ≡ true → others_entries trail es ≡ []
unfolding is_empty is_above others
is_empty-others trail last e = refl
is_empty-others trail (entry name above rest) e = is_empty-others trail rest e
is_empty-others trail (entry name regular rest) e = ground (arith, e)
is_empty-others trail (entry name other rest) e = ground (arith, e)
is_empty-others trail (entry name (directory es) rest) e = ground (arith, e)

rmdir_at-others :
    (sys : Permissions) (path : List ℕ) (trail : List (List ℕ)) (after : Option Node)
    → others_left trail (rmdir_at sys path after) ≡ others_left trail after
unfolding rmdir_at others others_left
rmdir_at-others sys path trail none = refl
rmdir_at-others sys path trail (some regular) = refl
rmdir_at-others sys path trail (some other) = refl
rmdir_at-others sys path trail (some above) = refl
rmdir_at-others sys path trail (some (directory es)) = ground (arith, is_empty-others trail es)

keep-others :
    (trail : List (List ℕ)) (name : List ℕ) (after : Option Node) (rest : Entries)
    → others_entries trail (keep name after rest)
      ≡ others_left (name ∷ trail) after ++ others_entries trail rest
unfolding keep others others_left
keep-others trail name none rest = refl
keep-others trail name (some node) rest = refl

module _ (sys : Permissions) where
  -- The call returns, and the things that are no regular files and no directories are where they were.
  abbrev Keeps : List (List ℕ) → List ℕ → Node → Type 0
  Keeps trail path node =
      (after : Option Node) × (delete_file sys path node ≡ some after)
      × (others_left trail after ≡ others trail node)

  abbrev KeepsAll : List (List ℕ) → List ℕ → Entries → Type 0
  KeepsAll trail path es =
      (left : Entries) × (read_loop sys path es ≡ some left)
      × (others_entries trail left ≡ others_entries trail es)

  regular-Keeps : (trail : List (List ℕ)) (path : List ℕ) → Keeps trail path regular
  unfolding delete_file others others_left
  regular-Keeps trail path =
      let kept : Outcome (some (some regular)) = (some regular, refl, refl) in
      if_case Outcome (is_file sys path regular)
        (if_case Outcome (sys.remove path) (none, refl, refl) kept) kept
    where
      Outcome : Option (Option Node) → Type 0
      Outcome o = (after : Option Node) × (o ≡ some after) × (others_left trail after ≡ [])

  other-Keeps : (trail : List (List ℕ)) (path : List ℕ) → Keeps trail path other
  unfolding delete_file others others_left
  other-Keeps trail path = (some other, refl, refl)

  last-KeepsAll : (trail : List (List ℕ)) (path : List ℕ) → KeepsAll trail path last
  unfolding delete_file
  last-KeepsAll trail path = (last, refl, refl)

  directory-Keeps :
      (trail : List (List ℕ)) (path : List ℕ) (es : Entries)
      → KeepsAll trail path es
      → Keeps trail path (directory es)
  unfolding others others_left
  directory-Keeps trail path es (left, run, same) =
      elim (Bool-cases (is_dir sys path (directory es) && sys.opendir path)) [
        | inl opened ↦
            (some (directory left), delete_file-directory sys path es left opened run, same)
        | inr closed ↦ (some (directory es), delete_file-closed sys path es closed, refl)
      ]

  special-KeepsAll :
      (trail : List (List ℕ)) (path name file_path : List ℕ) (node : Node) (rest : Entries)
      → get_file_path path name ≡ some file_path
      → is_special_dir name ≡ true
      → KeepsAll trail path rest
      → KeepsAll trail path (entry name node rest)
  unfolding others
  special-KeepsAll trail path name file_path node rest joined special (left, run, same) = (
    entry name node left,
    read_loop-special sys path name node rest left file_path joined special run,
    ap (λ l. others (name ∷ trail) node ++ l) same,
  )

  entry-KeepsAll :
      (trail : List (List ℕ)) (path name file_path : List ℕ) (node : Node) (rest : Entries)
      → get_file_path path name ≡ some file_path
      → is_special_dir name ≡ false
      → Keeps (name ∷ trail) file_path node
      → KeepsAll trail path rest
      → KeepsAll trail path (entry name node rest)
  unfolding others
  entry-KeepsAll trail path name p node rest joined plain (after, run1, same1) (left, run2, same2) =
      (
        keep name (rmdir_at sys p after) left,
        read_loop-entry sys path name node rest left p after joined plain run1 run2,
        keep-others trail name (rmdir_at sys p after) left
            ∙ ap₂ (λ k l. k ++ l) (rmdir_at-others sys p (name ∷ trail) after ∙ same1) same2,
      )

  mutual
    unfolding valid longest

    node-Keeps :
        (trail : List (List ℕ)) (path : List ℕ) (node : Node)
        → valid node ≡ true
        → 0 < length path
        → length path + longest node < 4096
        → Keeps trail path node
    node-Keeps trail path regular v p l = regular-Keeps trail path
    node-Keeps trail path other v p l = other-Keeps trail path
    node-Keeps trail path above v p l = absurd (ground (arith, v))
    node-Keeps trail path (directory es) v p l =
        directory-Keeps trail path es (entries-KeepsAll trail path es v p l)

    entries-KeepsAll :
        (trail : List (List ℕ)) (path : List ℕ) (es : Entries)
        → valid_entries es ≡ true
        → 0 < length path
        → length path + longest_entries es < 4096
        → KeepsAll trail path es
    entries-KeepsAll trail path last v p l = last-KeepsAll trail path
    entries-KeepsAll trail path (entry name node rest) v p l =
        let (file_path, joined, nonempty, short) =
          get_file_path_lem path name p (omega (arith, l)) in
        let all = entries-KeepsAll trail path rest (ground (arith, v)) p (omega (arith, l)) in
        elim (Bool-cases (is_special_dir name)) [
          | inl special ↦ special-KeepsAll trail path name file_path node rest joined special all
          | inr plain ↦
              entry-KeepsAll trail path name file_path node rest joined plain
                (node-Keeps (name ∷ trail) file_path node (ground (arith, v, plain)) nonempty
                  (omega (arith, l, short)))
                all
        ]

-- Whatever the system allows, `delete_file` of a path that is not empty returns when the longest path
-- in the tree has less than 4096 bytes, and every thing in the tree that is neither a regular file nor
-- a directory is afterwards where it was.
pub delete_file-others :
    (sys : Permissions) (path : List ℕ) (node : Node)
    → valid node ≡ true
    → 0 < length path
    → length path + longest node < 4096
    → (after : Option Node) × (delete_file sys path node ≡ some after)
      × (others_left [] after ≡ others [] node)
delete_file-others sys path node = node-Keeps sys [] path node
