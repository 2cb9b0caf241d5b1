-- ===== src/FileDelete/Complete.antt =====
-- What `delete_file` of file/src/file_delete.c leaves when the system allows everything.
use linux_c_code.Base.{
  ℕ, ◌+◌, ◌<◌, ◌≡◌, refl, sym, ap, ◌∙◌, true, false, Option, none, some, List, length, arith,
  Bool-cases, inl, inr, if◌then◌else◌, not,
}
use linux_c_code.FileDelete.{
  Permissions, Node, regular, other, above, directory, Entries, last, entry, is_above, is_dir,
  is_file, is_directory, is_reg, is_special_dir, is_empty, rmdir_at, keep, delete_file, read_loop,
}
use linux_c_code.FileDelete.Reference.{
  valid, valid_entries, longest, longest_entries, has_other, has_other_entries, leftover,
  leftover_entries,
}
use linux_c_code.FileDelete.Steps.{
  get_file_path_lem, read_loop-special, read_loop-entry, delete_file-directory,
}

-- Everything is allowed.
abbrev pub permissive : Permissions
permissive = record {
  lstat = λ path. true;
  remove = λ path. true;
  opendir = λ path. true;
  rmdir = λ path. true;
}

-- What is left of a tree: nothing of a regular file, and of a directory what cannot be deleted.
unfoldable pub remainder : Node → Option Node
remainder node = if is_reg node then none else some (leftover node)

-- A directory is empty afterwards, unless something in it could not be deleted.
leftover-is_empty :
    (es : Entries)
    → valid_entries es ≡ true
    → is_empty (leftover_entries es) ≡ not (has_other_entries es)
unfolding is_empty leftover has_other valid is_above
leftover-is_empty last v = refl
leftover-is_empty (entry name above rest) v = leftover-is_empty rest (ground (arith, v))
leftover-is_empty (entry name regular rest) v = leftover-is_empty rest (ground (arith, v))
leftover-is_empty (entry name other rest) v = refl
leftover-is_empty (entry name (directory es) rest) v = ground (arith, v, leftover-is_empty rest)

-- An entry goes, together with its directory, when nothing below it stays.
rmdir_at-remainder :
    (path : List ℕ) (node : Node)
    → valid node ≡ true
    → rmdir_at permissive path (remainder node)
      ≡ (if has_other node then some (leftover node) else none)
unfolding rmdir_at remainder leftover has_other valid is_reg
rmdir_at-remainder path regular v = refl
rmdir_at-remainder path other v = refl
rmdir_at-remainder path above v = absurd (ground (arith, v))
rmdir_at-remainder path (directory es) v = ground (arith, leftover-is_empty es v)

keep-leftover :
    (name : List ℕ) (node : Node) (rest : Entries)
    → is_above node ≡ false
    → keep name (if has_other node then some (leftover node) else none) (leftover_entries rest)
      ≡ leftover_entries (entry name node rest)
unfolding keep leftover
keep-leftover name node rest plain = ground (arith, plain)

leftover-special :
    (name : List ℕ) (node : Node) (rest : Entries)
    → is_above node ≡ true
    → leftover_entries (entry name node rest) ≡ entry name node (leftover_entries rest)
unfolding leftover is_above
leftover-special name above rest v = refl
leftover-special name regular rest v = ground (arith, v)
leftover-special name other rest v = ground (arith, v)
leftover-special name (directory es) rest v = ground (arith, v)

valid-plain : (node : Node) → valid node ≡ true → is_above node ≡ false
unfolding valid is_above
valid-plain regular v = refl
valid-plain other v = refl
valid-plain above v = absurd (ground (arith, v))
valid-plain (directory es) v = refl

delete_file-regular :
    (path : List ℕ) → delete_file permissive path regular ≡ some (remainder regular)
unfolding delete_file is_file is_reg remainder
delete_file-regular path = refl

delete_file-other : (path : List ℕ) → delete_file permissive path other ≡ some (remainder other)
unfolding delete_file is_reg remainder leftover
delete_file-other path = refl

delete_file-remainder :
    (path : List ℕ) (es : Entries)
    → read_loop permissive path es ≡ some (leftover_entries es)
    → delete_file permissive path (directory es) ≡ some (remainder (directory es))
unfolding is_dir is_directory is_reg remainder leftover
delete_file-remainder path es = delete_file-directory permissive path es (leftover_entries es) refl

read_loop-last : (path : List ℕ) → read_loop permissive path last ≡ some (leftover_entries last)
unfolding delete_file leftover
read_loop-last path = refl

mutual
  unfolding valid longest

  delete_file-permissive :
      (path : List ℕ) (node : Node)
      → valid node ≡ true
      → 0 < length path
      → length path + longest node < 4096
      → delete_file permissive path node ≡ some (remainder node)
  delete_file-permissive path regular v p l = delete_file-regular path
  delete_file-permissive path other v p l = delete_file-other path
  delete_file-permissive path above v p l = absurd (ground (arith, v))
  delete_file-permissive path (directory es) v p l =
      delete_file-remainder path es (read_loop-permissive path es v p l)

  read_loop-permissive :
      (path : List ℕ) (es : Entries)
      → valid_entries es ≡ true
      → 0 < length path
      → length path + longest_entries es < 4096
      → read_loop permissive path es ≡ some (leftover_entries es)
  read_loop-permissive path last v p l = read_loop-last path
  read_loop-permissive path (entry name node rest) v p l =
      let (file_path, joined, nonempty, short) = get_file_path_lem path name p (omega (arith, l)) in
      let others = read_loop-permissive path rest (ground (arith, v)) p (omega (arith, l)) in
      elim (Bool-cases (is_special_dir name)) [
        | inl special ↦
            read_loop-special permissive path name node rest (leftover_entries rest) file_path
              joined special others
            ∙ ap some (sym (leftover-special name node rest (ground (arith, v, special))))
        | inr plain ↦
            let inner : valid node ≡ true = ground (arith, v, plain) in
            read_loop-entry permissive path name node rest (leftover_entries rest) file_path
              (remainder node) joined plain
              (delete_file-permissive file_path node inner nonempty (omega (arith, l, short)))
              others
            ∙ ap (λ a. some (keep name a (leftover_entries rest)))
                (rmdir_at-remainder file_path node inner)
            ∙ ap some (keep-leftover name node rest (valid-plain node inner))
      ]

-- When the system allows everything, `delete_file` of a path that is not empty, to a tree whose
-- longest path has less than 4096 bytes, removes a regular file, and leaves of a directory exactly the
-- things that are neither regular files nor directories and the directories that lead to them.
pub delete_file_lem :
    (path : List ℕ) (node : Node)
    → valid node ≡ true
    → 0 < length path
    → length path + longest node < 4096
    → delete_file permissive path node ≡ some (remainder node)
delete_file_lem = delete_file-permissive
