-- ===== src/FileDelete/Tests.antt =====
-- A directory for `delete_file` of file/src/file_delete.c, and its theorems there.
use linux_c_code.Base.{Option, true, false, ℕ, ◌≡◌, refl, some, List, [], ◌∷◌, arith}
use linux_c_code.FileDelete.{
  is_special_dir, same_string, is_above, is_reg, Node, regular, other, above, directory,
  Permissions, Entries, last, entry, delete_file,
}
use linux_c_code.FileDelete.Reference.{others_left, valid, longest, leftover, has_other, others}
use linux_c_code.FileDelete.Kept.{delete_file-others}
use linux_c_code.FileDelete.Complete.{remainder, permissive, delete_file_lem}

-- "/d"
abbrev path_example : List ℕ
path_example = 47 ∷ 100 ∷ []

-- The listing of a directory without its own entries.
abbrev listing : Entries → Entries
listing rest = entry (46 ∷ []) above (entry (46 ∷ 46 ∷ []) above rest)

-- A file "a", a directory "b" with a file, and a directory "c" with a file "a" and a link "l".
abbrev tree_example : Node
tree_example = directory (
    listing (
      entry (97 ∷ []) regular (
        entry (98 ∷ []) (directory (listing (entry (97 ∷ []) regular last))) (
          entry (99 ∷ [])
            (directory (listing (entry (97 ∷ []) regular (entry (108 ∷ []) other last)))) last))))

delete_file_example :
    delete_file permissive path_example tree_example
    ≡ some (
        some (
          directory
            (listing (entry (99 ∷ []) (directory (listing (entry (108 ∷ []) other last))) last))))
unfolding valid longest is_special_dir same_string is_above remainder leftover has_other is_reg
delete_file_example = delete_file_lem path_example tree_example refl (omega arith) (omega arith)

-- Regular files cannot be removed, all else is allowed.
abbrev stubborn : Permissions
stubborn = record {
  lstat = λ path. true;
  remove = λ path. false;
  opendir = λ path. true;
  rmdir = λ path. true;
}

delete_file-others_example :
    (after : Option Node) × (delete_file stubborn path_example tree_example ≡ some after)
    × (others_left [] after ≡ others [] tree_example)
unfolding valid longest is_special_dir same_string is_above
delete_file-others_example =
    delete_file-others stubborn path_example tree_example refl (omega arith) (omega arith)
