-- ===== src/FileDelete/Reference.antt =====
-- Descriptions of a tree for `delete_file` of file/src/file_delete.c: whether its names are right, how
-- long its paths get, and what cannot be deleted.
use linux_c_code.Base.{
  ℕ, ◌+◌, max, Bool, true, false, ◌||◌, ◌&&◌, Option, none, some, List, [], ◌∷◌, ◌++◌,
  if◌then◌else◌, length,
}
use linux_c_code.FileDelete.{
  Node, regular, other, above, directory, Entries, last, entry, is_above, is_special_dir,
}

-- "." and "..", and no other names, stand for the directory itself and its parent.
unfoldable mutual
  pub valid : Node → Bool
  valid regular = true
  valid other = true
  valid above = false
  valid (directory es) = valid_entries es

  pub valid_entries : Entries → Bool
  valid_entries last = true
  valid_entries (entry name node rest) =
      (if is_special_dir name then is_above node else valid node) && valid_entries rest

-- How much longer than the path to the tree the longest path in it is, at most.
unfoldable mutual
  pub longest : Node → ℕ
  longest regular = 0
  longest other = 0
  longest above = 0
  longest (directory es) = longest_entries es

  pub longest_entries : Entries → ℕ
  longest_entries last = 0
  longest_entries (entry name node rest) =
      max (1 + length name + longest node) (longest_entries rest)

-- Something in the tree is neither a regular file nor a directory.
unfoldable mutual
  pub has_other : Node → Bool
  has_other regular = false
  has_other other = true
  has_other above = false
  has_other (directory es) = has_other_entries es

  pub has_other_entries : Entries → Bool
  has_other_entries last = false
  has_other_entries (entry name node rest) = has_other node || has_other_entries rest

-- The tree with only such things and the directories that lead to them.
unfoldable mutual
  pub leftover : Node → Node
  leftover regular = regular
  leftover other = other
  leftover above = above
  leftover (directory es) = directory (leftover_entries es)

  pub leftover_entries : Entries → Entries
  leftover_entries last = last
  leftover_entries (entry name node rest) =
      if is_above node || has_other node
      then entry name (leftover node) (leftover_entries rest)
      else leftover_entries rest

-- The places of these things, each as the names on the way to it, the last first.
unfoldable mutual
  pub others : List (List ℕ) → Node → List (List (List ℕ))
  others trail regular = []
  others trail other = trail ∷ []
  others trail above = []
  others trail (directory es) = others_entries trail es

  pub others_entries : List (List ℕ) → Entries → List (List (List ℕ))
  others_entries trail last = []
  others_entries trail (entry name node rest) =
      others (name ∷ trail) node ++ others_entries trail rest

unfoldable pub others_left : List (List ℕ) → Option Node → List (List (List ℕ))
others_left trail none = []
others_left trail (some node) = others trail node
