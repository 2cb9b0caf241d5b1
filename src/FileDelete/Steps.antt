-- ===== src/FileDelete/Steps.antt =====
-- The steps of `delete_file` of file/src/file_delete.c as equations, and its paths.
use linux_c_code.Base.{
  ℕ, ◌+◌, ◌≤◌, ◌<◌, ◌≡◌, refl, Bool, true, false, ◌&&◌, Option, some, List, [], ◌∷◌, ◌++◌, ◌==◌,
  if◌then◌else◌, length, length-append, arith,
}
use linux_c_code.FileDelete.{
  Permissions, Node, directory, Entries, entry, is_dir, is_special_dir, last_char, get_file_path,
  rmdir_at, keep, delete_file, read_loop,
}

pub last_char-some : (a : ℕ) (s : List ℕ) → (c : ℕ) × (last_char (a ∷ s) ≡ some c)
unfolding last_char
last_char-some a [] = (a, refl)
last_char-some a (b ∷ s) = last_char-some b s

joined_le :
    (b : Bool) (path name : List ℕ)
    → length path + length name ≤ length ((if b then path else path ++ 47 ∷ []) ++ name)
      × (length ((if b then path else path ++ 47 ∷ []) ++ name) ≤ length path + (1 + length name))
joined_le true path name = omega (arith, length-append path name)
joined_le false path name =
    omega (arith, length-append (path ++ 47 ∷ []) name, length-append path (47 ∷ []))

-- A path that is not empty and leaves room for a name is joined to it, with a slash at most between.
pub get_file_path_lem :
    (path name : List ℕ)
    → 0 < length path
    → length path + (1 + length name) < 4096
    → (file_path : List ℕ) × (get_file_path path name ≡ some file_path)
      × (0 < length file_path)
      × (length file_path ≤ length path + (1 + length name))
unfolding get_file_path
get_file_path_lem [] name nonempty room = absurd (omega (arith, nonempty))
get_file_path_lem (a ∷ s) name nonempty room =
    let (c, e) = last_char-some a s in
    let joined = joined_le (c == 47) (a ∷ s) name in
    (
      (if c == 47 then (a ∷ s) else (a ∷ s) ++ 47 ∷ []) ++ name,
      grind (arith, e, joined, room),
      omega (arith, joined),
      joined.1,
    )

module _ (sys : Permissions) (path name : List ℕ) (node : Node) (rest left : Entries)
    (p : List ℕ) where
  pub read_loop-special :
      get_file_path path name ≡ some p
      → is_special_dir name ≡ true
      → read_loop sys path rest ≡ some left
      → read_loop sys path (entry name node rest) ≡ some (entry name node left)
  unfolding delete_file
  read_loop-special joined special others = ground (arith, joined, special, others)

  pub read_loop-entry :
      (after : Option Node)
      → get_file_path path name ≡ some p
      → is_special_dir name ≡ false
      → delete_file sys p node ≡ some after
      → read_loop sys path rest ≡ some left
      → read_loop sys path (entry name node rest) ≡ some (keep name (rmdir_at sys p after) left)
  unfolding delete_file
  read_loop-entry after joined plain deleted others = grind (arith, joined, plain, deleted, others)

pub delete_file-directory :
    (sys : Permissions) (path : List ℕ) (es left : Entries)
    → is_dir sys path (directory es) && sys.opendir path ≡ true
    → read_loop sys path es ≡ some left
    → delete_file sys path (directory es) ≡ some (some (directory left))
unfolding delete_file
delete_file-directory sys path es left opened others = grind (arith, opened, others)

pub delete_file-closed :
    (sys : Permissions) (path : List ℕ) (es : Entries)
    → is_dir sys path (directory es) && sys.opendir path ≡ false
    → delete_file sys path (directory es) ≡ some (some (directory es))
unfolding delete_file
delete_file-closed sys path es closed = cc
