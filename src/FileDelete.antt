-- ===== src/FileDelete.antt =====
-- file/src/file_delete.c: the deletion of what a directory holds. A tree stands for what lies at a path;
-- whether lstat, remove, opendir and rmdir are allowed at a path is an argument, and lstat answers the
-- same for one path each time. The entries come in the order in which readdir gives them.
mod Reference
mod Steps
mod Kept
mod Complete
mod Tests
use linux_c_code.Base.{
  ℕ, ◌+◌, Bool, true, false, ◌&&◌, ◌||◌, not, Option, none, some, List, [], ◌∷◌, ◌++◌, ◌==◌, ltb,
  if◌then◌else◌, length,
}

-- What lies at a path: a regular file, a directory, or something else that is no regular file (a link, a
-- device, a socket). `above` is the directory itself or its parent, as "." and ".." name them.
mutual
  pub data Node : Type 0 where
    regular : Node
    other : Node
    above : Node
    directory : Entries → Node

  pub data Entries : Type 0 where
    last : Entries
    entry : (name : List ℕ) → Node → Entries → Entries

-- The answers of the system for a path.
pub record Permissions : Type 0 where
  pub lstat : List ℕ → Bool
  pub remove : List ℕ → Bool
  pub opendir : List ℕ → Bool
  pub rmdir : List ℕ → Bool

-- `strcmp` with result 0
unfoldable pub same_string : List ℕ → List ℕ → Bool
same_string [] [] = true
same_string [] (b ∷ t) = false
same_string (a ∷ s) [] = false
same_string (a ∷ s) (b ∷ t) = a == b && same_string s t

unfoldable pub is_above : Node → Bool
is_above above = true
is_above regular = false
is_above other = false
is_above (directory es) = false

-- The macro `S_ISREG`.
unfoldable pub is_reg : Node → Bool
is_reg regular = true
is_reg other = false
is_reg above = false
is_reg (directory es) = false

-- The macro `S_ISDIR`.
unfoldable pub is_directory : Node → Bool
is_directory regular = false
is_directory other = false
is_directory above = true
is_directory (directory es) = true

unfoldable pub is_dir : Permissions → List ℕ → Node → Bool
is_dir sys path node = if sys.lstat path then is_directory node else false

unfoldable pub is_file : Permissions → List ℕ → Node → Bool
is_file sys path node = if sys.lstat path then is_reg node else false

unfoldable pub is_special_dir : List ℕ → Bool
is_special_dir path = same_string path (46 ∷ []) || same_string path (46 ∷ 46 ∷ [])

-- `file_path[strlen(path) - 1]`, `none` in front of the array.
unfoldable pub last_char : List ℕ → Option ℕ
last_char [] = none
last_char (a ∷ []) = some a
last_char (a ∷ b ∷ s) = last_char (b ∷ s)

-- `get_file_path` into an array of PATH_MAX = 4096 bytes; `none` for an access outside of it.
unfoldable pub get_file_path : List ℕ → List ℕ → Option (List ℕ)
get_file_path path file_name = elim (last_char path) [
  | none ↦ none
  | some c ↦
      let file_path = (if c == 47 then path else path ++ 47 ∷ []) ++ file_name in
      if ltb (length file_path) 4096 then some file_path else none
]

-- Only "." and ".." are left.
unfoldable pub is_empty : Entries → Bool
is_empty last = true
is_empty (entry name node rest) = is_above node && is_empty rest

-- `rmdir`: what is left at the path. It takes only an empty directory away.
unfoldable pub rmdir_at : Permissions → List ℕ → Option Node → Option Node
rmdir_at sys path none = none
rmdir_at sys path (some regular) = some regular
rmdir_at sys path (some other) = some other
rmdir_at sys path (some above) = some above
rmdir_at sys path (some (directory es)) =
    if is_empty es && sys.rmdir path then none else some (directory es)

-- What is left of an entry in its directory.
unfoldable pub keep : List ℕ → Option Node → Entries → Entries
keep name none rest = rest
keep name (some node) rest = entry name node rest

-- `delete_file`: what is left at the path. The outer `none` is an access outside of an array, or a
-- recursion into a directory that is being read, which does not end. The second function is the loop on
-- `readdir`.
unfoldable mutual
  pub delete_file : Permissions → List ℕ → Node → Option (Option Node)
  delete_file sys path regular =
      if is_file sys path regular
      then (if sys.remove path then some none else some (some regular))
      else some (some regular)
  delete_file sys path other = some (some other)
  delete_file sys path above =
      if is_dir sys path above
      then (if sys.opendir path then none else some (some above))
      else some (some above)
  delete_file sys path (directory es) = elim (is_dir sys path (directory es) && sys.opendir path) [
    | false ↦ some (some (directory es))
    | true ↦ elim (read_loop sys path es) [ none ↦ none | some left ↦ some (some (directory left)) ]
  ]

  pub read_loop : Permissions → List ℕ → Entries → Option Entries
  read_loop sys path last = some last
  read_loop sys path (entry name node rest) = elim (get_file_path path name) [
    | none ↦ none
    | some file_path ↦ elim (is_special_dir name) [
      | true ↦ elim (read_loop sys path rest) [
        | none ↦ none
        | some left ↦ some (entry name node left)
      ]
      | false ↦ elim (delete_file sys file_path node) [
        | none ↦ none
        | some after ↦ elim (read_loop sys path rest) [
          | none ↦ none
          | some left ↦ some (keep name (rmdir_at sys file_path after) left)
        ]
      ]
    ]
  ]
