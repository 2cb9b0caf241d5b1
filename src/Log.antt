-- ===== src/Log.antt =====
-- The logger of log/src/lf_log.c and log/src/lf_log.h: messages to the terminal or to one of three
-- files, which take turns. The file system is a parameter of its state; text is a list of bytes.
pub mod Text
pub mod Files
pub mod Opening
pub mod Rotation
pub mod Order
pub mod Short
pub mod Shown
pub mod Setup
mod Tests
use linux_c_code.Base.{
  ℕ, zero, suc, ◌+◌, ◌-◌, ◌/◌, ◌%◌, ◌^◌, Bool, true, false, ◌&&◌, Option, none, some, List, [], ◌∷◌,
  ◌++◌, ltb, leb, ◌==◌, not, if◌then◌else◌, length, take, get_or,
}
use linux_c_code.Base.Int.{ℤ, pos, negsuc}
use linux_c_code.Log.Text.{Time, log_message, place_name}

abbrev pub max_log_file_num : ℕ
max_log_file_num = 3

-- What has been done to `g_stSaveLogMutexLock`.
pub data Mutex : Type 0 where
  untouched initialised destroyed : Mutex

-- The variables of lf_log.c, the file system that the logger writes to, and the terminal.
pub record Log : Type 0 where
  pub log_file_name : List (List ℕ)
  pub log_file_no : ℕ
  pub print_log_place_flag : ℕ
  pub print_debug_log_flag : ℕ
  pub log_file_size : ℕ
  -- `pFile`: the name of the open file.
  pub p_file : Option (List ℕ)
  pub save_log_mutex : Mutex
  pub log_init_flag : ℕ
  -- The contents of each file that exists.
  pub disk : List ℕ → Option (List ℕ)
  pub terminal : List ℕ

-- The variables at the start of the program.
unfoldable pub start : (List ℕ → Option (List ℕ)) → Log
start disk = record {
  log_file_name = [] ∷ [] ∷ [] ∷ [];
  log_file_no = 0;
  print_log_place_flag = 0;
  print_debug_log_flag = 0;
  log_file_size = 0;
  p_file = none;
  save_log_mutex = untouched;
  log_init_flag = 0;
  disk = disk;
  terminal = [];
}

-- `LOG_SetPrintLogPlaceFlag`
unfoldable pub set_print_log_place_flag : ℕ → Log → Log
set_print_log_place_flag flag l = record l { print_log_place_flag = flag }

-- `LOG_SetPrintDebugLogFlag`
unfoldable pub set_print_debug_log_flag : ℕ → Log → Log
set_print_debug_log_flag flag l = record l { print_debug_log_flag = flag }

-- Whether two names are the same.
unfoldable pub same_text : List ℕ → List ℕ → Bool
same_text [] [] = true
same_text (a ∷ as') (b ∷ bs) = a == b && same_text as' bs
same_text _ _ = false

-- The file system with the file `name` in a new state.
unfoldable pub put_file : List ℕ → List ℕ → (List ℕ → Option (List ℕ)) → List ℕ → Option (List ℕ)
put_file name text disk other = if same_text other name then some text else disk other

abbrev pub text_of : Option (List ℕ) → List ℕ
text_of none = []
text_of (some text) = text

-- The contents of a file, none if it does not exist.
unfoldable pub contents : (List ℕ → Option (List ℕ)) → List ℕ → List ℕ
contents disk name = text_of (disk name)

-- The file that is in turn.
abbrev pub path_of : Log → List ℕ
path_of l = get_or l.log_file_name l.log_file_no []

-- Whether the file is opened with "a": the other way is "w". The size goes into an `int`.
unfoldable pub appends : (len size : ℕ) → Bool
appends len size = let n = len % 2 ^ 32 in ltb 0 n && ltb n size

-- Whether `stat` and `fopen` succeed.
pub record Calls : Type 0 where
  pub stat : Bool
  pub fopen : Bool

-- `fopen` with "a" or with "w", which empties the file.
unfoldable pub open_as : Bool → Log → Log
open_as append l = record l {
  p_file = some (path_of l);
  disk = put_file (path_of l) (if append then contents l.disk (path_of l) else []) l.disk;
}

-- The part of `LOG_OpenLogFile` that opens, for a file of `len` bytes.
unfoldable pub open_sized : Calls → (len : ℕ) → Log → Bool × Log
open_sized k len l = if k.fopen then (true, open_as (appends len l.log_file_size) l) else (false, l)

-- `LOG_OpenLogFile`: whether it returns 0. A size that is negative as an `int` counts as a failure of
-- `get_file_size`.
unfoldable pub open_log_file : Calls → Log → Bool × Log
open_log_file k l = elim l.p_file [
  | some name ↦ (true, l)
  | none ↦ elim (l.disk (path_of l)) [
    | some text ↦
        if k.stat && ltb (length text % 2 ^ 32) (2 ^ 31)
        then open_sized k (length text) l
        else (false, l)
    | none ↦ open_sized k 0 l
  ]
]

-- `fputs`, then `ftell` and what follows from it. The position is the end of the file.
unfoldable pub write_log : (text : List ℕ) → (name : List ℕ) → Log → Log
write_log text name l =
    let whole = contents l.disk name ++ text in
    let written = record l { disk = put_file name whole l.disk } in
    if leb l.log_file_size (length whole)
    then record written { p_file = none; log_file_no = (l.log_file_no + 1) % max_log_file_num }
    else written

-- `LOG_PrintLog`; the time is what `gettimeofday` and `localtime` answer. `pFile` is tested whatever
-- `LOG_OpenLogFile` returns.
unfoldable pub print_log : Calls → Time → (type : ℕ) → (info : Option (List ℕ)) → Log → ℤ × Log
print_log k now type none l = (negsuc 0, l)
print_log k now type (some info) l =
    let text = log_message now type info in
    if l.print_log_place_flag == 0
    then (pos 0, record l { terminal = l.terminal ++ text })
    else (let l' = (open_log_file k l).1 in
        elim l'.p_file [ none ↦ (pos 0, l') | some name ↦ (pos 0, write_log text name l') ])

-- The macro `LOG_INFO`, with the text that its format gives.
unfoldable pub log_info : Calls → Time → (type : ℕ) → (text : List ℕ) → Log → Log
log_info k now type text l =
    if l.print_log_place_flag == 0 && (l.print_debug_log_flag == 0 && type == 0)
    then l
    else (print_log k now type (some (take 1_022 text)) l).1

-- `LOG_Init`
unfoldable pub log_init : (name : Option (List ℕ)) → (size : ℕ) → Log → ℤ × Log
log_init none size l = (negsuc 0, l)
log_init (some name) zero l = (negsuc 0, l)
log_init (some name) (suc n) l =
    if l.print_log_place_flag == 1 && l.log_init_flag == 0
    then (
      pos 0,
      record l {
        log_init_flag = 1;
        log_file_name = place_name name 0 ∷ place_name name 1 ∷ place_name name 2 ∷ [];
        log_file_size = suc n;
        save_log_mutex = initialised;
      },
    )
    else (pos 0, l)

-- `LOG_Destroy`
unfoldable pub log_destroy : Log → Log
log_destroy l = record l { p_file = none; save_log_mutex = destroyed }
