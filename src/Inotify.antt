-- ===== src/Inotify.antt =====
-- The watcher of inotify/src/main.c: how it reads the events that the kernel puts into its buffer. The
-- machine stores the lowest byte of a word first. The rest of the program is under an `#else`.
pub mod Events
mod Tests
use Prim.Native.Nat.{bit_and}
use linux_c_code.Base.{
  ℕ, zero, suc, ◌+◌, ◌-◌, ◌*◌, ◌^◌, Bool, true, false, ◌||◌, not, Option, none, some, List, [], ◌∷◌,
  ◌==◌, if◌then◌else◌, drop, get_or,
}

-- What the code reads of a `struct inotify_event`.
pub record Event : Type 0 where
  pub wd : ℕ
  pub mask : ℕ
  pub cookie : ℕ
  pub len : ℕ

-- `*((uint32_t *) (eventptr + step))`; a byte beyond the buffer is taken to be 0.
unfoldable pub read_word : List ℕ → (step : ℕ) → ℕ
read_word buf step =
    get_or buf step 0
    + get_or buf (step + 1) 0 * 2 ^ 8
    + get_or buf (step + 2) 0 * 2 ^ 16
    + get_or buf (step + 3) 0 * 2 ^ 24

-- The event at `eventptr`.
unfoldable pub read_event : List ℕ → Event
read_event buf = record {
  wd = read_word buf 0;
  mask = read_word buf 4;
  cookie = read_word buf 8;
  len = read_word buf 12;
}

-- `need_parse` and `need_remove_wd`
pub record Flags : Type 0 where
  pub need_parse : Bool
  pub need_remove_wd : Bool

-- `mask & bits`, as a condition.
unfoldable pub has : (mask bits : ℕ) → Bool
has mask bits = not (bit_and mask bits == 0)

-- IN_MODIFY and the other bits that the code tests, up to the last one that sets a flag.
abbrev pub in_modify : ℕ
in_modify = 0x2

abbrev pub in_create : ℕ
in_create = 0x100

-- IN_DELETE | IN_DELETE_SELF
abbrev pub in_deletes : ℕ
in_deletes = 0x600

-- IN_MOVE | IN_MOVE_SELF | IN_MOVED_TO | IN_MOVED_FROM
abbrev pub in_moves : ℕ
in_moves = 0x8c0

abbrev pub in_close_write : ℕ
in_close_write = 0x8

abbrev pub in_access : ℕ
in_access = 0x1

abbrev pub in_attrib : ℕ
in_attrib = 0x4

-- The chain of tests for one event; the tests after IN_ATTRIB change nothing.
unfoldable pub handle_event : Event → Flags → Flags
handle_event e f =
    if has e.mask in_modify
    then record f { need_parse = true }
    else (if has e.mask in_create
        then record f { need_parse = true }
        else (if has e.mask in_deletes
            then record { need_parse = true; need_remove_wd = true }
            else (if has e.mask in_moves
                then record { need_parse = true; need_remove_wd = true }
                else (if has e.mask in_close_write
                    then f
                    else (if has e.mask in_access
                        then f
                        else (if has e.mask in_attrib
                            then record { need_parse = true; need_remove_wd = true }
                            else f))))))

-- `sizeof(struct inotify_event)`
abbrev pub event_size : ℕ
event_size = 16

-- The loop: the flags, and the events that it has seen. Every round takes 16 bytes of `left` at least,
-- so that as many rounds are enough as there are bytes. `left` stops at 0, where the loop ends.
unfoldable pub event_loop : (fuel : ℕ) → (buf : List ℕ) → (left : ℕ) → Flags → List Event × Flags
event_loop zero buf left f = ([], f)
event_loop (suc fuel) buf left f =
    let e = read_event buf in
    let (es, f') =
      event_loop fuel (drop (event_size + e.len) buf) (left - (event_size + e.len))
        (handle_event e f) in
    if left == 0 then ([], f) else (e ∷ es, f')
