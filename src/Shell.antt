-- ===== src/Shell.antt =====
-- `SystemRtn` of exe_shell/src/main.c: the output of a command without its line ends. What the command
-- prints, and the results of popen and pclose, are arguments.
mod Tests
use linux_c_code.Base.{
  ℕ, zero, suc, ◌+◌, ◌<◌, sym, ap₂, Bool, true, false, ◌&&◌, ◌||◌, Option, none, some, List, [],
  ◌∷◌, ◌++◌, ◌==◌, if◌then◌else◌, length,
}
use linux_c_code.Base.Int.{ℤ, pos, negsuc}

-- `fgets` into a buffer of `n + 1` bytes: up to `n` bytes, to the end of a line at most; what it reads
-- and what is left.
unfoldable pub fgets : (n : ℕ) → List ℕ → List ℕ × List ℕ
fgets zero output = ([], output)
fgets (suc n) [] = ([], [])
fgets (suc n) (b ∷ bs) =
    let (line, rest) = fgets n bs in if b == 10 then (b ∷ [], bs) else (b ∷ line, rest)

-- The buffer as a C string after the inner loop, which puts a terminator in place of a line end.
unfoldable pub cut_line : List ℕ → List ℕ
cut_line [] = []
cut_line (b ∷ bs) = let rest = cut_line bs in if b == 0 || b == 10 then [] else b ∷ rest

-- The outer loop: what is copied to `pbyRtnStr`. Every round reads a byte at least, so that as many
-- rounds are enough as there are bytes.
unfoldable pub copy_loop : (fuel : ℕ) → (output : List ℕ) → List ℕ
copy_loop zero output = []
copy_loop (suc fuel) [] = []
copy_loop (suc fuel) (b ∷ bs) =
    let (line, rest) = fgets 255 (b ∷ bs) in cut_line line ++ copy_loop fuel rest

-- `SystemRtn`: its result, and what stands in `pbyRtnStr` before the terminator, if it is written.
unfoldable pub system_rtn : (output : Option (List ℕ)) → (pclose_fine : Bool) → ℤ × Option (List ℕ)
system_rtn none pclose_fine = (negsuc 0, none)
system_rtn (some output) pclose_fine =
    let text = copy_loop (length output) output in
    if pclose_fine then (pos 0, some text) else (negsuc 0, some text)

-- The output without its line ends.
unfoldable pub without_line_ends : List ℕ → List ℕ
without_line_ends [] = []
without_line_ends (b ∷ bs) = let rest = without_line_ends bs in if b == 10 then rest else b ∷ rest

-- No byte is zero.
unfoldable pub no_zero : List ℕ → Bool
no_zero [] = true
no_zero (b ∷ bs) = let rest = no_zero bs in if b == 0 then false else rest
