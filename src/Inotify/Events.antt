-- ===== src/Inotify/Events.antt =====
-- The loop of inotify/src/main.c reads what the kernel writes.
use linux_c_code.Base.{
  ℕ, zero, suc, ◌+◌, ◌-◌, ◌*◌, ◌/◌, ◌%◌, ◌^◌, ◌≤◌, ◌<◌, ◌≡◌, refl, ap, ap₂, ◌∙◌, false, List, [],
  ◌∷◌, ◌++◌, ◌==◌, length, length-append, drop, map, arith,
}
use linux_c_code.Inotify.{Event, read_word, read_event, Flags, handle_event, event_size, event_loop}

-- The four bytes of a word.
unfoldable pub word : ℕ → List ℕ
word n = n % 2 ^ 8 ∷ (n / 2 ^ 8) % 2 ^ 8 ∷ (n / 2 ^ 16) % 2 ^ 8 ∷ (n / 2 ^ 24) % 2 ^ 8 ∷ []

-- An event as the kernel writes it: the four words, and `len` bytes of the name.
pub record Written : Type 0 where
  pub event : Event
  pub name : List ℕ

-- Words of 32 bits, and the length of the name.
pub record Fits (w : Written) : Type 0 where
  pub wd : w.event.wd < 2 ^ 32
  pub mask : w.event.mask < 2 ^ 32
  pub cookie : w.event.cookie < 2 ^ 32
  pub len : w.event.len < 2 ^ 32
  pub name : length w.name ≡ w.event.len

unfoldable pub bytes_of : Written → List ℕ
bytes_of w =
    word w.event.wd ++ (word w.event.mask ++ (word w.event.cookie ++ (word w.event.len ++ w.name)))

-- The buffer.
unfoldable pub buffer : List Written → List ℕ
buffer [] = []
buffer (w ∷ ws) = bytes_of w ++ buffer ws

abbrev pub AllFit : List Written → Type 0
AllFit [] = Unit
AllFit (w ∷ ws) = Fits w × AllFit ws

four_bytes :
    (n : ℕ)
    → n < 2 ^ 32
    → n % 2 ^ 8
        + (n / 2 ^ 8) % 2 ^ 8 * 2 ^ 8
        + (n / 2 ^ 16) % 2 ^ 8 * 2 ^ 16
        + (n / 2 ^ 24) % 2 ^ 8 * 2 ^ 24
      ≡ n
four_bytes n h = omega arith

same_event :
    (e : Event) (a b c d : ℕ)
    → a ≡ e.wd
    → b ≡ e.mask
    → c ≡ e.cookie
    → d ≡ e.len
    → record { wd = a; mask = b; cookie = c; len = d } ≡ e
same_event e a b c d h i j k = ground (arith, h, i, j, k)

read_written : (w : Written) (rest : List ℕ) → Fits w → read_event (bytes_of w ++ rest) ≡ w.event
unfolding read_event read_word bytes_of word
read_written w rest f =
    same_event w.event _ _ _ _ (four_bytes w.event.wd f.wd) (four_bytes w.event.mask f.mask)
      (four_bytes w.event.cookie f.cookie) (four_bytes w.event.len f.len)

length-bytes_of : (w : Written) → Fits w → length (bytes_of w) ≡ event_size + w.event.len
unfolding bytes_of word
length-bytes_of w f = let n = f.name in omega (arith, n)

drop-behind : (n : ℕ) (xs ys : List ℕ) → length xs ≡ n → drop n (xs ++ ys) ≡ ys
drop-behind zero [] ys h = refl
drop-behind zero (x ∷ xs) ys h = absurd (omega arith)
drop-behind (suc n) [] ys h = absurd (omega arith)
drop-behind (suc n) (x ∷ xs) ys h = drop-behind n xs ys (omega arith)

-- What the events do to the flags, one after the other.
unfoldable pub handle_all : List Written → Flags → Flags
handle_all [] f = f
handle_all (w ∷ ws) f = handle_all ws (handle_event w.event f)

abbrev pub events : List Written → List Event
events ws = map (λ w. w.event) ws

-- The rest of the loop after an event.
abbrev rest_loop : (fuel : ℕ) → (buf : List ℕ) → (left : ℕ) → Flags → Event → List Event × Flags
rest_loop fuel buf left f e =
    let (es, f') =
      event_loop fuel (drop (event_size + e.len) buf) (left - (event_size + e.len))
        (handle_event e f) in
    (e ∷ es, f')

loop_step :
    (fuel : ℕ) (buf : List ℕ) (left : ℕ) (f : Flags)
    → (left == 0) ≡ false
    → event_loop (suc fuel) buf left f ≡ rest_loop fuel buf left f (read_event buf)
unfolding event_loop
loop_step fuel buf left f h = ground (arith, h)

-- One round at an event that the kernel has written.
event_round :
    (fuel : ℕ) (w : Written) (rest : List ℕ) (f f' : Flags) (es : List Event)
    → Fits w
    → event_loop fuel rest (length rest) (handle_event w.event f) ≡ (es, f')
    → event_loop (suc fuel) (bytes_of w ++ rest) (length (bytes_of w ++ rest)) f
      ≡ (w.event ∷ es, f')
event_round fuel w rest f f' es h e =
    let buf = bytes_of w ++ rest in
    let size = length-bytes_of w h in
    let whole = length-append (bytes_of w) rest in
    let tail = drop-behind (event_size + w.event.len) (bytes_of w) rest size in
    let left : length buf - (event_size + w.event.len) ≡ length rest = omega arith in
    loop_step fuel buf (length buf) f (ground (arith, whole, size))
    ∙ ap (rest_loop fuel buf (length buf) f) (read_written w rest h)
    ∙ ap₂
        (λ d l. (
          w.event ∷ (event_loop fuel d l (handle_event w.event f)).0,
          (event_loop fuel d l (handle_event w.event f)).1,
        ))
        tail left
    ∙ ap (λ (p : List Event × Flags). (w.event ∷ p.0, p.1)) e

loop_end : (fuel : ℕ) (f : Flags) → event_loop fuel [] 0 f ≡ ([], f)
unfolding event_loop
loop_end zero f = refl
loop_end (suc fuel) f = refl

-- For a buffer with any number of events as the kernel writes them, with names of any length: the loop
-- ends, sees exactly these events in their order, and the flags are what the events, one after the
-- other, make of them.
pub event_loop-buffer :
    (ws : List Written) (fuel : ℕ) (f : Flags)
    → AllFit ws
    → length ws ≤ fuel
    → event_loop fuel (buffer ws) (length (buffer ws)) f ≡ (events ws, handle_all ws f)
unfolding buffer handle_all
event_loop-buffer [] fuel f a h = loop_end fuel f
event_loop-buffer (w ∷ ws) zero f a h = absurd (omega arith)
event_loop-buffer (w ∷ ws) (suc fuel) f a h =
    event_round fuel w (buffer ws) f (handle_all ws (handle_event w.event f)) (events ws) a.0
      (event_loop-buffer ws fuel (handle_event w.event f) a.1 (omega arith))
