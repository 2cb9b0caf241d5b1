-- ===== src/Eloop/Run/Dispatch.antt =====
-- Which handlers `eloop_sock_table_dispatch` of eloop/src/eloop.c calls.
use mathlib.Core.List.{append_assoc, append-nil}
use linux_c_code.Base.{
  ◌<◌, ℕ, zero, suc, ◌+◌, ◌≤◌, ◌≡◌, refl, sym, ap, ◌∙◌, ◌⊎◌, inl, inr, true, false, some, List, [],
  ◌∷◌, ◌++◌, arith, Bool-cases, if◌then◌else◌, length, take, drop, get_elem?,
}
use linux_c_code.Base.Slices.{drop-cons}
use linux_c_code.Eloop.State.{Sock, SockTable, EventType, Eloop, get_table, set_table, live}
use linux_c_code.Eloop.Table.{FdSet, is_nil}
use linux_c_code.Eloop.Table.Refine.{Fits, get_table-set_table}
use linux_c_code.Eloop.World.{Call, sock_call, World, Callback, call, exec_all}
use linux_c_code.Eloop.World.Tables.{exec_all-Keeps, exec_all-table, touches, Keeps}
use linux_c_code.Eloop.Run.{call_sock, dispatch_loop, dispatch}

-- The calls for the entries whose descriptor is ready, in the order of the table.
unfoldable pub ready_calls : FdSet → List Sock → List Call
ready_calls fds [] = []
ready_calls fds (s ∷ ss) =
    if fds s.sock
    then sock_call s.handler s.sock s.eloop_data s.user_data ∷ ready_calls fds ss
    else ready_calls fds ss

-- The last call was to a callback that registered or removed a descriptor of this type.
pub record Stopped (cb : Callback) (type : EventType) (w' : World) : Type 0 where
  pub past : List Call
  pub by : Call
  pub found : Eloop
  pub last : w'.calls ≡ past ++ (by ∷ [])
  pub done : w'.eloop ≡ exec_all (cb past by found) found
  pub touched : touches type (cb past by found) ≡ true
  pub flagged : (get_table type w'.eloop).changed ≡ true

-- A table with its flag reset.
abbrev pub reset : SockTable → SockTable
reset t = record t { changed = false }

-- Of the calls that are due a first part is made. Either a callback stopped it there, or it is all of
-- them, and no callback set the flag or left other entries than `t` has.
pub record Dispatched (cb : Callback) (type : EventType) (t : SockTable) (due : List Call)
    (w w' : World) : Type 0 where
  pub made : List Call
  pub left : List Call
  pub split : due ≡ made ++ left
  pub calls : w'.calls ≡ w.calls ++ made
  pub complete :
      ((left ≡ [])
        × (reset (get_table type w'.eloop) ≡ reset t)
        × ((made ≡ []) ⊎ ((get_table type w'.eloop).changed ≡ false)))
      ⊎ Stopped cb type w'

-- The same for the loop, which starts with the flag reset.
record Reached (cb : Callback) (type : EventType) (t : SockTable) (due : List Call) (w w' : World)
    : Type 0 where
  made : List Call
  left : List Call
  split : due ≡ made ++ left
  calls : w'.calls ≡ w.calls ++ made
  complete : ((left ≡ []) × (get_table type w'.eloop ≡ t)) ⊎ Stopped cb type w'

Reached-cons :
    (cb : Callback) (type : EventType) (t : SockTable) (c : Call) (due : List Call)
    (w w1 w' : World)
    → w1.calls ≡ w.calls ++ (c ∷ [])
    → Reached cb type t due w1 w'
    → Reached cb type t (c ∷ due) w w'
Reached-cons cb type t c due w w1 w' e d = record {
  made = c ∷ d.made;
  left = d.left;
  split = ap (λ l. c ∷ l) d.split;
  calls = d.calls ∙ ap (λ l. l ++ d.made) e ∙ append_assoc w.calls (c ∷ []) d.made;
  complete = d.complete;
}

-- A call that leaves the flag set, from a table without it, has changed the table.
call-Stopped :
    (cb : Callback) (type : EventType) (c : Call) (w : World)
    → (get_table type w.eloop).changed ≡ false
    → (get_table type (call cb c w).eloop).changed ≡ true
    → Stopped cb type (call cb c w)
unfolding call
call-Stopped cb type c w clear set = elim (Bool-cases (touches type (cb w.calls c w.eloop))) [
  | inl touched ↦ record {
    past = w.calls;
    by = c;
    found = w.eloop;
    last = refl;
    done = refl;
    touched = touched;
    flagged = set;
  }
  | inr apart ↦
      let same = exec_all-table type (cb w.calls c w.eloop) w.eloop apart in
      let kept = ap (λ (t : SockTable). t.changed) same in absurd (ground (arith, kept, clear, set))
]

call-Keeps :
    (type : EventType) (cb : Callback) (c : Call) (w : World)
    → Keeps type w.eloop (call cb c w).eloop
unfolding call
call-Keeps type cb c w = exec_all-Keeps type (cb w.calls c w.eloop) w.eloop

calls-call : (cb : Callback) (c : Call) (w : World) → (call cb c w).calls ≡ w.calls ++ (c ∷ [])
unfolding call
calls-call cb c w = refl

module _ (cb : Callback) (type : EventType) (fds : FdSet) where
  loop_skip :
      (n i : ℕ) (s : Sock) (w : World)
      → i < (get_table type w.eloop).count
      → get_elem? (get_table type w.eloop).cells i ≡ some s
      → fds s.sock ≡ false
      → dispatch_loop cb type fds (suc n) i w ≡ dispatch_loop cb type fds n (i + 1) w
  unfolding dispatch_loop
  loop_skip n i s w h e f = ground arith

  loop_call :
      (n i : ℕ) (s : Sock) (w : World)
      → i < (get_table type w.eloop).count
      → get_elem? (get_table type w.eloop).cells i ≡ some s
      → fds s.sock ≡ true
      → dispatch_loop cb type fds (suc n) i w ≡ (
          if (get_table type (call_sock cb s w).eloop).changed
          then call_sock cb s w
          else dispatch_loop cb type fds n (i + 1) (call_sock cb s w))
  unfolding dispatch_loop
  loop_call n i s w h e f = ground arith

  abbrev Rest : SockTable → ℕ → ℕ → World → Type 0
  Rest t n i w =
      get_table type w.eloop ≡ t
      → Reached cb type t (ready_calls fds (take n (drop i t.cells))) w
          (dispatch_loop cb type fds n i w)

  -- The round for a ready entry: the call, and the rest of the loop if the table is still the same.
  after_call :
      (t : SockTable) (n i : ℕ) (s : Sock) (w : World)
      → get_table type w.eloop ≡ t
      → t.changed ≡ false
      → (due : List Call)
      → (get_table type (call_sock cb s w).eloop ≡ t
          → Reached cb type t due
              (call_sock cb s w)
              (dispatch_loop cb type fds n (i + 1) (call_sock cb s w)))
      → Reached cb type t (sock_call s.handler s.sock s.eloop_data s.user_data ∷ due) w (
          if (get_table type (call_sock cb s w).eloop).changed
          then call_sock cb s w
          else dispatch_loop cb type fds n (i + 1) (call_sock cb s w))
  after_call t n i s w same clear due rest =
      let c = sock_call s.handler s.sock s.eloop_data s.user_data in
      elim (Bool-cases (get_table type (call_sock cb s w).eloop).changed) [
        | inl changed ↦ rw changed (record {
          made = c ∷ [];
          left = due;
          split = refl;
          calls = calls-call cb c w;
          complete =
              inr
                (call-Stopped cb type c w (ap (λ (x : SockTable). x.changed) same ∙ clear) changed);
        })
        | inr unchanged ↦ elim (call-Keeps type cb c w) [
          | inl kept ↦ rw unchanged (
              Reached-cons cb type t c due w (call_sock cb s w) _ (calls-call cb c w)
                (rest (kept ∙ same)))
          | inr changed ↦ cc
        ]
      ]

  loop_round :
      (t : SockTable) (n i : ℕ) (s : Sock) (w : World)
      → i < t.count
      → get_elem? t.cells i ≡ some s
      → get_table type w.eloop ≡ t
      → t.changed ≡ false
      → ((w' : World) → Rest t n (i + 1) w')
      → Reached cb type t
          (ready_calls fds (s ∷ take n (drop (i + 1) t.cells)))
          w
          (dispatch_loop cb type fds (suc n) i w)
  unfolding ready_calls
  loop_round t n i s w h e same clear rest =
      let below : i < (get_table type w.eloop).count = rw same h in
      let here : get_elem? (get_table type w.eloop).cells i ≡ some s = rw same e in
      elim (Bool-cases (fds s.sock)) [
        | inl ready ↦
            rw (ready, loop_call n i s w below here ready)
              (after_call t n i s w same clear _ (rest (call_sock cb s w)))
        | inr idle ↦ rw (idle, loop_skip n i s w below here idle) (rest w same)
      ]

  dispatch_loop_lem :
      (t : SockTable) (n i : ℕ)
      → i + n ≡ t.count
      → t.count ≤ length t.cells
      → t.changed ≡ false
      → (w : World) → Rest t n i w
  unfolding dispatch_loop ready_calls
  dispatch_loop_lem t zero i k fits clear w same = record {
    made = [];
    left = [];
    split = refl;
    calls = sym (append-nil w.calls);
    complete = inl (refl, same);
  }
  dispatch_loop_lem t (suc n) i k fits clear w same =
      let (s, e, d) = drop-cons i t.cells (omega arith) in
      rw d (
        loop_round t n i s w (omega arith) e same clear
          (dispatch_loop_lem t n (i + 1) (omega arith) fits clear))

as_dispatched :
    (cb : Callback) (type : EventType) (t : SockTable) {due : List Call} {w w' : World}
    (d : Reached cb type (reset t) due w w')
    → ((d.left ≡ [])
        × (reset (get_table type w'.eloop) ≡ reset t)
        × ((d.made ≡ []) ⊎ ((get_table type w'.eloop).changed ≡ false)))
      ⊎ Stopped cb type w'
as_dispatched cb type t d = elim d.complete [
  | inl (all, same) ↦ inl (all, ap reset same, inr (ap (λ (x : SockTable). x.changed) same))
  | inr stopped ↦ inr stopped
]

nil-ready :
    (fds : FdSet) (n : ℕ) (cells : List Sock)
    → is_nil cells ≡ true
    → ready_calls fds (take n cells) ≡ []
unfolding ready_calls
nil-ready fds zero cells h = refl
nil-ready fds (suc n) [] h = refl
nil-ready fds (suc n) (s ∷ ss) h = cc

-- `eloop_sock_table_dispatch` calls the handlers of the ready entries in use, each with its own
-- arguments, once and in the order of the table. Either it goes through the whole table, and no callback
-- has changed it or set its flag; or the last call is to a callback that registered or removed a
-- descriptor of this table's type and left the flag set. A flag from before does not stop it.
pub dispatch_lem :
    (cb : Callback) (type : EventType) (fds : FdSet) (w : World)
    → Fits (get_table type w.eloop)
    → Dispatched cb type
        (get_table type w.eloop)
        (ready_calls fds (live (get_table type w.eloop)))
        w
        (dispatch cb type fds w)
unfolding dispatch
dispatch_lem cb type fds w f =
    let t = get_table type w.eloop in
    let t0 = record t { changed = false } in
    let w0 = record w { eloop = set_table type t0 w.eloop } in
    elim (Bool-cases (is_nil t.cells)) [
      | inl null ↦ rw null (record {
        made = [];
        left = [];
        split = nil-ready fds t.count t.cells null;
        calls = sym (append-nil w.calls);
        complete = inl (refl, refl, inl refl);
      })
      | inr filled ↦
          let d =
            dispatch_loop_lem cb type fds t0 t.count 0 (omega arith) (omega (arith, f)) refl w0
              (get_table-set_table type t0 w.eloop) in
          rw filled (record {
            made = d.made;
            left = d.left;
            split = d.split;
            calls = d.calls;
            complete = as_dispatched cb type t d;
          })
    ]
