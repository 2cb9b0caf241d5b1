-- ===== src/Http/Connect/Dialing.antt =====
-- When the loop of `connect` in `http_connect_host` of httpclient/src/http.c makes a connection.
use linux_c_code.Base.{
  ℕ, ◌≡◌, refl, sym, ap, ◌∙◌, ◌⊎◌, ◌↔◌, inl, inr, Bool, true, false, Option, none, some, List, [],
  ◌∷◌, ◌++◌, ◌==◌, if◌then◌else◌, arith, Bool-cases,
}
use linux_c_code.Base.Int.{ℤ, pos, ◌-ℤ◌, ◌+ℤ◌, ltb_ℤ}
use linux_c_code.Http.State.{ok, socket_connect}
use linux_c_code.Http.Socket.{
  Wait, timed_out, ready, interrupted, broken, select_loop, socket_select,
}
use linux_c_code.Http.Connect.{Dial, joined, refused, pending, after_wait, connect_loop}

-- `select` says that the socket is ready, after interruptions that all come before the time is over,
-- and the socket has no error.
pub data Writable (timeout : ℤ) : List Wait → Type 0 where
  at_once : (ws : List Wait) → Writable timeout (ready true ∷ ws)
  still :
      (elapsed : ℤ) (ws : List Wait)
      → ltb_ℤ elapsed timeout ≡ true
      → Writable timeout ws
      → Writable timeout (interrupted elapsed ∷ ws)

left_positive : (timeout elapsed : ℤ) → ltb_ℤ (pos 0) (timeout -ℤ elapsed) ≡ ltb_ℤ elapsed timeout
unfolding ◌-ℤ◌ ◌+ℤ◌
left_positive timeout elapsed = ground arith

select-Writable :
    (timeout left : ℤ) (ws : List Wait)
    → select_loop timeout left ws ≡ some true
    → (ltb_ℤ (pos 0) left ≡ true) × Writable timeout ws
unfolding select_loop
select-Writable timeout left [] e = absurd (ground (arith, e))
select-Writable timeout left (timed_out ∷ ws) e = absurd (ground (arith, e))
select-Writable timeout left (broken ∷ ws) e = absurd (ground (arith, e))
select-Writable timeout left (ready true ∷ ws) e = (ground (arith, e), at_once ws)
select-Writable timeout left (ready false ∷ ws) e = absurd (ground (arith, e))
select-Writable timeout left (interrupted elapsed ∷ ws) e =
    let (more, w) = select-Writable timeout (timeout -ℤ elapsed) ws (ground (arith, e)) in
    (ground (arith, e), still elapsed ws (sym (left_positive timeout elapsed) ∙ more) w)

Writable-select :
    (timeout left : ℤ) (ws : List Wait)
    → ltb_ℤ (pos 0) left ≡ true
    → Writable timeout ws
    → select_loop timeout left ws ≡ some true
unfolding select_loop
Writable-select timeout left _ h (at_once ws) = rw h refl
Writable-select timeout left _ h (still elapsed ws b w) =
    rw h (Writable-select timeout (timeout -ℤ elapsed) ws (left_positive timeout elapsed ∙ b) w)

-- EINPROGRESS, EWOULDBLOCK and EALREADY.
abbrev pub IsUnderWay : ℕ → Type 0
IsUnderWay errno = (errno ≡ 115) ⊎ (errno ≡ 11) ⊎ (errno ≡ 114)

-- Calls that are made again: one that succeeds, and one that EINTR interrupts.
abbrev pub AllAgain : List Dial → Type 0
AllAgain [] = Unit
AllAgain (joined ∷ ds) = AllAgain ds
AllAgain (refused errno ws ∷ ds) = (errno ≡ 4) × AllAgain ds

-- The call that decides says that the connection is under way, and the wait for it is good.
pub record Established (timeout : ℤ) (ds : List Dial) : Type 0 where
  pub before : List Dial
  pub errno : ℕ
  pub waits : List Wait
  pub after : List Dial
  pub split : ds ≡ before ++ (refused errno waits ∷ after)
  pub again : AllAgain before
  pub under_way : IsUnderWay errno
  pub writable : Writable timeout waits

wait-true : (o : Option Bool) → after_wait o ≡ some ok → o ≡ some true
unfolding after_wait
wait-true none e = absurd (ground (arith, e))
wait-true (some true) e = refl
wait-true (some false) e = absurd (ground (arith, e))

IsUnderWay-cases : (errno : ℕ) → IsUnderWay errno ⊎ (pending errno ≡ false)
IsUnderWay-cases errno = elim (Bool-cases (errno == 115)) [
  | inl e ↦ inl (inl (ground (arith, e)))
  | inr a ↦ elim (Bool-cases (errno == 11)) [
    | inl e ↦ inl (inr (inl (ground (arith, e))))
    | inr b ↦ elim (Bool-cases (errno == 114)) [
      | inl e ↦ inl (inr (inr (ground (arith, e))))
      | inr c ↦ inr (ground (arith, a, b, c))
    ]
  ]
]

IsUnderWay-pending :
    (errno : ℕ) → IsUnderWay errno → (pending errno ≡ true) × ((errno == 4) ≡ false)
IsUnderWay-pending errno (inl e) = (ground (arith, e), ground (arith, e))
IsUnderWay-pending errno (inr (inl e)) = (ground (arith, e), ground (arith, e))
IsUnderWay-pending errno (inr (inr e)) = (ground (arith, e), ground (arith, e))

module _ (timeout : ℤ) where
  decided :
      (errno : ℕ) (ws : List Wait) (ds : List Dial)
      → (errno == 4) ≡ false
      → connect_loop timeout (refused errno ws ∷ ds)
        ≡ (if pending errno then after_wait (socket_select timeout ws) else some socket_connect)
  unfolding connect_loop
  decided errno ws ds h = rw h refl

  again_lem :
      (errno : ℕ) (ws : List Wait) (ds : List Dial)
      → (errno == 4) ≡ true
      → connect_loop timeout (refused errno ws ∷ ds) ≡ connect_loop timeout ds
  unfolding connect_loop
  again_lem errno ws ds h = rw h refl

  decided-ok :
      (errno : ℕ) (ws : List Wait) (ds : List Dial)
      → (errno == 4) ≡ false
      → connect_loop timeout (refused errno ws ∷ ds) ≡ some ok
      → IsUnderWay errno × Writable timeout ws
  unfolding socket_select
  decided-ok errno ws ds h e = elim (IsUnderWay-cases errno) [
    | inl u ↦
        let waited : connect_loop timeout (refused errno ws ∷ ds)
            ≡ after_wait (socket_select timeout ws) =
          decided errno ws ds h ∙ rw (IsUnderWay-pending errno u).0 refl in
        let found = sym waited ∙ e in
        (u, (select-Writable timeout timeout ws (wait-true (socket_select timeout ws) found)).1)
    | inr n ↦
        let lost : connect_loop timeout (refused errno ws ∷ ds) ≡ some socket_connect =
          decided errno ws ds h ∙ rw n refl in
        absurd (ground (arith, e, lost))
  ]

  longer :
      (d : Dial) (ds : List Dial)
      → AllAgain (d ∷ [])
      → Established timeout ds
      → Established timeout (d ∷ ds)
  longer joined ds a e = record {
    before = joined ∷ e.before;
    errno = e.errno;
    waits = e.waits;
    after = e.after;
    split = ap (λ l. joined ∷ l) e.split;
    again = e.again;
    under_way = e.under_way;
    writable = e.writable;
  }
  longer (refused errno ws) ds a e = record {
    before = refused errno ws ∷ e.before;
    errno = e.errno;
    waits = e.waits;
    after = e.after;
    split = ap (λ l. refused errno ws ∷ l) e.split;
    again = (a.0, e.again);
    under_way = e.under_way;
    writable = e.writable;
  }

  ok-Established : (ds : List Dial) → connect_loop timeout ds ≡ some ok → Established timeout ds
  unfolding connect_loop
  ok-Established [] e = absurd (ground (arith, e))
  ok-Established (joined ∷ ds) e = longer joined ds tt (ok-Established ds e)
  ok-Established (refused errno ws ∷ ds) e = elim (Bool-cases (errno == 4)) [
    | inl h ↦
        longer (refused errno ws) ds (ground (arith, h), tt)
          (ok-Established ds (sym (again_lem errno ws ds h) ∙ e))
    | inr h ↦
        let (u, w) = decided-ok errno ws ds h e in
        record {
          before = [];
          errno = errno;
          waits = ws;
          after = ds;
          split = refl;
          again = tt;
          under_way = u;
          writable = w;
        }
  ]

  established :
      (before : List Dial) (errno : ℕ) (ws : List Wait) (after : List Dial)
      → ltb_ℤ (pos 0) timeout ≡ true
      → AllAgain before
      → IsUnderWay errno
      → Writable timeout ws
      → connect_loop timeout (before ++ (refused errno ws ∷ after)) ≡ some ok
  unfolding connect_loop socket_select after_wait
  established [] errno ws after h a u w =
      let (p, n) = IsUnderWay-pending errno u in
      decided errno ws after n ∙ rw (p, Writable-select timeout timeout ws h w) refl
  established (joined ∷ before) errno ws after h a u w = established before errno ws after h a u w
  established (refused other vs ∷ before) errno ws after h a u w =
      again_lem other vs (before ++ (refused errno ws ∷ after)) (rw a.0 refl)
      ∙ established before errno ws after h a.1 u w

  -- With a timeout above 0 the loop of `connect` ends with ERR_OK exactly if, after calls that succeed
  -- and calls that EINTR interrupts, one answers EINPROGRESS, EWOULDBLOCK or EALREADY, and the wait that
  -- follows finds the socket ready and without an error, after no interruption but those before the
  -- time is over. A call that succeeds is not enough: it is made again.
  pub connect_loop-Established :
      (ds : List Dial)
      → ltb_ℤ (pos 0) timeout ≡ true
      → (connect_loop timeout ds ≡ some ok) ↔ Established timeout ds
  connect_loop-Established ds h = (
    ok-Established ds,
    λ e.
        ap (connect_loop timeout) e.split
        ∙ established e.before e.errno e.waits e.after h e.again e.under_way e.writable,
  )
