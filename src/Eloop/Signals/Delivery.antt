-- ===== src/Eloop/Signals/Delivery.antt =====
-- Signals of eloop/src/eloop.c from their arrival to the calls of their handlers.
use mathlib.Core.List.{append-nil}
use native.Mathlib.Decide.{ℕ_discrete}
use linux_c_code.Base.{
  length, ℕ, ◌+◌, ◌%◌, ◌^◌, ◌<◌, ◌≤◌, ◌≡◌, refl, sym, ap, ap₂, ◌∙◌, Bool, true, false, List, [],
  ◌∷◌, ◌++◌, arith, inl, inr, ◌==◌, Bool-cases, if◌then◌else◌, ◌||◌, not,
}
use linux_c_code.Eloop.State.{Signal}
use linux_c_code.Eloop.World.{Call, signal_call, World, Callback}
use linux_c_code.Eloop.Signals.{count_signal, handle_signal, deliver, process_pending_signals}
use linux_c_code.Eloop.Signals.Pending.{pending_calls, process_pending_signals_lem}

-- No entry is for `sig`.
abbrev pub NoEntry : ℕ → List Signal → Type 0
NoEntry sig [] = Unit
NoEntry sig (s ∷ ss) = ((s.sig == sig) ≡ false) × NoEntry sig ss

-- The entries are for different signals.
abbrev pub Distinct : List Signal → Type 0
Distinct [] = Unit
Distinct (s ∷ ss) = NoEntry s.sig ss × Distinct ss

-- No entry has counted a signal.
abbrev pub Idle : List Signal → Type 0
Idle [] = Unit
Idle (s ∷ ss) = (s.signaled ≡ 0) × Idle ss

unfoldable pub occurs : ℕ → List ℕ → Bool
occurs sig [] = false
occurs sig (k ∷ ks) = if sig == k then true else occurs sig ks

-- One call for each entry whose signal is among those that came.
unfoldable pub calls_for : List ℕ → List Signal → List Call
calls_for sigs [] = []
calls_for sigs (s ∷ ss) =
    if occurs s.sig sigs
    then signal_call s.handler s.sig s.user_data ∷ calls_for sigs ss
    else calls_for sigs ss

count_all : List ℕ → List Signal → List Signal
count_all [] ss = ss
count_all (k ∷ ks) ss = count_all ks (count_signal k ss)

count_one : ℕ → Signal → Signal
count_one k s = if s.sig == k then record s { signaled = (s.signaled + 1) % 2 ^ 32 } else s

count_many : List ℕ → Signal → Signal
count_many [] s = s
count_many (k ∷ ks) s = count_many ks (count_one k s)

deliver-signals :
    (sigs : List ℕ) (w : World) → (deliver sigs w).eloop.signals ≡ count_all sigs w.eloop.signals
unfolding deliver count_all handle_signal
deliver-signals [] w = refl
deliver-signals (k ∷ ks) w = deliver-signals ks (handle_signal k w)

NoEntry-count_signal_eq : (k : ℕ) (ss : List Signal) → NoEntry k ss → count_signal k ss ≡ ss
unfolding count_signal
NoEntry-count_signal_eq k [] h = refl
NoEntry-count_signal_eq k (s ∷ ss) h = rw h.0 (ap (λ l. s ∷ l) (NoEntry-count_signal_eq k ss h.1))

count_signal-cons :
    (k : ℕ) (s : Signal) (ss : List Signal)
    → NoEntry s.sig ss
    → count_signal k (s ∷ ss) ≡ count_one k s ∷ count_signal k ss
unfolding count_signal count_one
count_signal-cons k s ss h = elim (ℕ_discrete s.sig k) [
  | yes e ↦ ground (arith, NoEntry-count_signal_eq k ss (rw (sym e) h))
  | no ne ↦ ground arith
]

NoEntry-count_signal :
    (sig k : ℕ) (ss : List Signal) → NoEntry sig ss → NoEntry sig (count_signal k ss)
unfolding count_signal
NoEntry-count_signal sig k [] h = tt
NoEntry-count_signal sig k (s ∷ ss) h = elim (Bool-cases (s.sig == k)) [
  | inl e ↦ rw e h
  | inr e ↦ rw e (h.0, NoEntry-count_signal sig k ss h.1)
]

Distinct-count_signal : (k : ℕ) (ss : List Signal) → Distinct ss → Distinct (count_signal k ss)
unfolding count_signal
Distinct-count_signal k [] h = tt
Distinct-count_signal k (s ∷ ss) h = elim (Bool-cases (s.sig == k)) [
  | inl e ↦ rw e h
  | inr e ↦ rw e (NoEntry-count_signal s.sig k ss h.0, Distinct-count_signal k ss h.1)
]

sig-count_one : (k : ℕ) (s : Signal) → (count_one k s).sig ≡ s.sig
unfolding count_one
sig-count_one k s = ground arith

count_all-cons :
    (ks : List ℕ) (s : Signal) (ss : List Signal)
    → NoEntry s.sig ss
    → count_all ks (s ∷ ss) ≡ count_many ks s ∷ count_all ks ss
unfolding count_all count_many
count_all-cons [] s ss h = refl
count_all-cons (k ∷ ks) s ss h = rw (count_signal-cons k s ss h) (
    count_all-cons ks (count_one k s) (count_signal k ss)
      (rw (sig-count_one k s) (NoEntry-count_signal s.sig k ss h)))

signaled-count_one : (k : ℕ) (s : Signal) → (count_one k s).signaled ≤ s.signaled + 1
unfolding count_one
signaled-count_one k s = ground arith

count_one_calls :
    (ks : List ℕ) (k : ℕ) (s : Signal) (rest : List Call)
    → s.signaled + 1 < 2 ^ 31
    → let t = count_one k s in
      (if not (t.signaled == 0) || occurs t.sig ks
        then signal_call t.handler t.sig t.user_data ∷ rest
        else rest)
      ≡ (if not (s.signaled == 0) || occurs s.sig (k ∷ ks)
          then signal_call s.handler s.sig s.user_data ∷ rest
          else rest)
unfolding count_one occurs
count_one_calls ks k s rest few = ground (arith, few)

count_many_calls :
    (ks : List ℕ) (s : Signal) (ss : List Signal)
    → s.signaled + length ks < 2 ^ 31
    → pending_calls (count_many ks s ∷ ss) ≡ (
        if not (s.signaled == 0) || occurs s.sig ks
        then signal_call s.handler s.sig s.user_data ∷ pending_calls ss
        else pending_calls ss)
unfolding count_many pending_calls occurs
count_many_calls [] s ss few = ground arith
count_many_calls (k ∷ ks) s ss few =
    count_many_calls ks (count_one k s) ss (omega (arith, few, signaled-count_one k s))
    ∙ count_one_calls ks k s (pending_calls ss) (omega (arith, few))

count_all-nil : (ks : List ℕ) → count_all ks [] ≡ []
unfolding count_all count_signal
count_all-nil [] = refl
count_all-nil (k ∷ ks) = count_all-nil ks

pending-nil : pending_calls [] ≡ []
unfolding pending_calls
pending-nil = refl

calls_for-nil : (ks : List ℕ) (ss : List Signal) → length ks ≡ 0 → calls_for ks ss ≡ []
unfolding calls_for occurs
calls_for-nil [] [] h = refl
calls_for-nil [] (s ∷ ss) h = calls_for-nil [] ss h
calls_for-nil (k ∷ ks) ss h = absurd (omega arith)

count_all_calls :
    (ks : List ℕ) (ss : List Signal)
    → Distinct ss
    → Idle ss
    → length ks < 2 ^ 31
    → pending_calls (count_all ks ss) ≡ calls_for ks ss
unfolding calls_for
count_all_calls ks [] d i few = rw (count_all-nil ks) pending-nil
count_all_calls ks (s ∷ ss) d i few = rw (count_all-cons ks s ss d.0) (
    count_many_calls ks s (count_all ks ss) (omega (arith, i, few))
    ∙ ground (arith, count_all_calls ks ss d.1 i.1 few))

signaled-deliver :
    (ks : List ℕ) (w : World)
    → w.eloop.signaled + length ks < 2 ^ 31
    → (deliver ks w).eloop.signaled ≡ w.eloop.signaled + length ks
unfolding deliver handle_signal
signaled-deliver [] w few = omega arith
signaled-deliver (k ∷ ks) w few =
    omega (arith, few, signaled-deliver ks (handle_signal k w) (omega (arith, few)))

calls-deliver : (ks : List ℕ) (w : World) → (deliver ks w).calls ≡ w.calls
unfolding deliver handle_signal
calls-deliver [] w = refl
calls-deliver (k ∷ ks) w = calls-deliver ks (handle_signal k w)

-- When fewer than 2 ^ 31 signals come, in whatever order, so that the counters of type int do not
-- overflow, the next `eloop_process_pending_signals` calls
-- each handler whose signal is among them once, in the order of registration, and no other: signals
-- without an entry are dropped, and repeated ones are merged. The entries are for different signals
-- and none is counted before.
pub deliver-process :
    (cb : Callback) (sigs : List ℕ) (w : World)
    → Distinct w.eloop.signals
    → Idle w.eloop.signals
    → w.eloop.signaled ≡ 0
    → length sigs < 2 ^ 31
    → (process_pending_signals cb (deliver sigs w)).calls
      ≡ w.calls ++ calls_for sigs w.eloop.signals
deliver-process cb sigs w d i z few = elim (process_pending_signals_lem cb (deliver sigs w)) [
  | inl (none_came, same) ↦
      ap (λ (x : World). x.calls) same
      ∙ calls-deliver sigs w
      ∙ sym (
          ap (λ (l : List Call). w.calls ++ l)
            (calls_for-nil sigs w.eloop.signals
              (omega (arith, z, none_came, signaled-deliver sigs w (omega (arith, z, few)))))
          ∙ append-nil w.calls)
  | inr (came, cleared, calls) ↦
      calls
      ∙ ap₂ ◌++◌ (calls-deliver sigs w)
          (ap pending_calls (deliver-signals sigs w) ∙ count_all_calls sigs w.eloop.signals d i few)
]
