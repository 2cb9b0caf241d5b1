-- ===== src/Eloop/Table/Fds.antt =====
-- `eloop_sock_table_set_fds` of eloop/src/eloop.c: which descriptors `select` waits for.
use linux_c_code.Base.{
  ℕ, zero, suc, ◌≡◌, refl, ◌∙◌, ◌⊎◌, inl, inr, Bool, true, false, ◌||◌, none, some, List, [], ◌∷◌,
  arith, Bool-cases, ltb, ◌==◌, if◌then◌else◌, take,
}
use linux_c_code.Eloop.State.{Sock, SockTable, live}
use linux_c_code.Eloop.Table.{FdSet, fd_setsize, set_fds_loop, set_fds, is_nil}
use linux_c_code.Eloop.Table.Gap.{has_sock}

-- Every entry fits an `fd_set`.
unfoldable pub all_fit : List Sock → Bool
all_fit [] = true
all_fit (s ∷ ss) = if ltb s.sock fd_setsize then all_fit ss else false

-- The set `fds` holds the entries of `ss` and what `old` holds.
abbrev Holds : List Sock → FdSet → FdSet → Type 0
Holds ss old fds = (k : ℕ) → fds k ≡ (has_sock k ss || old k)

set_fds_step :
    (s : Sock) (ss : List Sock) (old : FdSet)
    → ltb s.sock fd_setsize ≡ true
    → set_fds_loop (s ∷ ss) old ≡ set_fds_loop ss (λ k. (k == s.sock) || old k)
unfolding set_fds_loop
set_fds_step s ss old h = ground arith

set_fds_over :
    (s : Sock) (ss : List Sock) (old : FdSet)
    → ltb s.sock fd_setsize ≡ false
    → set_fds_loop (s ∷ ss) old ≡ none
unfolding set_fds_loop
set_fds_over s ss old h = ground arith

set_fds_loop_lem :
    (ss : List Sock) (old : FdSet)
    → ((all_fit ss ≡ false) × (set_fds_loop ss old ≡ none))
      ⊎ ((fds : FdSet) × (all_fit ss ≡ true) × (set_fds_loop ss old ≡ some fds) × Holds ss old fds)
unfolding all_fit has_sock set_fds_loop
set_fds_loop_lem [] old = inr (old, refl, refl, λ k. refl)
set_fds_loop_lem (s ∷ ss) old = elim (Bool-cases (ltb s.sock fd_setsize)) [
  | inr big ↦ inl (rw big refl, set_fds_over s ss old big)
  | inl small ↦ elim (set_fds_loop_lem ss (λ k. (k == s.sock) || old k)) [
    | inl (no_fit, over) ↦ inl (rw small no_fit, set_fds_step s ss old small ∙ over)
    | inr (fds, fit, runs, holds) ↦
        inr (fds, rw small fit, set_fds_step s ss old small ∙ runs, λ k. ground (arith, holds k))
  ]
]

nil_fit : all_fit [] ≡ true
unfolding all_fit
nil_fit = refl

nil_has : (k : ℕ) → false ≡ has_sock k []
unfolding has_sock
nil_has k = refl

null-live : (t : SockTable) → is_nil t.cells ≡ true → live t ≡ []
null-live t h = go t.count t.cells h
  where
    go : (n : ℕ) (cells : List Sock) → is_nil cells ≡ true → take n cells ≡ []
    go zero cells h = refl
    go (suc n) [] h = refl
    go (suc n) (s ∷ ss) h = cc

-- The sets that `eloop_run` hands to `select`: if every entry in use is below FD_SETSIZE, the set
-- holds exactly the descriptors in use; otherwise a descriptor is set past the end of the `fd_set`.
pub set_fds_lem :
    (t : SockTable)
    → ((all_fit (live t) ≡ false) × (set_fds t ≡ none))
      ⊎ ((fds : FdSet) × (all_fit (live t) ≡ true)
          × (set_fds t ≡ some fds)
          × ((k : ℕ) → fds k ≡ has_sock k (live t)))
unfolding set_fds
set_fds_lem t = elim (Bool-cases (is_nil t.cells)) [
  | inl null ↦ inr (
    (λ k. false),
    rw (null-live t null) nil_fit,
    rw null refl,
    λ k. rw (null-live t null) (nil_has k),
  )
  | inr filled ↦ elim (set_fds_loop_lem (live t) (λ k. false)) [
    | inl (no_fit, over) ↦ inl (no_fit, rw filled over)
    | inr (fds, fit, runs, holds) ↦ inr (fds, fit, rw filled runs, λ k. ground (arith, holds k))
  ]
]
