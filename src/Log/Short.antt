-- ===== src/Log/Short.antt =====
-- Files of the logger in log/src/lf_log.c whose sizes fit into an int.
use mathlib.Core.Path.{subst}
use native.Mathlib.Decide.{ℕ_discrete}
use linux_c_code.Base.{
  ℕ, ◌+◌, length-append, ◌^◌, ◌≤◌, ◌<◌, ◌≡◌, sym, ap, List, [], ◌++◌, length, get_or, arith,
}
use linux_c_code.Log.Text.{Time, log_message, length-log_message}
use linux_c_code.Log.{Log, contents}
use linux_c_code.Log.Files.{path, path_ne}
use linux_c_code.Log.Opening.{Ready, current, current_below}
use linux_c_code.Log.Rotation.{Written}

-- All three files are small enough for an `int`, and stay so.
pub record Short (l : Log) : Type 0 where
  pub limit : l.log_file_size + 1_021 < 2 ^ 31
  pub files : (j : ℕ) → j < 3 → length (contents l.disk (path l j)) < 2 ^ 31

pub whole_bound :
    (now : Time) (type : ℕ) (info : List ℕ) (l : Log)
    → Ready l
    → Short l
    → length (current l ++ log_message now type info) ≤ l.log_file_size + 1_021
whole_bound now type info l r b =
    let text = log_message now type info in
    omega (
      arith,
      length-append (current l) text,
      length-log_message now type info,
      current_below l r (b.files l.log_file_no r.turn),
    )

pub Written-Short :
    (l l' : Log) (text : List ℕ)
    → Ready l
    → Short l
    → length (current l ++ text) ≤ l.log_file_size + 1_021
    → Written l l' text
    → Short l'
Written-Short l l' text r b few w = record {
  limit = omega (arith, w.size, b.limit);
  files = λ j h.
      let same : path l' j ≡ path l j = ap (λ x. get_or x j []) w.names in
      subst (λ p. length (contents l'.disk p) < 2 ^ 31) (sym same)
        (elim (ℕ_discrete j l.log_file_no) [
          | yes e ↦
              let whole = ap length w.whole in
              subst (λ i. length (contents l'.disk (path l i)) < 2 ^ 31) (sym e)
                (omega (arith, whole, few, b.limit))
          | no ne ↦
              let kept =
                ap length (w.others (path l j) (path_ne l j l.log_file_no r.names h r.turn ne)) in
              omega (arith, kept, b.files j h)
        ]);
}
