-- ===== src/Crypter/Main/Faultless.antt =====
-- `run_operation` around an algorithm that succeeds, or that refuses, where nothing fails.
use syn_os.Common.{
  ℕ, ◌<◌, Bool, none, some, ◌≡◌, ◌≢◌, ◌∙◌, arith, Bytes, bytes_eq_refl, bytes_eq_ne, length, leb,
}
use syn_os.Io.{Files, Status, World, Outcome, done, fail, update, return}
use syn_os.Io.Clean.{
  clean, bind-done, if-false, outcome_lem, clean-remove, clean-rename, update_self,
}
use syn_os.Crypter.Ssl.{Ssl}
use syn_os.Crypter.Redshirt.{Variant}
use syn_os.Crypter.Main.{tmp_path, status_message, conclude, perform, run_operation}
use syn_os.Crypter.Main.Atomic.{tmp_path-ne}

-- The files after `<file>.tmp` with the content `out` has replaced `file`.
unfoldable pub replaced : Files → Bytes → Bytes → Files
replaced fs file out =
    update (update (update fs (tmp_path file) (some out)) file (some out)) (tmp_path file) none

pub replaced_self : (fs : Files) (file out : Bytes) → replaced fs file out file ≡ some out
unfolding replaced
replaced_self fs file out =
    rw (bytes_eq_ne (tmp_path file) file (tmp_path-ne file), bytes_eq_refl file)

pub replaced_ne :
    (fs : Files) (file out p : Bytes) → tmp_path file ≢ p → file ≢ p → replaced fs file out p ≡ fs p
unfolding replaced
replaced_ne fs file out p ne_tmp ne =
    rw (bytes_eq_ne (tmp_path file) p ne_tmp, bytes_eq_ne file p ne)

module _ (ssl : Ssl) (encrypt : Bool) (algo file key : Bytes) (v : Variant) (fs : Files)
    (en : ℕ → ℕ) (short : length (tmp_path file) < 4096) where
  run_operation-perform :
      {o : Outcome (Unit {0})} {w : World}
      → perform ssl encrypt algo file key v (clean fs en) ≡ (o, w)
      → run_operation ssl encrypt algo file key v (clean fs en) ≡ conclude file o w
  unfolding run_operation
  run_operation-perform e =
      if-false {b = leb 4096 (length (tmp_path file))} _ _ (clean fs en) (ground arith)
      ∙ bind-done _ _ (outcome_lem _ e)

  pub run_operation_done :
      (out : Bytes) {en' : ℕ → ℕ}
      → perform ssl encrypt algo file key v (clean fs en)
        ≡ (done tt, clean (update fs (tmp_path file) (some out)) en')
      → run_operation ssl encrypt algo file key v (clean fs en)
        ≡ (done none, clean (replaced fs file out) en')
  unfolding conclude return replaced
  run_operation_done out e =
      run_operation-perform e
      ∙ bind-done _ _
          (clean-rename _ _ (tmp_path file) file (update_self fs (tmp_path file) (some _)))

  pub run_operation_fail :
      {s : Status} {fs' : Files} {en' : ℕ → ℕ}
      → perform ssl encrypt algo file key v (clean fs en) ≡ (fail s, clean fs' en')
      → run_operation ssl encrypt algo file key v (clean fs en)
        ≡ (done (some (status_message s)), clean (update fs' (tmp_path file) none) en')
  unfolding conclude return
  run_operation_fail e = run_operation-perform e ∙ bind-done _ _ (clean-remove _ _ (tmp_path file))
