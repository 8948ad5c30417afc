-- ===== src/Relay/AgentState/Laws.antt =====
-- The files of a role hold what was printed to them, and their paths differ.
use syn_os.Common.{
  false, none, ℕ, ◌+◌, ◌%◌, ◌<◌, ◌≤◌, ◌^◌, ◌≡◌, ◌≢◌, refl, sym, ◌∙◌, ap, arith, Bool, true, Option,
  some, [], ◌∷◌, ◌++◌, Bytes, length, append_assoc, lt→ltb, take_all, length-append, codes,
}
use syn_os.Cstring.{scan_long, decimal, plus}
use syn_os.Cstring.Lines.{Line, fgets_printed, trim_printed}
use syn_os.Cstring.Decimal.{scan_printed, scan_skips_eol}
use syn_os.Relay.Runtime.{runtime_dir, runtime_path}
use syn_os.Relay.AgentState.{
  to_pid, pid_of, pids_of, pair_of, pid_line, stripped, first_line, watch_pid_path, watch_host_path,
  read_pid, host_pid_path, host_viewer_path, read_pids,
}

pub first_line_printed :
    (size : ℕ) (s : Bytes)
    → Line s
    → length s + 1 < size
    → first_line size (some (s ++ (10 ∷ []))) ≡ s
first_line_printed size s line fits =
    ap stripped (fgets_printed size s [] line fits) ∙ trim_printed s line

-- A process id that `save` was given: positive, and an `int`.
module _ (exists : ℕ → Bool) where
  unfoldable pub Live : ℕ → Type 0
  Live pid = (0 < pid) × (pid < 2 ^ 31) × (exists pid ≡ true)

  pid_of-Live :
      (pid : ℕ) (rest : Bytes) → Live pid → pid_of exists (some (plus pid, rest)) ≡ some pid
  unfolding Live to_pid
  pid_of-Live pid rest live =
      let same : pid % 2 ^ 32 ≡ pid = omega (arith, live.1) in
      rw (same, lt→ltb 0 pid live.0, lt→ltb pid (2 ^ 31) live.1, live.2) refl

  pub read_pid-printed : (pid : ℕ) → Live pid → read_pid exists (some (pid_line pid)) ≡ some pid
  unfolding read_pid Live
  read_pid-printed pid live =
      ap (pid_of exists) (scan_printed pid [] live.1) ∙ pid_of-Live pid (10 ∷ []) live

  pub read_pids-printed :
      (video input : ℕ)
      → Live video
      → Live input
      → read_pids exists (some (pid_line video ++ pid_line input)) ≡ some (video, input)
  unfolding read_pids Live
  read_pids-printed video input lv li =
      ap (λ t. pids_of exists (scan_long t))
        (append_assoc (decimal 10 video) (10 ∷ []) (pid_line input))
      ∙ ap (pids_of exists) (scan_printed video (pid_line input) lv.1)
      ∙ ap (λ o. pair_of o (pid_of exists (scan_long (10 ∷ pid_line input))))
          (pid_of-Live video (10 ∷ pid_line input) lv)
      ∙ ap (λ o. pair_of (some video) (pid_of exists o))
          (scan_skips_eol (pid_line input) ∙ scan_printed input [] li.1)
      ∙ ap (pair_of (some video)) (pid_of-Live input (10 ∷ []) li)

-- A process id that was saved and whose process has gone.
module _ (exists : ℕ → Bool) where
  unfoldable pub Gone : ℕ → Type 0
  Gone pid = (0 < pid) × (pid < 2 ^ 31) × (exists pid ≡ false)

  pid_of-Gone : (pid : ℕ) (rest : Bytes) → Gone pid → pid_of exists (some (plus pid, rest)) ≡ none
  unfolding Gone to_pid
  pid_of-Gone pid rest gone =
      let same : pid % 2 ^ 32 ≡ pid = omega (arith, gone.1) in
      rw (same, lt→ltb 0 pid gone.0, lt→ltb pid (2 ^ 31) gone.1, gone.2) refl

  pub read_pid-Gone : (pid : ℕ) → Gone pid → read_pid exists (some (pid_line pid)) ≡ none
  unfolding read_pid Gone
  read_pid-Gone pid gone =
      ap (pid_of exists) (scan_printed pid [] gone.1) ∙ pid_of-Gone pid (10 ∷ []) gone

  pub read_pids-Gone :
      (video input : ℕ)
      → Gone video
      → read_pids exists (some (pid_line video ++ pid_line input)) ≡ none
  unfolding read_pids Gone
  read_pids-Gone video input gone =
      ap (λ t. pids_of exists (scan_long t))
        (append_assoc (decimal 10 video) (10 ∷ []) (pid_line input))
      ∙ ap (pids_of exists) (scan_printed video (pid_line input) gone.1)
      ∙ ap (λ o. pair_of o (pid_of exists (scan_long (10 ∷ pid_line input))))
          (pid_of-Gone video (10 ∷ pid_line input) gone)

append_cancel : (xs a b : Bytes) → xs ++ a ≡ xs ++ b → a ≡ b
append_cancel [] a b e = e
append_cancel (x ∷ xs) a b e = ground (arith, append_cancel xs a b)

-- A directory that leaves room for the names of the files in the buffers of 512 bytes.
unfoldable pub Short : Option Bytes → Type 0
Short env = length (runtime_dir env) ≤ 480

whole_path :
    (env : Option Bytes) (name : Bytes)
    → Short env
    → length name ≤ 30
    → runtime_path env name ≡ runtime_dir env ++ (codes "/" ++ name)
unfolding Short runtime_path
whole_path env name short h = take_all 511 (runtime_dir env ++ (codes "/" ++ name)) (
    omega
      (arith, length-append (runtime_dir env) (codes "/" ++ name), length-append (codes "/") name))

pub paths_apart :
    (env : Option Bytes) (f g : Bytes)
    → Short env
    → length f ≤ 30
    → length g ≤ 30
    → f ≢ g
    → runtime_path env f ≢ runtime_path env g
paths_apart env f g short hf hg ne e = ne (
    append_cancel (codes "/") f g (
      append_cancel (runtime_dir env) _ _
        (sym (whole_path env f short hf) ∙ e ∙ whole_path env g short hg)))

module _ (env : Option Bytes) (short : Short env) where
  pub watch_paths-ne : watch_host_path env ≢ watch_pid_path env
  unfolding watch_host_path watch_pid_path
  watch_paths-ne = paths_apart env _ _ short (omega arith) (omega arith) (ground arith)

  pub host_paths-ne : host_viewer_path env ≢ host_pid_path env
  unfolding host_viewer_path host_pid_path
  host_paths-ne = paths_apart env _ _ short (omega arith) (omega arith) (ground arith)
