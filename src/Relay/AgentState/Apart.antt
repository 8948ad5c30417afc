-- ===== src/Relay/AgentState/Apart.antt =====
-- The watch role and the host role never touch each other's files.
use syn_os.Common.{
  ℕ, ◌≡◌, ◌≢◌, refl, sym, ◌∙◌, arith, Bool, true, false, Option, Bytes, if◌then◌else◌,
}
use syn_os.Io.{Call, World, Outcome, done, fail, continue, ◌>>=◌, ◌>>◌, return, remove}
use syn_os.Io.Frame.{Frame, Frame-remove}
use syn_os.Relay.Runtime.{print_file}
use syn_os.Relay.Runtime.Laws.{Frame-print_file}
use syn_os.Relay.AgentState.{
  save_second, save_pair, watch_pid_path, watch_host_path, watch_save, watch_clear, host_pid_path,
  host_viewer_path, host_save, host_clear,
}
use syn_os.Relay.AgentState.Laws.{Short, paths_apart}

-- `m` leaves the file at `p` as it is, whatever calls fail.
record Keeps {A : Type 0} (p : Bytes) (m : Call A) : Type 0 where
  at : (w : World) → (m w).1.files p ≡ w.files p

Keeps-Frame : {A : Type 0} (p q : Bytes) (m : Call A) → Frame q m → q ≢ p → Keeps p m
Keeps-Frame p q m h ne = record { at = λ w. h.at w p ne }

Keeps-return : {A : Type 0} (p : Bytes) (a : A) → Keeps p (return a)
unfolding return
Keeps-return p a = record { at = λ w. refl }

Keeps-if :
    {A : Type 0} (p : Bytes) (b : Bool) (m n : Call A)
    → Keeps p m
    → Keeps p n
    → Keeps p (if b then m else n)
Keeps-if p true m n h k = h
Keeps-if p false m n h k = k

Keeps-continue :
    {A B : Type 0} (p : Bytes) (o : Outcome A) (f : A → Call B) (w : World)
    → ((a : A) → Keeps p (f a))
    → (continue o f w).1.files p ≡ w.files p
Keeps-continue p (done a) f w h = (h a).at w
Keeps-continue p (fail s) f w h = refl

Keeps-bind :
    {A B : Type 0} (p : Bytes) (m : Call A) (f : A → Call B)
    → Keeps p m
    → ((a : A) → Keeps p (f a))
    → Keeps p (m >>= f)
unfolding ◌>>=◌
Keeps-bind p m f h k = record { at = λ w. Keeps-continue p (m w).0 f (m w).1 k ∙ h.at w }

Keeps-print_file : (p q text : Bytes) → q ≢ p → Keeps p (print_file q text)
Keeps-print_file p q text ne = Keeps-Frame p q _ (Frame-print_file q text) ne

Keeps-remove : (p q : Bytes) → q ≢ p → Keeps p (remove q)
Keeps-remove p q ne = Keeps-Frame p q _ (Frame-remove q) ne

ruleset keeps_rules = (Keeps-return, Keeps-if, Keeps-bind, Keeps-print_file, Keeps-remove)

Keeps-save_pair : (p q qt r rt : Bytes) → q ≢ p → r ≢ p → Keeps p (save_pair q qt r rt)
unfolding save_pair save_second
Keeps-save_pair p q qt r rt nq nr = search keeps_rules depth 12 fits 20000

-- Both files of a role, as a world has them.
abbrev pub watch_files : Option Bytes → World → Option Bytes × Option Bytes
watch_files env w = (w.files (watch_pid_path env), w.files (watch_host_path env))

abbrev pub host_files : Option Bytes → World → Option Bytes × Option Bytes
host_files env w = (w.files (host_pid_path env), w.files (host_viewer_path env))

module _ (env : Option Bytes) (short : Short env) where
  pid-pid : host_pid_path env ≢ watch_pid_path env
  unfolding host_pid_path watch_pid_path
  pid-pid = paths_apart env _ _ short (omega arith) (omega arith) (ground arith)

  pid-host : host_pid_path env ≢ watch_host_path env
  unfolding host_pid_path watch_host_path
  pid-host = paths_apart env _ _ short (omega arith) (omega arith) (ground arith)

  viewer-pid : host_viewer_path env ≢ watch_pid_path env
  unfolding host_viewer_path watch_pid_path
  viewer-pid = paths_apart env _ _ short (omega arith) (omega arith) (ground arith)

  viewer-host : host_viewer_path env ≢ watch_host_path env
  unfolding host_viewer_path watch_host_path
  viewer-host = paths_apart env _ _ short (omega arith) (omega arith) (ground arith)

  -- In every world, so whatever calls fail, saving and clearing the state of one role leave both
  -- files of the other role as they are, if the directory of the files leaves room for their names.
  pub roles_apart :
      (w : World) (pid video input : ℕ) (ip : Bytes)
      → (watch_files env (host_save env video input ip w).1 ≡ watch_files env w)
        × (watch_files env (host_clear env w).1 ≡ watch_files env w)
        × (host_files env (watch_save env pid ip w).1 ≡ host_files env w)
        × (host_files env (watch_clear env w).1 ≡ host_files env w)
  unfolding host_save host_clear watch_save watch_clear
  roles_apart w pid video input ip = (
    pair_eq (saved _ _ pid-pid viewer-pid) (saved _ _ pid-host viewer-host),
    pair_eq (cleared pid-pid viewer-pid) (cleared pid-host viewer-host),
    pair_eq (saved _ _ (flip pid-pid) (flip pid-host))
        (saved _ _ (flip viewer-pid) (flip viewer-host)),
    pair_eq (cleared (flip pid-pid) (flip pid-host)) (cleared (flip viewer-pid) (flip viewer-host)),
  )
    where
      flip : {a b : Bytes} → a ≢ b → b ≢ a
      flip ne e = ne (sym e)

      pair_eq :
          {a b c d : Option Bytes}
          → a ≡ b
          → c ≡ d
          → Path (Option Bytes × Option Bytes) (a, c) (b, d)
      pair_eq h k = rw (h, k) refl

      saved :
          {p q r : Bytes} (qt rt : Bytes)
          → q ≢ p
          → r ≢ p
          → (save_pair q qt r rt w).1.files p ≡ w.files p
      saved {p} {q} {r} qt rt nq nr = (Keeps-save_pair p q qt r rt nq nr).at w

      cleared : {p q r : Bytes} → q ≢ p → r ≢ p → ((remove q >> remove r) w).1.files p ≡ w.files p
      cleared {p} {q} {r} nq nr =
          (Keeps-bind p (remove q) (λ _. remove r) (Keeps-remove p q nq)
              λ _. Keeps-remove p r nr).at
            w
