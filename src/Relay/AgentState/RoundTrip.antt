-- ===== src/Relay/AgentState/RoundTrip.antt =====
-- What a role saves is what it reads while its processes live.
use syn_os.Common.{
  none, ℕ, ◌+◌, ◌<◌, ◌≡◌, ◌≢◌, ◌∙◌, ap, true, Bool, Option, some, [], ◌∷◌, ◌++◌, Bytes, length,
}
use syn_os.Io.{Files, ◌>>=◌, return, done, update}
use syn_os.Io.Clean.{clean, bind-done, update_self, update_ne}
use syn_os.Cstring.Lines.{Line}
use syn_os.Relay.Runtime.Laws.{clean-print_file, clean-fopen_r}
use syn_os.Relay.AgentState.{
  pid_line, first_line, save_second, save_pair, watch_pid_path, watch_host_path, watch_save,
  read_pid, watch_found, watch_get, host_pid_path, host_viewer_path, host_save, read_pids,
  host_found, host_get,
}
use syn_os.Relay.AgentState.Laws.{
  Live, Gone, read_pid-Gone, read_pids-Gone, Short, first_line_printed, read_pid-printed,
  read_pids-printed, watch_paths-ne, host_paths-ne,
}

module _ (fs : Files) (en : ℕ → ℕ) where
  clean-save_pair :
      (p pt q qt : Bytes)
      → save_pair p pt q qt (clean fs en)
        ≡ (done true, clean (update (update fs p (some pt)) q (some qt)) en)
  unfolding save_pair save_second
  clean-save_pair p pt q qt =
      bind-done _ _ (clean-print_file fs en p pt)
      ∙ bind-done _ _ (clean-print_file (update fs p (some pt)) en q qt)

  clean-watch_found :
      (env : Option Bytes) (size pid : ℕ)
      → watch_found env size (some pid) (clean fs en)
        ≡ (done (pid, first_line size (fs (watch_host_path env))), clean fs en)
  unfolding watch_found
  clean-watch_found env size pid = bind-done _ _ (clean-fopen_r fs en (watch_host_path env))

  clean-watch_get :
      (exists : ℕ → Bool) (env : Option Bytes) (size pid : ℕ)
      → read_pid exists (fs (watch_pid_path env)) ≡ some pid
      → watch_get exists env size (clean fs en)
        ≡ (done (pid, first_line size (fs (watch_host_path env))), clean fs en)
  unfolding watch_get
  clean-watch_get exists env size pid e =
      bind-done _ _ (clean-fopen_r fs en (watch_pid_path env))
      ∙ ap (λ o. watch_found env size o (clean fs en)) e
      ∙ clean-watch_found env size pid

  clean-host_found :
      (env : Option Bytes) (size : ℕ) (pids : ℕ × ℕ)
      → host_found env size (some pids) (clean fs en)
        ≡ (done (some (pids.0, pids.1, first_line size (fs (host_viewer_path env)))), clean fs en)
  unfolding host_found
  clean-host_found env size pids = bind-done _ _ (clean-fopen_r fs en (host_viewer_path env))

  clean-host_get :
      (exists : ℕ → Bool) (env : Option Bytes) (size : ℕ) (pids : ℕ × ℕ)
      → read_pids exists (fs (host_pid_path env)) ≡ some pids
      → host_get exists env size (clean fs en)
        ≡ (done (some (pids.0, pids.1, first_line size (fs (host_viewer_path env)))), clean fs en)
  unfolding host_get
  clean-host_get exists env size pids e =
      bind-done _ _ (clean-fopen_r fs en (host_pid_path env))
      ∙ ap (λ o. host_found env size o (clean fs en)) e
      ∙ clean-host_found env size pids

-- The files of a pair after both are written.
module _ (fs : Files) (p q : Bytes) (a b : Bytes) (ne : q ≢ p) where
  abbrev both : Files
  both = update (update fs p (some a)) q (some b)

  both-first : both p ≡ some a
  both-first = update_ne (update fs p (some a)) q p (some b) ne ∙ update_self fs p (some a)

  both-second : both q ≡ some b
  both-second = update_self (update fs p (some a)) q (some b)

module _ (fs : Files) (en : ℕ → ℕ) (exists : ℕ → Bool) (env : Option Bytes) (size : ℕ) where
  -- Where no call fails, the watch role reads back the process id and the address that it saved,
  -- while the process lives, if the address fits on a line of `size` bytes and the directory of the
  -- files leaves room for their names.
  pub watch_round_trip :
      (pid : ℕ) (ip : Bytes)
      → Short env
      → Live exists pid
      → Line ip
      → length ip + 1 < size
      → ((watch_save env pid ip >>= λ ok. watch_get exists env size) (clean fs en)).0
        ≡ done (pid, ip)
  unfolding watch_save
  watch_round_trip pid ip short live line fits =
      let p : Bytes = watch_pid_path env in
      let q : Bytes = watch_host_path env in
      let text : Bytes = ip ++ (10 ∷ []) in
      let after : Files = both fs p q (pid_line pid) text (watch_paths-ne env short) in
      ap (λ r. r.0)
        (bind-done _ _ (clean-save_pair fs en p (pid_line pid) q text)
          ∙ clean-watch_get after en exists env size pid (
              ap (read_pid exists)
                (both-first fs p q (pid_line pid) text (watch_paths-ne env short))
              ∙ read_pid-printed exists pid live))
      ∙ ap (λ f. done (pid, first_line size f))
          (both-second fs p q (pid_line pid) text (watch_paths-ne env short))
      ∙ ap (λ t. done (pid, t)) (first_line_printed size ip line fits)

  -- Where no call fails, the host role reads back both process ids and the viewer that it saved,
  -- while both processes live, if the viewer fits on a line of `size` bytes and the directory of the
  -- files leaves room for their names.
  pub host_round_trip :
      (video input : ℕ) (ip : Bytes)
      → Short env
      → Live exists video
      → Live exists input
      → Line ip
      → length ip + 1 < size
      → ((host_save env video input ip >>= λ ok. host_get exists env size) (clean fs en)).0
        ≡ done (some (video, input, ip))
  unfolding host_save
  host_round_trip video input ip short lv li line fits =
      let p : Bytes = host_pid_path env in
      let q : Bytes = host_viewer_path env in
      let pids : Bytes = pid_line video ++ pid_line input in
      let text : Bytes = ip ++ (10 ∷ []) in
      let after : Files = both fs p q pids text (host_paths-ne env short) in
      ap (λ r. r.0)
        (bind-done _ _ (clean-save_pair fs en p pids q text)
          ∙ clean-host_get after en exists env size (video, input)
              (ap (read_pids exists) (both-first fs p q pids text (host_paths-ne env short))
                ∙ read_pids-printed exists video input lv li))
      ∙ ap (λ f. done (some (video, input, first_line size f)))
          (both-second fs p q pids text (host_paths-ne env short))
      ∙ ap (λ t. done (some (video, input, t))) (first_line_printed size ip line fits)

  -- Where no call fails, a watch whose process has gone is not reported, if the directory of the
  -- files leaves room for their names.
  pub watch-Gone :
      (pid : ℕ) (ip : Bytes)
      → Short env
      → Gone exists pid
      → ((watch_save env pid ip >>= λ ok. watch_get exists env size) (clean fs en)).0 ≡ done (0, [])
  unfolding watch_save watch_get watch_found return
  watch-Gone pid ip short gone =
      let p : Bytes = watch_pid_path env in
      let q : Bytes = watch_host_path env in
      let text : Bytes = ip ++ (10 ∷ []) in
      let after : Files = both fs p q (pid_line pid) text (watch_paths-ne env short) in
      ap (λ r. r.0)
        (bind-done _ _ (clean-save_pair fs en p (pid_line pid) q text)
          ∙ bind-done _ _ (clean-fopen_r after en p)
          ∙ ap (λ o. watch_found env size o (clean after en))
              (ap (read_pid exists)
                  (both-first fs p q (pid_line pid) text (watch_paths-ne env short))
                ∙ read_pid-Gone exists pid gone))

  -- Where no call fails, a host role whose video process has gone is not reported, if the directory
  -- of the files leaves room for their names.
  pub host-Gone :
      (video input : ℕ) (ip : Bytes)
      → Short env
      → Gone exists video
      → ((host_save env video input ip >>= λ ok. host_get exists env size) (clean fs en)).0
        ≡ done none
  unfolding host_save host_get host_found return
  host-Gone video input ip short gone =
      let p : Bytes = host_pid_path env in
      let q : Bytes = host_viewer_path env in
      let pids : Bytes = pid_line video ++ pid_line input in
      let text : Bytes = ip ++ (10 ∷ []) in
      let after : Files = both fs p q pids text (host_paths-ne env short) in
      ap (λ r. r.0)
        (bind-done _ _ (clean-save_pair fs en p pids q text)
          ∙ bind-done _ _ (clean-fopen_r after en p)
          ∙ ap (λ o. host_found env size o (clean after en))
              (ap (read_pids exists) (both-first fs p q pids text (host_paths-ne env short))
                ∙ read_pids-Gone exists video input gone))
