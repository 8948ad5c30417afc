-- ===== src/Hum/Command/Refines.antt =====
-- `syn-hum set` carries out its requests on the settings that hum.conf stands for.
use syn_os.Common.{
  ℕ, ◌≡◌, refl, ◌∙◌, ap, arith, Bool, true, false, Option, none, some, List, [], ◌∷◌, ◌++◌, Bytes,
  if◌then◌else◌,
}
use syn_os.Io.{World, Files, Outcome, done, Call, ◌>>=◌, return}
use syn_os.Io.Clean.{clean, bind-done}
use syn_os.Cstring.{Long, plus, minus, scan_long}
use syn_os.Relay.Runtime.{fopen_r}
use syn_os.Relay.Runtime.Laws.{clean-fopen_r}
use syn_os.Hum.Conf.{Conf, load, loaded}
use syn_os.Hum.Save.{conf_path, save, load_conf}
use syn_os.Hum.Save.Reload.{Savable}
use syn_os.Hum.Save.RoundTrip.{save-load, clean-save}
use syn_os.Hum.Command.{
  if_named, if_alive, pid_in, running_pid, Signal, starts_digit, refresh_names, bar_refresh, hups,
  changed, notified, store_changed, cmd_set,
}
use syn_os.Hum.Command.Settings.{
  view, Request, apply, key_of, value_of, rest_of, Possible, Carried, changed-Carried,
}

-- `m` returns in a world without faults, and leaves that world as it is.
record Quiet {A : Type 0} (m : Call A) : Type 0 where
  at : (fs : Files) (en : ℕ → ℕ) → (a : A) × (m (clean fs en) ≡ (done a, clean fs en))

Quiet-return : {A : Type 0} (a : A) → Quiet (return a)
unfolding return
Quiet-return a = record { at = λ fs en. (a, refl) }

Quiet-bind :
    {A B : Type 0} (m : Call A) (f : A → Call B)
    → Quiet m
    → ((a : A) → Quiet (f a))
    → Quiet (m >>= f)
Quiet-bind m f h k = record {
  at = λ fs en. (
    ((k (h.at fs en).0).at fs en).0,
    bind-done m f (h.at fs en).1 ∙ ((k (h.at fs en).0).at fs en).1,
  );
}

Quiet-if : {A : Type 0} (b : Bool) (m n : Call A) → Quiet m → Quiet n → Quiet (if b then m else n)
Quiet-if true m n h k = h
Quiet-if false m n h k = k

Quiet-elim :
    {A : Type 0} (b : Bool) (m n : Call A)
    → Quiet m
    → Quiet n
    → Quiet (elim b [ false ↦ m | true ↦ n ])
Quiet-elim true m n h k = k
Quiet-elim false m n h k = h

Quiet-fopen_r : (path : Bytes) → Quiet (fopen_r path)
Quiet-fopen_r path = record { at = λ fs en. (fs path, clean-fopen_r fs en path) }

ruleset quiet_rules = (Quiet-return, Quiet-bind, Quiet-if, Quiet-fopen_r)

Quiet-if_named : (n : ℕ) (pid : Long) → Quiet (if_named n pid)
unfolding if_named
Quiet-if_named n pid = search quiet_rules

Quiet-if_alive : (exists : ℕ → Bool) (o : Option (Long × Bytes)) → Quiet (if_alive exists o)
unfolding if_alive
Quiet-if_alive exists none = Quiet-return none
Quiet-if_alive exists (some (minus n, rest)) = Quiet-return none
Quiet-if_alive exists (some (plus n, rest)) = search (quiet_rules, Quiet-if_named)

Quiet-pid_in : (exists : ℕ → Bool) (file : Option Bytes) → Quiet (pid_in exists file)
unfolding pid_in
Quiet-pid_in exists none = Quiet-return none
Quiet-pid_in exists (some file) = Quiet-if_alive exists (scan_long file)

Quiet-running_pid : (exists : ℕ → Bool) (dir : Option Bytes) → Quiet (running_pid exists dir)
unfolding running_pid
Quiet-running_pid exists dir = search (quiet_rules, Quiet-pid_in)

Quiet-refresh_names : (names : List Bytes) → Quiet (refresh_names names)
unfolding refresh_names
Quiet-refresh_names [] = Quiet-return []
Quiet-refresh_names (name ∷ names) =
    Quiet-elim (starts_digit name) _ _ (Quiet-refresh_names names) (
      Quiet-bind _ _ (Quiet-fopen_r _)
        λ file. Quiet-bind _ _ (Quiet-refresh_names names) λ rest. Quiet-return _)

Quiet-bar_refresh : (procs : Option (List Bytes)) → Quiet (bar_refresh procs)
unfolding bar_refresh
Quiet-bar_refresh none = Quiet-return []
Quiet-bar_refresh (some names) = Quiet-refresh_names names

clean-notified :
    (exists : ℕ → Bool) (procs : Option (List Bytes)) (dir : Option Bytes) (fs : Files) (en : ℕ → ℕ)
    → (sent : List Signal) × (notified exists procs dir (clean fs en)
        ≡ (done (0, sent), clean fs en))
unfolding notified
clean-notified exists procs dir fs en =
    let pid : (a : Option ℕ) × (running_pid exists dir (clean fs en) ≡ (done a, clean fs en)) =
      (Quiet-running_pid exists dir).at fs en in
    let bars : (a : List Signal) × (bar_refresh procs (clean fs en) ≡ (done a, clean fs en)) =
      (Quiet-bar_refresh procs).at fs en in
    (hups pid.0 ++ bars.0, bind-done _ _ pid.1 ∙ bind-done _ _ bars.1)

-- A world after a save that met no fault.
saved_world :
    (config home : Option Bytes) (d : Conf) (fs : Files) (en : ℕ → ℕ)
    → let w' : World = (save config home d (clean fs en)).1 in
      save config home d (clean fs en) ≡ (done true, clean w'.files w'.entropy)
saved_world config home d fs en =
    let r : Outcome Bool × World = save config home d (clean fs en) in
    let ends : (r.0 ≡ done true) × (r.1.faults ≡ []) = clean-save config home d fs en in
    ap (λ o. (o, r.1)) ends.0
    ∙ ap (λ l. (done true, record { files = r.1.files; faults = l; entropy = r.1.entropy })) ends.1

-- The settings that a file loads as in a world without faults.
clean-load :
    (path : Bytes) (fs : Files) (en : ℕ → ℕ)
    → load path (clean fs en) ≡ (done (loaded (fs path)), clean fs en)
unfolding load return
clean-load path fs en = bind-done _ _ (clean-fopen_r fs en path)

done-injective : {A : Type 0} (a b : A) → Path (Outcome A) (done a) (done b) → a ≡ b
done-injective a b e = ground (arith, e)

module _ (exists : ℕ → Bool) (procs : Option (List Bytes)) (dir config home : Option Bytes) where
  abbrev pub set_words : Request → Call (ℕ × List Signal)
  set_words r = cmd_set exists procs dir config home (key_of r ∷ value_of r ∷ rest_of r)

  -- `syn-hum set` with a request that is possible returns 0, and what loads afterwards is, as style,
  -- volume, crew and set of muted members, what the request makes of what loaded before, and
  -- settings that a file can hold again, where no call fails and the ones before were such.
  pub set-refines :
      (fs : Files) (en : ℕ → ℕ) (c : Conf) (r : Request)
      → (load_conf config home (clean fs en)).0 ≡ done c
      → Savable c
      → Possible c r
      → let end : Outcome (ℕ × List Signal) × World = set_words r (clean fs en) in
        (sent : List Signal) × (d : Conf) × (end.0 ≡ done (0, sent))
        × ((load_conf config home end.1).0 ≡ done d)
        × Savable d
        × (view d ≡ apply r (view c))
  unfolding cmd_set load_conf store_changed
  set-refines fs en c r loads s h =
      let path : Bytes = conf_path config home in
      let before : load path (clean fs en) ≡ (done c, clean fs en) =
        ap (λ o. (o, (load path (clean fs en)).1)) loads
        ∙ ap (λ o. (done c, o.1)) (clean-load path fs en) in
      let made : Carried c (changed c (key_of r) (value_of r) (rest_of r)) r =
        changed-Carried c r s h in
      let d : Conf = made.0 in
      let w' : World = (save config home d (clean fs en)).1 in
      let after : World = clean w'.files w'.entropy in
      let told : (sent : List Signal) × (notified exists procs dir after
            ≡ (done (0, sent), after)) =
        clean-notified exists procs dir w'.files w'.entropy in
      let whole : set_words r (clean fs en) ≡ (done (0, told.0), after) =
        bind-done _ _ before
        ∙ ap (λ o. store_changed exists procs dir config home o (clean fs en)) made.1
        ∙ stored d fs en told in
      (
        told.0,
        d,
        ap (λ e. e.0) whole,
        ap (λ e. (load_conf config home e.1).0) whole
            ∙ save-load config home d (clean fs en) after made.2 (clean-save config home d fs en).0
                refl refl,
        made.2,
        made.3,
      )
    where
      stored :
          (d : Conf) (fs : Files) (en : ℕ → ℕ)
          → let w' : World = (save config home d (clean fs en)).1 in
            let after : World = clean w'.files w'.entropy in
            (told : (sent : List Signal) × (notified exists procs dir after
                ≡ (done (0, sent), after)))
            → store_changed exists procs dir config home (some d) (clean fs en)
              ≡ (done (0, told.0), after)
      stored d fs en told = bind-done _ _ (saved_world config home d fs en) ∙ told.1
