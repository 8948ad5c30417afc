-- ===== src/Hum/Save/RoundTrip.antt =====
-- The settings that were saved are the ones that are loaded afterwards.
use syn_os.Common.{
  ℕ, ◌≡◌, inl, inr, refl, ◌∙◌, ap, arith, Bool, true, Option, none, List, some, [], ◌∷◌, Bytes,
  length, bytes_eq_refl,
}
use syn_os.Io.{
  World, Files, Outcome, done, ◌>>=◌, return, head_fault, recover, try, open_read, lookup_file,
  attempt, require, throw, open_write, rename, move,
}
use syn_os.Io.Clean.{clean}
use syn_os.Relay.Runtime.{fopen_w, fopen_r}
use syn_os.Hum.Conf.{Conf, defaults, conf_lines, loaded, load}
use syn_os.Hum.Save.{
  conf_path, new_path, printed_lines, with_ends, flush_close, replace, write_new, save_at, save,
  load_conf,
}
use syn_os.Hum.Save.Lines.{lines_of-printed}
use syn_os.Hum.Save.Reload.{Savable, printed-Fit, printed_back}
use syn_os.Hum.Save.Atomic.{save_atomic}

pub loaded-printed : (c : Conf) → Savable c → loaded (some (with_ends (printed_lines c))) ≡ c
loaded-printed c s =
    ap (conf_lines defaults) (
      lines_of-printed 254 (length (with_ends (printed_lines c))) (printed_lines c)
        (printed-Fit c s) (omega arith))
    ∙ printed_back c s

open_read-at :
    (path : Bytes) (fs : Files) (en : ℕ → ℕ) (b : Bytes) (faults : List (Option ℕ))
    → head_fault faults ≡ none
    → fs path ≡ some b
    → (open_read path (record { files = fs; faults = faults; entropy = en })).0 ≡ done b
unfolding open_read attempt require throw return ◌>>=◌ lookup_file
open_read-at path fs en b [] h e = rw e refl
open_read-at path fs en b (none ∷ faults) h e = rw e refl
open_read-at path fs en b (some n ∷ faults) h e = absurd (ground arith)

-- Loading a file that can be opened reads what it holds.
pub load-at :
    (path : Bytes) (v : World) (b : Bytes)
    → head_fault v.faults ≡ none
    → v.files path ≡ some b
    → (load path v).0 ≡ done (loaded (some b))
unfolding load fopen_r try return ◌>>=◌
load-at path v b h e =
    ap (λ o. done (loaded (recover o))) (open_read-at path v.files v.entropy b v.faults h e)

-- Once saving the settings has returned 0, with whatever calls failing before, loading them gives
-- the same settings, in every later world where hum.conf is still that file and can be opened, if
-- they are well formed and the muted ids are not empty and hold no white space and no NUL.
pub save-load :
    (config home : Option Bytes) (c : Conf) (w v : World)
    → Savable c
    → (save config home c w).0 ≡ done true
    → v.files (conf_path config home) ≡ (save config home c w).1.files (conf_path config home)
    → head_fault v.faults ≡ none
    → (load_conf config home v).0 ≡ done c
unfolding load_conf
save-load config home c w v s saved same opens = elim (save_atomic config home c w) [
  | inl (r, e) ↦ load-at (conf_path config home) v _ opens (same ∙ e) ∙ ap done (loaded-printed c s)
  | inr (r, e) ↦ absurd (ground (arith, saved, r))
]

-- Where no call fails, saving returns 0.
pub clean-save :
    (config home : Option Bytes) (c : Conf) (fs : Files) (en : ℕ → ℕ)
    → let r : Outcome Bool × World = save config home c (clean fs en) in
      (r.0 ≡ done true) × (r.1.faults ≡ [])
unfolding save save_at fopen_w try open_write attempt require throw return ◌>>=◌ write_new
    flush_close replace rename move
clean-save config home c fs en =
    let p : Bytes = new_path (conf_path config home) in
    (rw (bytes_eq_refl p) refl, rw (bytes_eq_refl p) refl)
