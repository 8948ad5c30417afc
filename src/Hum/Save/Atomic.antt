-- ===== src/Hum/Save/Atomic.antt =====
-- Saving the settings puts the whole new file in the place of the old one, or leaves the old one.
use mathlib.Core.Option
use mathlib.Core.Path.{subst}
use syn_os.Common.{
  ℕ, ◌+◌, ◌≤◌, ◌≡◌, ◌≢◌, ◌⊎◌, inl, inr, refl, sym, ◌∙◌, ap, arith, Bool, true, false, Option, none,
  some, List, [], ◌∷◌, ◌++◌, Bytes, codes, length, length-append, length-take, take_all,
  if◌then◌else◌,
}
use syn_os.Io.{
  World, Files, Outcome, done, continue, ◌>>=◌, return, update, written, succeeds, head_fault, next,
  rename, remove, store, try, open_write, attempt, require, throw,
}
use syn_os.Io.Clean.{update_self, update_ne}
use syn_os.Io.Frame.{Renamed, kept, moved, rename-Renamed}
use syn_os.Relay.Runtime.{fopen_w}
use syn_os.Hum.Conf.{Conf}
use syn_os.Hum.Save.{
  conf_dir, conf_path, new_path, printed_lines, with_ends, flush_close, replace, write_new, save_at,
  save,
}

conf_path-length : (config home : Option Bytes) → length (conf_path config home) ≤ 4095
unfolding conf_path
conf_path-length config home =
    omega (arith, length-take 4095 (conf_dir 4080 config home ++ codes "/hum.conf"))

pub new_path-ne : (path : Bytes) → length path ≤ 4095 → new_path path ≢ path
new_path-ne path h e =
    let whole : new_path path ≡ path ++ codes ".new" =
      take_all 4103 (path ++ codes ".new") (omega (arith, length-append path (codes ".new"))) in
    let same : length path + 4 ≡ length path =
      sym (length-append path (codes ".new")) ∙ ap length (sym whole ∙ e) in
    absurd (omega (arith, same))

abbrev opened : Bytes → World → Option ℕ → Outcome Bool × World
opened path w none = (done true, record (next w) { files = update w.files path (some []) })
opened path w (some n) = (done false, next w)

fopen_w_lem :
    (path : Bytes) (fs : Files) (faults : List (Option ℕ)) (en : ℕ → ℕ)
    → let w : World = record { files = fs; faults = faults; entropy = en } in
      fopen_w path w ≡ opened path w (head_fault faults)
unfolding fopen_w try open_write attempt require throw return ◌>>=◌
fopen_w_lem path fs [] en = refl
fopen_w_lem path fs (none ∷ faults) en = refl
fopen_w_lem path fs (some n ∷ faults) en = refl

-- The ends of a save: the file as it was, or the whole new text in its place.
data Saved (path text : Bytes) (w : World) : Outcome Bool × World → Type 0 where
  old : (w' : World) → w'.files path ≡ w.files path → Saved path text w (done false, w')
  new : (w' : World) → w'.files path ≡ some text → Saved path text w (done true, w')

module _ (path text : Bytes) (ne : new_path path ≢ path) where
  -- The file is the one before, and the other one holds the text.
  record Ready (w v : World) : Type 0 where
    path_as_was : v.files path ≡ w.files path
    holds : v.files (new_path path) ≡ some text

  after_rename : (w v : World) → Ready w v → Saved path text w (rename (new_path path) path v)
  after_rename w v r = cases (rename (new_path path) path v) (rename-Renamed (new_path path) path v)
    where
      cases : (r : Outcome Bool × World) → Renamed (new_path path) path v r → Saved path text w r
      cases _ (kept w' e) = old w' (ap (λ f. f path) e ∙ r.path_as_was)
      cases _ (moved b w' e f) = new w' (
          ap (λ g. g path) f
          ∙ update_ne (update v.files path (some b)) (new_path path) path none ne
          ∙ update_self v.files path (some b)
          ∙ sym e
          ∙ r.holds)

  after_close :
      (closed : Bool) (w v : World)
      → v.files path ≡ w.files path
      → (closed ≡ true → v.files (new_path path) ≡ some text)
      → Saved path text w (replace (new_path path) path closed v)
  unfolding replace remove ◌>>=◌ return
  after_close true w v same whole =
      after_rename w v (record { path_as_was = same; holds = whole refl })
  after_close false w v same whole = cases (head_fault v.faults)
    where
      cases :
          (f : Option ℕ)
          → Saved path text w (
              ((if succeeds f then store (new_path path) none else return tt) >>= λ _. return false)
                (next v))
      cases (some n) = old _ same
      cases none = old _ (update_ne v.files (new_path path) path none ne ∙ same)

  after_open :
      (w v : World)
      → v.files path ≡ w.files path
      → v.files (new_path path) ≡ some []
      → Saved path text w (write_new (new_path path) path text true v)
  unfolding write_new flush_close ◌>>=◌ return
  after_open w v same empty = cases (head_fault v.faults)
    where
      closed_at : Option ℕ → World
      closed_at f = record (next v) {
        files =
            update v.files (new_path path)
              (Option.map (λ c. written f c text) (v.files (new_path path)));
      }

      cases :
          (f : Option ℕ)
          → Saved path text w (replace (new_path path) path (succeeds f) (closed_at f))
      cases f =
          after_close (succeeds f) w (closed_at f)
            (update_ne v.files (new_path path) path _ ne ∙ same)
            (λ e.
              update_self v.files (new_path path) _
              ∙ ap (Option.map (λ c. written f c text)) empty
              ∙ all_written f e)
        where
          all_written : (f : Option ℕ) → succeeds f ≡ true → some (written f [] text) ≡ some text
          all_written none e = refl
          all_written (some n) e = absurd (ground arith)

  save_at-Saved : (made : Bool) (w : World) → Saved path text w (save_at path text made w)
  unfolding save_at ◌>>=◌ return write_new
  save_at-Saved false w = old w refl
  save_at-Saved true w =
      subst (λ r. Saved path text w (continue r.0 (λ b. write_new (new_path path) path text b) r.1))
        (sym (fopen_w_lem (new_path path) w.files w.faults w.entropy)) (cases (head_fault w.faults))
    where
      cases :
          (f : Option ℕ)
          → Saved path text w (
              continue
                (opened (new_path path) w f).0
                (λ b. write_new (new_path path) path text b)
                (opened (new_path path) w f).1)
      cases none =
          after_open w (record (next w) { files = update w.files (new_path path) (some []) })
            (update_ne w.files (new_path path) path (some []) ne)
            (update_self w.files (new_path path) (some []))
      cases (some n) = old (next w) refl

-- Saving the settings returns 0 only with the whole new file in its place, and otherwise hum.conf is
-- the file that it was, whatever calls fail and however many bytes are written before they do.
pub save_atomic :
    (config home : Option Bytes) (c : Conf) (w : World)
    → let path : Bytes = conf_path config home in
      let w' : World = (save config home c w).1 in
      (((save config home c w).0 ≡ done true)
        × (w'.files path ≡ some (with_ends (printed_lines c))))
      ⊎ (((save config home c w).0 ≡ done false) × (w'.files path ≡ w.files path))
unfolding save ◌>>=◌
save_atomic config home c w = ends _ (
    save_at-Saved (conf_path config home) (with_ends (printed_lines c))
      (new_path-ne (conf_path config home) (conf_path-length config home))
      (succeeds (head_fault w.faults)) (next w))
  where
    path : Bytes
    path = conf_path config home

    ends :
        (r : Outcome Bool × World)
        → Saved path (with_ends (printed_lines c)) (next w) r
        → ((r.0 ≡ done true) × (r.1.files path ≡ some (with_ends (printed_lines c))))
          ⊎ ((r.0 ≡ done false) × (r.1.files path ≡ w.files path))
    ends _ (old w' e) = inr (refl, e)
    ends _ (new w' e) = inl (refl, e)
