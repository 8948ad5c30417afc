-- ===== src/Io/Filled.antt =====
-- A file that a program opens, fills with pieces and closes.
use syn_os.Common.{
  Bool, true, false, ◌≡◌, refl, sym, ap, ◌∙◌, Option, none, some, List, [], ◌∷◌, ◌++◌, append_assoc,
  append-nil, Bytes, bytes_eq_refl, ℕ, if◌then◌else◌,
}
use mathlib.Core.Option
use mathlib.Core.Path.{subst}
use syn_os.Io.{
  World, Files, Status, io, Outcome, done, fail, Call, continue, ◌>>=◌, return, require, throw,
  fclose, kept, head_fault, fwrite, written, write_chunks, write_file, open_write, update, attempt,
  succeeds, next, store,
}
use syn_os.Io.Clean.{clean, bind-done}
use syn_os.Io.Steady.{Steady-open_write}
use syn_os.Io.Whole.{Later, here, taken, WholeAt, Whole, Then, WholeAt-bind}

-- Where a block of writes gives true, every byte was taken: the content of the file has grown by as
-- much as it does without faults.
unfoldable pub FilledAt : Bytes → Call Bool → World → Bytes → Outcome Bool × World → Type 0
FilledAt path m w b (done true, w') =
    (text : Bytes) × (fs : Files) × (en : ℕ → ℕ) × (m (clean w.files w.entropy)
      ≡ (done true, clean fs en))
    × (fs path ≡ some (b ++ text))
    × (w'.files path ≡ some (b ++ text))
    × Later w.faults w'.faults
FilledAt path m w b (done false, w') = Unit
FilledAt path m w b (fail s, w') = Unit

pub record Filled (path : Bytes) (m : Call Bool) : Type 0 where
  pub at : (w : World) (b : Bytes) → w.files path ≡ some b → FilledAt path m w b (m w)

module _ (path : Bytes) where
  Filled-none : Filled path (write_chunks path [])
  unfolding write_chunks return FilledAt
  Filled-none = record {
    at = λ w b e. (
      [],
      w.files,
      w.entropy,
      refl,
      e ∙ ap some (sym (append-nil b)),
      e ∙ ap some (sym (append-nil b)),
      here w.faults,
    );
  }

  -- The world after an `fwrite` with this fault.
  abbrev wrote : Option ℕ → Bytes → World → World
  wrote f c w = record (next w) {
    files = update w.files path (Option.map (λ b. written f b c) (w.files path));
  }

  module _ (c : Bytes) (cs : List Bytes) (w : World) where
    step :
        (f : Option ℕ)
        → head_fault w.faults ≡ f
        → write_chunks path (c ∷ cs) w
          ≡ (if succeeds f then write_chunks path cs else return false) (wrote f c w)
    unfolding write_chunks fwrite ◌>>=◌ return
    step f h = ap (λ f. (if succeeds f then write_chunks path cs else return false) (wrote f c w)) h

    clean-step :
        write_chunks path (c ∷ cs) (clean w.files w.entropy)
        ≡ write_chunks path cs (clean (wrote none c w).files w.entropy)
    unfolding write_chunks fwrite ◌>>=◌ return
    clean-step = refl

    grown :
        (b : Bytes) (r : Outcome Bool × World)
        → FilledAt path (write_chunks path cs) (wrote none c w) (b ++ c) r
        → FilledAt path (write_chunks path (c ∷ cs)) w b r
    unfolding FilledAt
    grown b (done true, w') h = (
      c ++ h.0,
      h.1,
      h.2,
      clean-step ∙ h.3,
      h.4 ∙ ap some (append_assoc b c h.0),
      h.5 ∙ ap some (append_assoc b c h.0),
      taken w.faults _ h.6,
    )
    grown b (done false, w') h = tt
    grown b (fail s, w') h = tt

    FilledAt-cons :
        (b : Bytes) (f : Option ℕ)
        → w.files path ≡ some b
        → head_fault w.faults ≡ f
        → Filled path (write_chunks path cs)
        → FilledAt path
            (write_chunks path (c ∷ cs))
            w
            b
            ((if succeeds f then write_chunks path cs else return false) (wrote f c w))
    unfolding FilledAt return
    FilledAt-cons b (some n) e h rest = tt
    FilledAt-cons b none e h rest =
        grown b (write_chunks path cs (wrote none c w))
          (rest.at (wrote none c w) (b ++ c) (rw (bytes_eq_refl path, e)))

  pub Filled-write_chunks : (cs : List Bytes) → Filled path (write_chunks path cs)
  Filled-write_chunks [] = Filled-none
  Filled-write_chunks (c ∷ cs) = record {
    at = λ w b e.
        subst (FilledAt path (write_chunks path (c ∷ cs)) w b)
          (sym (step c cs w (head_fault w.faults) refl))
          (FilledAt-cons c cs w b (head_fault w.faults) e refl (Filled-write_chunks cs));
  }

  opened-with :
      (w : World) (f : Option ℕ)
      → Then
          (λ u w₁. w₁.files path ≡ some [])
          (continue
            (require (succeeds f) io (next w)).0
            (λ _. store path (some []))
            (require (succeeds f) io (next w)).1)
  unfolding Then require return throw
  opened-with w none = rw (bytes_eq_refl path)
  opened-with w (some n) = tt

  opened : (w : World) → Then (λ u w₁. w₁.files path ≡ some []) (open_write path w)
  unfolding open_write attempt ◌>>=◌
  opened w = opened-with w (head_fault w.faults)

  -- The world after an `fclose` with this fault.
  abbrev closed : Option ℕ → World → World
  closed f w = record (next w) { files = update w.files path (Option.map (kept f) (w.files path)) }

  module _ (m : Call Bool) (end : Bool → Call (Unit {0})) (ends : end true ≡ return tt)
      (stops : (w : World) → (s : Status) × (w' : World) × (end false w ≡ (fail s, w'))) where
    close_run :
        (ok : Bool) (w : World)
        → (fclose path >>= λ _. end ok) w ≡ end ok (closed (head_fault w.faults) w)
    unfolding fclose ◌>>=◌ return
    close_run ok w = refl

    clean-close :
        (fs : Files) (en : ℕ → ℕ) (b : Bytes)
        → fs path ≡ some b
        → (closed none (clean fs en)).files path ≡ some b
    clean-close fs en b e = rw (bytes_eq_refl path, e)

    after_close :
        (w : World) → (fclose path >>= λ _. end true) w ≡ (done tt, closed (head_fault w.faults) w)
    unfolding return
    after_close w = close_run true w ∙ ap (λ e. e (closed (head_fault w.faults) w)) ends

    WholeAt-filled :
        (w : World) (o : Outcome Bool) (w₁ : World)
        → FilledAt path m w [] (o, w₁)
        → WholeAt path
            (m >>= λ ok. (fclose path >>= λ _. end ok))
            w
            (continue o (λ ok. (fclose path >>= λ _. end ok)) w₁)
    unfolding FilledAt WholeAt
    WholeAt-filled w (done true) w₁ h =
        let rest : Bool → Call (Unit {0}) = λ ok. (fclose path >>= λ _. end ok) in
        let alone : (m >>= rest) (clean w.files w.entropy)
            ≡ (done tt, closed none (clean h.1 h.2)) =
          bind-done m rest h.3 ∙ after_close (clean h.1 h.2) in
        subst (WholeAt path (m >>= rest) w) (sym (after_close w₁)) (record {
          full = h.0;
          succeeds_too = ap (λ r. r.0) alone;
          leaves = ap (λ r. r.1.files path) alone ∙ clean-close h.1 h.2 h.0 h.4;
          closing = w₁.faults;
          reached = h.6;
          last = refl;
          content = rw (bytes_eq_refl path, h.5);
        })
    WholeAt-filled w (done false) w₁ h =
        let rest : Bool → Call (Unit {0}) = λ ok. (fclose path >>= λ _. end ok) in
        let stop = stops (closed (head_fault w₁.faults) w₁) in
        subst (WholeAt path (m >>= rest) w) (sym (close_run false w₁ ∙ stop.2)) tt
    WholeAt-filled w (fail s) w₁ h = tt

    -- A file that is opened, filled and closed, with an end that fails where the filling did.
    pub Whole-Filled :
        Filled path m
        → Whole path (open_write path >>= λ _. (m >>= λ ok. (fclose path >>= λ _. end ok)))
    unfolding ◌>>=◌
    Whole-Filled h = record {
      at = λ w.
          WholeAt-bind path (open_write path) _ (λ u w₁. w₁.files path ≡ some []) w
            (Steady-open_write path) (opened w)
            (λ u w₁ e. WholeAt-filled w₁ (m w₁).0 (m w₁).1 (h.at w₁ [] e));
    }

pub Whole-write_file : (path : Bytes) (cs : List Bytes) → Whole path (write_file path cs)
unfolding write_file require return throw
Whole-write_file path cs =
    Whole-Filled path (write_chunks path cs) (λ ok. require ok io) refl (λ w. (io, w, refl))
      (Filled-write_chunks path cs)
