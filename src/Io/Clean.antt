-- ===== src/Io/Clean.antt =====
-- The calls in a world whose schedule holds no fault, and how a block runs on their results.
use mathlib.Core.Path.{fun_ext}
use syn_os.Common.{
  ℕ, zero, suc, ◌+◌, Bool, true, false, ◌≡◌, ◌≢◌, refl, ◌∙◌, ap, Option, none, some, List, [], ◌∷◌,
  ◌++◌, append_assoc, append-nil, Bytes, length, bytes_eq, bytes_eq_refl, bytes_eq_ne,
  if◌then◌else◌,
}
use syn_os.Io.{
  World, Files, Status, io, Outcome, done, fail, Call, continue, ◌>>=◌, return, throw, require, try,
  outcome, recover, attempt, attempts, open_read, update, open_write, fwrite, write_chunks,
  write_file, fclose, remove, rename, rand_bytes, tabulate, unless_empty,
}

-- A world in which every call succeeds.
abbrev pub clean : Files → (ℕ → ℕ) → World
clean fs en = record { files = fs; faults = []; entropy = en }

-- The random bytes after the first `n`.
abbrev pub later : (ℕ → ℕ) → ℕ → ℕ → ℕ
later en n i = en (i + n)

module _ {A B : Type 0} where
  pub bind-done :
      (m : Call A) (f : A → Call B) {w w' : World} {a : A}
      → m w ≡ (done a, w')
      → (m >>= f) w ≡ f a w'
  unfolding ◌>>=◌
  bind-done m f e = ap (λ r. continue r.0 f r.1) e

  pub bind-fail :
      (m : Call A) (f : A → Call B) {w w' : World} {s : Status}
      → m w ≡ (fail s, w')
      → (m >>= f) w ≡ (fail s, w')
  unfolding ◌>>=◌
  bind-fail m f e = ap (λ r. continue r.0 f r.1) e

pub try-done :
    {A : Type 0} (m : Call A) {w w' : World} {a : A}
    → m w ≡ (done a, w')
    → try m w ≡ (done (some a), w')
unfolding try
try-done m e = ap (λ r. (done (recover r.0), r.1)) e

pub try-fail :
    {A : Type 0} (m : Call A) {w w' : World} {s : Status}
    → m w ≡ (fail s, w')
    → try m w ≡ (done none, w')
unfolding try
try-fail m e = ap (λ r. (done (recover r.0), r.1)) e

pub outcome_lem :
    {A : Type 0} (m : Call A) {w w' : World} {o : Outcome A}
    → m w ≡ (o, w')
    → outcome m w ≡ (done o, w')
unfolding outcome
outcome_lem m e = ap (λ r. (done r.0, r.1)) e

pub require-true : {b : Bool} (s : Status) (w : World) → b ≡ true → require b s w ≡ (done tt, w)
unfolding require return
require-true s w e = rw e

pub require-false : {b : Bool} (s : Status) (w : World) → b ≡ false → require b s w ≡ (fail s, w)
unfolding require throw
require-false s w e = rw e

pub if-true :
    {A : Type 0} {b : Bool} (m n : Call A) (w : World) → b ≡ true → (if b then m else n) w ≡ m w
if-true m n w e = rw e

pub if-false :
    {A : Type 0} {b : Bool} (m n : Call A) (w : World) → b ≡ false → (if b then m else n) w ≡ n w
if-false m n w e = rw e

-- Two writes to one file.
pub update-update :
    (fs : Files) (p : Bytes) (a b : Option Bytes) → update (update fs p a) p b ≡ update fs p b
update-update fs p a b = fun_ext λ q.
    elim (bytes_eq p q)
      as (λ t. (if t then b else (if t then a else fs q)) ≡ (if t then b else fs q)) [
        | true ↦ refl
        | false ↦ refl
      ]

pub update_self : (fs : Files) (p : Bytes) (a : Option Bytes) → update fs p a p ≡ a
update_self fs p a = rw (bytes_eq_refl p)

pub update_ne : (fs : Files) (p q : Bytes) (a : Option Bytes) → p ≢ q → update fs p a q ≡ fs q
update_ne fs p q a ne = rw (bytes_eq_ne p q ne)

module _ (fs : Files) (en : ℕ → ℕ) where
  pub clean-attempt : (s : Status) → attempt s (clean fs en) ≡ (done tt, clean fs en)
  unfolding attempt
  clean-attempt s = refl

  pub clean-attempts : (n : ℕ) (s : Status) → attempts n s (clean fs en) ≡ (done tt, clean fs en)
  unfolding attempts
  clean-attempts zero s = refl
  clean-attempts (suc n) s = bind-done _ _ (clean-attempt s) ∙ clean-attempts n s

  pub clean-open_read :
      (path : Bytes) {b : Bytes}
      → fs path ≡ some b
      → open_read path (clean fs en) ≡ (done b, clean fs en)
  unfolding open_read
  clean-open_read path e = rw e

  pub clean-rand_bytes :
      (n : ℕ) → rand_bytes n (clean fs en) ≡ (done (tabulate n en), clean fs (later en n))
  unfolding rand_bytes
  clean-rand_bytes n = refl

  pub clean-open_write :
      (path : Bytes)
      → open_write path (clean fs en) ≡ (done tt, clean (update fs path (some [])) en)
  unfolding open_write
  clean-open_write path = refl

  pub clean-remove :
      (path : Bytes) → remove path (clean fs en) ≡ (done tt, clean (update fs path none) en)
  unfolding remove
  clean-remove path = refl

  pub clean-rename :
      (from to : Bytes) {b : Bytes}
      → fs from ≡ some b
      → rename from to (clean fs en)
        ≡ (done true, clean (update (update fs to (some b)) from none) en)
  unfolding rename
  clean-rename from to e = rw e

abbrev pub flat : List Bytes → Bytes
flat [] = []
flat (c ∷ cs) = c ++ flat cs

-- The calls on a file that this program has open for writing, with the content `b`.
module _ (fs : Files) (en : ℕ → ℕ) (path : Bytes) where
  pub clean-fwrite :
      (b chunk : Bytes)
      → fwrite path chunk (clean (update fs path (some b)) en)
        ≡ (done true, clean (update fs path (some (b ++ chunk))) en)
  unfolding fwrite
  clean-fwrite b chunk = rw (bytes_eq_refl path, update-update)

  pub clean-fclose :
      (b : Bytes)
      → fclose path (clean (update fs path (some b)) en)
        ≡ (done tt, clean (update fs path (some b)) en)
  unfolding fclose
  clean-fclose b = rw (bytes_eq_refl path, update-update)

  pub clean-write_chunks :
      (cs : List Bytes) (b : Bytes)
      → write_chunks path cs (clean (update fs path (some b)) en)
        ≡ (done true, clean (update fs path (some (b ++ flat cs))) en)
  unfolding write_chunks
  clean-write_chunks [] b = rw append-nil
  clean-write_chunks (c ∷ cs) b =
      bind-done _ _ (clean-fwrite b c) ∙ clean-write_chunks cs (b ++ c) ∙ rw append_assoc

pub clean-write_file :
    (fs : Files) (en : ℕ → ℕ) (path : Bytes) (cs : List Bytes)
    → write_file path cs (clean fs en) ≡ (done tt, clean (update fs path (some (flat cs))) en)
unfolding write_file
clean-write_file fs en path cs =
    bind-done _ _ (clean-open_write fs en path)
    ∙ bind-done _ _ (clean-write_chunks fs en path cs [])
    ∙ bind-done _ _ (clean-fclose fs en path (flat cs))
    ∙ require-true io _ refl

pub length-tabulate : (n : ℕ) (f : ℕ → ℕ) → length (tabulate n f) ≡ n
unfolding tabulate
length-tabulate zero f = refl
length-tabulate (suc n) f = ap suc (length-tabulate n (λ i. f (suc i)))

pub flat-unless_empty : (b : Bytes) → flat (unless_empty b) ≡ b
flat-unless_empty [] = refl
flat-unless_empty (x ∷ b) = append-nil (x ∷ b)
