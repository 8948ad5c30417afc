-- ===== src/Io/Refuse.antt =====
-- Blocks that cannot succeed on given files, whatever faults they meet, and change no file.
use syn_os.Common.{Bool, true, false, Option, none, some, ◌≡◌, sym, ap, ◌∙◌, Bytes}
use syn_os.Io.{
  World, Files, Status, Outcome, done, fail, Call, continue, ◌>>=◌, return, throw, require,
  open_read, lookup_file, io, succeeds, head_fault, next,
}
use syn_os.Io.Frame.{ReadOnly}

abbrev pub Failed : {A : Type 0} → Outcome A → Type 0
Failed (done a) = ⊥
Failed (fail s) = Unit

-- On the files `fs`, `m` fails and leaves them.
pub record Refuses {A : Type 0} (fs : Files) (m : Call A) : Type 0 where
  pub fails : (w : World) → w.files ≡ fs → Failed (m w).0
  pub keeps : (w : World) → w.files ≡ fs → (m w).1.files ≡ fs

abbrev pub Holds : {A : Type 0} → (A → Type 0) → Outcome A → Type 0
Holds P (done a) = P a
Holds P (fail s) = Unit

-- On the files `fs`, `m` gives only results that satisfy `P`.
pub record Gives {A : Type 0} (fs : Files) (m : Call A) (P : A → Type 0) : Type 0 where
  pub at : (w : World) → w.files ≡ fs → Holds P (m w).0

Holds-Unit : {A : Type 0} (o : Outcome A) → Holds (λ _. Unit {0}) o
Holds-Unit (done a) = tt
Holds-Unit (fail s) = tt

pub Gives-any : {A : Type 0} (fs : Files) (m : Call A) → Gives fs m (λ _. Unit {0})
Gives-any fs m = record { at = λ w e. Holds-Unit (m w).0 }

module _ {A B : Type 0} (fs : Files) (m : Call A) (f : A → Call B) where
  continue-fails :
      (P : A → Type 0) (o : Outcome A) (w : World)
      → w.files ≡ fs
      → Holds P o
      → ((a : A) → P a → Refuses fs (f a))
      → Failed (continue o f w).0
  continue-fails P (done a) w e h k = (k a h).fails w e
  continue-fails P (fail s) w e h k = tt

  continue-keeps :
      (P : A → Type 0) (o : Outcome A) (w : World)
      → w.files ≡ fs
      → Holds P o
      → ((a : A) → P a → Refuses fs (f a))
      → (continue o f w).1.files ≡ fs
  continue-keeps P (done a) w e h k = (k a h).keeps w e
  continue-keeps P (fail s) w e h k = e

  -- What comes before gives something that the rest refuses.
  pub Refuses-Gives :
      (P : A → Type 0)
      → ReadOnly m
      → Gives fs m P
      → ((a : A) → P a → Refuses fs (f a))
      → Refuses fs (m >>= f)
  unfolding ◌>>=◌
  Refuses-Gives P r g k = record {
    fails = λ w e. continue-fails P (m w).0 (m w).1 (r.at w ∙ e) (g.at w e) k;
    keeps = λ w e. continue-keeps P (m w).0 (m w).1 (r.at w ∙ e) (g.at w e) k;
  }

  -- The rest refuses whatever comes before.
  pub Refuses-bind : ReadOnly m → ((a : A) → Refuses fs (f a)) → Refuses fs (m >>= f)
  Refuses-bind r k = Refuses-Gives (λ _. Unit) r (Gives-any fs m) (λ a _. k a)

-- What comes before fails already.
pub Refuses-first :
    {A B : Type 0} (fs : Files) (m : Call A) (f : A → Call B) → Refuses fs m → Refuses fs (m >>= f)
unfolding ◌>>=◌
Refuses-first {A} {B} fs m f r = record {
  fails = λ w e. fails (m w).0 (m w).1 (r.fails w e);
  keeps = λ w e. keeps (m w).0 (m w).1 (r.fails w e) (r.keeps w e);
}
  where
    fails : (o : Outcome A) (w : World) → Failed o → Failed (continue o f w).0
    fails (done a) w h = absurd h
    fails (fail s) w h = tt

    keeps : (o : Outcome A) (w : World) → Failed o → w.files ≡ fs → (continue o f w).1.files ≡ fs
    keeps (done a) w h e = absurd h
    keeps (fail s) w h e = e

-- A test that is false refuses the rest, whatever it is.
pub Refuses-require :
    {B : Type 0} (fs : Files) (b : Bool) (s : Status) (f : Unit {0} → Call B)
    → b ≡ false
    → Refuses fs (require b s >>= f)
unfolding ◌>>=◌ require throw return
Refuses-require fs true s f e = cc
Refuses-require fs false s f e = record { fails = λ w e. tt; keeps = λ w e. e }

pub Refuses-throw : {A : Type 0} (fs : Files) (s : Status) → Refuses fs (throw {A = A} s)
unfolding throw
Refuses-throw fs s = record { fails = λ w e. tt; keeps = λ w e. e }

pub Gives-bind :
    {A B : Type 0} (fs : Files) (m : Call A) (f : A → Call B) (P : A → Type 0) (Q : B → Type 0)
    → ReadOnly m
    → Gives fs m P
    → ((a : A) → P a → Gives fs (f a) Q)
    → Gives fs (m >>= f) Q
unfolding ◌>>=◌
Gives-bind {A} {B} fs m f P Q r g k = record {
  at = λ w e. go (m w).0 (m w).1 (r.at w ∙ e) (g.at w e);
}
  where
    go : (o : Outcome A) (w : World) → w.files ≡ fs → Holds P o → Holds Q (continue o f w).0
    go (done a) w e h = (k a h).at w e
    go (fail s) w e h = tt

pub Gives-return : {A : Type 0} (fs : Files) (a : A) (P : A → Type 0) → P a → Gives fs (return a) P
unfolding return
Gives-return fs a P h = record { at = λ w e. h }

-- A file that was read is the file.
pub Gives-open_read :
    (fs : Files) (path : Bytes) → Gives fs (open_read path) (λ b. fs path ≡ some b)
unfolding open_read
Gives-open_read fs path = record {
  at = λ w e.
      go (succeeds (head_fault w.faults)) (w.files path) (next w)
        (ap (λ (f : Files). f path) (sym e));
}
  where
    go :
        (b : Bool) (o : Option Bytes) (w : World)
        → fs path ≡ o
        → Holds
            (λ c. fs path ≡ some c)
            (continue (require b io w).0 (λ _. lookup_file o) (require b io w).1).0
    go false o w e = tt
    go true none w e = tt
    go true (some c) w e = e
