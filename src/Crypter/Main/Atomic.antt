-- ===== src/Crypter/Main/Atomic.antt =====
-- `run_operation` replaces the file at the end or not at all, whatever fails on the way.
use syn_os.Common.{
  ℕ, Bool, true, false, Option, none, some, ◌≡◌, ◌≢◌, ◌⊎◌, inl, refl, sym, ap, arith, Bytes, codes,
  bytes_eq, bytes_eq_ne, bytes_eq_refl, length, length-append, leb, if◌then◌else◌,
}
use syn_os.Io.{
  World, Status, Outcome, Call, done, fail, ◌>>=◌, return, continue, outcome, store, next, remove,
  head_fault, succeeds,
}
use syn_os.Io.Frame.{Renamed, kept, moved, rename-Renamed, Frame, Frame-if}
use syn_os.Io.Clean.{clean}
use syn_os.Io.Whole.{Written, WholeAt, Whole}
use syn_os.Crypter.Ssl.{Ssl}
use syn_os.Crypter.Guard.{Recognised}
use syn_os.Crypter.Whole.{
  Whole-aes_encrypt, Whole-aes_decrypt, Whole-blowfish_encrypt, Whole-blowfish_decrypt,
  Whole-rsa_encrypt, Whole-rsa_decrypt, Whole-redshirt_encrypt, Whole-redshirt_decrypt,
}
use syn_os.Crypter.Keeps.{
  Frame-aes_encrypt, Frame-aes_decrypt, Frame-blowfish_encrypt, Frame-blowfish_decrypt,
  Frame-rsa_encrypt, Frame-rsa_decrypt, Frame-redshirt_encrypt, Frame-redshirt_decrypt,
}
use syn_os.Crypter.Redshirt.{Variant}
use syn_os.Crypter.Main.{tmp_path, status_message, conclude, perform, run_operation}

pub tmp_path-ne : (file : Bytes) → tmp_path file ≢ file
tmp_path-ne file e = absurd (omega (arith, ap length e, length-append file (codes ".tmp")))

Frame-perform :
    (ssl : Ssl) (encrypt : Bool) (algo file key : Bytes) (v : Variant)
    → Frame (tmp_path file) (perform ssl encrypt algo file key v)
unfolding perform
Frame-perform ssl encrypt algo file key v = search (
  Frame-if, Frame-aes_encrypt, Frame-aes_decrypt, Frame-blowfish_encrypt, Frame-blowfish_decrypt,
  Frame-rsa_encrypt, Frame-rsa_decrypt, Frame-redshirt_encrypt, Frame-redshirt_decrypt,
)

-- An encryption of a file that has an encrypted format.
abbrev pub Again : Bool → Bytes → World → Type 0
Again true file before = Recognised file before.files
Again false file before = ⊥

-- What a successful operation has written, compared with `faultless`, the same operation in a world
-- without faults: all that it writes there, but for what was lost in the `fclose`. That is not said of
-- an encryption of a file which has an encrypted format already, where the test for that may fail.
abbrev pub Complete : Bool → Bytes → World → Outcome (Unit {0}) × World → World → Type 0
Complete encrypt file before faultless performed =
    Written (tmp_path file) before faultless performed ⊎ Again encrypt file before

-- What a run that began in `before` leaves behind, where the algorithm ended with `performed`. On a
-- failure every file but the temporary one is as before. On success the algorithm succeeded, the
-- file has the content that it wrote, the temporary file is gone and all others are as before.
pub record Replaced (encrypt : Bool) (file : Bytes) (before after : World)
    (faultless performed : Outcome (Unit {0}) × World) : Type 0 where
  pub succeeded : performed.0 ≡ done tt
  pub complete : Complete encrypt file before faultless performed.1
  pub content : after.files file ≡ performed.1.files (tmp_path file)
  pub written : after.files file ≢ none
  pub cleaned : after.files (tmp_path file) ≡ none
  pub others : (p : Bytes) → tmp_path file ≢ p → file ≢ p → after.files p ≡ before.files p

abbrev pub Leaves :
    Bool
    → Bytes
    → World
    → Outcome (Unit {0}) × World
    → Outcome (Unit {0}) × World
    → Outcome (Option Bytes) × World
    → Type 0
Leaves encrypt file before faultless performed (done none, after) =
    Replaced encrypt file before after faultless performed
Leaves encrypt file before faultless performed (done (some err), after) =
    (p : Bytes) → tmp_path file ≢ p → after.files p ≡ before.files p
Leaves encrypt file before faultless performed (fail s, after) = ⊥

-- What `perform` has written, where it succeeded.
unfoldable Wrote :
    Bool → Bytes → World → Outcome (Unit {0}) × World → Outcome (Unit {0}) × World → Type 0
Wrote encrypt file before faultless (done u, w) = Complete encrypt file before faultless w
Wrote encrypt file before faultless (fail s, w) = Unit

module _ (encrypt : Bool) (file : Bytes) (before : World)
    (faultless : Outcome (Unit {0}) × World) where
  Leaves-renamed :
      (u : Unit {0}) (w : World) (r : Outcome Bool × World) (err : Bytes)
      → Renamed (tmp_path file) file w r
      → ((p : Bytes) → tmp_path file ≢ p → w.files p ≡ before.files p)
      → Complete encrypt file before faultless w
      → Leaves encrypt file before faultless
          (done u, w)
          (continue r.0 (λ b. return (if b then none else some err)) r.1)
  unfolding return
  Leaves-renamed u w r err (kept w' e) h c = λ p ne. rw e (h p ne)
  Leaves-renamed u w r err (moved b w' e f) h c = record {
    succeeded = refl;
    complete = c;
    content = rw (f, ne, bytes_eq_refl file) (sym e);
    written = rw (f, ne, bytes_eq_refl file) (λ eq. cc);
    cleaned = rw (f, bytes_eq_refl (tmp_path file));
    others = λ p ne_tmp ne_file.
        rw (f, bytes_eq_ne (tmp_path file) p ne_tmp, bytes_eq_ne file p ne_file) (h p ne_tmp);
  }
    where
      ne : bytes_eq (tmp_path file) file ≡ false
      ne = bytes_eq_ne (tmp_path file) file (tmp_path-ne file)

  Leaves-removed :
      (s : Status) (w : World) (err : Bytes) (f : Option ℕ)
      → ((p : Bytes) → tmp_path file ≢ p → w.files p ≡ before.files p)
      → Leaves encrypt file before faultless
          (fail s, w)
          (continue
            ((if succeeds f then store (tmp_path file) none else return tt) (next w)).0
            (λ _. return (some err))
            ((if succeeds f then store (tmp_path file) none else return tt) (next w)).1)
  unfolding return
  Leaves-removed s w err none h = λ p ne. rw (bytes_eq_ne (tmp_path file) p ne) (h p ne)
  Leaves-removed s w err (some n) h = h

  conclude-Leaves :
      (o : Outcome (Unit {0})) (w : World)
      → ((p : Bytes) → tmp_path file ≢ p → w.files p ≡ before.files p)
      → Wrote encrypt file before faultless (o, w)
      → Leaves encrypt file before faultless (o, w) (conclude file o w)
  unfolding conclude ◌>>=◌ remove Wrote
  conclude-Leaves (fail s) w h c = Leaves-removed s w (status_message s) (head_fault w.faults) h
  conclude-Leaves (done u) w h c =
      Leaves-renamed u w _ _ (rename-Renamed (tmp_path file) file w) h c

-- A block that writes the temporary file, to encrypt or not.
record Writes (encrypt : Bool) (file : Bytes) (m : Call (Unit {0})) : Type 0 where
  at : (w : World) → WholeAt (tmp_path file) m w (m w) ⊎ Again encrypt file w

Writes-if :
    (encrypt : Bool) (file : Bytes) (b : Bool) (m n : Call (Unit {0}))
    → Writes encrypt file m
    → Writes encrypt file n
    → Writes encrypt file (if b then m else n)
Writes-if encrypt file true m n h k = h
Writes-if encrypt file false m n h k = k

Writes-way :
    (encrypt : Bool) (file : Bytes) (m n : Call (Unit {0}))
    → ((w : World) → WholeAt (tmp_path file) m w (m w) ⊎ Recognised file w.files)
    → Whole (tmp_path file) n
    → Writes encrypt file (if encrypt then m else n)
Writes-way true file m n h k = record { at = h }
Writes-way false file m n h k = record { at = λ w. inl (k.at w) }

Writes-perform :
    (ssl : Ssl) (encrypt : Bool) (algo file key : Bytes) (v : Variant)
    → Writes encrypt file (perform ssl encrypt algo file key v)
unfolding perform
Writes-perform ssl encrypt algo file key v =
    let tmp : Bytes = tmp_path file in
    Writes-if encrypt file (bytes_eq algo (codes "aes")) _ _
      (Writes-way encrypt file _ _ (Whole-aes_encrypt ssl file tmp key)
        (Whole-aes_decrypt ssl file tmp key))
      (Writes-if encrypt file (bytes_eq algo (codes "blowfish")) _ _
        (Writes-way encrypt file _ _ (Whole-blowfish_encrypt ssl file tmp key)
          (Whole-blowfish_decrypt ssl file tmp key))
        (Writes-if encrypt file (bytes_eq algo (codes "rsa")) _ _
          (Writes-way encrypt file _ _ (Whole-rsa_encrypt ssl file tmp key)
            (Whole-rsa_decrypt ssl file tmp key))
          (Writes-way encrypt file _ _ (Whole-redshirt_encrypt ssl file tmp v)
            (Whole-redshirt_decrypt ssl file tmp))))

Wrote-WholeAt :
    (encrypt : Bool) (file : Bytes) (m : Call (Unit {0})) (w : World)
    (r : Outcome (Unit {0}) × World)
    → WholeAt (tmp_path file) m w r ⊎ Again encrypt file w
    → Wrote encrypt file w (m (clean w.files w.entropy)) r
unfolding Wrote WholeAt
Wrote-WholeAt encrypt file m w (done u, w') h = h
Wrote-WholeAt encrypt file m w (fail s, w') h = tt

-- Whatever calls fail, in whatever world: `run_operation` either reports an error, and then every
-- file but `<file>.tmp` has the content that it had; or it reports success, and then the encryption
-- or decryption returned SYN_CRYPT_OK, the file has the content that it wrote to `<file>.tmp`, that
-- file is gone and every other file has the content that it had. The content is all that the operation
-- writes in a world with the same files and random bytes and no faults, or where its `fclose` failed,
-- as much of that as the `fclose` left. The content is not stated for an encryption of a file that
-- has an encrypted format already.
pub run_operation_atomic :
    (ssl : Ssl) (encrypt : Bool) (algo file key : Bytes) (v : Variant) (w : World)
    → Leaves encrypt file w
        (perform ssl encrypt algo file key v (clean w.files w.entropy))
        (perform ssl encrypt algo file key v w)
        (run_operation ssl encrypt algo file key v w)
unfolding run_operation outcome ◌>>=◌ return
run_operation_atomic ssl encrypt algo file key v w =
    elim (leb 4096 (length (tmp_path file)))
      as (λ long. Leaves encrypt file w faultless performed (
        (if long
            then return (some (codes "path too long"))
            else (outcome (perform ssl encrypt algo file key v) >>= conclude file))
          w)) [
            | true ↦ λ p ne. refl
            | false ↦
                conclude-Leaves encrypt file w faultless performed.0 performed.1
                  ((Frame-perform ssl encrypt algo file key v).at w)
                  (Wrote-WholeAt encrypt file _ w performed
                    ((Writes-perform ssl encrypt algo file key v).at w))
          ]
  where
    performed : Outcome (Unit {0}) × World
    performed = perform ssl encrypt algo file key v w

    faultless : Outcome (Unit {0}) × World
    faultless = perform ssl encrypt algo file key v (clean w.files w.entropy)
