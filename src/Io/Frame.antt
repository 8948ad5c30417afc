-- ===== src/Io/Frame.antt =====
-- What a call leaves alone: every file but the ones that it names, whatever faults it meets.
use syn_os.Common.{
  ℕ, zero, suc, Bool, true, false, ◌≡◌, ◌≢◌, refl, ◌∙◌, arith, Option, none, some, List, [], ◌∷◌,
  Bytes, bytes_eq_ne, if◌then◌else◌,
}
use syn_os.Io.{
  World, Status, Outcome, done, fail, Call, continue, ◌>>=◌, return, throw, require, try, outcome,
  fault, attempt, attempts, lookup_file, open_read, store, open_write, fwrite, head_fault, succeeds,
  next, move, update, rename, write_chunks, write_file, fclose, remove, rand_bytes,
}

-- `m` changes no file but `out`.
pub record Frame {A : Type 0} (out : Bytes) (m : Call A) : Type 0 where
  pub at : (w : World) (p : Bytes) → out ≢ p → (m w).1.files p ≡ w.files p

-- `m` changes no file.
pub record ReadOnly {A : Type 0} (m : Call A) : Type 0 where
  pub at : (w : World) → (m w).1.files ≡ w.files

module _ {A : Type 0} where
  pub ReadOnly-return : (a : A) → ReadOnly (return a)
  unfolding return
  ReadOnly-return a = record { at = λ w. refl }

  pub ReadOnly-throw : (s : Status) → ReadOnly (throw {A = A} s)
  unfolding throw
  ReadOnly-throw s = record { at = λ w. refl }

  pub ReadOnly-try : (m : Call A) → ReadOnly m → ReadOnly (try m)
  unfolding try
  ReadOnly-try m h = record { at = λ w. h.at w }

  pub ReadOnly-if :
      (b : Bool) (m n : Call A) → ReadOnly m → ReadOnly n → ReadOnly (if b then m else n)
  ReadOnly-if true m n h k = h
  ReadOnly-if false m n h k = k

  pub Frame-ReadOnly : (out : Bytes) (m : Call A) → ReadOnly m → Frame out m
  Frame-ReadOnly out m h = record { at = λ w p ne. rw (h.at w) }

  pub Frame-outcome : (out : Bytes) (m : Call A) → Frame out m → Frame out (outcome m)
  unfolding outcome
  Frame-outcome out m h = record { at = λ w p ne. h.at w p ne }

  pub Frame-try : (out : Bytes) (m : Call A) → Frame out m → Frame out (try m)
  unfolding try
  Frame-try out m h = record { at = λ w p ne. h.at w p ne }

  pub Frame-if :
      (out : Bytes) (b : Bool) (m n : Call A)
      → Frame out m
      → Frame out n
      → Frame out (if b then m else n)
  Frame-if out true m n h k = h
  Frame-if out false m n h k = k

module _ {A B : Type 0} where
  ReadOnly-continue :
      (o : Outcome A) (f : A → Call B) (w : World)
      → ((a : A) → ReadOnly (f a))
      → (continue o f w).1.files ≡ w.files
  ReadOnly-continue (done a) f w h = (h a).at w
  ReadOnly-continue (fail s) f w h = refl

  Frame-continue :
      (out : Bytes) (o : Outcome A) (f : A → Call B) (w : World) (p : Bytes)
      → out ≢ p
      → ((a : A) → Frame out (f a))
      → (continue o f w).1.files p ≡ w.files p
  Frame-continue out (done a) f w p ne h = (h a).at w p ne
  Frame-continue out (fail s) f w p ne h = refl

  pub ReadOnly-bind :
      (m : Call A) (f : A → Call B) → ReadOnly m → ((a : A) → ReadOnly (f a)) → ReadOnly (m >>= f)
  unfolding ◌>>=◌
  ReadOnly-bind m f h k = record { at = λ w. ReadOnly-continue (m w).0 f (m w).1 k ∙ h.at w }

  pub Frame-bind :
      (out : Bytes) (m : Call A) (f : A → Call B)
      → Frame out m
      → ((a : A) → Frame out (f a))
      → Frame out (m >>= f)
  unfolding ◌>>=◌
  Frame-bind out m f h k = record {
    at = λ w p ne. Frame-continue out (m w).0 f (m w).1 p ne k ∙ h.at w p ne;
  }

pub ReadOnly-require : (b : Bool) (s : Status) → ReadOnly (require b s)
unfolding require
ReadOnly-require true s = ReadOnly-return tt
ReadOnly-require false s = ReadOnly-throw s

pub ReadOnly-fault : ReadOnly fault
ReadOnly-fault = record { at = λ w. refl }

pub ruleset pure_rules = (
  ReadOnly-return, ReadOnly-throw, ReadOnly-try, ReadOnly-if, ReadOnly-bind, ReadOnly-require,
  ReadOnly-fault,
)

pub ReadOnly-attempt : (s : Status) → ReadOnly (attempt s)
unfolding attempt ◌>>=◌ require return throw
ReadOnly-attempt s = record { at = λ w. ground arith }

pub ReadOnly-attempts : (n : ℕ) (s : Status) → ReadOnly (attempts n s)
unfolding attempts
ReadOnly-attempts zero s = ReadOnly-return tt
ReadOnly-attempts (suc n) s = ReadOnly-bind _ _ (ReadOnly-attempt s) λ _. ReadOnly-attempts n s

pub ReadOnly-open_read : (path : Bytes) → ReadOnly (open_read path)
unfolding open_read attempt ◌>>=◌ require return throw lookup_file
ReadOnly-open_read path = record { at = λ w. ground arith }

pub ReadOnly-rand_bytes : (n : ℕ) → ReadOnly (rand_bytes n)
unfolding rand_bytes attempt ◌>>=◌ require return throw
ReadOnly-rand_bytes n = record { at = λ w. ground arith }

pub Frame-store : (path : Bytes) (content : Option Bytes) → Frame path (store path content)
Frame-store path content = record { at = λ w p ne. rw (bytes_eq_ne path p ne) }

pub Frame-open_write : (path : Bytes) → Frame path (open_write path)
unfolding open_write
Frame-open_write path = search (Frame-bind, Frame-ReadOnly, ReadOnly-attempt, Frame-store)

pub Frame-fwrite : (path chunk : Bytes) → Frame path (fwrite path chunk)
unfolding fwrite ◌>>=◌ return
Frame-fwrite path chunk = record { at = λ w p ne. rw (bytes_eq_ne path p ne) }

pub Frame-write_chunks : (path : Bytes) (cs : List Bytes) → Frame path (write_chunks path cs)
unfolding write_chunks
Frame-write_chunks path [] = search (Frame-ReadOnly, ReadOnly-return)
Frame-write_chunks path (c ∷ cs) = Frame-bind path _ _ (Frame-fwrite path c) λ b.
    Frame-if path b _ _ (Frame-write_chunks path cs) (Frame-ReadOnly path _ (ReadOnly-return false))

pub Frame-fclose : (path : Bytes) → Frame path (fclose path)
unfolding fclose ◌>>=◌ return
Frame-fclose path = record { at = λ w p ne. rw (bytes_eq_ne path p ne) }

pub Frame-write_file : (path : Bytes) (cs : List Bytes) → Frame path (write_file path cs)
unfolding write_file
Frame-write_file path cs = search (
  Frame-bind, Frame-ReadOnly, Frame-open_write, Frame-write_chunks, Frame-fclose, ReadOnly-require,
)

pub Frame-remove : (path : Bytes) → Frame path (remove path)
unfolding remove ◌>>=◌ return
Frame-remove path = record { at = λ w p ne. ground (arith, bytes_eq_ne path p ne) }

-- The two ends of a rename: nothing moved, or the content of `from` is now that of `to`.
pub data Renamed (from to : Bytes) (w : World) : Outcome Bool × World → Type 0 where
  kept : (w' : World) → w'.files ≡ w.files → Renamed from to w (done false, w')
  moved :
      (b : Bytes) (w' : World)
      → w.files from ≡ some b
      → w'.files ≡ update (update w.files to (some b)) from none
      → Renamed from to w (done true, w')

pub rename-Renamed : (from to : Bytes) (w : World) → Renamed from to w (rename from to w)
unfolding rename
rename-Renamed from to w = cases (head_fault w.faults) (w.files from) refl
  where
    cases :
        (f : Option ℕ) (o : Option Bytes)
        → w.files from ≡ o
        → Renamed from to w ((if succeeds f then move from to o else return false) (next w))
    cases (some n) o e = kept _ refl
    cases none none e = kept _ refl
    cases none (some b) e = moved b _ e refl

pub ruleset frame_rules = (
  pure_rules, ReadOnly-attempt, ReadOnly-attempts, ReadOnly-open_read, ReadOnly-rand_bytes,
  Frame-if, Frame-bind, Frame-ReadOnly, Frame-open_write, Frame-fwrite, Frame-write_chunks,
  Frame-fclose, Frame-write_file, Frame-remove,
)
