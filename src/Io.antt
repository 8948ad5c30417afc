-- ===== src/Io.antt =====
-- The system calls that the programs make, over a world of files with a schedule of faults.
-- Each call that can fail takes the next fault of the schedule, so a statement about every world is
-- one about every way in which the calls can fail. The past of the end of the schedule is faultless.
pub mod Frame
pub mod Clean
pub mod Refuse
pub mod Whole
pub mod Filled
pub mod Steady
use mathlib.Core.Option
use syn_os.Common.{
  ℕ, ◌+◌, zero, suc, Bool, true, false, ◌≡◌, ◌≢◌, Option, none, some, List, [], ◌∷◌, ◌++◌, Bytes,
  bytes_eq, take, if◌then◌else◌,
}

abbrev pub Files : Type 0
Files = Bytes → Option Bytes

-- `files` gives each path's content. `none` in the schedule lets a call succeed; `some n` makes it
-- fail, after `n` bytes where it moves bytes. `entropy` is what the random generator gives next.
pub record World : Type 0 where
  pub files : Files
  pub faults : List (Option ℕ)
  pub entropy : ℕ → ℕ

-- `syn_crypt_status` without SYN_CRYPT_OK, which is `done`.
pub data Status : Type 0 where
  io crypto bad_password corrupt format already_encrypted not_encrypted : Status

pub data Outcome (A : Type 0) : Type 0 where
  done : A → Outcome A
  fail : Status → Outcome A

abbrev pub Call : Type 0 → Type 0
Call A = World → Outcome A × World

abbrev pub continue : {A B : Type 0} → Outcome A → (A → Call B) → Call B
continue (done a) f w = f a w
continue (fail s) f w = (fail s, w)

infixl 5 ◌>>=◌
unfoldable pub ◌>>=◌ : {A B : Type 0} → Call A → (A → Call B) → Call B
◌>>=◌ first rest w = continue (first w).0 rest (first w).1

infixl 5 ◌>>◌
abbrev pub ◌>>◌ : {A : Type 0} → Call (Unit {0}) → Call A → Call A
first >> second = first >>= λ nothing. second

unfoldable pub return : {A : Type 0} → A → Call A
return a w = (done a, w)

unfoldable pub throw : {A : Type 0} → Status → Call A
throw s w = (fail s, w)

-- `if (!test) return s;`
unfoldable pub require : Bool → Status → Call (Unit {0})
unfolding return throw
require true s = return tt
require false s = throw s

abbrev pub recover : {A : Type 0} → Outcome A → Option A
recover (done a) = some a
recover (fail s) = none

-- A failure that the caller only notes.
unfoldable pub try : {A : Type 0} → Call A → Call (Option A)
try m w = (done (recover (m w).0), (m w).1)

-- The status that a call returns, whatever it is.
unfoldable pub outcome : {A : Type 0} → Call A → Call (Outcome A)
outcome m w = (done (m w).0, (m w).1)

abbrev pub head_fault : List (Option ℕ) → Option ℕ
head_fault [] = none
head_fault (f ∷ fs) = f

abbrev pub tail_faults : List (Option ℕ) → List (Option ℕ)
tail_faults [] = []
tail_faults (f ∷ fs) = fs

abbrev pub next : World → World
next w = record w { faults = tail_faults w.faults }

-- The fault that the schedule holds for this call.
abbrev pub fault : Call (Option ℕ)
fault w = (done (head_fault w.faults), next w)

abbrev pub succeeds : Option ℕ → Bool
succeeds none = true
succeeds (some n) = false

-- A call that succeeds or makes the program return `s`: malloc, ftell, a library call.
unfoldable pub attempt : Status → Call (Unit {0})
unfolding ◌>>=◌ require
attempt s = do f ← fault; require (succeeds f) s

-- `ok = ok && call == 1;`, `n` times
unfoldable pub attempts : ℕ → Status → Call (Unit {0})
unfolding return
attempts zero s = return tt
attempts (suc n) s = do attempt s; attempts n s

unfoldable pub lookup_file : Option Bytes → Call Bytes
unfolding return throw
lookup_file none = throw io
lookup_file (some b) = return b

-- `fopen(path, "rb")`, with the bytes that the handle will read
unfoldable pub open_read : Bytes → Call Bytes
unfolding attempt lookup_file
open_read path w = (do attempt io; lookup_file (w.files path)) w

-- `files[path] = content`
abbrev pub update : Files → Bytes → Option Bytes → Files
update fs path content q = if bytes_eq path q then content else fs q

abbrev pub store : Bytes → Option Bytes → Call (Unit {0})
store path content w = (done tt, record w { files = update w.files path content })

-- `fopen(path, "wb")`
unfoldable pub open_write : Bytes → Call (Unit {0})
unfolding attempt
open_write path = do attempt io; store path (some [])

-- `content` with the bytes of `chunk` that a write with this fault adds
abbrev pub written : Option ℕ → Bytes → Bytes → Bytes
written none content chunk = content ++ chunk
written (some n) content chunk = content ++ take n chunk

-- `fwrite(chunk, 1, n, out) == n`
unfoldable pub fwrite : Bytes → Bytes → Call Bool
unfolding ◌>>=◌ return
fwrite path chunk w =
    (do
      f ← fault
      store path (Option.map (λ c. written f c chunk) (w.files path))
      return (succeeds f))
      w

-- `fwrite(..) == .. && fwrite(..) == .. && ..`
unfoldable pub write_chunks : Bytes → List Bytes → Call Bool
unfolding return
write_chunks path [] = return true
write_chunks path (c ∷ cs) = do b ← fwrite path c; if b then write_chunks path cs else return false

-- `len == 0 || fwrite(data, 1, len, out) == len`
abbrev pub unless_empty : Bytes → List Bytes
unless_empty [] = []
unless_empty (x ∷ xs) = (x ∷ xs) ∷ []

abbrev pub kept : Option ℕ → Bytes → Bytes
kept none content = content
kept (some n) content = take n content

-- `fclose(out)`: what is still buffered may be lost, and the programs do not look.
unfoldable pub fclose : Bytes → Call (Unit {0})
unfolding ◌>>=◌ return
fclose path w = (do f ← fault; store path (Option.map (kept f) (w.files path))) w

-- `remove(path)`, its result not looked at
unfoldable pub remove : Bytes → Call (Unit {0})
unfolding ◌>>=◌ return
remove path = do f ← fault; if succeeds f then store path none else return tt

unfoldable pub move : Bytes → Bytes → Option Bytes → Call Bool
unfolding return ◌>>=◌
move from to none = return false
move from to (some b) = do store to (some b); store from none; return true

-- `rename(from, to) == 0`
unfoldable pub rename : Bytes → Bytes → Call Bool
unfolding ◌>>=◌ return move
rename from to w =
    (do f ← fault; if succeeds f then move from to (w.files from) else return false) w

unfoldable pub tabulate : ℕ → (ℕ → ℕ) → Bytes
tabulate zero f = []
tabulate (suc n) f = f 0 ∷ tabulate n (λ i. f (suc i))

abbrev pub draw : ℕ → Call Bytes
draw n w = (done (tabulate n w.entropy), record w { entropy = λ i. w.entropy (i + n) })

-- `RAND_bytes(buf, n)`
unfoldable pub rand_bytes : ℕ → Call Bytes
unfolding attempt
rand_bytes n = do attempt crypto; draw n

-- `out = fopen(path, "wb"); wrote_ok = fwrite(..) && ..; fclose(out)`, by which the programs write a
-- file: the result is SYN_CRYPT_ERR_IO unless every byte was taken.
unfoldable pub write_file : Bytes → List Bytes → Call (Unit {0})
write_file path chunks = do
  open_write path
  wrote_ok ← write_chunks path chunks
  fclose path
  require wrote_ok io
