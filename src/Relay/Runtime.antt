-- ===== src/Relay/Runtime.antt =====
-- The small files under $XDG_RUNTIME_DIR in which the roles of syn-relay keep their state: their
-- paths, and the calls of <stdio.h> by which they are written and read.
pub mod Laws
use syn_os.Common.{
  ℕ, Bool, true, false, Option, none, some, [], ◌∷◌, ◌++◌, Bytes, codes, if◌then◌else◌,
}
use syn_os.Io.{Call, ◌>>=◌, ◌>>◌, return, try, open_read, open_write, fwrite, fclose}
use syn_os.Cstring.{snprintf_s}

-- `getenv("XDG_RUNTIME_DIR")`, and what stands in for it when it is not set
unfoldable pub runtime_dir : Option Bytes → Bytes
runtime_dir none = codes "/tmp"
runtime_dir (some dir) = dir

-- `snprintf(out, 512, "%s/%s", runtime_dir, filename)`
unfoldable pub runtime_path : Option Bytes → Bytes → Bytes
runtime_path env filename = snprintf_s 512 (runtime_dir env ++ (codes "/" ++ filename))

-- `fprintf(f, ..)`, whose result the programs do not look at
unfoldable pub fprintf : Bytes → Bytes → Call (Unit {0})
unfolding return
fprintf path text = do _ ← fwrite path text; return tt

-- `f = fopen(path, "w")`, and whether it is not NULL
unfoldable pub fopen_w : Bytes → Call Bool
unfolding return
fopen_w path = do f ← try (open_write path); return (is_open f)
  where
    is_open : Option (Unit {0}) → Bool
    is_open none = false
    is_open (some _) = true

-- `f = fopen(path, "r")`, with the bytes that it will read
unfoldable pub fopen_r : Bytes → Call (Option Bytes)
fopen_r path = try (open_read path)

-- `f = fopen(path, "w"); if (!f) return false; fprintf(f, ..); fclose(f);`
unfoldable pub print_file : Bytes → Bytes → Call Bool
unfolding return
print_file path text = do
  f ← fopen_w path
  if f then (do fprintf path text; fclose path; return true) else return false
