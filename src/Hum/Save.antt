-- ===== src/Hum/Save.antt =====
-- syn_hum_conf.c: the place of hum.conf and the writing of it, through a file beside it.
pub mod Lines
pub mod Reload
pub mod Atomic
pub mod RoundTrip
use mathlib.Core.Option
use syn_os.Common.{
  ℕ, zero, suc, Bool, true, false, Option, none, some, List, [], ◌∷◌, ◌++◌, Bytes, codes,
  if◌then◌else◌, get_elem?,
}
use syn_os.Io.{
  World, Call, ◌>>=◌, ◌>>◌, return, fault, succeeds, update, written, store, rename, remove, try,
}
use syn_os.Cstring.{snprintf_s}
use syn_os.Relay.Runtime.{fopen_w}
use syn_os.Hum.Conf.{Conf, styles, load}

-- `getenv(..)`, "" where it is not set
unfoldable pub or_empty : Option Bytes → Bytes
or_empty none = []
or_empty (some b) = b

-- `conf_dir`: the values of XDG_CONFIG_HOME and HOME
unfoldable pub conf_dir : ℕ → Option Bytes → Option Bytes → Bytes
conf_dir size (some (c ∷ config)) home = snprintf_s size ((c ∷ config) ++ codes "/syn-os")
conf_dir size _ home = snprintf_s size (or_empty home ++ codes "/.config/syn-os")

unfoldable pub conf_path : Option Bytes → Option Bytes → Bytes
conf_path config home = snprintf_s 4096 (conf_dir 4080 config home ++ codes "/hum.conf")

abbrev pub new_path : Bytes → Bytes
new_path path = snprintf_s 4104 (path ++ codes ".new")

-- `SYN_HUM_STYLES[style].name`
unfoldable pub style_name : ℕ → Bytes
style_name style = name (get_elem? styles style)
  where
    name : Option Bytes → Bytes
    name none = []
    name (some n) = n

abbrev pub on_off : Bool → Bytes
on_off true = codes "on"
on_off false = codes "off"

abbrev pub comments : List Bytes
comments =
    codes "# syn-hum, the acoustic monitor: how it sounds. Set from the menu"
    ∷ codes "# (Preferences > Desktop > Acoustic Monitor) or with `syn-hum set`."
    ∷ codes "# style: uplink, phreak, hacker, harmonic, deep, techno or bytebeat"
    ∷ codes "# (`syn-hum styles` says what each plays). volume: quiet, normal or loud."
    ∷ codes "# crew: on or off, the crew's bed (techno); mute ID leaves one member out."
    ∷ []

unfoldable pub mute_lines : List Bytes → List Bytes
mute_lines [] = []
mute_lines (id ∷ list) = (codes "mute " ++ id) ∷ mute_lines list

-- The lines that are printed, without their ends.
unfoldable pub printed_lines : Conf → List Bytes
printed_lines c =
    comments
    ++ ((codes "style " ++ style_name c.style)
        ∷ (codes "volume " ++ c.volume)
        ∷ (codes "crew " ++ on_off c.crew)
        ∷ mute_lines c.mute)

unfoldable pub with_ends : List Bytes → Bytes
with_ends [] = []
with_ends (line ∷ lines) = line ++ (10 ∷ with_ends lines)

-- `fclose(f) == 0` on a file to which `text` was printed. It is less than the stream's buffer holds,
-- so `fclose` is what writes it.
unfoldable pub flush_close : Bytes → Bytes → Call Bool
unfolding ◌>>=◌ return
flush_close path text w =
    (do
      f ← fault
      store path (Option.map (λ c. written f c text) (w.files path))
      return (succeeds f))
      w

-- `unlink(tmp); return -1;` or the rename
unfoldable pub replace : Bytes → Bytes → Bool → Call Bool
unfolding return
replace tmp path true = rename tmp path
replace tmp path false = do remove tmp; return false

unfoldable pub write_new : Bytes → Bytes → Bytes → Bool → Call Bool
unfolding return
write_new tmp path text false = return false
write_new tmp path text true = do closed ← flush_close tmp text; replace tmp path closed

unfoldable pub save_at : Bytes → Bytes → Bool → Call Bool
unfolding return
save_at path text false = return false
save_at path text true = do
  opened ← fopen_w (new_path path)
  write_new (new_path path) path text opened

-- `syn_hum_conf_save(c) == 0`. The first fault is that of `mkdir`, other than EEXIST.
unfoldable pub save : Option Bytes → Option Bytes → Conf → Call Bool
save config home c = do
  made ← fault
  save_at (conf_path config home) (with_ends (printed_lines c)) (succeeds made)

-- `syn_hum_conf_load` from that place
unfoldable pub load_conf : Option Bytes → Option Bytes → Call Conf
load_conf config home = load (conf_path config home)
