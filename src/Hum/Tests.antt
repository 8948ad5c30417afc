-- ===== src/Hum/Tests.antt =====
-- The theorems about the settings of syn-hum at concrete inputs.
use syn_os.Common.{
  if◌then◌else◌, ◌≡◌, refl, arith, true, none, some, [], ◌∷◌, Bytes, codes, bytes_eq,
}
use syn_os.Io.{World, done}
use syn_os.Cstring.{starts_with, skip_space}
use syn_os.Hum.Conf.{
  Conf, defaults, set_mute, muted, in_list, is_volume, load, conf_lines, conf_line, conf_key,
  two_words, word, style_find, index_from,
}
use syn_os.Hum.Conf.Valid.{Valid, Distinct, load-Valid}

abbrev home_conf : Bytes
home_conf = codes "/home/syn/.config/syn-os/hum.conf"

abbrev home_world : World
home_world = record {
  files = λ path.
      if bytes_eq path home_conf
      then some (codes "# mine\nstyle techno\nvolume huge\nmute jackal\nmute jackal\n")
      else none;
  faults = [];
  entropy = λ i. 0;
}

load-Valid_example : (c : Conf) × ((load home_conf home_world).0 ≡ done c) × Valid c
load-Valid_example = load-Valid home_conf home_world

conf_run :
    conf_lines defaults (
      codes "# mine\n"
      ∷ codes "style techno\n"
      ∷ codes "volume huge\n"
      ∷ codes "mute jackal\n"
      ∷ codes "mute jackal\n"
      ∷ [])
    ≡ record { style = 5; volume = codes "normal"; crew = true; mute = codes "jackal" ∷ [] }
unfolding conf_lines conf_line starts_with two_words word skip_space conf_key style_find index_from
    is_volume bytes_eq set_mute muted in_list
conf_run = refl

abbrev one_muted : Conf
one_muted = record defaults { mute = codes "jackal" ∷ [] }

Valid-one_muted : Valid one_muted
unfolding Distinct is_volume bytes_eq in_list
Valid-one_muted = record {
  style = omega arith;
  volume = refl;
  count = omega arith;
  fits = (omega arith, tt);
  distinct = (refl, tt);
}
