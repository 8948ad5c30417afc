-- ===== src/IsoBuilder/Edition/Tests.antt =====
-- The theorems about the editions at concrete inputs.
use syn_os.Common.{
  ℕ, ◌≤◌, ◌≡◌, refl, arith, Bool, not, Option, none, some, List, [], ◌∷◌, ◌++◌, Bytes, codes,
  bytes_eq, length, if◌then◌else◌,
}
use syn_os.IsoBuilder.Edition.{
  Edition, blank_edition, edition_list, edition_read_state, read_editions, sort_names, conf_names,
  is_syn, is_conf, insert_name, strcmp_le,
}
use syn_os.IsoBuilder.Edition.Listed.{edition_list-sorted}
use syn_os.IsoBuilder.Edition.Names.{InOrder}
use syn_os.IsoBuilder.Edition.Order.{having}
use syn_os.IsoBuilder.Edition.Recovered.{status-recovered, told}
use syn_os.IsoBuilder.Edition.Status.{lfs_status, print_lines, one_line, step_lines, next_step}

abbrev names : List Bytes
names = codes "void.conf" ∷ codes "arch.conf" ∷ codes "README" ∷ codes "syn.conf" ∷ []

-- BUILD.zsh cannot read "arch".
abbrev show : Bytes → Option Bytes
show name =
    if bytes_eq name (codes "syn")
    then some (codes "LayerStrat=syn\n")
    else if bytes_eq name (codes "void")
    then some (codes "LayerStrat=none\n")
    else none

abbrev no_status : Bytes → Option Bytes
no_status name = none

abbrev no_size : Bytes → Option ℕ
no_size path = none

abbrev read : List Edition
read = read_editions show no_status no_size 8 (sort_names (conf_names 64 names))

sorted_names : sort_names (conf_names 64 names) ≡ codes "arch" ∷ codes "syn" ∷ codes "void" ∷ []
unfolding sort_names insert_name strcmp_le conf_names is_conf bytes_eq
sorted_names = refl

edition_list-sorted_example :
    (edition_list show no_status no_size (some names) 8
      ≡ having is_syn read ++ having (λ e. not (is_syn e)) read)
    × InOrder (λ e. e.name) (having is_syn read)
    × InOrder (λ e. e.name) (having (λ e. not (is_syn e)) read)
    × (length read ≤ 8)
edition_list-sorted_example = edition_list-sorted show no_status no_size names 8

abbrev steps : List Bytes
steps = codes "base" ∷ codes "kernel" ∷ codes "iso" ∷ []

abbrev recorded : Bytes → Bool
recorded s = bytes_eq s (codes "base")

abbrev newest : Option (Bytes × Bytes)
newest = some (codes "/w/syn-os-2026-10-08.iso", codes "10-08")

printed :
    lfs_status none recorded steps newest
    ≡ codes "  done     base"
      ∷ codes "  next     kernel"
      ∷ codes "  to come  iso"
      ∷ codes "newest ISO: /w/syn-os-2026-10-08.iso (10-08)"
      ∷ []
unfolding lfs_status step_lines next_step bytes_eq
printed = refl

status-recovered_example :
    (edition_read_state
      (λ name. some (print_lines (lfs_status none recorded steps newest)))
      no_size
      (blank_edition (codes "syn-os-lfs"))).state
    ≡ told no_size none recorded steps newest
unfolding one_line lfs_status step_lines next_step bytes_eq
status-recovered_example =
    status-recovered no_size none recorded steps newest (blank_edition (codes "syn-os-lfs")) tt
      ((refl, omega arith), ((refl, omega arith), ((refl, omega arith), tt))) (refl, refl)
      ((refl, refl), ((refl, refl), ((refl, refl), ((refl, refl), ((refl, refl), tt)))))
      (omega arith)
