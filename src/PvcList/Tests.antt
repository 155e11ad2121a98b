-- ===== src/PvcList/Tests.antt =====
-- Managed lists of two and three pairs.
use crane_lib.Base.{
  String, true, false, not, Option, some, List, [], ◌∷◌, map, keep, All, any, contains,
}
use crane_lib.Base.{ok, ◌≡◌, refl, string_eq}
use crane_lib.Base.Dict
use crane_lib.Base.Dict.{Dict}
use crane_lib.PvcList.{
  Claim, PvcPair, PvcPairList, Filled, to_pair, both, is_block_or_vm_disk, in_source_namespace,
  group_by_source_namespaces, new_block_or_vm_disk_pvc_pair_list, new_filesystem_pvc_pair_list,
  get_source_namespaces,
}
use crane_lib.PvcList.Laws.{fills, pair_lists-split}
use crane_lib.PvcList.Groups.{tail, group_by_source_namespaces-tail}
use crane_lib.PvcList.Namespaces.{Distinct, comes_from, get_source_namespaces_lem}

abbrev claim : String → String → String → Claim
claim namespace name mode = record {
  namespace = namespace;
  name = name;
  annotations = [];
  volume_mode = some mode;
}

abbrev pair : Claim → Option PvcPair
pair c = some (record { src = some (some c); dest = some (some c) })

abbrev disk : Option PvcPair
disk = pair (claim "shop" "disk" "Block")

abbrev files : Option PvcPair
files = pair (claim "shop" "files" "Filesystem")

abbrev pairs : PvcPairList
pairs = disk ∷ files ∷ []

disks : new_block_or_vm_disk_pvc_pair_list pairs ≡ ok (disk ∷ [])
unfolding new_block_or_vm_disk_pvc_pair_list is_block_or_vm_disk string_eq Dict.lookup
disks = refl

pair_lists-split_example :
    (fs : List Filled) × (fills pairs ≡ ok fs)
    × ((disk ∷ []) ≡ map to_pair (keep (both true) fs))
    × (new_filesystem_pvc_pair_list pairs ≡ ok (map to_pair (keep (both false) fs)))
    × All (λ f. both false f ≡ not (both true f)) fs
pair_lists-split_example = pair_lists-split pairs (disk ∷ []) disks

abbrev groups : Dict String PvcPairList
groups = ("shop", files ∷ []) ∷ []

grouped : group_by_source_namespaces pairs ≡ ok groups
unfolding group_by_source_namespaces Dict.lookup Dict.insert string_eq
grouped = refl

in_shop : in_source_namespace pairs "shop" ≡ ok pairs
unfolding in_source_namespace string_eq
in_shop = refl

group_by_source_namespaces-tail_example : Dict.lookup "shop" groups ≡ tail pairs
group_by_source_namespaces-tail_example =
    group_by_source_namespaces-tail pairs pairs groups "shop" grouped in_shop

get_source_namespaces_lem_example :
    (found : List String) × (get_source_namespaces pairs ≡ ok found)
    × Distinct found
    × ((ns : String) → contains found ns ≡ any (comes_from ns) pairs)
get_source_namespaces_lem_example = get_source_namespaces_lem pairs
