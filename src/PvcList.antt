-- ===== src/PvcList.antt =====
-- state_transfer/transfer/pvc_list.go: managed lists of pairs of PersistentVolumeClaims, and the
-- pairs of names of state_transfer/meta/name.go. A nil pointer or interface is `none`.
pub mod Laws
pub mod Groups
pub mod Namespaces
mod Tests
use crane_lib.Base.{
  String, Bool, true, false, not, ◌&&◌, ◌||◌, Option, none, some, List, [], ◌∷◌, ◌++◌,
}
use crane_lib.Base.{Result, ok, err, panic, ◌>>=◌, ◌==◌, string_eq, if◌then◌else◌, contains}
use crane_lib.Base.Dict
use crane_lib.Base.Dict.{Dict}
use crane_lib.Cluster.{NamespacedName}

-- The fields of a PersistentVolumeClaim that are read.
pub record Claim : Type 0 where
  pub namespace : String
  pub name : String
  pub annotations : Dict String String
  pub volume_mode : Option String

-- The interface `PVC`, which holds a pointer.
abbrev pub Pvc : Type 0
Pvc = Option (Option Claim)

pub record PvcPair : Type 0 where
  pub src : Pvc
  pub dest : Pvc

-- `PVCPairList`, whose entries are an interface.
abbrev pub PvcPairList : Type 0
PvcPairList = List (Option PvcPair)

unfoldable pub new_pvc_pair : Option Claim → Option Claim → PvcPair
new_pvc_pair src none = record { src = some src; dest = some src }
new_pvc_pair src (some dest) = record { src = some src; dest = some (some dest) }

is_kubevirt : Option String → Bool
is_kubevirt none = false
is_kubevirt (some v) = v == "kubevirt"

is_block : Option String → Bool
is_block none = false
is_block (some mode) = mode == "Block"

unfoldable pub is_block_or_vm_disk : Option Claim → Bool
unfolding is_block is_kubevirt
is_block_or_vm_disk none = false
is_block_or_vm_disk (some claim) =
    is_block claim.volume_mode
    || is_kubevirt (Dict.lookup "cdi.kubevirt.io/storage.contentType" claim.annotations)

-- `p.Source()` of an entry, `newPvc.dest`, and their `Claim()`.
pub record Filled : Type 0 where
  pub source : Option Claim
  pub destination : Option Claim

unfoldable pub fill : Option PvcPair → Result Filled
fill none = panic
fill (some p) = elim p.src [
  | none ↦ err "source pvc definition cannot be nil"
  | some source ↦ elim p.dest [
    | none ↦ ok (record { source = source; destination = source })
    | some destination ↦ ok (record { source = source; destination = destination })
  ]
]

unfoldable pub to_pair : Filled → Option PvcPair
to_pair f = some (record { src = some f.source; dest = some f.destination })

-- Whether both claims are of the wanted sort.
unfoldable pub both : Bool → Filled → Bool
both true f = is_block_or_vm_disk f.source && is_block_or_vm_disk f.destination
both false f = not (is_block_or_vm_disk f.source) && not (is_block_or_vm_disk f.destination)

unfoldable pub differ : Filled → Bool
differ f =
    (is_block_or_vm_disk f.source && not (is_block_or_vm_disk f.destination))
    || (not (is_block_or_vm_disk f.source) && is_block_or_vm_disk f.destination)

-- The loop that the two constructors share, but for the test of `both`.
unfoldable pub pair_list : Bool → PvcPairList → Result PvcPairList
unfolding both differ fill to_pair
pair_list block [] = ok []
pair_list block (p ∷ rest) =
    let others = pair_list block rest in
    fill p >>= λ f.
    if differ f
    then err "source and destination must be the same type of volume"
    else others >>= λ pairs. ok (if both block f then to_pair f ∷ pairs else pairs)

unfoldable pub new_block_or_vm_disk_pvc_pair_list : PvcPairList → Result PvcPairList
unfolding pair_list
new_block_or_vm_disk_pvc_pair_list pvcs = pair_list true pvcs

unfoldable pub new_filesystem_pvc_pair_list : PvcPairList → Result PvcPairList
unfolding pair_list
new_filesystem_pvc_pair_list pvcs = pair_list false pvcs

-- `pvcPair.Source().Claim()`, whose fields are read next.
unfoldable pub source_claim : Option PvcPair → Result Claim
source_claim none = panic
source_claim (some p) = elim p.src [
  | none ↦ panic
  | some source ↦ elim source [ none ↦ panic | some claim ↦ ok claim ]
]

unfoldable pub destination_claim : Option PvcPair → Result Claim
destination_claim none = panic
destination_claim (some p) = elim p.dest [
  | none ↦ panic
  | some destination ↦ elim destination [ none ↦ panic | some claim ↦ ok claim ]
]

-- The pairs whose claim is in a namespace; `claim` picks the side.
unfoldable pub in_namespace :
    (Option PvcPair → Result Claim) → String → PvcPairList → Result PvcPairList
in_namespace claim ns [] = ok []
in_namespace claim ns (p ∷ rest) =
    let others = in_namespace claim ns rest in
    claim p >>= λ c. others >>= λ pairs. ok (if c.namespace == ns then p ∷ pairs else pairs)

unfoldable pub in_source_namespace : PvcPairList → String → Result PvcPairList
unfolding in_namespace source_claim
in_source_namespace p ns = in_namespace source_claim ns p

unfoldable pub in_destination_namespace : PvcPairList → String → Result PvcPairList
unfolding in_namespace destination_claim
in_destination_namespace p ns = in_namespace destination_claim ns p

-- The first pair whose source has the name.
unfoldable pub get_source_pvc : PvcPairList → NamespacedName → Result (Option (Option PvcPair))
unfolding source_claim
get_source_pvc [] name = ok none
get_source_pvc (p ∷ rest) name =
    let others = get_source_pvc rest name in
    source_claim p >>= λ c.
    if (c.namespace == name.namespace) && (c.name == name.name) then ok (some p) else others

-- One round of `GroupBySourceNamespaces`: a new namespace gets an empty list.
unfoldable pub group_one :
    String → Option PvcPair → Dict String PvcPairList → Dict String PvcPairList
group_one ns p m = elim (Dict.lookup ns m) [
  | none ↦ Dict.insert ns [] m
  | some pairs ↦ Dict.insert ns (pairs ++ (p ∷ [])) m
]

unfoldable pub group_pairs :
    Dict String PvcPairList → PvcPairList → Result (Dict String PvcPairList)
unfolding group_one source_claim
group_pairs m [] = ok m
group_pairs m (p ∷ rest) = source_claim p >>= λ c. group_pairs (group_one c.namespace p m) rest

unfoldable pub group_by_source_namespaces : PvcPairList → Result (Dict String PvcPairList)
unfolding group_pairs
group_by_source_namespaces p = group_pairs [] p

-- Whether the three nil tests of `GetSourceNamespaces` pass.
unfoldable pub has_source : Option PvcPair → Bool
has_source none = false
has_source (some p) = elim p.src [
  | none ↦ false
  | some source ↦ elim source [ none ↦ false | some claim ↦ true ]
]

-- The loops of `GetSourceNamespaces` and `GetDestinationNamespaces`; `claim` picks the side. Both
-- look at the source before they read.
unfoldable pub namespaces_from :
    (Option PvcPair → Result Claim) → List String → PvcPairList → Result (List String)
unfolding has_source
namespaces_from claim seen [] = ok seen
namespaces_from claim seen (p ∷ rest) =
    let same = namespaces_from claim seen rest in
    if has_source p
    then (claim p >>= λ c. elim (contains seen c.namespace) [
      | true ↦ same
      | false ↦ namespaces_from claim (seen ++ (c.namespace ∷ [])) rest
    ])
    else same

unfoldable pub get_source_namespaces : PvcPairList → Result (List String)
unfolding namespaces_from source_claim
get_source_namespaces p = namespaces_from source_claim [] p

unfoldable pub get_destination_namespaces : PvcPairList → Result (List String)
unfolding namespaces_from destination_claim
get_destination_namespaces p = namespaces_from destination_claim [] p

pub record NamespacedPair : Type 0 where
  pub src : NamespacedName
  pub dest : NamespacedName

-- An empty part of the destination is that of the source.
unfoldable pub new_namespaced_pair : NamespacedName → NamespacedName → NamespacedPair
new_namespaced_pair src dest = record {
  src = src;
  dest = record {
    namespace = if dest.namespace == "" then src.namespace else dest.namespace;
    name = if dest.name == "" then src.name else dest.name;
  };
}
