-- ===== src/Transform/Grouping/Laws.antt =====
-- Grouping loses no resource and keeps their order within a type.
use mathlib.Core.List.{Perm}
use mathlib.Core.List.Perm
use crane_lib.Base.{ok-injective, String, Bool, false, List, [], ◌∷◌, ◌++◌, append_assoc}
use crane_lib.Base.{if◌then◌else◌, ◌==◌, string_eq, Result, ok, err, panic, >>=-eq-ok, ◌≡◌}
use crane_lib.Base.{
  refl, ap, sym, subst, ◌∙◌, arith, keep, Bool-cases, Option-cases, inl, inr, append-nil,
}
use crane_lib.Base.Dict
use crane_lib.Base.Dict.{Dict}
use crane_lib.Sorting.Laws.{IsSorted, sort_by-IsSorted, sort_by-perm}
use crane_lib.Transform.ApiVersion.{Getters, get_resource_type_key}
use crane_lib.Transform.Grouping.{
  ResourceGroup, append_at, to_group, to_groups, collect, group_resources_by_type,
}
use mathlib.Core.Option

-- The list under a key; nil if the key is missing.
abbrev pub at {ℓ} : {U : Type ℓ} → String → Dict String (List U) → List U
at k m = Option.get_or (Dict.lookup k m) []

regroup {ℓ} :
    {U : Type ℓ} (k j : String) (r : U) (front back : List U)
    → (if k == j then front ++ (r ∷ []) else front) ++ back
      ≡ front ++ (if k == j then r ∷ back else back)
regroup k j r front back = elim (Bool-cases (k == j)) [
  | inl same ↦ rw same (append_assoc front (r ∷ []) back)
  | inr other ↦ rw other
]

-- Whether a resource whose type key is computed by the result is of the type.
unfoldable pub is_key : String → Result String → Bool
is_key k (ok j) = k == j
is_key k (err e) = false
is_key k panic = false

keep-if {ℓ} :
    {U : Type ℓ} (p : U → Bool) (b : Bool) (r : U) (rs : List U)
    → p r ≡ b
    → keep p (r ∷ rs) ≡ (if b then r ∷ keep p rs else keep p rs)
keep-if p b r rs e = rw e refl

module _ {U : Type 0} (get : Getters U) where
  -- Whether a resource is of the type.
  abbrev pub has_key : String → U → Bool
  has_key k resource = is_key k (get_resource_type_key get resource)

  at-append_at :
      (k j : String) (resource : U) (m : Dict String (List U))
      → at k (append_at j resource m) ≡ (if k == j then at k m ++ (resource ∷ []) else at k m)
  unfolding append_at
  at-append_at k j resource m = elim (Option-cases (Dict.lookup j m)) [
    | inl fresh ↦ rw (fresh, append_at) (ground (arith, Dict.lookup-insert k j (resource ∷ []) m))
    | inr (old, found) ↦
        rw (found, append_at) (ground (arith, Dict.lookup-insert k j (old ++ (resource ∷ [])) m))
  ]

  append_at-NodupKeys :
      (j : String) (resource : U) (m : Dict String (List U))
      → Dict.NodupKeys m
      → Dict.NodupKeys (append_at j resource m)
  unfolding append_at
  append_at-NodupKeys j resource m u = elim (Option-cases (Dict.lookup j m)) [
    | inl fresh ↦ rw (fresh, append_at) (Dict.insert-NodupKeys j _ m u)
    | inr (old, found) ↦ rw (found, append_at) (Dict.insert-NodupKeys j _ m u)
  ]

  keep-named :
      (k j : String) (r : U) (rs : List U)
      → get_resource_type_key get r ≡ ok j
      → keep (has_key k) (r ∷ rs)
        ≡ (if k == j then r ∷ keep (has_key k) rs else keep (has_key k) rs)
  unfolding is_key
  keep-named k j r rs named = keep-if (has_key k) (k == j) r rs (ap (is_key k) named)

  at-collect :
      (k : String) (resources : List U) (m m' : Dict String (List U))
      → collect get m resources ≡ ok m'
      → at k m' ≡ at k m ++ keep (has_key k) resources
  unfolding collect
  at-collect k [] m m' h = rw append-nil (ground arith)
  at-collect k (r ∷ rs) m m' h =
      let (j, named, rest) = >>=-eq-ok (get_resource_type_key get r) _ h in
      at-collect k rs (append_at j r m) m' rest
      ∙ rw (at-append_at k j r m) (regroup k j r (at k m) (keep (has_key k) rs))
      ∙ ap (λ (l : List U). at k m ++ l) (sym (keep-named k j r rs named))

  collect-NodupKeys :
      (resources : List U) (m m' : Dict String (List U))
      → Dict.NodupKeys m
      → collect get m resources ≡ ok m'
      → Dict.NodupKeys m'
  unfolding collect
  collect-NodupKeys [] m m' u h = ground arith
  collect-NodupKeys (r ∷ rs) m m' u h =
      let (j, named, rest) = >>=-eq-ok (get_resource_type_key get r) _ h in
      collect-NodupKeys rs (append_at j r m) m' (append_at-NodupKeys j r m u) rest

  to_groups-perm : (m m' : Dict String (List U)) → Perm m m' → Perm (to_groups m) (to_groups m')
  unfolding to_groups
  to_groups-perm m m' p = Perm.map to_group p

  -- The groups come in ascending order of their keys. They are the entries of a map with no key
  -- twice that holds under each key the resources of that type, in the order of the input. So no
  -- resource is lost and none is put under two keys, in whichever order the map is ranged over.
  pub group_resources_by_type_lem :
      (iterate : Dict String (List U) → Dict String (List U)) (resources : List U)
      (groups : List (ResourceGroup U))
      → ((m : Dict String (List U)) → Perm (iterate m) m)
      → group_resources_by_type get iterate resources ≡ ok groups
      → (m : Dict String (List U)) × Dict.NodupKeys m
        × Perm groups (to_groups m)
        × IsSorted (λ g. g.type_key) groups
        × ((k : String) → at k m ≡ keep (has_key k) resources)
  unfolding group_resources_by_type Dict.lookup
  group_resources_by_type_lem iterate resources groups order h =
      let (m, collected, done) = >>=-eq-ok (collect get [] resources) _ h in
      (
        m,
        collect-NodupKeys resources [] m tt collected,
        subst (λ gs. Perm gs (to_groups m)) (ok-injective _ groups done)
            (Perm.trans (sort_by-perm _ (to_groups (iterate m))) (to_groups-perm _ _ (order m))),
        subst (IsSorted (λ g. g.type_key)) (ok-injective _ groups done)
            (sort_by-IsSorted _ (to_groups (iterate m))),
        λ k. at-collect k resources [] m collected,
      )
