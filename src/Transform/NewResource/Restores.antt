-- ===== src/Transform/NewResource/Restores.antt =====
-- Applying the patch to the skeleton gives the resource back.
use crane_lib.Base.{String, false, none, some, [], ◌++◌, if◌then◌else◌, ◌==◌, ==→eq}
use crane_lib.Base.{
  string_eq, ◌≡◌, ◌≢◌, refl, ap, sym, ◌∙◌, subst, arith, Bool-cases, Option-cases, inl, inr,
}
use crane_lib.Base.Dict
use crane_lib.Base.Dict.{Dict}
use crane_lib.Transform.NewResource.{
  Node, fields, value, as_fields, copy_key, sorted_keys, skeleton_metadata, build_skeleton,
  missing_ops, build_patch_ops,
}
use crane_lib.Transform.NewResource.Applies.{
  apply_ops, filled, HoldsMetadata, apply-top, apply-metadata,
}
use crane_lib.Transform.NewResource.Filled.{filled-full, filled-kept}

-- What a map holds, another holds too.
IsWithin : {W : Type 0} → Dict String W → Dict String W → Type 0
IsWithin {W = W} s f = (k : String) (v : W) → Dict.lookup k s ≡ some v → Dict.lookup k f ≡ some v

copy_key-absent :
    {W : Type 0} (key : String) (full skel : Dict String W)
    → Dict.lookup key full ≡ none
    → copy_key key full skel ≡ skel
unfolding copy_key
copy_key-absent key full skel h = rw (h, copy_key) refl

copy_key-held :
    {W : Type 0} (key : String) (full skel : Dict String W) (w : W)
    → Dict.lookup key full ≡ some w
    → copy_key key full skel ≡ Dict.insert key w skel
unfolding copy_key
copy_key-held key full skel w h = rw (h, copy_key) refl

inserted-IsWithin :
    {W : Type 0} (key k : String) (full skel : Dict String W) (w v : W)
    → IsWithin skel full
    → Dict.lookup key full ≡ some w
    → Dict.lookup k (Dict.insert key w skel) ≡ some v
    → Dict.lookup k full ≡ some v
unfolding IsWithin
inserted-IsWithin key k full skel w v within held h =
    ground (arith, within k v, Dict.lookup-insert k key w skel)

copy_key-IsWithin :
    {W : Type 0} (key : String) (full skel : Dict String W)
    → IsWithin skel full
    → IsWithin (copy_key key full skel) full
unfolding IsWithin
copy_key-IsWithin key full skel within k v h = elim (Option-cases (Dict.lookup key full)) [
  | inl absent ↦ within k v (sym (ap (Dict.lookup k) (copy_key-absent key full skel absent)) ∙ h)
  | inr (w, held) ↦
      inserted-IsWithin key k full skel w v within held
        (sym (ap (Dict.lookup k) (copy_key-held key full skel w held)) ∙ h)
]

nil-IsWithin : {W : Type 0} (full : Dict String W) → IsWithin [] full
unfolding IsWithin Dict.lookup
nil-IsWithin full k v h = absurd (ground (arith, h))

ne_of_other : (a b : String) → (a == b) ≡ false → a ≢ b
ne_of_other a b other e = absurd (ground (arith, other))

module _ {V : Type 0} where
  skeleton_metadata-IsWithin : (full : Dict String V) → IsWithin (skeleton_metadata full) full
  unfolding skeleton_metadata
  skeleton_metadata-IsWithin full =
      copy_key-IsWithin "namespace" full (copy_key "name" full [])
        (copy_key-IsWithin "name" full [] (nil-IsWithin full))

  -- The skeleton but for its metadata.
  base : Dict String (Node V) → Dict String (Node V)
  base full = copy_key "kind" full (copy_key "apiVersion" full [])

  base-IsWithin : (full : Dict String (Node V)) → IsWithin (base full) full
  unfolding base
  base-IsWithin full =
      copy_key-IsWithin "kind" full (copy_key "apiVersion" full [])
        (copy_key-IsWithin "apiVersion" full [] (nil-IsWithin full))

  build_skeleton-metadata :
      (full : Dict String (Node V)) (m : Dict String V)
      → Dict.lookup "metadata" full ≡ some (fields m)
      → build_skeleton full ≡ Dict.insert "metadata" (fields (skeleton_metadata m)) (base full)
  unfolding build_skeleton base as_fields
  build_skeleton-metadata full m h = rw (h, build_skeleton) refl

  build_patch_ops-metadata :
      (full skel : Dict String (Node V)) (m s : Dict String V)
      → Dict.lookup "metadata" full ≡ some (fields m)
      → Dict.lookup "metadata" skel ≡ some (fields s)
      → build_patch_ops full skel
        ≡ missing_ops value "/metadata/" m s (sorted_keys m)
          ++ missing_ops (λ v. v) "/" full skel (sorted_keys full)
  unfolding build_patch_ops as_fields
  build_patch_ops-metadata full skel m s h k = rw (k, build_patch_ops) (rw h refl)

  -- The object holds what the full one holds, key by key, also inside its metadata.
  unfoldable pub Restored : Dict String (Node V) → Dict String V → Dict String (Node V) → Type 0
  Restored full m d =
      (m' : Dict String V) × ((k : String)
        → Dict.lookup k d ≡ (if k == "metadata" then some (fields m') else Dict.lookup k full))
      × ((k : String) → Dict.lookup k m' ≡ Dict.lookup k m)

  -- The completed top level, key by key.
  restored-key :
      (full : Dict String (Node V)) (s m' : Dict String V) (d : Dict String (Node V))
      → HoldsMetadata (Dict.insert "metadata" (fields s) (base full)) m' d
      → (k : String)
      → Dict.lookup k
          (filled full (Dict.insert "metadata" (fields s) (base full)) (sorted_keys full) d)
        ≡ (if k == "metadata" then some (fields m') else Dict.lookup k full)
  unfolding HoldsMetadata IsWithin
  restored-key full s m' d (meta, others) k =
      let skel = Dict.insert "metadata" (fields s) (base full) in
      elim (Bool-cases (k == "metadata")) [
        | inl same ↦ rw same (
            subst (λ j. Dict.lookup j (filled full skel (sorted_keys full) d) ≡ some (fields m'))
              (sym (==→eq k "metadata" same))
              (filled-kept full skel "metadata" (sorted_keys full) d (fields s)
                  (Dict.lookup-insert_self "metadata" (fields s) (base full))
                ∙ meta))
        | inr other ↦
            let ne = ne_of_other k "metadata" other in
            rw other (
              filled-full full skel k d (λ h. others k ne ∙ h)
                (λ v h.
                  others k ne
                  ∙ h
                  ∙ sym (
                      base-IsWithin full k v (
                        ground
                          (arith, ne, Dict.lookup-insert k "metadata" (fields s) (base full))))))
      ]

  restored :
      (full : Dict String (Node V)) (m : Dict String V) (d : Dict String (Node V))
      → let s = skeleton_metadata m in
        let skel = Dict.insert "metadata" (fields s) (base full) in
        HoldsMetadata skel (filled m s (sorted_keys m) s) d
        → Restored full m (filled full skel (sorted_keys full) d)
  unfolding Restored IsWithin
  restored full m d holds =
      let s = skeleton_metadata m in
      (
        filled m s (sorted_keys m) s,
        restored-key full s (filled m s (sorted_keys m) s) d holds,
        (λ k. filled-full m s k s (λ h. h) (λ v h. h ∙ sym (skeleton_metadata-IsWithin m k v h))),
      )

  -- If the metadata is a map, then the operations apply to the skeleton, by RFC 6902, and the
  -- result holds under every key what the resource holds, and inside its metadata too.
  pub apply_ops-build_patch_ops :
      (full : Dict String (Node V)) (m : Dict String V)
      → Dict.lookup "metadata" full ≡ some (fields m)
      → (d : Dict String (Node V)) × (apply_ops
            (build_patch_ops full (build_skeleton full))
            (build_skeleton full)
          ≡ some d)
        × Restored full m d
  apply_ops-build_patch_ops full m h =
      let s = skeleton_metadata m in
      let skel = Dict.insert "metadata" (fields s) (base full) in
      let self = Dict.lookup-insert_self "metadata" (fields s) (base full) in
      let (d, holds, applied) =
        apply-metadata m s (sorted_keys m) (missing_ops (λ v. v) "/" full skel (sorted_keys full))
          skel s self in
      (
        filled full skel (sorted_keys full) d,
        rw (build_skeleton-metadata full m h, build_patch_ops-metadata full skel m s h self)
            (applied ∙ apply-top full skel (sorted_keys full) d),
        restored full m d holds,
      )
