-- ===== src/Transform/NewResource/Applies.antt =====
-- What applying the operations does, level by level.
use crane_lib.Base.{String, Option, none, some, List, [], ◌∷◌, ◌++◌, ==_ne}
use crane_lib.Base.{string_eq, ◌≡◌, ◌≢◌, refl, ◌∙◌, Option-cases, inl, inr}
use crane_lib.Base.Dict
use crane_lib.Base.Dict.{Dict}
use crane_lib.JsonPointer.{tokens, tokens-key, tokens-metadata}
use crane_lib.Transform.NewResource.{Node, fields, value, PatchOp, as_fields, add_op, missing_ops}

-- RFC 6902, section 4.1: "add" puts the value where the pointer leads, at the top level or one
-- level below.
add_at : {V : Type 0} → List String → Node V → Dict String (Node V) → Option (Dict String (Node V))
add_at [] v d = none
add_at (k ∷ []) v d = some (Dict.insert k v d)
add_at (j ∷ k ∷ []) (fields m) d = none
add_at (j ∷ k ∷ []) (value v) d = elim (as_fields (Dict.lookup j d)) [
  | none ↦ none
  | some m ↦ some (Dict.insert j (fields (Dict.insert k v m)) d)
]
add_at (j ∷ k ∷ l ∷ rest) v d = none

unfoldable pub apply_ops :
    {V : Type 0} → List (PatchOp V) → Dict String (Node V) → Option (Dict String (Node V))
unfolding add_at
apply_ops [] d = some d
apply_ops (o ∷ ops) d = elim (add_at (tokens o.path) o.value d) [
  | none ↦ none
  | some d' ↦ apply_ops ops d'
]

-- What the operations of one level add to a map.
unfoldable pub filled :
    {W : Type 0} → Dict String W → Dict String W → List String → Dict String W → Dict String W
filled full skel [] m = m
filled full skel (key ∷ keys) m = elim (Dict.lookup key skel) [
  | some _ ↦ filled full skel keys m
  | none ↦ elim (Dict.lookup key full) [
    | none ↦ filled full skel keys m
    | some v ↦ filled full skel keys (Dict.insert key v m)
  ]
]

module _ {V : Type 0} where
  apply-add_top :
      (key : String) (v : Node V) (ops : List (PatchOp V)) (d : Dict String (Node V))
      → apply_ops (add_op "/" key v ∷ ops) d ≡ apply_ops ops (Dict.insert key v d)
  unfolding apply_ops add_op add_at
  apply-add_top key v ops d = rw (tokens-key key, apply_ops) refl

  apply-add_metadata :
      (key : String) (v : V) (ops : List (PatchOp V)) (d : Dict String (Node V)) (m : Dict String V)
      → Dict.lookup "metadata" d ≡ some (fields m)
      → apply_ops (add_op "/metadata/" key (value v) ∷ ops) d
        ≡ apply_ops ops (Dict.insert "metadata" (fields (Dict.insert key v m)) d)
  unfolding apply_ops add_op add_at as_fields
  apply-add_metadata key v ops d m held = rw (tokens-metadata key, apply_ops) (rw held refl)

  pub apply-top :
      (full skel : Dict String (Node V)) (keys : List String) (d : Dict String (Node V))
      → apply_ops (missing_ops (λ v. v) "/" full skel keys) d ≡ some (filled full skel keys d)
  unfolding missing_ops filled
  apply-top full skel [] d = unfold apply_ops in refl
  apply-top full skel (key ∷ keys) d = elim (Option-cases (Dict.lookup key skel)) [
    | inr (v, there) ↦ rw (there, missing_ops, filled) (apply-top full skel keys d)
    | inl absent ↦ elim (Option-cases (Dict.lookup key full)) [
      | inl gone ↦ rw (absent, gone, missing_ops, filled) (apply-top full skel keys d)
      | inr (v, held) ↦
          rw (absent, held, missing_ops, filled)
            (apply-add_top key v (missing_ops (λ v. v) "/" full skel keys) d
              ∙ apply-top full skel keys (Dict.insert key v d))
    ]
  ]

  -- The metadata holds some fields, and the other keys hold what they held.
  unfoldable pub HoldsMetadata :
      Dict String (Node V) → Dict String V → Dict String (Node V) → Type 0
  HoldsMetadata d m d' =
      (Dict.lookup "metadata" d' ≡ some (fields m))
      × ((k : String) → k ≢ "metadata" → Dict.lookup k d' ≡ Dict.lookup k d)

  apply-one :
      (key : String) (v : V) (d : Dict String (Node V)) (m : Dict String V) (ops : List (PatchOp V))
      → Dict.lookup "metadata" d ≡ some (fields m)
      → (m' : Dict String V) (rest : List (PatchOp V))
      → (d' : Dict String (Node V)) × HoldsMetadata
          (Dict.insert "metadata" (fields (Dict.insert key v m)) d)
          m'
          d'
        × (apply_ops ops (Dict.insert "metadata" (fields (Dict.insert key v m)) d)
            ≡ apply_ops rest d')
      → (d' : Dict String (Node V)) × HoldsMetadata d m' d'
        × (apply_ops (add_op "/metadata/" key (value v) ∷ ops) d ≡ apply_ops rest d')
  unfolding HoldsMetadata
  apply-one key v d m ops held m' rest (d', (meta, others), applied) = (
    d',
    (
      meta,
      λ k ne.
          others k ne
          ∙ Dict.lookup-insert k "metadata" (fields (Dict.insert key v m)) d
          ∙ rw (==_ne k "metadata" ne) refl,
    ),
    apply-add_metadata key v ops d m held ∙ applied,
  )

  pub apply-metadata :
      (full skel : Dict String V) (keys : List String) (rest : List (PatchOp V))
      (d : Dict String (Node V)) (m : Dict String V)
      → Dict.lookup "metadata" d ≡ some (fields m)
      → (d' : Dict String (Node V)) × HoldsMetadata d (filled full skel keys m) d'
        × (apply_ops (missing_ops value "/metadata/" full skel keys ++ rest) d ≡ apply_ops rest d')
  unfolding missing_ops filled HoldsMetadata
  apply-metadata full skel [] rest d m held = (d, (held, λ k ne. refl), refl)
  apply-metadata full skel (key ∷ keys) rest d m held = elim (Option-cases (Dict.lookup key skel)) [
    | inr (v, there) ↦ rw (there, missing_ops, filled) (apply-metadata full skel keys rest d m held)
    | inl absent ↦ elim (Option-cases (Dict.lookup key full)) [
      | inl gone ↦
          rw (absent, gone, missing_ops, filled) (apply-metadata full skel keys rest d m held)
      | inr (v, found) ↦
          rw (absent, found, missing_ops, filled)
            (apply-one key v d m (missing_ops value "/metadata/" full skel keys ++ rest) held
              (filled full skel keys (Dict.insert key v m)) rest
              (apply-metadata full skel keys rest
                (Dict.insert "metadata" (fields (Dict.insert key v m)) d) (Dict.insert key v m)
                (Dict.lookup-insert_self "metadata" (fields (Dict.insert key v m)) d)))
    ]
  ]
