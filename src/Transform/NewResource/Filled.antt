-- ===== src/Transform/NewResource/Filled.antt =====
-- Completing a map key by key.
use crane_lib.Base.{String, true, none, some, List, [], ◌∷◌, contains, ◌==◌}
use crane_lib.Base.{string_eq, ◌≡◌, refl, ap, sym, ◌∙◌, subst, arith, Option-cases, inl, inr, ◌||◌}
use crane_lib.Base.Dict
use crane_lib.Base.Dict.{Dict}
use crane_lib.Sorting.{sort_strings, sort_by, insert_by}
use crane_lib.Transform.NewResource.{sorted_keys}
use crane_lib.Transform.NewResource.Applies.{filled}

contains-insert_by :
    (x k : String) (ys : List String)
    → contains (insert_by (λ s. s) x ys) k ≡ ((k == x) || contains ys k)
unfolding insert_by
contains-insert_by x k [] = refl
contains-insert_by x k (y ∷ ys) = ground (arith, contains-insert_by x k ys)

contains-sort_by :
    (k : String) (xs : List String) → contains (sort_by (λ s. s) xs) k ≡ contains xs k
unfolding sort_by
contains-sort_by k [] = refl
contains-sort_by k (x ∷ xs) =
    contains-insert_by x k (sort_by (λ s. s) xs) ∙ ap (λ b. (k == x) || b) (contains-sort_by k xs)

module _ {W : Type 0} where
  contains-sorted_keys :
      (m : Dict String W) (k : String) (v : W)
      → Dict.lookup k m ≡ some v
      → contains (sorted_keys m) k ≡ true
  unfolding sorted_keys sort_strings
  contains-sorted_keys m k v held =
      contains-sort_by k (Dict.keys m)
      ∙ (Dict.contains-keys m k).1 (λ gone. absurd (ground (arith, gone)))

  module _ (full skel : Dict String W) (k : String) where
    -- A key that holds what it should still does after more operations.
    filled-stays :
        (keys : List String) (m : Dict String W)
        → Dict.lookup k m ≡ Dict.lookup k full
        → Dict.lookup k (filled full skel keys m) ≡ Dict.lookup k full
    unfolding filled
    filled-stays [] m right = right
    filled-stays (key ∷ keys) m right = elim (Option-cases (Dict.lookup key skel)) [
      | inr (v, there) ↦ rw (there, filled) (filled-stays keys m right)
      | inl absent ↦ elim (Option-cases (Dict.lookup key full)) [
        | inl gone ↦ rw (absent, gone, filled) (filled-stays keys m right)
        | inr (v, held) ↦
            rw (absent, held, filled)
              (filled-stays keys (Dict.insert key v m)
                (ground (arith, Dict.lookup-insert k key v m)))
      ]
    ]

    filled-added :
        (keys : List String) (m : Dict String W) (w : W)
        → Dict.lookup k skel ≡ none
        → Dict.lookup k full ≡ some w
        → filled full skel (k ∷ keys) m ≡ filled full skel keys (Dict.insert k w m)
    unfolding filled
    filled-added keys m w fresh wanted = rw (fresh, wanted, filled) refl

    filled-reaches :
        (keys : List String) (m : Dict String W) (w : W)
        → Dict.lookup k skel ≡ none
        → Dict.lookup k full ≡ some w
        → contains keys k ≡ true
        → Dict.lookup k (filled full skel keys m) ≡ Dict.lookup k full
    unfolding filled
    filled-reaches [] m w fresh wanted there = absurd (ground (arith, there))
    filled-reaches (key ∷ keys) m w fresh wanted listed = elim (string_eq.dec k key) [
      | yes same ↦
          subst (λ j. Dict.lookup k (filled full skel (j ∷ keys) m) ≡ Dict.lookup k full) same
            (ap (Dict.lookup k) (filled-added keys m w fresh wanted)
              ∙ filled-stays keys (Dict.insert k w m) (Dict.lookup-insert_self k w m ∙ sym wanted))
      | no other ↦ elim (Option-cases (Dict.lookup key skel)) [
        | inr (v, there) ↦ rw (there, filled) (filled-reaches keys m w fresh wanted (ground arith))
        | inl absent ↦ elim (Option-cases (Dict.lookup key full)) [
          | inl gone ↦
              rw (absent, gone, filled) (filled-reaches keys m w fresh wanted (ground arith))
          | inr (v, held) ↦
              rw (absent, held, filled)
                (filled-reaches keys (Dict.insert key v m) w fresh wanted (ground arith))
        ]
      ]
    ]

    pub filled-kept :
        (keys : List String) (m : Dict String W) (w : W)
        → Dict.lookup k skel ≡ some w
        → Dict.lookup k (filled full skel keys m) ≡ Dict.lookup k m
    unfolding filled
    filled-kept [] m w there = refl
    filled-kept (key ∷ keys) m w kept = elim (Option-cases (Dict.lookup key skel)) [
      | inr (v, there) ↦ rw (there, filled) (filled-kept keys m w kept)
      | inl absent ↦ elim (Option-cases (Dict.lookup key full)) [
        | inl gone ↦ rw (absent, gone, filled) (filled-kept keys m w kept)
        | inr (v, held) ↦
            rw (absent, held, filled)
              (filled-kept keys (Dict.insert key v m) w kept
                ∙ ground (arith, Dict.lookup-insert k key v m))
      ]
    ]

    -- The operations of one level complete a map that is right where the skeleton is.
    pub filled-full :
        (m : Dict String W)
        → (Dict.lookup k skel ≡ none → Dict.lookup k m ≡ none)
        → ((v : W) → Dict.lookup k skel ≡ some v → Dict.lookup k m ≡ Dict.lookup k full)
        → Dict.lookup k (filled full skel (sorted_keys full) m) ≡ Dict.lookup k full
    filled-full m fresh right = elim (Option-cases (Dict.lookup k skel)) [
      | inr (v, there) ↦ filled-kept (sorted_keys full) m v there ∙ right v there
      | inl absent ↦ elim (Option-cases (Dict.lookup k full)) [
        | inl gone ↦ filled-stays (sorted_keys full) m (fresh absent ∙ sym gone)
        | inr (w, held) ↦
            filled-reaches (sorted_keys full) m w absent held (contains-sorted_keys full k w held)
      ]
    ]
