-- ===== src/Transform/JsonPatch/Laws.antt =====
-- Two patches are equal when they are the same operations in some order.
use mathlib.Core.List.{Perm}
use mathlib.Core.List.Perm
use crane_lib.Base.{ℕ, Bool, true, false, List, [], ◌∷◌, ◌++◌, some, length}
use crane_lib.Base.{
  if◌then◌else◌, string_eq, ◌≡◌, refl, ap, sym, ◌∙◌, arith, Option-cases, Bool-cases, inl, inr, suc,
  length-append, length-perm, append-nil, subst,
}
use crane_lib.Transform.JsonPatch.{PatchApi, equal_operation, use_match, match_all, unused, equal}

-- The operations that are still to be matched.
free {ℓ} : {A : Type ℓ} → List (Bool × A) → List A
free [] = []
free ((used, o) ∷ rest) = if used then free rest else o ∷ free rest

-- Operations of two lists that are equal position by position.
unfoldable pub Pairwise : {Op : Type 0} → (Op → Op → Bool) → List Op → List Op → Type 0
Pairwise eq [] [] = Unit
Pairwise eq [] (y ∷ ys) = ⊥
Pairwise eq (x ∷ xs) [] = ⊥
Pairwise eq (x ∷ xs) (y ∷ ys) = (eq x y ≡ true) × Pairwise eq xs ys

Pairwise-length :
    {Op : Type 0} (eq : Op → Op → Bool) (xs ys : List Op)
    → Pairwise eq xs ys
    → length xs ≡ length ys
unfolding Pairwise
Pairwise-length eq [] [] h = refl
Pairwise-length eq [] (y ∷ ys) h = elim h [ ]
Pairwise-length eq (x ∷ xs) [] h = elim h [ ]
Pairwise-length eq (x ∷ xs) (y ∷ ys) (e, h) = ap suc (Pairwise-length eq xs ys h)

some-injective {ℓ} : {A : Type ℓ} (x y : A) → some x ≡ some y → x ≡ y
some-injective x y h = ground arith

nothing_left {ℓ} :
    {A : Type ℓ} (xs rest : List A) (n : ℕ) → length (xs ++ rest) ≡ n → length xs ≡ n → rest ≡ []
nothing_left xs [] n h e = refl
nothing_left xs (r ∷ rest) n h e = absurd (omega (arith, h, e, length-append xs (r ∷ rest)))

module _ {Op V : Type 0} (api : PatchApi Op V) where
  free-unused : (patch : List Op) → free (unused api patch) ≡ patch
  unfolding free unused
  free-unused [] = refl
  free-unused (o ∷ rest) = ap (λ (l : List Op). o ∷ l) (free-unused rest)

  use_match_lem :
      (o : Op) (marked marked' : List (Bool × Op))
      → use_match api o marked ≡ some marked'
      → (o2 : Op) × (equal_operation api o o2 ≡ true) × Perm (free marked) (o2 ∷ free marked')
  unfolding use_match free
  use_match_lem o [] marked' h = absurd (ground (arith, h))
  use_match_lem o ((true, o2) ∷ rest) marked' h = elim (Option-cases (use_match api o rest)) [
    | inl none_left ↦ absurd (cc)
    | inr (later, found) ↦
        let (o3, same, p) = use_match_lem o rest later found in
        (
          o3,
          same,
          subst (λ l. Perm (free rest) (o3 ∷ free l))
              (some-injective ((true, o2) ∷ later) marked' (sym (rw (found, use_match) refl) ∙ h))
              p,
        )
  ]
  use_match_lem o ((false, o2) ∷ rest) marked' h = elim (Bool-cases (equal_operation api o o2)) [
    | inl same ↦ (
      o2,
      same,
      subst (λ l. Perm (o2 ∷ free rest) (o2 ∷ free l))
          (some-injective ((true, o2) ∷ rest) marked' (sym (rw (same, use_match) refl) ∙ h))
          (Perm.refl (o2 ∷ free rest)),
    )
    | inr other ↦ elim (Option-cases (use_match api o rest)) [
      | inl none_left ↦ absurd (cc)
      | inr (later, found) ↦
          let (o3, same, p) = use_match_lem o rest later found in
          (
            o3,
            same,
            subst (λ l. Perm (o2 ∷ free rest) (o3 ∷ free l))
                (some-injective ((false, o2) ∷ later) marked'
                  (sym (rw (other, found, use_match) refl) ∙ h))
                (Perm.trans (Perm.cons o2 p) (Perm.swap o3 o2 (free later))),
          )
    ]
  ]

  match_all_lem :
      (patch : List Op) (marked : List (Bool × Op))
      → match_all api patch marked ≡ true
      → (matched : List Op) × (rest : List Op) × Pairwise (equal_operation api) patch matched
        × Perm (free marked) (matched ++ rest)
  unfolding match_all Pairwise
  match_all_lem [] marked h = ([], free marked, tt, Perm.refl (free marked))
  match_all_lem (o ∷ patch) marked h = elim (Option-cases (use_match api o marked)) [
    | inl none_left ↦ absurd (ground (arith, h))
    | inr (marked', found) ↦
        let (o2, same, p) = use_match_lem o marked marked' found in
        let (matched, rest, pairs, q) = match_all_lem patch marked' (ground (arith, h)) in
        (o2 ∷ matched, rest, (same, pairs), Perm.trans p (Perm.cons o2 q))
  ]

  all_matched :
      (patch1 patch2 matched rest : List Op)
      → Pairwise (equal_operation api) patch1 matched
      → length patch1 ≡ length patch2
      → Perm patch2 (matched ++ rest)
      → Perm patch2 matched
  all_matched patch1 patch2 matched rest pairs same p =
      let none_left : rest ≡ [] =
        nothing_left matched rest (length patch2) (sym (length-perm p))
          (sym (Pairwise-length _ patch1 matched pairs) ∙ same) in
      subst (λ l. Perm patch2 l) (append-nil matched)
        (subst (λ r. Perm patch2 (matched ++ r)) none_left p)

  -- If two patches are found equal, then the second is a permutation of a list whose operations
  -- equal those of the first, position by position: no operation is matched twice, and none of
  -- the second patch is left over.
  pub equal-perm :
      (patch1 patch2 : List Op)
      → equal api patch1 patch2 ≡ true
      → (matched : List Op) × Pairwise (equal_operation api) patch1 matched × Perm patch2 matched
  unfolding equal
  equal-perm patch1 patch2 h =
      let (matched, rest, pairs, p) =
        match_all_lem patch1 (unused api patch2) (ground (arith, h)) in
      (
        matched,
        pairs,
        all_matched patch1 patch2 matched rest pairs (ground (arith, h))
            (subst (λ l. Perm l (matched ++ rest)) (free-unused patch2) p),
      )
