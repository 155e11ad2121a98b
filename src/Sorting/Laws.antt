-- ===== src/Sorting/Laws.antt =====
-- A sorted list holds the same items in ascending order, and of texts there is only one such list.
use mathlib.Core.List.{Perm, Permᴰ}
use mathlib.Core.List
use mathlib.Core.List.Perm
use mathlib.Core.Logic.{∥∥₁_elim}
use mathlib.Core.HLevel.{hedberg}
use crane_lib.Base.{String, true, List, [], ◌∷◌, All, ◌≡◌, refl, arith}
use crane_lib.Base.{Bool-cases, inl, inr, ◌∙◌, string_dec}
use crane_lib.Strings.{text_leb}
use crane_lib.Strings.Order.{text_leb_total, text_leb_trans, text_leb_antisymm}
use crane_lib.Sorting.{insert_by, sort_by, sort_strings}

module _ {A : Type 0} (key : A → String) where
  abbrev pub IsBelow : A → List A → Type 0
  IsBelow x ys = All (λ y. text_leb (key x) (key y) ≡ true) ys

  abbrev pub IsSorted : List A → Type 0
  IsSorted [] = Unit
  IsSorted (x ∷ xs) = IsBelow x xs × IsSorted xs

  IsBelow-trans :
      (x y : A) (zs : List A) → text_leb (key x) (key y) ≡ true → IsBelow y zs → IsBelow x zs
  IsBelow-trans x y [] h k = tt
  IsBelow-trans x y (z ∷ zs) h (k, ks) =
      (text_leb_trans (key x) (key y) (key z) h k, IsBelow-trans x y zs h ks)

  insert_by-IsBelow :
      (y x : A) (zs : List A)
      → text_leb (key y) (key x) ≡ true
      → IsBelow y zs
      → IsBelow y (insert_by key x zs)
  unfolding insert_by
  insert_by-IsBelow y x [] h k = (h, tt)
  insert_by-IsBelow y x (z ∷ zs) h (k, ks) = elim (Bool-cases (text_leb (key x) (key z))) [
    | inl before ↦ rw before (h, (k, ks))
    | inr behind ↦ rw behind (k, insert_by-IsBelow y x zs h ks)
  ]

  insert_by-IsSorted : (x : A) (ys : List A) → IsSorted ys → IsSorted (insert_by key x ys)
  unfolding insert_by
  insert_by-IsSorted x [] s = (tt, tt)
  insert_by-IsSorted x (y ∷ ys) (b, s) = elim (Bool-cases (text_leb (key x) (key y))) [
    | inl before ↦ rw before ((before, IsBelow-trans x y ys before b), (b, s))
    | inr behind ↦ rw behind (
      insert_by-IsBelow y x ys (text_leb_total (key x) (key y) behind) b,
      insert_by-IsSorted x ys s,
    )
  ]

  pub sort_by-IsSorted : (xs : List A) → IsSorted (sort_by key xs)
  unfolding sort_by
  sort_by-IsSorted [] = tt
  sort_by-IsSorted (x ∷ xs) = insert_by-IsSorted x (sort_by key xs) (sort_by-IsSorted xs)

  insert_by-perm : (x : A) (ys : List A) → Perm (insert_by key x ys) (x ∷ ys)
  unfolding insert_by
  insert_by-perm x [] = Perm.refl (x ∷ [])
  insert_by-perm x (y ∷ ys) = elim (Bool-cases (text_leb (key x) (key y))) [
    | inl before ↦ rw before (Perm.refl _)
    | inr behind ↦ rw behind (Perm.trans (Perm.cons y (insert_by-perm x ys)) (Perm.swap x y ys))
  ]

  pub sort_by-perm : (xs : List A) → Perm (sort_by key xs) xs
  unfolding sort_by
  sort_by-perm [] = Perm.nil
  sort_by-perm (x ∷ xs) =
      Perm.trans (insert_by-perm x (sort_by key xs)) (Perm.cons x (sort_by-perm xs))

-- Inserting texts in either order gives the same list, so sorting forgets the order of the input.
insert_comm :
    (x y : String) (zs : List String)
    → insert_by (λ s. s) x (insert_by (λ s. s) y zs)
      ≡ insert_by (λ s. s) y (insert_by (λ s. s) x zs)
unfolding insert_by
insert_comm x y [] = ground (arith, text_leb_total x y, text_leb_total y x, text_leb_antisymm x y)
insert_comm x y (z ∷ zs) = ground (
  arith,
  insert_comm x y zs,
  text_leb_total x y,
  text_leb_total y x,
  text_leb_antisymm x y,
  text_leb_total x z,
  text_leb_total y z,
  text_leb_trans x y z,
  text_leb_trans y x z,
  text_leb_trans x z y,
  text_leb_trans y z x,
)

sort_by-eq_of_permᴰ :
    {xs ys : List String} → Permᴰ xs ys → sort_by (λ s. s) xs ≡ sort_by (λ s. s) ys
unfolding sort_by
sort_by-eq_of_permᴰ Permᴰ.nil = refl
sort_by-eq_of_permᴰ (Permᴰ.cons e p) = λ i. insert_by (λ s. s) (e i) (sort_by-eq_of_permᴰ p i)
sort_by-eq_of_permᴰ (Permᴰ.swap {l = l} e f) =
    (λ i. insert_by (λ s. s) (e i) (insert_by (λ s. s) (f i) (sort_by (λ s. s) l)))
    ∙ insert_comm _ _ (sort_by (λ s. s) l)
sort_by-eq_of_permᴰ (Permᴰ.trans p q) = sort_by-eq_of_permᴰ p ∙ sort_by-eq_of_permᴰ q

strings_set : IsSet (List String)
strings_set = List.is_set (hedberg string_dec)

-- Sorting texts forgets the order of the input.
pub sort_strings-eq_of_perm : (xs ys : List String) → Perm xs ys → sort_strings xs ≡ sort_strings ys
unfolding sort_strings
sort_strings-eq_of_perm xs ys p = ∥∥₁_elim p (strings_set _ _) sort_by-eq_of_permᴰ
