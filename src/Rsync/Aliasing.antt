-- ===== src/Rsync/Aliasing.antt =====
-- The two slices of mutations in `TransferOptions`. Go's `append` writes behind the end of its slice
-- where the array has room, so a slice that shares the array can lose its last element.
use crane_lib.Base.{
  ℕ, zero, suc, ◌≤◌, ltb, List, [], ◌∷◌, ◌++◌, take, drop, length, length-append, if◌then◌else◌,
}
use crane_lib.Base.{◌≡◌, refl, ap, arith, Bool-cases, inl, inr}

-- The destination's slice is a front of the source's array, or of one that nothing writes to.
pub data View (A : Type 0) : Type 0 where
  shared : ℕ → View A
  separate : List A → View A

-- The source's slice is the first `size` cells of an array with room for `capacity` cells. `cells`
-- holds those that have been written.
pub record Slices (A : Type 0) : Type 0 where
  pub cells : List A
  pub size : ℕ
  pub capacity : ℕ
  pub destination : View A

-- The capacity that the runtime gives to a new array, by the old one and the size that is needed.
abbrev pub Growth : Type 0
Growth = ℕ → ℕ → ℕ

module _ {A : Type 0} where
  -- Two nil slices
  abbrev pub nil_slices : Slices A
  nil_slices = record { cells = []; size = 0; capacity = 0; destination = separate [] }

  unfoldable pub source_list : Slices A → List A
  source_list m = take m.size m.cells

  unfoldable pub destination_list : Slices A → List A
  destination_list m = elim m.destination [ shared n ↦ take n m.cells | separate l ↦ l ]

  -- The array with a value in the cell behind the source's slice.
  unfoldable pub written : A → Slices A → List A
  written x m = take m.size m.cells ++ (x ∷ drop (suc m.size) m.cells)

  -- `source = append(source, x)`
  unfoldable pub append_source : Growth → A → Slices A → Slices A
  unfolding written source_list destination_list
  append_source grow x m =
      if ltb m.size m.capacity
      then record {
        cells = written x m;
        size = suc m.size;
        capacity = m.capacity;
        destination = m.destination;
      }
      else record {
        cells = source_list m ++ (x ∷ []);
        size = suc m.size;
        capacity = grow m.capacity (suc m.size);
        destination = separate (destination_list m);
      }

  -- `destination = append(source, x)`
  unfoldable pub append_destination : A → Slices A → Slices A
  unfolding written source_list
  append_destination x m =
      if ltb m.size m.capacity
      then record {
        cells = written x m;
        size = m.size;
        capacity = m.capacity;
        destination = shared (suc m.size);
      }
      else record {
        cells = m.cells;
        size = m.size;
        capacity = m.capacity;
        destination = separate (source_list m ++ (x ∷ []));
      }

  -- The cells of the source's slice have been written.
  abbrev pub IsValid : Slices A → Type 0
  IsValid m = m.size ≤ length m.cells

  take-front : (n : ℕ) (xs ys : List A) → n ≤ length xs → take n (take n xs ++ ys) ≡ take n xs
  take-front zero xs ys h = refl
  take-front (suc n) [] ys h = absurd (omega arith)
  take-front (suc n) (x ∷ xs) ys h = ap (λ l. x ∷ l) (take-front n xs ys (omega arith))

  take-behind :
      (n : ℕ) (xs ys : List A) (x : A)
      → n ≤ length xs
      → take (suc n) (take n xs ++ (x ∷ ys)) ≡ take n xs ++ (x ∷ [])
  take-behind zero xs ys x h = refl
  take-behind (suc n) [] ys x h = absurd (omega arith)
  take-behind (suc n) (y ∷ xs) ys x h = ap (λ l. y ∷ l) (take-behind n xs ys x (omega arith))

  length-take : (n : ℕ) (xs : List A) → n ≤ length xs → length (take n xs) ≡ n
  length-take zero xs h = refl
  length-take (suc n) [] h = absurd (omega arith)
  length-take (suc n) (x ∷ xs) h = omega (arith, length-take n xs (omega arith))

  length-written :
      (n : ℕ) (xs ys : List A) (x : A) → n ≤ length xs → suc n ≤ length (take n xs ++ (x ∷ ys))
  length-written n xs ys x h = omega (arith, length-take n xs h, length-append (take n xs) (x ∷ ys))

  -- An append to the source is one to its list, and keeps the slices valid.
  pub append_source_lem :
      (grow : Growth) (x : A) (m : Slices A)
      → IsValid m
      → (source_list (append_source grow x m) ≡ source_list m ++ (x ∷ []))
        × IsValid (append_source grow x m)
  unfolding append_source source_list written
  append_source_lem grow x m valid = elim (Bool-cases (ltb m.size m.capacity)) [
    | inl room ↦
        rw room (take-behind m.size m.cells _ x valid, length-written m.size m.cells _ x valid)
    | inr full ↦
        rw full (take-behind m.size m.cells [] x valid, length-written m.size m.cells [] x valid)
  ]

  -- An append for the destination leaves the source's list alone, and gives the destination that
  -- list with the new element behind it.
  pub append_destination_lem :
      (x : A) (m : Slices A)
      → IsValid m
      → (source_list (append_destination x m) ≡ source_list m)
        × IsValid (append_destination x m)
        × (destination_list (append_destination x m) ≡ source_list m ++ (x ∷ []))
  unfolding append_destination source_list destination_list written
  append_destination_lem x m valid = elim (Bool-cases (ltb m.size m.capacity)) [
    | inl room ↦
        let longer = length-written m.size m.cells (drop (suc m.size) m.cells) x valid in
        rw room (
          take-front m.size m.cells _ valid,
          omega (arith, longer),
          take-behind m.size m.cells _ x valid,
        )
    | inr full ↦ rw full (refl, valid, refl)
  ]
