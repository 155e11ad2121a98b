-- ===== src/PvcList/Laws.antt =====
-- The two constructors part a list: every pair goes to exactly one of them.
use crane_lib.Base.{Bool, true, false, not, List, [], ◌∷◌, map, keep, All, All-map, if-eq-ok}
use crane_lib.Base.{
  Result, ok, ◌>>=◌, >>=-eq-ok, ok-injective, if◌then◌else◌, ◌≡◌, refl, ap, sym, ◌∙◌, arith,
  Bool-cases, inl, inr, subst,
}
use crane_lib.PvcList.{
  PvcPairList, Filled, fill, to_pair, both, differ, pair_list, new_block_or_vm_disk_pvc_pair_list,
  new_filesystem_pvc_pair_list,
}

-- The pairs with their destinations filled in, unless a source is missing.
unfoldable pub fills : PvcPairList → Result (List Filled)
fills [] = ok []
fills (p ∷ rest) = let others = fills rest in fill p >>= λ f. others >>= λ fs. ok (f ∷ fs)

kept : Bool → List Filled → PvcPairList
kept block fs = map to_pair (keep (both block) fs)

kept-cons :
    (block : Bool) (f : Filled) (fs : List Filled)
    → kept block (f ∷ fs) ≡ (if both block f then to_pair f ∷ kept block fs else kept block fs)
unfolding kept
kept-cons block f fs = elim (Bool-cases (both block f)) [
  | inl wanted ↦ rw wanted refl
  | inr other ↦ rw other refl
]

pair_list-ok :
    (block : Bool) (ps : PvcPairList) (fs : List Filled)
    → fills ps ≡ ok fs
    → All (λ f. differ f ≡ false) fs
    → pair_list block ps ≡ ok (kept block fs)
unfolding pair_list fills kept
pair_list-ok block [] fs h same = ap (λ l. ok (kept block l)) (ok-injective [] fs h)
pair_list-ok block (p ∷ rest) fs h same =
    let (f, filled, later) = >>=-eq-ok (fill p) _ h in
    let (fs', ih, done) = >>=-eq-ok (fills rest) _ later in
    subst (λ l. All (λ f. differ f ≡ false) l → pair_list block (p ∷ rest) ≡ ok (kept block l))
      (ok-injective (f ∷ fs') fs done)
      (λ all_same.
        rw (filled, pair_list)
          (rw all_same.0
            (rw (pair_list-ok block rest fs' ih all_same.1) (ap ok (sym (kept-cons block f fs'))))))
      same

pair_list_lem :
    (block : Bool) (ps xs : PvcPairList)
    → pair_list block ps ≡ ok xs
    → (fs : List Filled) × (fills ps ≡ ok fs) × All (λ f. differ f ≡ false) fs
unfolding pair_list fills
pair_list_lem block [] xs h = ([], refl, tt)
pair_list_lem block (p ∷ rest) xs h =
    let (f, filled, later) = >>=-eq-ok (fill p) _ h in
    let (same, others) = if-eq-ok (differ f) _ _ later in
    let (pairs, ih, done) = >>=-eq-ok (pair_list block rest) _ others in
    let (fs, filled', all_same) = pair_list_lem block rest pairs ih in
    (f ∷ fs, rw filled (rw filled' refl), (same, all_same))

both_of_same : (f : Filled) → differ f ≡ false → both false f ≡ not (both true f)
unfolding both differ
both_of_same f h = ground (arith, h)

-- If the constructor for disks accepts a list, then so does that for file systems. The lists they
-- return are the pairs, with their destinations filled in, that pass and that fail one test, each
-- in the order of the input; so no pair is lost and none is in both.
pub pair_lists-split :
    (ps xs : PvcPairList)
    → new_block_or_vm_disk_pvc_pair_list ps ≡ ok xs
    → (fs : List Filled) × (fills ps ≡ ok fs)
      × (xs ≡ map to_pair (keep (both true) fs))
      × (new_filesystem_pvc_pair_list ps ≡ ok (map to_pair (keep (both false) fs)))
      × All (λ f. both false f ≡ not (both true f)) fs
unfolding new_block_or_vm_disk_pvc_pair_list new_filesystem_pvc_pair_list kept
pair_lists-split ps xs h =
    let (fs, filled, same) = pair_list_lem true ps xs h in
    (
      fs,
      filled,
      ok-injective xs _ (sym h ∙ pair_list-ok true ps fs filled same),
      pair_list-ok false ps fs filled same,
      All-map both_of_same fs same,
    )
