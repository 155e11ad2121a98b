-- ===== src/Transform/Util/Laws.antt =====
-- The longest known prefix of an image is replaced, and only valid names are remapped.
use Prim.Native.String.{◌++◌ as ◌<>◌}
use text.Mathlib.TextLemmas.{cons-append}
use text.Mathlib.TextLemmas as Text
use crane_lib.Base.{take, drop, ◌⊎◌, if◌then◌else◌}
use crane_lib.Base.{
  ℕ, zero, suc, ◌<◌, ◌≤◌, String, true, false, none, some, List, [], ◌∷◌, length, eqb, eqb→eq,
}
use crane_lib.Base.{
  Result, ok, panic, >>=-eq-ok, ok-injective, string_eq, ◌≡◌, refl, ap, sym, subst, ◌∙◌, arith, inl,
  inr, Bool-cases,
}
use crane_lib.Base.Dict
use crane_lib.Base.Dict.{Dict}
use crane_lib.Strings.{split, join}
use crane_lib.Strings.Laws.{join-split}
use crane_lib.Transform.Util.{
  prefix_of, replaced, replace_from, update_image_registry, process_pairs, process_pvc_map,
  check_pair, unless_errors,
}

module _ (replacements : Dict String String) (parts : List String) where
  -- No prefix of the image above some length, and up to another, is known.
  abbrev pub Unknown : ℕ → ℕ → Type 0
  Unknown i n = (j : ℕ) → i < j → j ≤ n → Dict.lookup (prefix_of j parts) replacements ≡ none

  replace_from-none : (n : ℕ) → Unknown 0 n → replace_from replacements parts n ≡ ("", false)
  unfolding replace_from
  replace_from-none zero h = refl
  replace_from-none (suc n) h =
      rw (h (suc n) (omega arith) (omega arith), replace_from)
        (replace_from-none n (λ j lt le. h j lt (omega arith)))

  replace_from-here :
      (n : ℕ) (registry : String)
      → Dict.lookup (prefix_of (suc n) parts) replacements ≡ some registry
      → replace_from replacements parts (suc n) ≡ (replaced registry (suc n) parts, true)
  unfolding replace_from
  replace_from-here n registry known = rw (known, replace_from) refl

  replace_from-longest :
      (n i : ℕ) (registry : String)
      → 0 < i
      → i ≤ n
      → Dict.lookup (prefix_of i parts) replacements ≡ some registry
      → Unknown i n
      → replace_from replacements parts n ≡ (replaced registry i parts, true)
  unfolding replace_from
  replace_from-longest zero i registry pos le known h = absurd (omega arith)
  replace_from-longest (suc n) i registry pos le known h = elim (Bool-cases (eqb i (suc n))) [
    | inl same ↦
        subst (λ j. replace_from replacements parts (suc n) ≡ (replaced registry j parts, true))
          (sym (eqb→eq i (suc n) same))
          (replace_from-here n registry (
            subst (λ j. Dict.lookup (prefix_of j parts) replacements ≡ some registry)
              (eqb→eq i (suc n) same) known))
    | inr other ↦
        rw (h (suc n) (ground arith) (omega arith), replace_from)
          (replace_from-longest n i registry pos (ground arith) known
            (λ j lt le'. h j lt (omega arith)))
  ]

take-length : (parts : List String) → take (length parts) parts ≡ parts
take-length [] = refl
take-length (p ∷ parts) = ap (λ l. p ∷ l) (take-length parts)

-- Joined parts are the first of them, a slash and the others.
join-take :
    (i : ℕ) (parts : List String)
    → 0 < i
    → i < length parts
    → join "/" parts ≡ join "/" (take i parts) <> ("/" <> join "/" (drop i parts))
unfolding join
join-take i [] pos lt = absurd (omega arith)
join-take zero (p ∷ parts) pos lt = absurd (omega arith)
join-take (suc i) (p ∷ []) pos lt = absurd (omega arith)
join-take (suc zero) (p ∷ q ∷ parts) pos lt = refl
join-take (suc (suc i)) (p ∷ q ∷ parts) pos lt =
    ap (λ t. p <> ("/" <> t)) (join-take (suc i) (q ∷ parts) (omega arith) (omega arith))
    ∙ sym (
        Text.append_assoc p ("/" <> join "/" (take (suc i) (q ∷ parts)))
          ("/" <> join "/" (drop (suc i) (q ∷ parts)))
        ∙ ap (λ t. p <> t)
            (Text.append_assoc "/" (join "/" (take (suc i) (q ∷ parts)))
              ("/" <> join "/" (drop (suc i) (q ∷ parts)))))

-- What follows the first `i` parts: nothing, or a slash and more.
rest_of : ℕ → List String → String
rest_of i parts = if eqb i (length parts) then "" else "/" <> join "/" (drop i parts)

prefix_of-rest_of :
    (i : ℕ) (parts : List String)
    → 0 < i
    → i ≤ length parts
    → join "/" parts ≡ prefix_of i parts <> rest_of i parts
unfolding prefix_of rest_of
prefix_of-rest_of i parts pos le = elim (Bool-cases (eqb i (length parts))) [
  | inl whole ↦ rw whole (
      ap (join "/") (sym (take-length parts))
      ∙ ap (λ n. join "/" (take n parts)) (sym (eqb→eq i (length parts) whole))
      ∙ sym (Text.append-nil (join "/" (take i parts))))
  | inr shorter ↦ rw shorter (join-take i parts pos (ground arith))
]

replaced_lem :
    (registry : String) (i : ℕ) (parts : List String)
    → replaced registry i parts ≡ registry <> rest_of i parts
unfolding replaced rest_of
replaced_lem registry i parts = elim (Bool-cases (eqb i (length parts))) [
  | inl whole ↦ rw whole (sym (Text.append-nil registry))
  | inr shorter ↦ rw shorter refl
]

rest_of-slash :
    (i : ℕ) (parts : List String)
    → (rest_of i parts ≡ "") ⊎ ((more : String) × (rest_of i parts ≡ "/" <> more))
unfolding rest_of
rest_of-slash i parts = elim (Bool-cases (eqb i (length parts))) [
  | inl whole ↦ rw whole (inl refl)
  | inr shorter ↦ rw shorter (inr (join "/" (drop i parts), refl))
]

-- If the first `i` parts of an image are a known prefix and no longer prefix is known, then the
-- image is that prefix and a rest, which is empty or starts with a slash, and the new image is the
-- prefix's replacement and the same rest.
pub update_image_registry-longest :
    (replacements : Dict String String) (image : String) (i : ℕ) (registry : String)
    → 0 < i
    → i ≤ length (split b'/' image)
    → Dict.lookup (prefix_of i (split b'/' image)) replacements ≡ some registry
    → Unknown replacements (split b'/' image) i (length (split b'/' image))
    → (rest : String) × (image ≡ prefix_of i (split b'/' image) <> rest)
      × ((rest ≡ "") ⊎ ((more : String) × (rest ≡ "/" <> more)))
      × (update_image_registry replacements image ≡ (registry <> rest, true))
unfolding update_image_registry
update_image_registry-longest replacements image i registry pos le known h =
    let parts = split b'/' image in
    (
      rest_of i parts,
      sym (join-split "/" image) ∙ prefix_of-rest_of i parts pos le,
      rest_of-slash i parts,
      replace_from-longest replacements parts (length parts) i registry pos le known h
          ∙ ap (λ (new : String). (new, true)) (replaced_lem registry i parts),
    )

-- If no prefix of an image is known, then there is no new image.
pub update_image_registry-none :
    (replacements : Dict String String) (image : String)
    → Unknown replacements (split b'/' image) 0 (length (split b'/' image))
    → update_image_registry replacements image ≡ ("", false)
unfolding update_image_registry
update_image_registry-none replacements image h =
    replace_from-none replacements (split b'/' image) (length (split b'/' image)) h

unless_errors-ok {ℓ} :
    {A : Type ℓ} (pair : String) (errs : List String) (next : Result A) {a : A}
    → unless_errors pair errs next ≡ ok a
    → (errs ≡ []) × (next ≡ ok a)
unfolding unless_errors
unless_errors-ok pair [] next h = (refl, h)
unless_errors-ok pair (e ∷ errs) next h = cc

module _ (errors_of : String → List String) where
  -- Validation finds no errors in either name.
  abbrev pub IsValid : String → String → Type 0
  IsValid old new = (errors_of old ≡ []) × (errors_of new ≡ [])

  check_pair-IsValid :
      (pair : String) (parts : List String) (r : String × String)
      → check_pair errors_of pair parts ≡ ok r
      → IsValid r.0 r.1
  unfolding check_pair
  check_pair-IsValid pair [] r h = cc
  check_pair-IsValid pair (old ∷ []) r h =
      let (none_old, broken) = unless_errors-ok pair (errors_of old) panic h in absurd (cc)
  check_pair-IsValid pair (old ∷ new ∷ rest) r h =
      let (valid_old, later) = unless_errors-ok pair (errors_of old) _ h in
      let (valid_new, done) = unless_errors-ok pair (errors_of new) _ later in
      subst (λ (s : String × String). IsValid s.0 s.1) (ok-injective (old, new) r done)
        (valid_old, valid_new)

  insert-IsValid :
      (old new k v : String) (m : Dict String String)
      → IsValid old new
      → (Dict.lookup k m ≡ some v → IsValid k v)
      → Dict.lookup k (Dict.insert old new m) ≡ some v
      → IsValid k v
  insert-IsValid old new k v m fits valid h = elim (string_eq.dec k old) [
    | yes same ↦
        subst (λ j. IsValid j v) (sym same)
          (subst (λ w. IsValid old w) (ground (arith, Dict.lookup-insert k old new m)) fits)
    | no other ↦ valid (ground (arith, Dict.lookup-insert k old new m))
  ]

  process_pairs-IsValid :
      (m m' : Dict String String) (pairs : List String)
      → ((k v : String) → Dict.lookup k m ≡ some v → IsValid k v)
      → process_pairs errors_of m pairs ≡ ok m'
      → (k v : String) → Dict.lookup k m' ≡ some v
      → IsValid k v
  unfolding process_pairs
  process_pairs-IsValid m m' [] valid h k v found =
      valid k v (ap (Dict.lookup k) (ok-injective m m' h) ∙ found)
  process_pairs-IsValid m m' (pair ∷ rest) valid h k v found =
      let (r, checked, later) = >>=-eq-ok (check_pair errors_of pair (split b':' pair)) _ h in
      process_pairs-IsValid (Dict.insert r.0 r.1 m) m' rest
        (λ k v.
          insert-IsValid r.0 r.1 k v m (check_pair-IsValid pair (split b':' pair) r checked)
            (valid k v))
        later k v found

  -- If a map of claims is accepted, then validation finds no errors in any of its names, old or new.
  pub process_pvc_map-IsValid :
      (text : String) (m : Dict String String)
      → process_pvc_map errors_of text ≡ ok m
      → (old new : String) → Dict.lookup old m ≡ some new
      → IsValid old new
  unfolding process_pvc_map
  process_pvc_map-IsValid text m h =
      process_pairs-IsValid [] m (split b',' text)
        (λ k v found. absurd (ground (arith, found, Dict.lookup-nil {V = String} k))) h
