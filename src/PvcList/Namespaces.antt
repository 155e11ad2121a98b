-- ===== src/PvcList/Namespaces.antt =====
-- The namespaces of a managed list.
use crane_lib.Base.{
  String, Bool, true, false, ◌||◌, Option, none, some, List, [], ◌∷◌, ◌++◌, any, contains,
}
use crane_lib.Base.{
  Result, ok, err, panic, ◌==◌, string_eq, ◌≡◌, refl, ◌∙◌, arith, Bool-cases, inl, inr, ◌⊎◌,
}
use crane_lib.PvcList.{
  Claim, Pvc, PvcPair, PvcPairList, source_claim, has_source, namespaces_from,
  get_source_namespaces,
}

-- No text stands twice.
abbrev pub Distinct : List String → Type 0
Distinct [] = Unit
Distinct (x ∷ xs) = (contains xs x ≡ false) × Distinct xs

is_of : String → Result Claim → Bool
is_of ns (ok c) = ns == c.namespace
is_of ns (err e) = false
is_of ns panic = false

-- The pair has a source claim, and that is in the namespace.
unfoldable pub comes_from : String → Option PvcPair → Bool
unfolding is_of
comes_from ns p = is_of ns (source_claim p)

contains-push :
    (xs : List String) (x y : String) → contains (xs ++ (y ∷ [])) x ≡ (contains xs x || (x == y))
contains-push [] x y = ground arith
contains-push (z ∷ xs) x y = ground (arith, contains-push xs x y)

push-Distinct :
    (xs : List String) (y : String)
    → Distinct xs
    → contains xs y ≡ false
    → Distinct (xs ++ (y ∷ []))
push-Distinct [] y h k = (refl, tt)
push-Distinct (x ∷ xs) y (fresh, h) k = ground (arith, push-Distinct xs y h, contains-push xs x y)

-- A pair either has a claim, which is then read, or does not count.
HasClaim : Option PvcPair → Type 0
HasClaim p =
    ((has_source p ≡ false) × (source_claim p ≡ panic))
    ⊎ ((c : Claim) × (has_source p ≡ true) × (source_claim p ≡ ok c))

source-cases_of : (src dest : Pvc) → HasClaim (some (record { src = src; dest = dest }))
unfolding HasClaim has_source source_claim
source-cases_of none dest = inl (refl, refl)
source-cases_of (some none) dest = inl (refl, refl)
source-cases_of (some (some c)) dest = inr (c, refl, refl)

source-cases : (p : Option PvcPair) → HasClaim p
unfolding HasClaim has_source source_claim
source-cases none = inl (refl, refl)
source-cases (some p) = source-cases_of p.src p.dest

namespaces_from-read :
    (seen : List String) (rest : PvcPairList) (p : Option PvcPair) (c : Claim)
    → has_source p ≡ true
    → source_claim p ≡ ok c
    → namespaces_from source_claim seen (p ∷ rest) ≡ elim (contains seen c.namespace) [
      | true ↦ namespaces_from source_claim seen rest
      | false ↦ namespaces_from source_claim (seen ++ (c.namespace ∷ [])) rest
    ]
unfolding namespaces_from
namespaces_from-read seen rest p c with_source read = rw with_source (rw read refl)

namespaces_from_lem :
    (seen : List String) (ps : PvcPairList)
    → Distinct seen
    → (found : List String) × (namespaces_from source_claim seen ps ≡ ok found)
      × Distinct found
      × ((ns : String) → contains found ns ≡ (contains seen ns || any (comes_from ns) ps))
unfolding namespaces_from comes_from is_of HasClaim
namespaces_from_lem seen [] h = (seen, refl, h, λ ns. ground arith)
namespaces_from_lem seen (p ∷ rest) h = elim (source-cases p) [
  | inl (without, none_read) ↦
      let (found, e, d, k) = namespaces_from_lem seen rest h in
      (found, rw without e, d, λ ns. rw none_read (k ns))
  | inr (c, with_source, read) ↦ elim (Bool-cases (contains seen c.namespace)) [
    | inl old ↦
        let (found, e, d, k) = namespaces_from_lem seen rest h in
        (
          found,
          namespaces_from-read seen rest p c with_source read ∙ rw old e,
          d,
          λ ns. rw read (ground (arith, k ns, old)),
        )
    | inr fresh ↦
        let (found, e, d, k) =
          namespaces_from_lem (seen ++ (c.namespace ∷ [])) rest
            (push-Distinct seen c.namespace h fresh) in
        (
          found,
          namespaces_from-read seen rest p c with_source read ∙ rw fresh e,
          d,
          λ ns. rw read (ground (arith, k ns, contains-push seen ns c.namespace)),
        )
  ]
]

-- `GetSourceNamespaces` always returns. Its result has no namespace twice, and has exactly the
-- namespaces of the pairs that have a source claim.
pub get_source_namespaces_lem :
    (ps : PvcPairList)
    → (found : List String) × (get_source_namespaces ps ≡ ok found)
      × Distinct found
      × ((ns : String) → contains found ns ≡ any (comes_from ns) ps)
unfolding get_source_namespaces
get_source_namespaces_lem ps = namespaces_from_lem [] ps tt
