-- ===== src/PvcList/Groups.antt =====
-- What `GroupBySourceNamespaces` keeps of the pairs that `InSourceNamespace` finds.
use crane_lib.Base.{String, Option, none, some, [], ◌∷◌, ◌++◌, append_assoc, append-nil}
use crane_lib.Base.{
  Result, ok, >>=-eq-ok, ok-injective, ◌==◌, string_eq, if◌then◌else◌, ◌≡◌, refl, ap, sym, ◌∙◌,
  arith, Option-cases, inl, inr, subst,
}
use crane_lib.Base.Dict
use crane_lib.Base.Dict.{Dict}
use crane_lib.PvcList.{
  Claim, PvcPair, PvcPairList, source_claim, in_namespace, in_source_namespace, group_one,
  group_pairs, group_by_source_namespaces,
}

-- What a list under a key becomes with some more pairs: the first pair of a new key is lost.
grown : Option PvcPairList → PvcPairList → Option PvcPairList
grown none [] = none
grown none (p ∷ ps) = some ps
grown (some old) ps = some (old ++ ps)

grown-nil : (o : Option PvcPairList) → grown o [] ≡ o
unfolding grown
grown-nil none = refl
grown-nil (some old) = ap some (append-nil old)

grown-grown :
    (o : Option PvcPairList) (p : Option PvcPair) (ps : PvcPairList)
    → grown (grown o (p ∷ [])) ps ≡ grown o (p ∷ ps)
unfolding grown
grown-grown none p ps = refl
grown-grown (some old) p ps = ap some (append_assoc old (p ∷ []) ps)

lookup-group_one :
    (ns k : String) (p : Option PvcPair) (m : Dict String PvcPairList)
    → Dict.lookup ns (group_one k p m)
      ≡ (if ns == k then grown (Dict.lookup k m) (p ∷ []) else Dict.lookup ns m)
unfolding group_one grown
lookup-group_one ns k p m = elim (Option-cases (Dict.lookup k m)) [
  | inl fresh ↦ rw (fresh, group_one) (Dict.lookup-insert ns k [] m)
  | inr (old, held) ↦ rw (held, group_one) (Dict.lookup-insert ns k (old ++ (p ∷ [])) m)
]

-- The pairs of one more namespace.
further : (ns k : String) → Option PvcPair → PvcPairList → PvcPairList
further ns k p xs = if k == ns then p ∷ xs else xs

grown-further :
    (ns k : String) (p : Option PvcPair) (m : Dict String PvcPairList) (xs : PvcPairList)
    → grown (Dict.lookup ns (group_one k p m)) xs ≡ grown (Dict.lookup ns m) (further ns k p xs)
unfolding further
grown-further ns k p m xs = elim (string_eq.dec ns k) [
  | yes e ↦ ground (arith, lookup-group_one ns k p m, grown-grown (Dict.lookup k m) p xs)
  | no e ↦ ground (arith, lookup-group_one ns k p m)
]

further_lem :
    (ns : String) (p : Option PvcPair) (c c' : Claim) (pairs xs : PvcPairList)
    → source_claim p ≡ ok c
    → source_claim p ≡ ok c'
    → ◌≡◌ {A = Result PvcPairList} (ok (if c'.namespace == ns then p ∷ pairs else pairs)) (ok xs)
    → further ns c.namespace p pairs ≡ xs
unfolding further
further_lem ns p c c' pairs xs named named' done =
    subst (λ (d : Claim). further ns d.namespace p pairs ≡ xs)
      (ok-injective c' c (sym named' ∙ named)) (ok-injective _ xs done)

group_pairs_lem :
    (ns : String) (ps xs : PvcPairList) (m m' : Dict String PvcPairList)
    → group_pairs m ps ≡ ok m'
    → in_source_namespace ps ns ≡ ok xs
    → Dict.lookup ns m' ≡ grown (Dict.lookup ns m) xs
unfolding group_pairs in_source_namespace in_namespace
group_pairs_lem ns [] xs m m' h g =
    subst (λ l. Dict.lookup ns m' ≡ grown (Dict.lookup ns m) l) (ok-injective [] xs g)
      (ap (Dict.lookup ns) (sym (ok-injective m m' h)) ∙ sym (grown-nil _))
group_pairs_lem ns (p ∷ rest) xs m m' h g =
    let (c, named, later) = >>=-eq-ok (source_claim p) _ h in
    let (c', named', others) = >>=-eq-ok (source_claim p) _ g in
    let (pairs, ih, done) = >>=-eq-ok (in_namespace source_claim ns rest) _ others in
    group_pairs_lem ns rest pairs (group_one c.namespace p m) m' later ih
    ∙ grown-further ns c.namespace p m pairs
    ∙ ap (grown (Dict.lookup ns m)) (further_lem ns p c c' pairs xs named named' done)

-- All pairs but the first; none at all if there is no first.
unfoldable pub tail : PvcPairList → Option PvcPairList
tail [] = none
tail (p ∷ ps) = some ps

grown-tail : (ps : PvcPairList) → grown none ps ≡ tail ps
unfolding grown tail
grown-tail [] = refl
grown-tail (p ∷ ps) = refl

-- The list under a namespace is what `InSourceNamespace` gives without its first pair. A
-- namespace with no pair has no entry.
pub group_by_source_namespaces-tail :
    (ps xs : PvcPairList) (m : Dict String PvcPairList) (ns : String)
    → group_by_source_namespaces ps ≡ ok m
    → in_source_namespace ps ns ≡ ok xs
    → Dict.lookup ns m ≡ tail xs
unfolding group_by_source_namespaces Dict.lookup
group_by_source_namespaces-tail ps xs m ns h found =
    group_pairs_lem ns ps xs [] m h found ∙ grown-tail xs
