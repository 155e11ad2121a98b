-- ===== src/Rsync/Validation/Single.antt =====
-- A list of pairs that passes the validation is of one namespace.
use crane_lib.Base.{
  ltb, length, String, Bool, true, false, ◌||◌, Option, none, some, List, [], ◌∷◌, ◌++◌, All, any,
}
use crane_lib.Base.{
  ok, >>=-eq-ok, ok-injective, if◌then◌else◌, string_eq, ◌==◌, ==_refl, ==→eq, contains, ◌≡◌, ◌≢◌,
  refl, sym, ◌∙◌, arith, subst,
}
use crane_lib.PvcList.{
  Claim, Pvc, PvcPair, PvcPairList, has_source, source_claim, in_namespace, in_source_namespace,
  get_source_namespaces, get_destination_namespaces,
}
use crane_lib.PvcList.Namespaces.{comes_from, get_source_namespaces_lem}
use crane_lib.Rsync.{Aggregate}
use crane_lib.Rsync.Command.Errors.{NoErrors, IsAggregate, NoErrors-append}
use crane_lib.Rsync.Validation.{namespace_errors, empty_errors, all_pair_errors, validate_pvc_list}

read_source_pvc :
    (src dest : Pvc)
    → has_source (some (record { src = src; dest = dest })) ≡ true
    → (c : Claim) × (source_claim (some (record { src = src; dest = dest })) ≡ ok c)
unfolding has_source source_claim
read_source_pvc none dest h = cc
read_source_pvc (some none) dest h = cc
read_source_pvc (some (some c)) dest h = (c, refl)

read_source : (p : Option PvcPair) → has_source p ≡ true → (c : Claim) × (source_claim p ≡ ok c)
read_source none h = unfold has_source in cc
read_source (some p) h = read_source_pvc p.src p.dest h

comes_from-read :
    (p : Option PvcPair) (c : Claim) (ns : String)
    → source_claim p ≡ ok c
    → comes_from ns p ≡ (ns == c.namespace)
unfolding comes_from
comes_from-read p c ns e = rw (e, comes_from) refl

-- The pair has a source claim in the namespace.
abbrev Within : String → Option PvcPair → Type 0
Within n p = (c : Claim) × (source_claim p ≡ ok c) × (c.namespace ≡ n)

or_right : (a b : Bool) → b ≡ true → (a || b) ≡ true
or_right true b h = refl
or_right false b h = h

every-Within :
    (n : String) (ps : PvcPairList)
    → ((ns : String) → any (comes_from ns) ps ≡ true → ns ≡ n)
    → All (λ p. has_source p ≡ true) ps
    → All (Within n) ps
every-Within n [] only h = tt
every-Within n (p ∷ rest) only (has, h) =
    let (c, e) = read_source p has in
    (
      (c, e, only c.namespace (rw (comes_from-read p c c.namespace e, ==_refl c.namespace) refl)),
      every-Within n rest (λ ns later. only ns (or_right (comes_from ns p) _ later)) h,
    )

in_source_namespace-Within :
    (n : String) (ps : PvcPairList) → All (Within n) ps → in_namespace source_claim n ps ≡ ok ps
unfolding in_namespace
in_source_namespace-Within n [] h = refl
in_source_namespace-Within n (p ∷ rest) ((c, e, is), h) =
    rw (e, in_namespace) (rw (in_source_namespace-Within n rest h) (rw is (rw (==_refl n) refl)))

-- At most one namespace, so what is contained in the list is the one.
one_namespace :
    (found : List String)
    → ltb 1 (length found) ≡ false
    → (n : String) × ((ns : String) → contains found ns ≡ true → ns ≡ n)
one_namespace [] h = ("", λ ns e. absurd (cc e))
one_namespace (n ∷ []) h = (n, λ ns e. ==→eq ns n (ground arith))
one_namespace (n ∷ m ∷ found) h = absurd (ground arith)

not_empty : (ps : PvcPairList) → NoErrors (empty_errors ps) → ps ≢ []
unfolding empty_errors
not_empty [] (never, _) = absurd (cc never)
not_empty (p ∷ ps) h = λ e. cc

first_false : (a b : Bool) (e : String) → NoErrors (if a || b then some e ∷ [] else []) → a ≡ false
first_false true b e (never, _) = absurd (cc never)
first_false false b e h = refl

few_sources :
    (src dest : List String) → NoErrors (namespace_errors src dest) → ltb 1 (length src) ≡ false
unfolding namespace_errors
few_sources src dest h = first_false (ltb 1 (length src)) _ _ h

module _ (md5 : String → String) (value_errors : String → List String) (aggregate : Aggregate)
    (aggregates : IsAggregate aggregate) where
  -- If a list whose pairs all have a source claim passes the validation, then it is not empty, and
  -- there is a namespace whose pairs, as the client looks them up, are the whole list.
  pub validate_pvc_list-single :
      (ps : PvcPairList)
      → All (λ p. has_source p ≡ true) ps
      → validate_pvc_list md5 value_errors aggregate ps ≡ ok none
      → (ps ≢ []) × ((ns : String) × (in_source_namespace ps ns ≡ ok ps))
  unfolding validate_pvc_list in_source_namespace
  validate_pvc_list-single ps has h =
      let (found, found_is, distinct, k) = get_source_namespaces_lem ps in
      let (src, s, h1) = >>=-eq-ok (get_source_namespaces ps) _ h in
      let (dest, d, h2) = >>=-eq-ok (get_destination_namespaces ps) _ h1 in
      let (errs, e, h3) = >>=-eq-ok (all_pair_errors md5 value_errors aggregate ps) _ h2 in
      let none_of_all =
        (aggregates (namespace_errors src dest ++ (empty_errors ps ++ errs))).0
          (ok-injective _ none h3) in
      let (few, others) =
        (NoErrors-append (namespace_errors src dest) (empty_errors ps ++ errs)).0 none_of_all in
      let (some_pair, _) = (NoErrors-append (empty_errors ps) errs).0 others in
      let (n, only) = one_namespace src (few_sources src dest few) in
      let same = ok-injective found src (sym found_is ∙ s) in
      (
        not_empty ps some_pair,
        (
          n,
          in_source_namespace-Within n ps (
              every-Within n ps
                (λ ns yes. only ns (subst (λ l. contains l ns ≡ true) same (k ns ∙ yes))) has),
        ),
      )
