-- ===== src/Cluster/Store.antt =====
-- A cluster in memory: the laws that are assumed of a client can hold.
use crane_lib.Base.{
  ok-injective, String, Bool, Option, none, some, List, [], ◌∷◌, ◌≡◌, refl, ap, subst, arith, keep,
}
use crane_lib.Base.{ok, ◌==◌, string_eq, if◌then◌else◌}
use crane_lib.Cluster.{NamespacedName, name_eq, Client, find, DistinctNames, IsLawful, IsReliable}

module _ {X : Type 0} (key : X → NamespacedName) where
  abbrev pub Objects : Type 0
  Objects = (xs : List X) × DistinctNames key xs

  unfoldable pub put : X → List X → List X
  put x [] = x ∷ []
  put x (y ∷ ys) = if key x == key y then x ∷ ys else y ∷ put x ys

  find-put :
      (k : NamespacedName) (x : X) (ys : List X)
      → find key k (put x ys) ≡ (if k == key x then some x else find key k ys)
  unfolding put find
  find-put k x [] = refl
  find-put k x (y ∷ ys) = ground (arith, find-put k x ys)

  pub put-DistinctNames :
      (x : X) (ys : List X) → DistinctNames key ys → DistinctNames key (put x ys)
  unfolding put find
  put-DistinctNames x [] h = (refl, tt)
  put-DistinctNames x (y ∷ ys) (fresh, h) =
      ground (arith, put-DistinctNames x ys h, find-put (key y) x ys)

  abbrev pub in_namespace : String → X → Bool
  in_namespace ns x = (key x).namespace == ns

  find-keep :
      (ns : String) (k : NamespacedName) (xs : List X)
      → find key k (keep (in_namespace ns) xs) ≡ (if k.namespace == ns then find key k xs else none)
  unfolding find
  find-keep ns k [] = ground arith
  find-keep ns k (x ∷ xs) = ground (arith, find-keep ns k xs)

  keep-DistinctNames :
      (ns : String) (xs : List X)
      → DistinctNames key xs
      → DistinctNames key (keep (in_namespace ns) xs)
  keep-DistinctNames ns [] h = tt
  keep-DistinctNames ns (x ∷ xs) (fresh, h) =
      ground (arith, keep-DistinctNames ns xs h, find-keep ns (key x) xs)

  abbrev pub store : Client Objects X
  store = record {
    list = λ ns s. ok (keep (in_namespace ns) s.0);
    update = λ x s. ((put x s.0, put-DistinctNames x s.0 s.1), ok tt);
  }

  abbrev pub stored : Objects → NamespacedName → Option X
  stored s k = find key k s.0

  pub store-IsLawful : IsLawful key store stored
  store-IsLawful = record {
    get-update = λ x s s' k h.
        subst (λ t. stored t k ≡ (if k == key x then some x else stored s k)) (ap (λ r. r.0) h)
          (find-put k x s.0);
    list-find = λ ns s xs k h.
        subst (λ l. find key k l ≡ (if k.namespace == ns then stored s k else none))
          (ok-injective _ xs h) (find-keep ns k s.0);
    list-DistinctNames = λ ns s xs h.
        subst (DistinctNames key) (ok-injective _ xs h) (keep-DistinctNames ns s.0 s.1);
  }

  pub store-IsReliable : IsReliable store
  store-IsReliable = record {
    lists = λ ns s. (keep (in_namespace ns) s.0, refl);
    updates = λ x s. ((put x s.0, put-DistinctNames x s.0 s.1), refl);
  }
