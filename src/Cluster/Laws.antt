-- ===== src/Cluster/Laws.antt =====
-- What a loop of quiesce.go leaves under every name, if it ends without an error.
use crane_lib.Base.{String, Option, none, some, List, [], ◌∷◌, ◌≡◌, refl, ap}
use crane_lib.Base.{
  Result, ok, err, panic, ◌==◌, string_eq, if◌then◌else◌, arith, Result-cases, inl, inr,
}
use crane_lib.Cluster.{
  NamespacedName, name_eq, Step, skip, write, stop, crash, outcome, Client, for_items, and_then,
}
use crane_lib.Cluster.{for_each, find, DistinctNames, IsLawful}
use mathlib.Core.Option

module _ {S X : Type 0} (key : X → NamespacedName) (c : Client S X)
    (get : S → NamespacedName → Option X) (L : IsLawful key c get) (step : X → Step X)
    (same_key : (x y : X) → step x ≡ write y → key y ≡ key x) where
  abbrev after : Option X → Option X → Option X
  after none old = old
  after (some x) old = elim (step x) [ write y ↦ some y | _ ↦ old ]

  and_then-ok :
      (p : S × Result (Unit {0})) (k : S → S × Result (Unit {0})) (s' : S)
      → and_then p k ≡ (s', ok tt)
      → (t : S) × (p ≡ (t, ok tt)) × (k t ≡ (s', ok tt))
  and_then-ok (t, ok tt) k s' h = (t, refl, h)
  and_then-ok (t, err e) k s' h = absurd (cc (ap (λ (p : S × Result (Unit {0})). p.1) h))
  and_then-ok (t, panic) k s' h = absurd (cc (ap (λ (p : S × Result (Unit {0})). p.1) h))

  -- One round, from what the later rounds leave.
  get-round :
      (x : X) (xs : List X) (s s' : S) (k : NamespacedName) (st : Step X)
      → step x ≡ st
      → find key (key x) xs ≡ none
      → ((t : S) → for_items c step xs t ≡ (s', ok tt) → get s' k ≡ after (find key k xs) (get t k))
      → for_items c step (x ∷ xs) s ≡ (s', ok tt)
      → get s' k ≡ after (find key k (x ∷ xs)) (get s k)
  unfolding for_items find
  get-round x xs s s' k skip e fresh ih h = ground (arith, ih s)
  get-round x xs s s' k (write y) e fresh ih h =
      let (t, stored, rest) =
        and_then-ok (c.update y s) (for_items c step xs) s' (rw (e, for_items) at h) in
      ground (arith, ih t rest, L.get-update y s t k stored, same_key x y e)
  get-round x xs s s' k (stop m) e fresh ih h = absurd (ground arith)
  get-round x xs s s' k crash e fresh ih h = absurd (ground arith)

  get-for_items :
      (xs : List X) (s s' : S) (k : NamespacedName)
      → DistinctNames key xs
      → for_items c step xs s ≡ (s', ok tt)
      → get s' k ≡ after (find key k xs) (get s k)
  get-for_items [] s s' k d h = unfold for_items find in ground arith
  get-for_items (x ∷ xs) s s' k (fresh, d) h =
      get-round x xs s s' k (step x) refl fresh (λ t. get-for_items xs t s' k d) h

  -- After a loop that ends without an error, the object of a name in the namespace is what its
  -- round left of it, and every other object is as before.
  pub get-for_each :
      (ns : String) (s s' : S) (k : NamespacedName)
      → for_each c step ns s ≡ (s', ok tt)
      → get s' k
        ≡ (if k.namespace == ns then Option.map (λ x. outcome (step x) x) (get s k) else get s k)
  unfolding for_each
  get-for_each ns s s' k h = elim (Result-cases (c.list ns s)) [
    | inl (xs, listed) ↦ ground (
      arith,
      get-for_items xs s s' k (L.list-DistinctNames ns s xs listed) (rw (listed, for_each) at h),
      L.list-find ns s xs k listed,
    )
    | inr (inl (e, failed)) ↦ absurd (ground arith)
    | inr (inr failed) ↦ absurd (ground arith)
  ]
