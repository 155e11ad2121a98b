-- ===== src/Cluster/Total.antt =====
-- A loop over a reliable client ends without an error, if every round goes through.
use crane_lib.Base.{String, Option, some, List, [], ◌∷◌, ◌≡◌, refl}
use crane_lib.Base.{ok, ==_refl, string_eq, arith, All}
use crane_lib.Cluster.{NamespacedName, name_eq, Step, skip, write, stop, crash, Goes, Client}
use crane_lib.Cluster.{for_items, for_each, find, DistinctNames, IsLawful, IsReliable}

module _ {S X : Type 0} (c : Client S X) (R : IsReliable c) (step : X → Step X) where
  round-ok :
      (x : X) (xs : List X) (s : S) (st : Step X)
      → step x ≡ st
      → Goes st
      → ((t : S) → (s' : S) × (for_items c step xs t ≡ (s', ok tt)))
      → (s' : S) × (for_items c step (x ∷ xs) s ≡ (s', ok tt))
  unfolding for_items
  round-ok x xs s skip e g ih = let (t, done) = ih s in (t, rw (e, for_items) done)
  round-ok x xs s (write y) e g ih =
      let (u, stored) = R.updates y s in
      let (t, done) = ih u in (t, rw (e, for_items) (rw stored done))
  round-ok x xs s (stop m) e g ih = absurd g
  round-ok x xs s crash e g ih = absurd g

  for_items-ok :
      (xs : List X) (s : S)
      → All (λ x. Goes (step x)) xs
      → (s' : S) × (for_items c step xs s ≡ (s', ok tt))
  for_items-ok [] s g = (s, unfold for_items in refl)
  for_items-ok (x ∷ xs) s (g, gs) = round-ok x xs s (step x) refl g (λ t. for_items-ok xs t gs)

module _ {X : Type 0} (key : X → NamespacedName) (P : X → Type 0) where
  -- What holds of every object that is found by its name holds of every listed one.
  All-find :
      (xs : List X)
      → DistinctNames key xs
      → ((k : NamespacedName) (x : X) → find key k xs ≡ some x → P x)
      → All P xs
  unfolding find
  All-find [] d h = tt
  All-find (x ∷ xs) (fresh, d) h =
      (h (key x) x (rw (==_refl (key x))), All-find xs d (λ k y found. h k y (ground arith)))

module _ {S X : Type 0} (key : X → NamespacedName) (c : Client S X)
    (get : S → NamespacedName → Option X) (L : IsLawful key c get) (R : IsReliable c)
    (step : X → Step X) where
  pub for_each-ok :
      (ns : String) (s : S)
      → ((k : NamespacedName) (x : X) → k.namespace ≡ ns → get s k ≡ some x → Goes (step x))
      → (s' : S) × (for_each c step ns s ≡ (s', ok tt))
  unfolding for_each
  for_each-ok ns s g =
      let (xs, listed) = R.lists ns s in
      let (s', done) = for_items-ok c R step xs s (
        All-find key (λ x. Goes (step x)) xs (L.list-DistinctNames ns s xs listed)
          (λ k x found.
            g k x (ground (arith, L.list-find ns s xs k listed))
              (ground (arith, L.list-find ns s xs k listed)))) in
      (s', rw (listed, for_each) done)
