-- ===== src/Quiesce/Namespace.antt =====
-- Quiescing and unquiescing the workloads of a whole namespace, over a client that does not fail.
use crane_lib.Base.{String, Option, none, some, ◌≡◌, refl, ok, arith, ◌==◌, string_eq}
use crane_lib.Base.{if◌then◌else◌, Option-cases, inl, inr, sym, ◌∙◌, subst}
use crane_lib.Base.Int.{ℤ}
use crane_lib.Cluster.{NamespacedName, outcome, Goes, Client}
use crane_lib.Cluster.{for_each, IsLawful, IsReliable}
use crane_lib.Cluster.Laws.{get-for_each}
use crane_lib.Cluster.Total.{for_each-ok}
use crane_lib.Quiesce.{Scaled}
use crane_lib.Quiesce.RoundTrip.{Kind, quiesce, unquiesce, IsFresh, unquiesce-quiesce}
use crane_lib.Quiesce.RoundTrip.{quiesce-Goes, unquiesce-Goes, quiesce-key, unquiesce-key}
use mathlib.Core.Option

module _ {S : Type 0} (c : Client S Scaled) (get : S → NamespacedName → Option Scaled)
    (L : IsLawful (λ x. x.key) c get) (R : IsReliable c) (k : Kind) (ns : String) (s : S)
    (fresh : (m : NamespacedName) (x : Scaled)
      → m.namespace ≡ ns
      → get s m ≡ some x
      → (n : ℤ) × IsFresh x n) where
  quiesced : (t : S) × (for_each c (quiesce k) ns s ≡ (t, ok tt))
  quiesced =
      for_each-ok (λ x. x.key) c get L R (quiesce k) ns s
        (λ m x e found. let (n, f) = fresh m x e found in quiesce-Goes k x n f)

  get-first :
      (m : NamespacedName)
      → get quiesced.0 m ≡ (
          if m.namespace == ns
          then Option.map (λ x. outcome (quiesce k x) x) (get s m)
          else get s m)
  get-first m =
      get-for_each (λ x. x.key) c get L (quiesce k) (quiesce-key k) ns s quiesced.0 m quiesced.1

  get-quiesced :
      (m : NamespacedName) (x : Scaled)
      → m.namespace ≡ ns
      → get s m ≡ some x
      → get quiesced.0 m ≡ some (outcome (quiesce k x) x)
  get-quiesced m x e found = ground (arith, get-first m)

  get-quiesced_inv :
      (m : NamespacedName) (y : Scaled)
      → m.namespace ≡ ns
      → get quiesced.0 m ≡ some y
      → (x : Scaled) × (n : ℤ) × IsFresh x n × (outcome (quiesce k x) x ≡ y)
  get-quiesced_inv m y e found = elim (Option-cases (get s m)) [
    | inl absent ↦ absurd (ground (arith, get-first m))
    | inr (x, there) ↦
        let (n, f) = fresh m x e there in
        (x, n, f, Option.some-injective _ _ (sym (get-quiesced m x e there) ∙ found))
  ]

  unquiesced : (t : S) × (for_each c (unquiesce k) ns quiesced.0 ≡ (t, ok tt))
  unquiesced =
      for_each-ok (λ x. x.key) c get L R (unquiesce k) ns quiesced.0
        (λ m y e found.
          let (x, n, f, same) = get-quiesced_inv m y e found in
          subst (λ z. Goes (unquiesce k z)) same (unquiesce-Goes k x n f))

  get-second :
      (m : NamespacedName)
      → get unquiesced.0 m ≡ (
          if m.namespace == ns
          then Option.map (λ x. outcome (unquiesce k x) x) (get quiesced.0 m)
          else get quiesced.0 m)
  get-second m =
      get-for_each (λ x. x.key) c get L (unquiesce k) (unquiesce-key k) ns quiesced.0 unquiesced.0 m
        unquiesced.1

  get-unquiesced_self :
      (m : NamespacedName) (o : Option Scaled) → get s m ≡ o → get unquiesced.0 m ≡ get s m
  get-unquiesced_self m none absent = ground (arith, get-first m, get-second m)
  get-unquiesced_self m (some x) there = elim (string_eq.dec m.namespace ns) [
    | yes e ↦
        let (n, f) = fresh m x e there in
        ground (arith, get-quiesced m x e there, get-second m, unquiesce-quiesce k x n f)
    | no e ↦ ground (arith, get-first m, get-second m)
  ]

  -- Over a client that is lawful and whose calls do not fail, if every object of the namespace is
  -- fresh, then quiescing and unquiescing its Deployments, StatefulSets,
  -- ReplicaSets or Jobs ends both loops without an
  -- error, and every object of the cluster is what it was.
  pub get-unquiesced :
      (t u : S) × (for_each c (quiesce k) ns s ≡ (t, ok tt))
      × (for_each c (unquiesce k) ns t ≡ (u, ok tt))
      × ((m : NamespacedName) → get u m ≡ get s m)
  get-unquiesced = (
    quiesced.0,
    unquiesced.0,
    quiesced.1,
    unquiesced.1,
    λ m. get-unquiesced_self m (get s m) refl,
  )
