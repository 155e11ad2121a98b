-- ===== src/Transfers/Healthy.antt =====
-- When the pods of a transfer count as healthy.
use crane_lib.Base.{ℕ, suc, String, Bool, true, false, ◌&&◌, Option, none, some, List, [], ◌∷◌, any}
use crane_lib.Base.{
  ◌≡◌, refl, sym, ◌∙◌, Bool-cases, inl, inr, ◌⊎◌, ◌↔◌, arith, length, eqb, if◌then◌else◌,
}
use crane_lib.Rsync.{Aggregate}
use crane_lib.Rsync.Command.Errors.{IsAggregate, NoErrors, NoErrors-append}
use crane_lib.Transfers.{
  ContainerStatus, PodStatus, all_ready, are_containers_ready, append_error, first_ready,
  are_filtered_pods_healthy,
}

-- The pod has two containers, and both are ready.
abbrev pub two_ready : List ContainerStatus → Bool
two_ready [] = false
two_ready (c ∷ []) = false
two_ready (c ∷ d ∷ []) = c.ready && d.ready
two_ready (c ∷ d ∷ e ∷ rest) = false

-- Ready, and without an error.
abbrev Means : Bool × Option String → Bool → Type 0
Means r b = (r.0 ≡ b) × ((r.1 ≡ none) ↔ (b ≡ true))

all_ready-pair :
    (p : PodStatus) (c d : ContainerStatus) → Means (all_ready p (c ∷ d ∷ [])) (c.ready && d.ready)
unfolding all_ready
all_ready-pair p c d = elim (Bool-cases c.ready) [
  | inr e ↦ rw e (refl, (λ never. absurd (cc never), λ never. absurd (cc never)))
  | inl e ↦ elim (Bool-cases d.ready) [
    | inr f ↦ rw (e, f) (refl, (λ never. absurd (cc never), λ never. absurd (cc never)))
    | inl f ↦ rw (e, f) (refl, (λ h. refl, λ h. refl))
  ]
]

refused : (m : String) → Means (false, some m) false
refused m = (refl, (λ never. absurd (cc never), λ never. absurd (cc never)))

eqb_long : (n : ℕ) → eqb (suc (suc (suc n))) 2 ≡ false
eqb_long n = ground arith

counted-Means :
    (p : PodStatus) (m : String) (cs : List ContainerStatus)
    → Means (if eqb (length cs) 2 then all_ready p cs else (false, some m)) (two_ready cs)
counted-Means p m [] = refused m
counted-Means p m (c ∷ []) = refused m
counted-Means p m (c ∷ d ∷ []) = all_ready-pair p c d
counted-Means p m (c ∷ d ∷ e ∷ rest) = rw (eqb_long (length rest)) (refused m)

are_containers_ready-Means :
    (p : PodStatus) → Means (are_containers_ready p) (two_ready p.container_statuses)
unfolding are_containers_ready
are_containers_ready-Means p = counted-Means p _ p.container_statuses

append_error-unclean :
    (errs : List (Option String)) (e : Option String)
    → (e ≡ none → false ≡ true)
    → ¬ (NoErrors (append_error errs e))
append_error-unclean errs none unclean h = absurd (cc (unclean refl))
append_error-unclean errs (some e) unclean h =
    let (_, (never, _)) = (NoErrors-append errs (some e ∷ [])).0 h in absurd (cc never)

module _ (aggregate : Aggregate) (aggregates : IsAggregate aggregate) where
  first_ready-Means :
      (errs : List (Option String)) (pods : List PodStatus)
      → let r = first_ready aggregate errs pods in
        let found = any (λ p. two_ready p.container_statuses) pods in
        (r.0 ≡ found) × ((r.1 ≡ none) ↔ ((found ≡ true) ⊎ (NoErrors errs × (pods ≡ []))))
  unfolding first_ready
  first_ready-Means errs [] = (
    refl,
    (
      λ h. inr ((aggregates errs).0 h, refl),
      λ h. elim h [
        | inl never ↦ absurd (cc never)
        | inr (none_yet, _) ↦ (aggregates errs).1 none_yet
      ],
    ),
  )
  first_ready-Means errs (p ∷ pods) =
      let (ready, clean) = are_containers_ready-Means p in
      elim (Bool-cases (two_ready p.container_statuses)) [
        | inl e ↦ rw (ready, e) (refl, (λ h. inl refl, λ h. refl))
        | inr e ↦
            let errs' = append_error errs (are_containers_ready p).1 in
            let (found, errors) = first_ready-Means errs' pods in
            rw (ready, e)
              (
                found,
                (
                  λ h. elim (errors.0 h) [
                    | inl one ↦ inl one
                    | inr (clean_yet, _) ↦
                        absurd (append_error-unclean errs _ (λ q. sym e ∙ clean.0 q) clean_yet)
                  ],
                  λ h. elim h [ inl one ↦ errors.1 (inl one) | inr (_, never) ↦ absurd (cc never) ],
                ),
              )
      ]

  -- Where NewAggregate does what it documents, and the pods are listed, `AreFilteredPodsHealthy` gives
  -- true exactly if one of the pods has two containers and both are ready. It gives no error exactly
  -- if there is such a pod or there is no pod at all.
  pub are_filtered_pods_healthy_lem :
      (pods : List PodStatus)
      → let r = are_filtered_pods_healthy aggregate (inr pods) in
        let found = any (λ p. two_ready p.container_statuses) pods in
        (r.0 ≡ found) × ((r.1 ≡ none) ↔ ((found ≡ true) ⊎ (pods ≡ [])))
  unfolding are_filtered_pods_healthy
  are_filtered_pods_healthy_lem pods =
      let (found, errors) = first_ready-Means [] pods in
      (
        found,
        (
          λ h. elim (errors.0 h) [ inl one ↦ inl one | inr (_, nil) ↦ inr nil ],
          λ h. elim h [ inl one ↦ errors.1 (inl one) | inr nil ↦ errors.1 (inr (tt, nil)) ],
        ),
      )
