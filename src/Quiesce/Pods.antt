-- ===== src/Quiesce/Pods.antt =====
-- `ensureQuiescedPodsTerminated`, and the loop that waits for it.
use crane_lib.Base.{
  String, ℕ, zero, suc, ◌<◌, Option, none, some, ◌≡◌, refl, Result, ok, err, panic,
}
use crane_lib.Base.{Bool, true, false, if◌then◌else◌, List, [], ◌∷◌, All, ◌↔◌, arith}
use crane_lib.Base.{Result-cases, ok-injective, contains, string_eq, Bool-cases, inl, inr}

-- `Status.Phase`, and the kinds of the owner references.
pub record Pod : Type 0 where
  pub phase : String
  pub owner_kinds : List String

abbrev pub scaled_kinds : List String
scaled_kinds = "ReplicationController" ∷ "StatefulSet" ∷ "ReplicaSet" ∷ "DaemonSet" ∷ "Job" ∷ []

abbrev pub skipped_phases : List String
skipped_phases = "Succeeded" ∷ "Failed" ∷ "Unknown" ∷ []

is_scaled_kind : String → Bool
is_scaled_kind kind = contains scaled_kinds kind

is_skipped : String → Bool
is_skipped phase = contains skipped_phases phase

owned : List String → Bool
owned [] = false
owned (kind ∷ rest) = if is_scaled_kind kind then true else owned rest

-- The loops over the pods and over the owners of each.
terminated : List Pod → Bool
terminated [] = true
terminated (p ∷ ps) =
    let rest = terminated ps in
    if is_skipped p.phase then rest else if owned p.owner_kinds then false else rest

unfoldable pub pods_terminated : List Pod → Bool
unfolding terminated owned is_scaled_kind is_skipped
pods_terminated ps = terminated ps

module _ {S : Type 0} (list_pods : String → S → Result (List Pod)) (ns : String) where
  unfoldable pub ensure_quiesced_pods_terminated : S → Result Bool
  ensure_quiesced_pods_terminated s = elim (list_pods ns s) [
    | ok ps ↦ ok (pods_terminated ps)
    | err e ↦ err e
    | panic ↦ panic
  ]

  -- The `for` at the end of `QuiesceApplications`. `sleep` is what five seconds make of the
  -- cluster; `none` means that the rounds ran out.
  unfoldable pub wait_terminated : (S → S) → ℕ → S → Option (S × Result (Unit {0}))
  wait_terminated sleep zero s = none
  wait_terminated sleep (suc rounds) s = elim (ensure_quiesced_pods_terminated s) [
    | ok true ↦ some (s, ok tt)
    | ok false ↦ wait_terminated sleep rounds (sleep s)
    | err e ↦ some (s, err e)
    | panic ↦ some (s, panic)
  ]

-- No owner is of a kind that was scaled down.
abbrev pub IsFree : Pod → Type 0
IsFree p = All (λ kind. contains scaled_kinds kind ≡ false) p.owner_kinds

owned_iff : (ks : List String) → (owned ks ≡ false) ↔ All (λ kind. is_scaled_kind kind ≡ false) ks
unfolding owned
owned_iff [] = (λ h. tt, λ h. refl)
owned_iff (k ∷ ks) = ground (arith, owned_iff ks)

pods_terminated_by_test :
    (ps : List Pod)
    → (terminated ps ≡ true)
      ↔ All
          (λ p.
            is_skipped p.phase ≡ false → All (λ kind. is_scaled_kind kind ≡ false) p.owner_kinds)
          ps
unfolding terminated
pods_terminated_by_test [] = (λ h. tt, λ h. refl)
pods_terminated_by_test (p ∷ ps) = elim (Bool-cases (is_skipped p.phase)) [
  | inl skipped ↦ ground (arith, pods_terminated_by_test ps)
  | inr live ↦ ground (arith, pods_terminated_by_test ps, owned_iff p.owner_kinds)
]

-- The answer is `true` exactly when each pod has ended or is of no kind that was scaled down.
pub pods_terminated_iff :
    (ps : List Pod)
    → (pods_terminated ps ≡ true) ↔ All (λ p. contains skipped_phases p.phase ≡ false → IsFree p) ps
unfolding pods_terminated
pods_terminated_iff ps = pods_terminated_by_test ps

-- A check that answers `true` has listed the pods, and none of them is a live one of a kind that was
-- scaled down.
pub ensure_quiesced_pods_terminated_sound :
    {S : Type 0} (list_pods : String → S → Result (List Pod)) (ns : String) (s : S)
    → ensure_quiesced_pods_terminated list_pods ns s ≡ ok true
    → (ps : List Pod) × (list_pods ns s ≡ ok ps)
      × All (λ p. contains skipped_phases p.phase ≡ false → IsFree p) ps
unfolding ensure_quiesced_pods_terminated
ensure_quiesced_pods_terminated_sound list_pods ns s h = elim (Result-cases (list_pods ns s)) [
  | inl (ps, is) ↦
      let answer = rw (is, ensure_quiesced_pods_terminated) at h in
      (ps, is, (pods_terminated_iff ps).0 (ok-injective (pods_terminated ps) true answer))
  | inr (inl (e, is)) ↦
      let never = rw (is, ensure_quiesced_pods_terminated) at h in absurd (cc never)
  | inr (inr is) ↦ let never = rw (is, ensure_quiesced_pods_terminated) at h in absurd (cc never)
]

abbrev pub iterate {ℓ} : {S : Type ℓ} → (S → S) → ℕ → S → S
iterate f zero s = s
iterate f (suc n) s = iterate f n (f s)

module _ {S : Type 0} (list_pods : String → S → Result (List Pod)) (ns : String)
    (sleep : S → S) where
  -- If the pods are first seen to have ended after `n` sleeps, then any number of rounds above `n`
  -- ends the wait at that state, without an error.
  pub wait_terminated_lem :
      (n rounds : ℕ) (s : S)
      → n < rounds
      → ((m : ℕ)
          → m < n
          → ensure_quiesced_pods_terminated list_pods ns (iterate sleep m s) ≡ ok false)
      → ensure_quiesced_pods_terminated list_pods ns (iterate sleep n s) ≡ ok true
      → wait_terminated list_pods ns sleep rounds s ≡ some (iterate sleep n s, ok tt)
  unfolding wait_terminated
  wait_terminated_lem n zero s h before ended = absurd (omega arith)
  wait_terminated_lem zero (suc r) s h before ended = rw (ended, wait_terminated)
  wait_terminated_lem (suc n) (suc r) s h before ended =
      rw (before 0 (omega arith), wait_terminated)
        (wait_terminated_lem n r (sleep s) (omega arith) (λ m lt. before (suc m) (omega arith))
          ended)

  -- A wait that ends without an error ends where the pods are seen to have ended.
  pub wait_terminated_sound :
      (rounds : ℕ) (s t : S)
      → wait_terminated list_pods ns sleep rounds s ≡ some (t, ok tt)
      → ensure_quiesced_pods_terminated list_pods ns t ≡ ok true
  unfolding wait_terminated
  wait_terminated_sound zero s t h = absurd (cc)
  wait_terminated_sound (suc r) s t h = ground (arith, wait_terminated_sound r (sleep s) t)
