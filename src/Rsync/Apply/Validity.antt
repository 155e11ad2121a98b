-- ===== src/Rsync/Apply/Validity.antt =====
-- When labels and owner references give no error.
use crane_lib.Base.{String, false, none, some, List, [], ◌∷◌, All, map}
use crane_lib.Base.{
  ◌≡◌, refl, ap, ◌∙◌, sym, ◌↔◌, Bool-cases, inl, inr, string_eq, ◌==◌, ==_refl, ==_ne, arith,
}
use crane_lib.Base.Dict.{Dict}
use crane_lib.Meta.{validate_labels}
use crane_lib.Rsync.{Aggregate, OwnerReference}
use crane_lib.Rsync.Apply.{is_incomplete, some_incomplete, label_error}
use crane_lib.Rsync.Command.Errors.{NoErrors, IsAggregate}
use crane_lib.Rsync.Apply.Settings.{IsComplete}

is_incomplete_iff : (ref : OwnerReference) → (is_incomplete ref ≡ false) ↔ IsComplete ref
unfolding is_incomplete
is_incomplete_iff ref = (
  λ h. (
    λ q. absurd (ground (arith, ap (λ s. s == "") q, ==_refl {A = String} "")),
    λ q. absurd (ground (arith, ap (λ s. s == "") q, ==_refl {A = String} "")),
    λ q. absurd (ground (arith, ap (λ s. s == "") q, ==_refl {A = String} "")),
  ),
  λ (kind, name, uid).
      rw (==_ne ref.kind "" kind, ==_ne ref.name "" name, ==_ne ref.uid "" uid) refl,
)

pub some_incomplete_iff :
    (refs : List OwnerReference) → (some_incomplete refs ≡ false) ↔ All IsComplete refs
unfolding some_incomplete
some_incomplete_iff [] = (λ h. tt, λ h. refl)
some_incomplete_iff (ref ∷ refs) = elim (Bool-cases (is_incomplete ref)) [
  | inl e ↦ rw e (
    λ never. absurd (cc never),
    λ (complete, _). absurd (cc (sym e ∙ (is_incomplete_iff ref).1 complete)),
  )
  | inr e ↦ rw e (
    λ h. ((is_incomplete_iff ref).0 e, (some_incomplete_iff refs).0 h),
    λ (_, h). (some_incomplete_iff refs).1 h,
  )
]

some-NoErrors : (errs : List String) → NoErrors (map some errs) ↔ (errs ≡ [])
some-NoErrors [] = (λ h. refl, λ h. tt)
some-NoErrors (e ∷ errs) = (λ (never, _). absurd (cc never), λ never. absurd (cc never))

pub label_error_iff :
    (name_errors value_errors : String → List String) (aggregate : Aggregate)
    → IsAggregate aggregate
    → (w : Dict String String)
    → (label_error name_errors value_errors aggregate w ≡ none)
      ↔ (validate_labels name_errors value_errors w ≡ [])
unfolding label_error
label_error_iff name_errors value_errors aggregate aggregates w =
    let all = some-NoErrors (validate_labels name_errors value_errors w) in
    (λ h. all.0 ((aggregates _).0 h), λ h. (aggregates _).1 (all.1 h))
