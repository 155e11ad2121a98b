-- ===== src/Kubernetes/Jobs/Suspended.antt =====
-- What `suspendStandaloneJob` does to a Job.
use crane_lib.Base.{ltb, String, Bool, true, false, ◌||◌, some, List, [], ◌∷◌}
use crane_lib.Base.{
  ok, if◌then◌else◌, ◌≡◌, refl, sym, ap, ◌∙◌, Bool-cases, inl, inr, ok-injective, subst, >>=-eq-ok,
}
use crane_lib.Json.{Value, object, boolean, Members, member, get}
use crane_lib.Json.Patch.{Operation, add, apply_op, apply_all, add_at}
use crane_lib.Json.Laws.{apart}
use crane_lib.Json.Added.{get-add_at_self, get-add_at-apart}
use crane_lib.Strings.{replace_all, join}
use crane_lib.JsonPointer.{tokens, pointer, escape_keys, escape_json_pointer, tokens-pointer}
use crane_lib.Kubernetes.{Api, Nested, present, absent, mistyped, BoolReads}
use crane_lib.Kubernetes.Jobs.{suspend_text, is_idempotent, not_set, suspend_standalone_job}

abbrev pub suspend_path : List String
suspend_path = "spec" ∷ "suspend" ∷ []

not_set-false : (n : Nested Bool) → not_set n ≡ ok false → n ≡ present true
unfolding not_set
not_set-false (present true) h = refl
not_set-false (present false) h = absurd (cc (ok-injective true false h))
not_set-false absent h = absurd (cc (ok-injective true false h))
not_set-false (mistyped e) h = cc

suspend_tokens : tokens "/spec/suspend" ≡ suspend_path
unfolding pointer escape_keys escape_json_pointer replace_all join
suspend_tokens = tokens-pointer "spec" ("suspend" ∷ [])

apply-suspend :
    (v : Value)
    → apply_all (add "/spec/suspend" (boolean true) ∷ []) v ≡ add_at suspend_path (boolean true) v
unfolding apply_all apply_op
apply-suspend v = ap (λ path. add_at path (boolean true) v) suspend_tokens

-- The value after the patch, whether it was there before or is added.
record After (obj : Members) (ops : List Operation) (g : List String) : Type 0 where
  pub suspended : get suspend_path (apply_all ops (object obj)) ≡ some (boolean true)
  pub kept : get g (apply_all ops (object obj)) ≡ get g (object obj)

-- Whether the Job is left to run: it has an owner, or it is marked as idempotent.
abbrev pub left_to_run : Api → Members → Bool
left_to_run api obj = ltb 0 (api.owner_references obj) || is_idempotent api obj

module _ (api : Api) (reads : BoolReads api)
    (decodes : api.decode_patch suspend_text ≡ ok (add "/spec/suspend" (boolean true) ∷ []))
    (obj spec : Members) (has_spec : member "spec" obj ≡ some (object spec)) where
  by_flag :
      (runs : Bool) (ops : List Operation) (g : List String)
      → not_set (api.nested_bool obj suspend_path) ≡ ok runs
      → (if runs then api.decode_patch suspend_text else ok []) ≡ ok ops
      → apart g suspend_path ≡ true
      → After obj ops g
  by_flag true ops g n h other =
      subst (λ ops. After obj ops g) (ok-injective _ ops (sym decodes ∙ h))
        (record {
          suspended =
              rw (apply-suspend (object obj))
                (get-add_at_self "spec" "suspend" (boolean true) obj spec has_spec);
          kept =
              rw (apply-suspend (object obj))
                (get-add_at-apart g "spec" "suspend" (boolean true) obj spec has_spec other);
        })
  by_flag false ops g n h other =
      subst (λ ops. After obj ops g) (ok-injective [] ops h)
        (unfold apply_all in
          record { suspended = (reads obj suspend_path true).0 (not_set-false _ n); kept = refl })

  -- If the operations of suspendStandaloneJob are found for a Job whose spec is a map, then applying
  -- them changes nothing of a Job with an owner or with the annotation that it is idempotent. Any
  -- other Job is suspended by them, whether or not it had the field, and nothing else is changed.
  pub apply_all-suspend_standalone_job :
      (ops : List Operation) (g : List String)
      → suspend_standalone_job api obj ≡ ok ops
      → apart g suspend_path ≡ true
      → (get suspend_path (apply_all ops (object obj))
          ≡ (if left_to_run api obj then get suspend_path (object obj) else some (boolean true)))
        × (get g (apply_all ops (object obj)) ≡ get g (object obj))
  unfolding suspend_standalone_job
  apply_all-suspend_standalone_job ops g h other =
      elim (Bool-cases (ltb 0 (api.owner_references obj))) [
        | inl owned ↦
            let none_is = ok-injective [] ops (sym (rw (owned, suspend_standalone_job) refl) ∙ h) in
            rw (owned, sym none_is) (unfold apply_all in (refl, refl))
        | inr standalone ↦ elim (Bool-cases (is_idempotent api obj)) [
          | inl safe ↦
              let none_is =
                ok-injective [] ops
                  (sym (rw (standalone, safe, suspend_standalone_job) refl) ∙ h) in
              rw (standalone, safe, sym none_is) (unfold apply_all in (refl, refl))
          | inr unsafe ↦
              let (runs, n, rest) =
                >>=-eq-ok (not_set (api.nested_bool obj suspend_path))
                  (λ runs. if runs then api.decode_patch suspend_text else ok [])
                  (sym (rw (standalone, unsafe, suspend_standalone_job) refl) ∙ h) in
              let after : After obj ops g = by_flag runs ops g n rest other in
              rw (standalone, unsafe) (after.suspended, after.kept)
        ]
      ]
