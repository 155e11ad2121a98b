-- ===== src/Kubernetes/Strip/Applied.antt =====
-- What the operations of `stripFields` do to the object.
use crane_lib.Base.{String, true, none, List, [], ◌∷◌, ◌++◌, ok, err}
use crane_lib.Base.{
  ◌≡◌, refl, sym, ap, ◌∙◌, All, >>=-eq-ok, ok-injective, subst, ◌⊎◌, inl, inr, Option-cases,
}
use crane_lib.Json.{Value, object, Members, get}
use crane_lib.Json.Patch.{Operation, remove, remove_at, apply_op, apply_all}
use crane_lib.Json.Laws.{apart, get-remove_at_self, get-remove_at-none, get-remove_at-apart}
use crane_lib.JsonPointer.{pointer, tokens-pointer, escape_json_pointer, escape_keys}
use crane_lib.Strings.{replace_all, join}
use crane_lib.Kubernetes.{
  Api, Nested, present, absent, mistyped, op_remove, plain, DecodesRemove, FieldReads,
}
use crane_lib.Kubernetes.Strip.{fields_to_strip, strip_field, strip_each, strip_fields}

-- A key or more, which JSON writes as they are once they are escaped.
abbrev IsField : List String → Type 0
IsField [] = ⊥
IsField (k ∷ ks) = plain (pointer (k ∷ ks)) ≡ true

apply-remove :
    (k : String) (ks : List String) (v : Value)
    → apply_all (remove (pointer (k ∷ ks)) ∷ []) v ≡ remove_at (k ∷ ks) v
unfolding apply_all apply_op
apply-remove k ks v = rw (tokens-pointer k ks) refl

apply_all-append :
    (ops more : List Operation) (v : Value)
    → apply_all (ops ++ more) v ≡ apply_all more (apply_all ops v)
unfolding apply_all
apply_all-append [] more v = refl
apply_all-append (o ∷ ops) more v = apply_all-append ops more (apply_op o v)

-- What removing some fields keeps and brings about.
record Stripping (fields : List (List String)) (v u : Value) : Type 0 where
  pub gone : All (λ f. get f u ≡ none) fields
  pub missing : (g : List String) → get g v ≡ none → get g u ≡ none
  pub kept : (g : List String) → All (λ f. apart g f ≡ true) fields → get g u ≡ get g v

removed :
    (k : String) (ks : List String) (v : Value) → Stripping ((k ∷ ks) ∷ []) v (remove_at (k ∷ ks) v)
removed k ks v = record {
  gone = (get-remove_at_self k ks v, tt);
  missing = λ g h. get-remove_at-none g (k ∷ ks) v h;
  kept = λ g a. get-remove_at-apart g (k ∷ ks) v a.0;
}

nothing_removed : (f : List String) (v : Value) → get f v ≡ none → Stripping (f ∷ []) v v
nothing_removed f v h = record { gone = (h, tt); missing = λ g e. e; kept = λ g a. refl }

-- A field and then the others.
one_more :
    (f : List String) (fs : List (List String)) (v u w : Value)
    → Stripping (f ∷ []) v u
    → Stripping fs u w
    → Stripping (f ∷ fs) v w
one_more f fs v u w first rest = record {
  gone = (rest.missing f first.gone.0, rest.gone);
  missing = λ g h. rest.missing g (first.missing g h);
  kept = λ g a. rest.kept g a.1 ∙ first.kept g (a.0, tt);
}

Nested-cases :
    {A : Type 0} (n : Nested A)
    → ((a : A) × (n ≡ present a)) ⊎ (n ≡ absent) ⊎ ((e : String) × (n ≡ mistyped e))
Nested-cases (present a) = inl (a, refl)
Nested-cases absent = inr (inl refl)
Nested-cases (mistyped e) = inr (inr (e, refl))

every-IsField : All IsField fields_to_strip
unfolding pointer escape_json_pointer replace_all join escape_keys
every-IsField = (
  refl,
  (refl, (refl, (refl, (refl, (refl, (refl, (refl, (refl, (refl, (refl, (refl, tt))))))))))),
)

module _ (api : Api) (decodes : DecodesRemove api) (reads : FieldReads api) (obj : Members) where
  absent→none : (f : List String) → api.nested_field obj f ≡ absent → get f (object obj) ≡ none
  absent→none f h = elim (Option-cases (get f (object obj))) [
    | inl e ↦ e
    | inr (w, e) ↦ absurd (cc (sym h ∙ (reads obj f w).1 e))
  ]

  found_field :
      (f : List String) (w : Value)
      → api.nested_field obj f ≡ present w
      → strip_field api obj f ≡ api.decode_patch (op_remove (pointer f))
  unfolding strip_field
  found_field f w e = rw (e, strip_field) refl

  when_present :
      (f : List String) (w : Value) (p : List Operation)
      → plain (pointer f) ≡ true
      → api.nested_field obj f ≡ present w
      → strip_field api obj f ≡ ok p
      → remove (pointer f) ∷ [] ≡ p
  when_present f w p field e h =
      ok-injective _ p (sym (decodes (pointer f) field) ∙ sym (found_field f w e) ∙ h)

  when_absent :
      (f : List String) (p : List Operation)
      → api.nested_field obj f ≡ absent
      → strip_field api obj f ≡ ok p
      → [] ≡ p
  unfolding strip_field
  when_absent f p e h = ok-injective [] p (sym (rw (e, strip_field) refl) ∙ h)

  when_mistyped :
      (f : List String) (m : String) (p : List Operation)
      → api.nested_field obj f ≡ mistyped m
      → ¬ (strip_field api obj f ≡ ok p)
  unfolding strip_field
  when_mistyped f m p e h =
      let fails : strip_field api obj f ≡ err m = rw (e, strip_field) refl in cc (sym fails ∙ h)

  one_field :
      (f : List String) (p : List Operation) (v : Value)
      → IsField f
      → ((g : List String) → get g (object obj) ≡ none → get g v ≡ none)
      → strip_field api obj f ≡ ok p
      → Stripping (f ∷ []) v (apply_all p v)
  one_field [] p v field inv h = absurd field
  one_field (k ∷ ks) p v field inv h = elim (Nested-cases (api.nested_field obj (k ∷ ks))) [
    | inl (w, e) ↦
        subst (Stripping ((k ∷ ks) ∷ []) v)
          (sym (apply-remove k ks v)
            ∙ ap (λ p. apply_all p v) (when_present (k ∷ ks) w p field e h))
          (removed k ks v)
    | inr (inl e) ↦
        subst (λ p. Stripping ((k ∷ ks) ∷ []) v (apply_all p v)) (when_absent (k ∷ ks) p e h)
          (unfold apply_all in nothing_removed (k ∷ ks) v (inv (k ∷ ks) (absent→none (k ∷ ks) e)))
    | inr (inr (m, e)) ↦ absurd (when_mistyped (k ∷ ks) m p e h)
  ]

  each_field :
      (fs : List (List String)) (ops : List Operation) (v : Value)
      → All IsField fs
      → ((g : List String) → get g (object obj) ≡ none → get g v ≡ none)
      → strip_each api obj fs ≡ ok ops
      → Stripping fs v (apply_all ops v)
  unfolding strip_each
  each_field [] ops v are inv h =
      subst (λ ops. Stripping [] v (apply_all ops v)) (ok-injective [] ops h)
        (unfold apply_all in record { gone = tt; missing = λ g e. e; kept = λ g a. refl })
  each_field (f ∷ fs) ops v (is, are) inv h =
      let (p, one, h1) = >>=-eq-ok (strip_field api obj f) _ h in
      let (q, others, h2) = >>=-eq-ok (strip_each api obj fs) _ h1 in
      let first : Stripping (f ∷ []) v (apply_all p v) = one_field f p v is inv one in
      subst (Stripping (f ∷ fs) v)
        (sym (apply_all-append p q v) ∙ ap (λ ops. apply_all ops v) (ok-injective (p ++ q) ops h2))
        (one_more f fs v (apply_all p v) _ first
          (each_field fs q (apply_all p v) are (λ g e. first.missing g (inv g e)) others))

  -- If the operations of stripFields are found, then applying them to the object leaves none of the
  -- fields to strip, and a path that leads neither above nor below one of them finds what it found.
  pub apply_all-strip_fields :
      (ops : List Operation) (g : List String)
      → strip_fields api obj ≡ ok ops
      → All (λ f. apart g f ≡ true) fields_to_strip
      → All (λ f. get f (apply_all ops (object obj)) ≡ none) fields_to_strip
        × (get g (apply_all ops (object obj)) ≡ get g (object obj))
  unfolding strip_fields
  apply_all-strip_fields ops g h others =
      let s = each_field fields_to_strip ops (object obj) every-IsField (λ g e. e) h in
      (s.gone, s.kept g others)
