-- ===== src/ApiGroups.antt =====
-- apigroups/builtin.go: which API groups count as built in.
mod Tests
use Prim.Native.Char.{Char, code}
use Prim.Native.String.{◌++◌ as ◌<>◌}
use text.Mathlib.TextLemmas.{nil-append, cons-append}
use crane_lib.Base.{
  String, Bool, true, false, List, [], ◌∷◌, contains, string_eq, ◌==◌, ==→eq, ==_refl,
  if◌then◌else◌,
}
use crane_lib.Base.{◌≡◌, refl, sym, ap, ◌∙◌, arith, ◌⊎◌, ◌↔◌, inl, inr, Bool-cases}

-- strings.HasSuffix
has_suffix : String → String → Bool
has_suffix suffix String.[] = suffix == ""
has_suffix suffix (String.◌∷◌ c s) = if String.◌∷◌ c s == suffix then true else has_suffix suffix s

-- The keys of the table.
abbrev pub builtin_api_groups : List String
builtin_api_groups =
    "" ∷ "apps" ∷ "batch" ∷ "autoscaling" ∷ "policy" ∷ "networking.k8s.io"
    ∷ "rbac.authorization.k8s.io" ∷ "storage.k8s.io" ∷ "admissionregistration.k8s.io"
    ∷ "certificates.k8s.io" ∷ "coordination.k8s.io" ∷ "discovery.k8s.io" ∷ "events.k8s.io"
    ∷ "flowcontrol.apiserver.k8s.io" ∷ "node.k8s.io" ∷ "scheduling.k8s.io" ∷ "apiextensions.k8s.io"
    ∷ "apiregistration.k8s.io" ∷ "resource.k8s.io" ∷ "authentication.k8s.io"
    ∷ "authorization.k8s.io" ∷ "extensions" ∷ "metrics.k8s.io" ∷ "imagepolicy.k8s.io"
    ∷ "internal.apiserver.k8s.io" ∷ "operators.coreos.com" ∷ "packages.operators.coreos.com"
    ∷ "monitoring.coreos.com" ∷ []

is_known : String → Bool
is_known group = contains builtin_api_groups group

unfoldable pub is_default_builtin_api_group : String → Bool
unfolding has_suffix is_known
is_default_builtin_api_group group =
    if is_known group then true else has_suffix ".openshift.io" group

has_suffix_self : (suffix : String) → has_suffix suffix suffix ≡ true
unfolding has_suffix
has_suffix_self String.[] = ==_refl {A = String} ""
has_suffix_self (String.◌∷◌ c s) = rw (==_refl {A = String} (String.◌∷◌ c s)) refl

has_suffix-append : (suffix s : String) → has_suffix suffix (s <> suffix) ≡ true
unfolding has_suffix
has_suffix-append suffix String.[] = rw nil-append (has_suffix_self suffix)
has_suffix-append suffix (String.◌∷◌ c s) =
    rw cons-append (elim (Bool-cases (String.◌∷◌ c (s <> suffix) == suffix)) [
      | inl whole ↦ rw whole refl
      | inr longer ↦ rw longer (has_suffix-append suffix s)
    ])

has_suffix-split :
    (suffix s : String) → has_suffix suffix s ≡ true → (front : String) × (s ≡ front <> suffix)
unfolding has_suffix
has_suffix-split suffix String.[] h =
    ("", sym (ap (λ (t : String). "" <> t) (==→eq suffix "" h) ∙ nil-append ""))
has_suffix-split suffix (String.◌∷◌ c s) h = elim (Bool-cases (String.◌∷◌ c s == suffix)) [
  | inl whole ↦ ("", ==→eq (String.◌∷◌ c s) suffix whole ∙ sym (nil-append suffix))
  | inr longer ↦
      let (front, e) = has_suffix-split suffix s (sym (rw longer refl) ∙ h) in
      (String.◌∷◌ c front, ap (String.◌∷◌ c) e ∙ sym (cons-append c front suffix))
]

-- Every group that ends in ".openshift.io" counts as built in.
is_default_builtin_api_group-append :
    (front : String) → is_default_builtin_api_group (front <> ".openshift.io") ≡ true
unfolding is_default_builtin_api_group
is_default_builtin_api_group-append front = ground (arith, has_suffix-append ".openshift.io" front)

-- A group counts as built in exactly if it is in the table or ends in ".openshift.io".
pub is_default_builtin_api_group_iff :
    (group : String)
    → (is_default_builtin_api_group group ≡ true) ↔ (
        (contains builtin_api_groups group ≡ true)
        ⊎ ((front : String) × (group ≡ front <> ".openshift.io")))
unfolding is_default_builtin_api_group is_known
is_default_builtin_api_group_iff group = (
  λ h. elim (Bool-cases (is_known group)) [
    | inl known ↦ inl known
    | inr other ↦ inr (has_suffix-split ".openshift.io" group (sym (rw other refl) ∙ h))
  ],
  λ h. elim h [
    | inl known ↦ rw known refl
    | inr (front, is) ↦
        ap is_default_builtin_api_group is ∙ is_default_builtin_api_group-append front
  ],
)
