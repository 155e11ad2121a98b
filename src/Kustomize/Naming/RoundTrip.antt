-- ===== src/Kustomize/Naming/RoundTrip.antt =====
-- Parsing the file name of a resource type gives its kind, in lower case, and its group.
use Prim.Native.Char.{Char, code}
use Prim.Native.String.{◌++◌ as ◌<>◌}
use text.Mathlib.TextLemmas.{nil-append, cons-append, length-append, length-cons}
use text.Mathlib.TextLemmas as Text
use crane_lib.Base.{ℕ, String, eqb}
use crane_lib.Base.{string_eq, ◌≡◌, ◌≢◌, refl, sym, ap, ◌∙◌, arith, Bool-cases, inl, inr}
use crane_lib.Strings.Laws.{Lacks}
use crane_lib.Strings.Suffix.{trim_suffix-append, split_two-append, split_two_of_Lacks}
use crane_lib.Kustomize.Naming.{pick, map_lower, to_lower, upper_letters, lower_letters}
use crane_lib.Kustomize.Naming.{get_resource_type_filename}
use crane_lib.Kustomize.Naming.{parse_resource_type_filename}

-- A letter of the second row, or the character itself.
pick-ne : (n : ℕ) (us ls : String) (c : Char) → Lacks n ls → code c ≢ n → code (pick us ls c) ≢ n
unfolding pick
pick-ne n (String.◌∷◌ u us) (String.◌∷◌ l ls) c (p, h) k =
    elim (Bool-cases (eqb (code c) (code u))) [
      | inl same ↦ rw same p
      | inr other ↦ rw other (pick-ne n us ls c h k)
    ]
pick-ne n String.[] ls c h k = k
pick-ne n (String.◌∷◌ u us) String.[] c h k = k

map_lower-Lacks : (s : String) → Lacks b'.' s → Lacks b'.' (map_lower s)
unfolding map_lower
map_lower-Lacks String.[] h = tt
map_lower-Lacks (String.◌∷◌ c s) (p, h) =
    (pick-ne b'.' upper_letters lower_letters c (omega arith) p, map_lower-Lacks s h)

pub to_lower-Lacks : (s : String) → Lacks b'.' s → Lacks b'.' (to_lower s)
unfolding to_lower
to_lower-Lacks s h = map_lower-Lacks s h

core_name :
    (kind : String)
    → Lacks b'.' kind
    → parse_resource_type_filename (to_lower kind <> ".yaml") ≡ (to_lower kind, "")
unfolding parse_resource_type_filename
core_name kind h = rw (
  trim_suffix-append (to_lower kind) "yaml" ".",
  split_two_of_Lacks b'.' (to_lower kind) (to_lower-Lacks kind h),
)

-- The suffix stands behind the group.
regroup :
    (kind group : String)
    → kind <> ("." <> (group <> ".yaml")) ≡ (kind <> String.◌∷◌ "." group) <> ".yaml"
regroup kind group =
    ap (λ (t : String). kind <> t) (sym (Text.append_assoc "." group ".yaml"))
    ∙ sym (Text.append_assoc kind ("." <> group) ".yaml")
    ∙ ap (λ (t : String). (kind <> t) <> ".yaml")
        (cons-append "." "" group ∙ ap (String.◌∷◌ ".") (nil-append group))

grouped_name :
    (kind group : String)
    → Lacks b'.' kind
    → parse_resource_type_filename (to_lower kind <> ("." <> (group <> ".yaml")))
      ≡ (to_lower kind, group)
unfolding parse_resource_type_filename
grouped_name kind group h = rw (
  regroup (to_lower kind) group,
  trim_suffix-append (to_lower kind <> String.◌∷◌ "." group) "yaml" ".",
  split_two-append b'.' (to_lower kind) "." group (to_lower-Lacks kind h) refl,
)

-- Parsing the name of a file gives back the kind in lower case and the group, if the kind has no
-- dot. The group may hold dots, and may be empty.
pub parse-get_resource_type_filename :
    (kind group : String)
    → Lacks b'.' kind
    → parse_resource_type_filename (get_resource_type_filename kind group) ≡ (to_lower kind, group)
unfolding get_resource_type_filename
parse-get_resource_type_filename kind group h =
    ground (arith, core_name kind h, grouped_name kind group h)
