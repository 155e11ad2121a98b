-- ===== src/Kubernetes/Tests.antt =====
-- Libraries that keep what the plugin relies on, a Secret, a Job and a Service.
mod Examples
mod Ports
use Prim.Native.Char.{Char, code}
use Prim.Native.String.{◌++◌ as ◌<>◌}
use package.text.Mathlib.TextLemmas.{nil-append, cons-append}
use crane_lib.Base.{ℕ, String, Bool, true, false, Option, none, some, List, [], ◌∷◌, eqb, eqb_refl}
use crane_lib.Base.{
  Result, ok, err, if◌then◌else◌, string_eq, ◌==◌, ◌≡◌, refl, sym, ap, ◌∙◌, Option-cases, inl, inr,
  ◌↔◌, arith,
}
use crane_lib.Base.Dict.{Dict}
use crane_lib.Base.Int.{ℤ, pos}
use crane_lib.Strings.{trim_suffix}
use crane_lib.Strings.Suffix.{trim_suffix-append}
use crane_lib.Json.{
  Value, null, float, boolean, integer, text, object, slice, Members, empty, entry, Elements,
  nothing, element, get, as_slice, as_map, as_text,
}
use crane_lib.Json.Patch.{Operation, remove, add}
use crane_lib.Kubernetes.{
  Api, GroupKind, Nested, present, absent, mistyped, PodSpec, StatefulSet, RoleBinding, op_remove,
  plain, DecodesRemove, FieldReads, BoolReads,
}
use crane_lib.Kubernetes.Jobs.{suspend_text}

-- What follows a prefix.
strip : String → String → Option String
strip String.[] s = some s
strip (String.◌∷◌ p prefix) String.[] = none
strip (String.◌∷◌ p prefix) (String.◌∷◌ c s) =
    if eqb (code p) (code c) then strip prefix s else none

strip-append : (p s : String) → strip p (p <> s) ≡ some s
unfolding strip
strip-append String.[] s = rw nil-append refl
strip-append (String.◌∷◌ c p) s = rw (cons-append, eqb_refl (code c)) (strip-append p s)

decode_rest : Option String → String → Result (List Operation)
decode_rest (some rest) s = ok (remove (trim_suffix "\"}\n]" rest) ∷ [])
decode_rest none s =
    if s == suspend_text
    then ok (add "/spec/suspend" (boolean true) ∷ [])
    else err "no patch of these"

unfoldable pub decode : String → Result (List Operation)
unfolding strip decode_rest
decode s = decode_rest (strip "[\n{\"op\": \"remove\", \"path\": \"" s) s

decode-op_remove : (path : String) → decode (op_remove path) ≡ ok (remove path ∷ [])
unfolding decode op_remove
decode-op_remove path =
    ap (λ o. decode_rest o (op_remove path))
      (strip-append "[\n{\"op\": \"remove\", \"path\": \"" (path <> "\"}\n]"))
    ∙ unfold decode_rest in ap (λ p. ok (remove p ∷ [])) (trim_suffix-append path "}\n]" "\"")

abbrev nested_of {ℓ} : {A : Type ℓ} → (Value → Option A) → Option Value → Nested A
nested_of read none = absent
nested_of read (some v) = elim (read v) [ none ↦ mistyped "another type" | some a ↦ present a ]

abbrev pub nested {ℓ} : {A : Type ℓ} → (Value → Option A) → Members → List String → Nested A
nested read obj path = nested_of read (get path (object obj))

abbrev as_bool : Value → Option Bool
as_bool (boolean b) = some b
as_bool _ = none

read_any : (o : Option Value) (v : Value) → (nested_of some o ≡ present v) ↔ (o ≡ some v)
read_any none v = (λ h. cc, λ h. cc)
read_any (some w) v = (λ h. ground arith, λ h. ground arith)

read_bool :
    (o : Option Value) (b : Bool) → (nested_of as_bool o ≡ present b) ↔ (o ≡ some (boolean b))
read_bool none b = (λ h. cc, λ h. cc)
read_bool (some (boolean a)) b = (λ h. ground arith, λ h. ground arith)
read_bool (some null) b = (λ h. cc, λ h. ground arith)
read_bool (some (integer n)) b = (λ h. cc, λ h. ground arith)
read_bool (some (float n)) b = (λ h. cc, λ h. ground arith)
read_bool (some (text s)) b = (λ h. cc, λ h. ground arith)
read_bool (some (object m)) b = (λ h. cc, λ h. ground arith)
read_bool (some (slice es)) b = (λ h. cc, λ h. ground arith)

abbrev no_pod : PodSpec
no_pod = record { volumes = []; images = []; init_images = [] }

-- A cluster whose objects are all of one kind, with the given annotations and owners.
abbrev pub api_with : GroupKind → String → Dict String String → ℕ → Members → Api
api_with gk name annotations owners applied = record {
  group_kind = λ obj. gk;
  name = λ obj. name;
  annotations = λ obj. annotations;
  owner_references = λ obj. owners;
  nested_field = nested some;
  nested_string = nested as_text;
  nested_bool = nested as_bool;
  nested_map = nested as_map;
  nested_slice = nested as_slice;
  cron_job = λ obj. ok no_pod;
  pod = λ obj. ok no_pod;
  daemon_set = λ obj. ok no_pod;
  deployment = λ obj. ok no_pod;
  job = λ obj. ok no_pod;
  replication_controller = λ obj. ok (some no_pod);
  replica_set = λ obj. ok no_pod;
  role_binding = λ obj. ok (record { namespace = "shop"; subjects = [] });
  stateful_set = λ obj. ok (record { template = no_pod; claim_templates = [] });
  pod_template = λ v. ok no_pod;
  unmarshal_map = λ s. ok applied;
  decode_patch = decode;
}

module _ (gk : GroupKind) (name : String) (annotations : Dict String String) (owners : ℕ)
    (applied : Members) where
  pub decodes : DecodesRemove (api_with gk name annotations owners applied)
  decodes path h = decode-op_remove path

  pub reads : FieldReads (api_with gk name annotations owners applied)
  reads obj path v = read_any (get path (object obj)) v

  pub bool_reads : BoolReads (api_with gk name annotations owners applied)
  bool_reads obj path b = read_bool (get path (object obj)) b
