-- ===== src/Transform/ApiVersion.antt =====
-- types.go: the parts of an apiVersion, the target of a patch, and the key of a resource type.
pub mod Laws
use Prim.Native.Char.{Char, code, len_utf8}
use Prim.Native.String.{len, ◌++◌ as ◌<>◌}
use crane_lib.Base.{ℕ, ◌+◌, ◌-◌, String, Bool, true, false, List, [], ◌∷◌, ◌++◌, ◌&&◌, not, eqb}
use crane_lib.Base.{if◌then◌else◌, ◌==◌, string_eq, Result, ok, err, panic, ◌>>=◌}

-- The part that is being read is closed, unless it is empty.
close : List String → String → List String
close result current = if current == "" then result else result ++ (current ∷ [])

-- The loop over the runes; `i` is the byte offset of the rune and `total` the length in bytes.
split_loop : (total i : ℕ) → List String → String → String → List String
split_loop total i result current String.[] = result
split_loop total i result current (String.◌∷◌ c s) =
    let slash = eqb (code c) b'/' in
    let closed = if slash then close result current else result in
    let rest = if slash then "" else current <> String.◌∷◌ c "" in
    let last = if eqb i (total - 1) then close closed rest else closed in
    split_loop total (i + len_utf8 c) last rest s

unfoldable pub split_api_version : String → List String
unfolding split_loop close
split_api_version api_version = split_loop (len api_version) 0 [] "" api_version

-- `parts[0], parts[1]`; an index out of range panics.
group_and_version : List String → Result (String × String)
group_and_version [] = panic
group_and_version (version ∷ []) = ok ("", version)
group_and_version (group ∷ version ∷ rest) = ok (group, version)

unfoldable pub parse_api_version : String → Result (String × String)
unfolding group_and_version
parse_api_version api_version =
    if api_version == "" then ok ("", "") else group_and_version (split_api_version api_version)

pub record PatchTarget : Type 0 where
  pub group : String
  pub version : String
  pub kind : String
  pub name : String
  pub namespace : String

-- The getters of `unstructured.Unstructured`, which is not part of this repository.
pub record Getters (U : Type 0) : Type 0 where
  pub api_version : U → String
  pub kind : U → String
  pub name : U → String
  pub namespace : U → String

module _ {U : Type 0} (get : Getters U) where
  unfoldable pub derive_target_from_resource : U → Result PatchTarget
  derive_target_from_resource resource = do
    (group, version) ← parse_api_version (get.api_version resource)
    ok (record {
      group = group;
      version = version;
      kind = get.kind resource;
      name = get.name resource;
      namespace = get.namespace resource;
    })

  unfoldable pub get_resource_type_key : U → Result String
  get_resource_type_key resource = do
    (group, version) ← parse_api_version (get.api_version resource)
    ok (if group == "" then get.kind resource else get.kind resource <> ("." <> group))
