-- ===== src/Transform/Runner/Gather.antt =====
-- What the loop over the plugins has seen, by what the plugins answer.
use crane_lib.Base.{String, Bool, true, false, List, [], ◌∷◌, ◌++◌, ◌||◌, length, ltb}
use crane_lib.Base.{if◌then◌else◌, append_assoc}
use crane_lib.Base.{◌≡◌, ◌≢◌, refl, ap, sym, ◌∙◌, arith, append-nil}
use crane_lib.Transform.Runner.{
  Plugin, PluginRequest, Answer, answered, refused, PluginOperation, Gathered, gather, gather_one,
  plugin_operations_from_patch,
}

or_false : (b : Bool) → (b || false) ≡ b
or_false true = refl
or_false false = refl

or_assoc : (a b c : Bool) → ((a || b) || c) ≡ (a || (b || c))
or_assoc true b c = refl
or_assoc false b c = refl

or_if : (b w : Bool) → (if w then true else b) ≡ (b || w)
or_if true w = ground arith
or_if false w = ground arith

grow {ℓ} : {A : Type ℓ} (xs ys : List A) → (if ltb 0 (length ys) then xs ++ ys else xs) ≡ xs ++ ys
grow xs [] = sym (append-nil xs)
grow xs (y ∷ ys) = ground arith

module _ {U Op : Type 0} (request : PluginRequest U) where
  errors_of : Answer U Op → List String
  errors_of (refused e) = e ∷ []
  errors_of (answered resp) = []

  whites_out : Answer U Op → Bool
  whites_out (refused e) = false
  whites_out (answered resp) = resp.is_white_out

  operations_of : String → Answer U Op → List (PluginOperation Op)
  operations_of plugin (refused e) = []
  operations_of plugin (answered resp) = plugin_operations_from_patch plugin resp.patches

  resources_of : Answer U Op → List U
  resources_of (refused e) = []
  resources_of (answered resp) = resp.new_resources

  -- The errors of the plugins, in their order.
  unfoldable pub all_errors : List (Plugin U Op) → List String
  unfolding errors_of
  all_errors [] = []
  all_errors (p ∷ rest) = errors_of (p.run request) ++ all_errors rest

  -- Whether a plugin that answers asks to leave the resource out.
  unfoldable pub any_white_out : List (Plugin U Op) → Bool
  unfolding whites_out
  any_white_out [] = false
  any_white_out (p ∷ rest) = whites_out (p.run request) || any_white_out rest

  -- The operations of the plugins that answer, in their order, each with the plugin's name.
  unfoldable pub all_operations : List (Plugin U Op) → List (PluginOperation Op)
  unfolding operations_of
  all_operations [] = []
  all_operations (p ∷ rest) = operations_of p.name (p.run request) ++ all_operations rest

  -- The new resources of the plugins that answer, in their order.
  unfoldable pub all_resources : List (Plugin U Op) → List U
  unfolding resources_of
  all_resources [] = []
  all_resources (p ∷ rest) = resources_of (p.run request) ++ all_resources rest

  unfoldable pub some_operations : List (PluginOperation Op) → Bool
  some_operations [] = false
  some_operations (o ∷ rest) = true

  pub some_of_ne : (ops : List (PluginOperation Op)) → ops ≢ [] → some_operations ops ≡ true
  unfolding some_operations
  some_of_ne [] h = absurd (h refl)
  some_of_ne (o ∷ rest) h = refl

  -- The variables of the loop, with what was found since.
  unfoldable pub add :
      Bool → List (PluginOperation Op) → List U → List String → Gathered U Op → Gathered U Op
  unfolding some_operations
  add white operations resources errors g = record {
    have_white_out = g.have_white_out || white;
    have_patches = g.have_patches || some_operations operations;
    patches = g.patches ++ operations;
    new_resources = g.new_resources ++ resources;
    errs = g.errs ++ errors;
  }

  some_operations-append :
      (xs ys : List (PluginOperation Op))
      → some_operations (xs ++ ys) ≡ (some_operations xs || some_operations ys)
  unfolding some_operations
  some_operations-append [] ys = refl
  some_operations-append (x ∷ xs) ys = refl

  add-nil : (g : Gathered U Op) → add false [] [] [] g ≡ g
  unfolding add some_operations
  add-nil g = λ i. record {
    have_white_out = or_false g.have_white_out i;
    have_patches = or_false g.have_patches i;
    patches = append-nil g.patches i;
    new_resources = append-nil g.new_resources i;
    errs = append-nil g.errs i;
  }

  add-add :
      (w w' : Bool) (o o' : List (PluginOperation Op)) (n n' : List U) (e e' : List String)
      (g : Gathered U Op)
      → add w' o' n' e' (add w o n e g) ≡ add (w || w') (o ++ o') (n ++ n') (e ++ e') g
  unfolding add
  add-add w w' o o' n n' e e' g = λ i. record {
    have_white_out = or_assoc g.have_white_out w w' i;
    have_patches =
        (or_assoc g.have_patches (some_operations o) (some_operations o')
            ∙ ap (λ b. g.have_patches || b) (sym (some_operations-append o o')))
          i;
    patches = append_assoc g.patches o o' i;
    new_resources = append_assoc g.new_resources n n' i;
    errs = append_assoc g.errs e e' i;
  }

  have_some :
      (plugin : String) (b : Bool) (ops : List Op)
      → (if ltb 0 (length ops) then true else b)
        ≡ (b || some_operations (plugin_operations_from_patch plugin ops))
  unfolding some_operations plugin_operations_from_patch
  have_some plugin b [] = sym (or_false b)
  have_some plugin b (o ∷ ops) = elim b [ true ↦ ground arith | false ↦ ground arith ]

  grow_operations :
      (plugin : String) (xs : List (PluginOperation Op)) (ops : List Op)
      → (if ltb 0 (length ops) then xs ++ plugin_operations_from_patch plugin ops else xs)
        ≡ xs ++ plugin_operations_from_patch plugin ops
  unfolding plugin_operations_from_patch
  grow_operations plugin xs [] = sym (append-nil xs)
  grow_operations plugin xs (o ∷ ops) = ground arith

  gather_one-add :
      (plugin : String) (a : Answer U Op) (g : Gathered U Op)
      → gather_one plugin a g
        ≡ add (whites_out a) (operations_of plugin a) (resources_of a) (errors_of a) g
  unfolding gather_one add whites_out operations_of resources_of errors_of
  gather_one-add plugin (refused e) g = λ i. record {
    have_white_out = sym (or_false g.have_white_out) i;
    have_patches = sym (or_false g.have_patches) i;
    patches = sym (append-nil g.patches) i;
    new_resources = sym (append-nil g.new_resources) i;
    errs = g.errs ++ (e ∷ []);
  }
  gather_one-add plugin (answered resp) g = λ i. record {
    have_white_out = or_if g.have_white_out resp.is_white_out i;
    have_patches = have_some plugin g.have_patches resp.patches i;
    patches = grow_operations plugin g.patches resp.patches i;
    new_resources = grow g.new_resources resp.new_resources i;
    errs = sym (append-nil g.errs) i;
  }

  pub gather_lem :
      (plugins : List (Plugin U Op)) (g : Gathered U Op)
      → gather request plugins g
        ≡ add
            (any_white_out plugins)
            (all_operations plugins)
            (all_resources plugins)
            (all_errors plugins)
            g
  unfolding gather any_white_out all_operations all_resources all_errors
  gather_lem [] g = sym (add-nil g)
  gather_lem (p ∷ rest) g =
      gather_lem rest (gather_one p.name (p.run request) g)
      ∙ ap (add (any_white_out rest) (all_operations rest) (all_resources rest) (all_errors rest))
          (gather_one-add p.name (p.run request) g)
      ∙ add-add (whites_out (p.run request)) (any_white_out rest) _ _ _ _ _ _ g
