-- ===== src/Transform/Runner/Winner.antt =====
-- Which operation of a path is kept: the first of those with the best priority.
use crane_lib.Base.{
  ok-injective, String, Bool, true, false, List, [], ◌∷◌, ◌++◌, map, Option, none, some, All,
  All-map, All-append, keep,
}
use crane_lib.Base.{if◌then◌else◌, ◌==◌, string_eq, ok, >>=-eq-ok, append_assoc}
use crane_lib.Base.{
  ◌≡◌, refl, ==→eq, ap, sym, ◌∙◌, arith, Bool-cases, Option-cases, inl, inr, subst, append-nil,
}
use crane_lib.Base.Int.{ℤ, lt_ℤ_of_ge, lt_ℤ_asymm}
use crane_lib.Base.Dict
use crane_lib.Base.Dict.{Dict}
use crane_lib.Transform.JsonPatch.{PatchApi, same_text, Reading, found, failed}
use crane_lib.Transform.Runner.{
  Runner, PluginOperation, goes_before, replaces, resolved, collide, place, merge_one, merge_all,
  Merge, check_value, reading, sanitize_patches,
}

goes_before_of_ge :
    (a b c : Option ℤ) → goes_before a b ≡ true → goes_before c b ≡ false → goes_before a c ≡ true
unfolding goes_before
goes_before_of_ge none b c h g = cc
goes_before_of_ge (some a) none none h g = refl
goes_before_of_ge (some a) none (some c) h g = cc
goes_before_of_ge (some a) (some b) none h g = refl
goes_before_of_ge (some a) (some b) (some c) h g = lt_ℤ_of_ge a b c h g

goes_before_asymm : (a b : Option ℤ) → goes_before a b ≡ true → goes_before b a ≡ false
unfolding goes_before
goes_before_asymm none b h = cc
goes_before_asymm (some a) none h = refl
goes_before_asymm (some a) (some b) h = lt_ℤ_asymm a b h

same_text-reading :
    (key k : String) (path : Reading String)
    → reading path ≡ ok k
    → same_text (Reading.found key) path ≡ (key == k)
unfolding same_text reading
same_text-reading key k (found a) h = ground (arith, h)
same_text-reading key k (failed c m) h = cc

module _ {Op V : Type 0} (api : PatchApi Op V) (r : Runner) where
  -- The operation is on the path.
  unfoldable pub on_path : String → PluginOperation Op → Bool
  on_path key o = same_text (Reading.found key) (api.path o.operation)

  -- The operation goes before all that stand in front of it, and nothing behind it goes before it.
  unfoldable pub IsWinner : PluginOperation Op → List (PluginOperation Op) → Type 0
  IsWinner w ops =
      (front : List (PluginOperation Op)) × (back : List (PluginOperation Op)) × (ops
        ≡ front ++ (w ∷ back))
      × All (λ x. replaces api r w x ≡ true) front
      × All (λ x. replaces api r x w ≡ false) back

  -- What the map holds under a path after some operations on it.
  unfoldable pub IsHeld : Option (PluginOperation Op) → List (PluginOperation Op) → Type 0
  unfolding IsWinner
  IsHeld none ops = ops ≡ []
  IsHeld (some w) ops = IsWinner w ops

  abbrev priority : PluginOperation Op → Option ℤ
  priority o = Dict.lookup o.plugin_name r.plugin_priorities

  replaces_of_ge :
      (o w x : PluginOperation Op)
      → replaces api r o w ≡ true
      → replaces api r x w ≡ false
      → replaces api r o x ≡ true
  unfolding replaces
  replaces_of_ge o w x h g = goes_before_of_ge (priority o) (priority w) (priority x) h g

  replaces_asymm :
      (w x : PluginOperation Op) → replaces api r w x ≡ true → replaces api r x w ≡ false
  unfolding replaces
  replaces_asymm w x h = goes_before_asymm (priority w) (priority x) h

  IsWinner-after :
      (o w : PluginOperation Op) (ops : List (PluginOperation Op))
      → IsWinner w ops
      → IsWinner (if replaces api r o w then o else w) (ops ++ (o ∷ []))
  unfolding IsWinner
  IsWinner-after o w ops (front, back, e, hf, hb) = elim (Bool-cases (replaces api r o w)) [
    | inl better ↦ rw better (
      ops,
      [],
      refl,
      subst (All (λ x. replaces api r o x ≡ true)) (sym e) (
          All-append _ front (w ∷ back)
            (All-map (λ x h. replaces_of_ge o w x better (replaces_asymm w x h)) front hf)
            (better, All-map (λ x h. replaces_of_ge o w x better h) back hb)),
      tt,
    )
    | inr worse ↦ rw worse (
      front,
      back ++ (o ∷ []),
      rw e (append_assoc front (w ∷ back) (o ∷ [])),
      hf,
      All-append _ back (o ∷ []) hb (worse, tt),
    )
  ]

  -- What the map holds under the path of one more operation.
  held_after : PluginOperation Op → Option (PluginOperation Op) → PluginOperation Op
  held_after o none = o
  held_after o (some w) = if replaces api r o w then o else w

  held_after-IsHeld :
      (o : PluginOperation Op) (held : Option (PluginOperation Op))
      (ops : List (PluginOperation Op))
      → IsHeld held ops
      → IsHeld (some (held_after o held)) (ops ++ (o ∷ []))
  unfolding held_after IsHeld
  held_after-IsHeld o none ops h =
      ([], [], ap (λ (l : List (PluginOperation Op)). l ++ (o ∷ [])) h, tt, tt)
  held_after-IsHeld o (some w) ops h = IsWinner-after o w ops h

  lookup-resolved :
      (key k : String) (o w : PluginOperation Op) (merge : Merge api r)
      → Dict.lookup k merge.0 ≡ some w
      → Dict.lookup key (resolved api r k o w merge).0
        ≡ (if key == k then some (held_after o (some w)) else Dict.lookup key merge.0)
  unfolding resolved held_after
  lookup-resolved key k o w (m, ignored) h = elim (Bool-cases (replaces api r o w)) [
    | inl better ↦ rw better (Dict.lookup-insert key k o m)
    | inr worse ↦ rw worse (ground (arith, h))
  ]

  collide-resolved :
      (k : String) (o w : PluginOperation Op) (merge merge' : Merge api r)
      → collide api r k o w merge ≡ ok merge'
      → resolved api r k o w merge ≡ merge'
  unfolding collide
  collide-resolved k o w merge merge' h =
      let (u, checked, rest) = >>=-eq-ok (check_value (api.value_interface o.operation)) _ h in
      let (u', checked', rest') =
        >>=-eq-ok (check_value (api.value_interface w.operation)) _ rest in
      ok-injective _ merge' rest'

  lookup-place :
      (key k : String) (o : PluginOperation Op) (merge merge' : Merge api r)
      → place api r k o merge ≡ ok merge'
      → Dict.lookup key merge'.0 ≡ (
          if key == k then some (held_after o (Dict.lookup k merge.0)) else Dict.lookup key merge.0)
  unfolding place held_after
  lookup-place key k o (m, ignored) merge' h = elim (Option-cases (Dict.lookup k m)) [
    | inl fresh ↦ rw fresh (
        subst (λ l. Dict.lookup key l.0 ≡ (if key == k then some o else Dict.lookup key m))
          (ok-injective (Dict.insert k o m, ignored) merge' (sym (rw (fresh, place) refl) ∙ h))
          (Dict.lookup-insert key k o m))
    | inr (w, held) ↦ rw held (
        subst
          (λ l.
            Dict.lookup key l.0
            ≡ (if key == k then some (held_after o (some w)) else Dict.lookup key m))
          (collide-resolved k o w (m, ignored) merge' (sym (rw (held, place) refl) ∙ h))
          (lookup-resolved key k o w (m, ignored) held))
  ]

  keep-push :
      (p : PluginOperation Op → Bool) (ops : List (PluginOperation Op)) (o : PluginOperation Op)
      → keep p (ops ++ (o ∷ [])) ≡ keep p ops ++ keep p (o ∷ [])
  keep-push p [] o = refl
  keep-push p (x ∷ ops) o = ground (arith, keep-push p ops o)

  place-IsHeld :
      (key k : String) (o : PluginOperation Op) (merge merge' : Merge api r)
      (ops : List (PluginOperation Op))
      → IsHeld (Dict.lookup key merge.0) (keep (on_path key) ops)
      → on_path key o ≡ (key == k)
      → place api r k o merge ≡ ok merge'
      → IsHeld (Dict.lookup key merge'.0) (keep (on_path key) (ops ++ (o ∷ [])))
  place-IsHeld key k o merge merge' ops held named h = elim (Bool-cases (key == k)) [
    | inl same ↦
        rw (lookup-place key k o merge merge' h, keep-push (on_path key) ops o, named, same)
          (subst
            (λ k'.
              IsHeld (some (held_after o (Dict.lookup k' merge.0)))
                (keep (on_path key) ops ++ (o ∷ [])))
            (==→eq key k same)
            (held_after-IsHeld o (Dict.lookup key merge.0) (keep (on_path key) ops) held))
    | inr other ↦
        rw (lookup-place key k o merge merge' h, keep-push (on_path key) ops o, named, other)
          (rw append-nil held)
  ]

  merge_one-IsHeld :
      (o : PluginOperation Op) (merge merge' : Merge api r) (ops : List (PluginOperation Op))
      → ((key : String) → IsHeld (Dict.lookup key merge.0) (keep (on_path key) ops))
      → merge_one api r o merge ≡ ok merge'
      → (key : String) → IsHeld (Dict.lookup key merge'.0) (keep (on_path key) (ops ++ (o ∷ [])))
  unfolding merge_one on_path same_text
  merge_one-IsHeld o merge merge' ops held h key =
      let (k, named, placed) = >>=-eq-ok (reading (api.path o.operation)) _ h in
      place-IsHeld key k o merge merge' ops (held key)
        (same_text-reading key k (api.path o.operation) named) placed

  merge_all-IsHeld :
      (rest : List (PluginOperation Op)) (merge merge' : Merge api r)
      (ops : List (PluginOperation Op))
      → ((key : String) → IsHeld (Dict.lookup key merge.0) (keep (on_path key) ops))
      → merge_all api r rest merge ≡ ok merge'
      → (key : String) → IsHeld (Dict.lookup key merge'.0) (keep (on_path key) (ops ++ rest))
  unfolding merge_all
  merge_all-IsHeld [] merge merge' ops held h key =
      subst (λ l. IsHeld (Dict.lookup key l.0) (keep (on_path key) (ops ++ [])))
        (ok-injective merge merge' h) (rw append-nil (held key))
  merge_all-IsHeld (o ∷ rest) merge merge' ops held h key =
      let (merge1, one, later) = >>=-eq-ok (merge_one api r o merge) _ h in
      subst (λ l. IsHeld (Dict.lookup key merge'.0) (keep (on_path key) l))
        (append_assoc ops (o ∷ []) rest)
        (merge_all-IsHeld rest merge1 merge' (ops ++ (o ∷ []))
          (merge_one-IsHeld o merge merge1 ops held one) later key)

  resolved-NodupKeys :
      (k : String) (o w : PluginOperation Op) (merge : Merge api r)
      → Dict.NodupKeys merge.0
      → Dict.NodupKeys (resolved api r k o w merge).0
  unfolding resolved
  resolved-NodupKeys k o w (m, ignored) u = elim (Bool-cases (replaces api r o w)) [
    | inl better ↦ rw better (Dict.insert-NodupKeys k o m u)
    | inr worse ↦ rw worse u
  ]

  place-NodupKeys :
      (k : String) (o : PluginOperation Op) (merge merge' : Merge api r)
      → Dict.NodupKeys merge.0
      → place api r k o merge ≡ ok merge'
      → Dict.NodupKeys merge'.0
  unfolding place resolved
  place-NodupKeys k o (m, ignored) merge' u h = elim (Option-cases (Dict.lookup k m)) [
    | inl fresh ↦
        subst (λ l. Dict.NodupKeys l.0)
          (ok-injective (Dict.insert k o m, ignored) merge' (sym (rw (fresh, place) refl) ∙ h))
          (Dict.insert-NodupKeys k o m u)
    | inr (w, held) ↦
        subst (λ l. Dict.NodupKeys l.0)
          (collide-resolved k o w (m, ignored) merge' (sym (rw (held, place) refl) ∙ h))
          (resolved-NodupKeys k o w (m, ignored) u)
  ]

  merge_all-NodupKeys :
      (rest : List (PluginOperation Op)) (merge merge' : Merge api r)
      → Dict.NodupKeys merge.0
      → merge_all api r rest merge ≡ ok merge'
      → Dict.NodupKeys merge'.0
  unfolding merge_all merge_one
  merge_all-NodupKeys [] merge merge' u h =
      subst (λ l. Dict.NodupKeys l.0) (ok-injective merge merge' h) u
  merge_all-NodupKeys (o ∷ rest) merge merge' u h =
      let (merge1, one, later) = >>=-eq-ok (merge_one api r o merge) _ h in
      let (k, named, placed) = >>=-eq-ok (reading (api.path o.operation)) _ one in
      merge_all-NodupKeys rest merge1 merge' (place-NodupKeys k o merge merge1 u placed) later

  -- If merging returns no error, then the patch is the operations of a map with at most one
  -- entry per path, in the order in which the runtime ranges over it. The map holds nothing under
  -- a path that no operation is on. Under every other path it holds one of the operations on that
  -- path: it goes before all those in front of it, and none of those behind it goes before it.
  pub sanitize_patches-IsWinner :
      (iterate : Dict String (PluginOperation Op) → Dict String (PluginOperation Op))
      (ops : List (PluginOperation Op)) (patch : List Op) (ignored : List (PluginOperation Op))
      → sanitize_patches api r iterate ops ≡ ok (patch, ignored)
      → (m : Dict String (PluginOperation Op)) × Dict.NodupKeys m
        × (patch ≡ map (λ o. o.operation) (Dict.values (iterate m)))
        × ((key : String) → IsHeld (Dict.lookup key m) (keep (on_path key) ops))
  unfolding sanitize_patches IsHeld Dict.lookup
  sanitize_patches-IsWinner iterate ops patch ignored h =
      let ((m, lost), merged, done) = >>=-eq-ok (merge_all api r ops ([], [])) _ h in
      (
        m,
        merge_all-NodupKeys ops ([], []) (m, lost) tt merged,
        sym (ap (λ l. l.0) (ok-injective _ (patch, ignored) done)),
        merge_all-IsHeld ops ([], []) (m, lost) [] (λ key. refl) merged,
      )
