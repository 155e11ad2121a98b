-- ===== src/Strings/Laws.antt =====
-- Splitting and joining, and what a replacement leaves.
use Prim.Native.Char.{Char, code}
use Prim.Native.String.{◌++◌ as ◌<>◌}
use text.Mathlib.TextLemmas.{nil-append, cons-append}
use text.Mathlib.TextLemmas as Text
use text.Mathlib.TextEquality.{Char-path}
use crane_lib.Base.{ℕ, String, true, false, List, [], ◌∷◌, eqb, ◌≢◌}
use crane_lib.Base.{string_eq, All, ◌≡◌, refl, ◌∙◌, arith, Bool-cases, inl, inr, eqb→eq}
use crane_lib.Strings.{replace_all, split_from, split, join}

-- No character of the text has the code.
abbrev pub Lacks : ℕ → String → Type 0
Lacks n String.[] = Unit
Lacks n (String.◌∷◌ c s) = (code c ≢ n) × Lacks n s

pub Lacks-append : (n : ℕ) (s t : String) → Lacks n s → Lacks n t → Lacks n (s <> t)
Lacks-append n String.[] t h k = rw nil-append k
Lacks-append n (String.◌∷◌ c s) t (p, h) k = rw cons-append (p, Lacks-append n s t h k)

-- Replacing leaves none of the replaced characters, if the new text has none.
pub replace_all-Lacks :
    (old : ℕ) (new s : String) → Lacks old new → Lacks old (replace_all old new s)
unfolding replace_all
replace_all-Lacks old new String.[] h = tt
replace_all-Lacks old new (String.◌∷◌ c s) h = elim (Bool-cases (eqb (code c) old)) [
  | inl same ↦ rw same (Lacks-append old new _ h (replace_all-Lacks old new s h))
  | inr other ↦ rw other (ground arith, replace_all-Lacks old new s h)
]

-- Replacing another character brings in no character that the new text lacks.
pub replace_all-Lacks_other :
    (n old : ℕ) (new s : String) → Lacks n new → Lacks n s → Lacks n (replace_all old new s)
unfolding replace_all
replace_all-Lacks_other n old new String.[] h k = tt
replace_all-Lacks_other n old new (String.◌∷◌ c s) h (p, k) = elim (Bool-cases (eqb (code c) old)) [
  | inl same ↦ rw same (Lacks-append n new _ h (replace_all-Lacks_other n old new s h k))
  | inr other ↦ rw other (p, replace_all-Lacks_other n old new s h k)
]

split_from-Lacks :
    (sep : ℕ) (part s : String) → Lacks sep part → All (Lacks sep) (split_from sep part s)
unfolding split_from
split_from-Lacks sep part String.[] h = (h, tt)
split_from-Lacks sep part (String.◌∷◌ c s) h = elim (Bool-cases (eqb (code c) sep)) [
  | inl same ↦ rw same (h, split_from-Lacks sep "" s tt)
  | inr other ↦ rw other (split_from-Lacks sep _ s (Lacks-append sep part _ h (ground arith, tt)))
]

-- No part of a split holds the separator.
pub split-Lacks : (sep : ℕ) (s : String) → All (Lacks sep) (split sep s)
unfolding split
split-Lacks sep s = split_from-Lacks sep "" s tt

pub append-push :
    (s : String) (c : Char) (t : String) → (s <> String.◌∷◌ c "") <> t ≡ s <> String.◌∷◌ c t
append-push s c t = Text.append_assoc s (String.◌∷◌ c "") t ∙ rw (cons-append, nil-append)

split_from_of_Lacks :
    (sep : ℕ) (part s : String) → Lacks sep s → split_from sep part s ≡ (part <> s) ∷ []
unfolding split_from
split_from_of_Lacks sep part String.[] h = rw Text.append-nil
split_from_of_Lacks sep part (String.◌∷◌ c s) (p, h) =
    rw (let differ : eqb (code c) sep ≡ false = ground arith in differ)
      (split_from_of_Lacks sep (part <> String.◌∷◌ c "") s h ∙ rw append-push)

pub split_of_Lacks : (sep : ℕ) (s : String) → Lacks sep s → split sep s ≡ s ∷ []
unfolding split
split_of_Lacks sep s h = rw (split_from_of_Lacks sep "" s h, nil-append)

split_from-ne-nil :
    (sep : ℕ) (part s : String)
    → (p : String) × (ps : List String) × (split_from sep part s ≡ p ∷ ps)
unfolding split_from
split_from-ne-nil sep part String.[] = (part, [], refl)
split_from-ne-nil sep part (String.◌∷◌ c s) = elim (Bool-cases (eqb (code c) sep)) [
  | inl same ↦ (part, split_from sep "" s, rw same)
  | inr other ↦
      let (p, ps, e) = split_from-ne-nil sep (part <> String.◌∷◌ c "") s in (p, ps, rw other e)
]

join-cons :
    (sep p : String) (xs : List String) (y : String) (ys : List String)
    → xs ≡ y ∷ ys
    → join sep (p ∷ xs) ≡ p <> (sep <> join sep xs)
unfolding join
join-cons sep p xs y ys e = rw e

join-split_from :
    (sep : Char) (part s : String)
    → join (String.◌∷◌ sep "") (split_from (code sep) part s) ≡ part <> s
unfolding split_from join
join-split_from sep part String.[] = rw Text.append-nil
join-split_from sep part (String.◌∷◌ c s) = elim (Bool-cases (eqb (code c) (code sep))) [
  | inl same ↦
      let (y, ys, e) = split_from-ne-nil (code sep) "" s in
      rw same (
        join-cons (String.◌∷◌ sep "") part (split_from (code sep) "" s) y ys e
        ∙ rw (
          join-split_from sep "" s,
          cons-append,
          nil-append,
          nil-append,
          Char-path c sep (eqb→eq _ _ same),
        ))
  | inr other ↦ rw other (join-split_from sep (part <> String.◌∷◌ c "") s ∙ append-push part c s)
]

-- Joining the parts of a split by the separator gives the text back.
pub join-split : (sep : Char) (s : String) → join (String.◌∷◌ sep "") (split (code sep) s) ≡ s
unfolding split
join-split sep s = join-split_from sep "" s ∙ nil-append s

-- A separator at the front closes an empty part.
pub split-cons_sep :
    (sep : ℕ) (c : Char) (s : String)
    → eqb (code c) sep ≡ true
    → split sep (String.◌∷◌ c s) ≡ "" ∷ split sep s
unfolding split split_from
split-cons_sep sep c s h = rw h

split_from-append :
    (sep : ℕ) (q p : String) (c : Char) (s : String)
    → Lacks sep p
    → eqb (code c) sep ≡ true
    → split_from sep q (p <> String.◌∷◌ c s) ≡ (q <> p) ∷ split_from sep "" s
unfolding split_from
split_from-append sep q String.[] c s h e = rw (nil-append, Text.append-nil) (rw e)
split_from-append sep q (String.◌∷◌ d p) c s (differ, h) e =
    rw (cons-append, (let no_sep : eqb (code d) sep ≡ false = ground arith in no_sep))
      (split_from-append sep (q <> String.◌∷◌ d "") p c s h e ∙ rw append-push)

-- The part in front of a separator is split off.
pub split-append :
    (sep : ℕ) (p : String) (c : Char) (s : String)
    → Lacks sep p
    → eqb (code c) sep ≡ true
    → split sep (p <> String.◌∷◌ c s) ≡ p ∷ split sep s
unfolding split
split-append sep p c s h e = split_from-append sep "" p c s h e ∙ rw nil-append
