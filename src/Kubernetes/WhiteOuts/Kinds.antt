-- ===== src/Kubernetes/WhiteOuts/Kinds.antt =====
-- The tests of getWhiteOuts as truth values, and membership in a list of kinds.
use crane_lib.Base.{ltb, String, Bool, true, false, Option, none, some, List, [], ◌∷◌}
use crane_lib.Base.{string_eq, ==→eq, ==_refl, if◌then◌else◌, ◌≡◌, ◌≢◌, refl, arith, ◌⊎◌, inl, inr}
use crane_lib.Base.{Bool-cases, length, sym, ◌∙◌, subst}
use crane_lib.Kubernetes.{GroupKind, same_group_kind, Nested, present, absent, mistyped}
use crane_lib.Kubernetes.WhiteOuts.{group_kind_in_list}

abbrev pub Listed : GroupKind → List GroupKind → Type 0
Listed a [] = ⊥
Listed a (x ∷ xs) = (a ≡ x) ⊎ Listed a xs

pub same_group_kind→eq : (a b : GroupKind) → same_group_kind a b ≡ true → a ≡ b
unfolding same_group_kind
same_group_kind→eq a b h = λ i. record {
  group = ==→eq a.group b.group (ground arith) i;
  kind = ==→eq a.kind b.kind (ground arith) i;
}

pub same_group_kind_refl : (a : GroupKind) → same_group_kind a a ≡ true
unfolding same_group_kind
same_group_kind_refl a = rw (==_refl a.group, ==_refl a.kind) refl

pub group_kind_in_list→Listed :
    (gk : GroupKind) (list : List GroupKind) → group_kind_in_list gk list ≡ true → Listed gk list
unfolding group_kind_in_list
group_kind_in_list→Listed gk [] h = cc
group_kind_in_list→Listed gk (x ∷ list) h = elim (Bool-cases (same_group_kind gk x)) [
  | inl same ↦ inl (same_group_kind→eq gk x same)
  | inr differ ↦ inr (group_kind_in_list→Listed gk list (sym (rw differ refl) ∙ h))
]

pub Listed→group_kind_in_list :
    (gk : GroupKind) (list : List GroupKind) → Listed gk list → group_kind_in_list gk list ≡ true
unfolding group_kind_in_list
Listed→group_kind_in_list gk [] within = absurd within
Listed→group_kind_in_list gk (x ∷ list) (inl e) =
    rw (subst (λ y. same_group_kind gk y ≡ true) e (same_group_kind_refl gk)) refl
Listed→group_kind_in_list gk (x ∷ list) (inr later) = elim (Bool-cases (same_group_kind gk x)) [
  | inl same ↦ rw same refl
  | inr differ ↦ rw differ (Listed→group_kind_in_list gk list later)
]

pub length-not_empty : {A : Type 0} (xs : List A) → xs ≢ [] → ltb 0 (length xs) ≡ true
length-not_empty [] h = absurd (h refl)
length-not_empty (x ∷ xs) h = ground arith

pub not_in_list :
    (gk : GroupKind) (list : List GroupKind)
    → ¬ (Listed gk list)
    → group_kind_in_list gk list ≡ false
not_in_list gk list h = elim (Bool-cases (group_kind_in_list gk list)) [
  | inl e ↦ absurd (h (group_kind_in_list→Listed gk list e))
  | inr e ↦ e
]

pub if_true : (b c : Bool) → (if b then c else false) ≡ true → (b ≡ true) × (c ≡ true)
if_true true c h = (refl, h)
if_true false c h = cc

pub nested_true :
    (n : Nested String) (test : String → Bool)
    → elim n [ present t ↦ test t | absent ↦ false | mistyped e ↦ false ] ≡ true
    → (t : String) × (n ≡ present t) × (test t ≡ true)
nested_true (present t) test h = (t, refl, h)
nested_true absent test h = cc
nested_true (mistyped e) test h = cc

pub option_true :
    (o : Option String) (test : String → Bool)
    → elim o [ none ↦ false | some s ↦ test s ] ≡ true
    → (s : String) × (o ≡ some s) × (test s ≡ true)
option_true none test h = cc
option_true (some s) test h = (s, refl, h)

pub List-cases : {A : Type 0} (xs : List A) → (xs ≡ []) ⊎ (xs ≢ [])
List-cases [] = inl refl
List-cases (x ∷ xs) = inr (λ e. cc)

pub else_true : (a c : Bool) → c ≡ true → (if a then true else c) ≡ true
else_true true c h = refl
else_true false c h = h

-- The tests of getWhiteOuts in their order, on any truth values.
abbrev pub chain : (a b c d e f g h : Bool) → Bool
chain a b c d e f g h =
    if a
    then true
    else if b
    then true
    else if c
    then false
    else if d
    then true
    else if e
    then true
    else if f
    then true
    else if g
    then true
    else h

-- One of the tests that are true: the first two, or if `c` is false the last five.
abbrev pub OneOf : (a b c d e f g h : Bool) → Type 0
OneOf a b c d e f g h =
    (a ≡ true)
    ⊎ (b ≡ true)
    ⊎ ((c ≡ false) × ((d ≡ true) ⊎ (e ≡ true) ⊎ (f ≡ true) ⊎ (g ≡ true) ⊎ (h ≡ true)))

pub chain→OneOf : (a b c d e f g h : Bool) → chain a b c d e f g h ≡ true → OneOf a b c d e f g h
chain→OneOf true b c d e f g h p = inl refl
chain→OneOf false true c d e f g h p = inr (inl refl)
chain→OneOf false false true d e f g h p = cc
chain→OneOf false false false true e f g h p = inr (inr (refl, inl refl))
chain→OneOf false false false false true f g h p = inr (inr (refl, inr (inl refl)))
chain→OneOf false false false false false true g h p = inr (inr (refl, inr (inr (inl refl))))
chain→OneOf false false false false false false true h p =
    inr (inr (refl, inr (inr (inr (inl refl)))))
chain→OneOf false false false false false false false h p =
    inr (inr (refl, inr (inr (inr (inr p)))))

pub OneOf→chain : (a b c d e f g h : Bool) → OneOf a b c d e f g h → chain a b c d e f g h ≡ true
OneOf→chain true b c d e f g h p = refl
OneOf→chain false true c d e f g h p = refl
OneOf→chain false false true d e f g h p = ground arith
OneOf→chain false false false true e f g h p = refl
OneOf→chain false false false false true f g h p = refl
OneOf→chain false false false false false true g h p = refl
OneOf→chain false false false false false false true h p = refl
OneOf→chain false false false false false false false h p = ground arith
