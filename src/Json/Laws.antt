-- ===== src/Json/Laws.antt =====
-- Reading a value after a remove operation.
use crane_lib.Base.{String, Bool, true, false, none, some, List, [], ◌∷◌, if◌then◌else◌}
use crane_lib.Base.{
  string_eq, ◌==◌, ◌≡◌, refl, arith, Bool-cases, Option-cases, inl, inr, ==_refl, ◌∙◌, sym, ==→eq,
}
use crane_lib.Json.{Value, object, Members, empty, entry, member, as_map, get}
use crane_lib.Json.Patch.{without, with_member, remove_at}

pub member-without :
    (j k : String) (m : Members) → member j (without k m) ≡ (if j == k then none else member j m)
unfolding member without
member-without j k empty = ground arith
member-without j k (entry i v m) = ground (arith, member-without j k m)

pub member-with_member :
    (j k : String) (w : Value) (m : Members)
    → member j (with_member k w m) ≡ (if j == k then some w else member j m)
unfolding member with_member
member-with_member j k w empty = ground arith
member-with_member j k w (entry i v m) = ground (arith, member-with_member j k w m)

-- Neither path leads to the other.
abbrev pub apart : List String → List String → Bool
apart [] path = false
apart (k ∷ ks) [] = false
apart (k ∷ ks) (j ∷ js) = if k == j then apart ks js else true

pub apart-last :
    (i k : String) (is : List String) → (i == k) ≡ true → ¬ (apart (i ∷ is) (k ∷ []) ≡ true)
apart-last i k [] same h = ground arith
apart-last i k (j ∷ is) same h = ground arith

get-no_map :
    (k : String) (path : List String) (v : Value) → as_map v ≡ none → get (k ∷ path) v ≡ none
unfolding get
get-no_map k path v h = rw (h, get) refl

get-missing :
    (k : String) (path : List String) (v : Value) (m : Members)
    → as_map v ≡ some m
    → member k m ≡ none
    → get (k ∷ path) v ≡ none
unfolding get
get-missing k path v m h e = rw (h, get) (rw (e, get) refl)

pub get-member :
    (k : String) (path : List String) (v : Value) (m : Members) (w : Value)
    → as_map v ≡ some m
    → member k m ≡ some w
    → get (k ∷ path) v ≡ get path w
unfolding get
get-member k path v m w h e = rw (h, get) (rw (e, get) refl)

-- What a path finds below a key depends on what the key holds.
get_same :
    (k : String) (path : List String) (v u : Value) (m n : Members)
    → as_map v ≡ some m
    → as_map u ≡ some n
    → member k m ≡ member k n
    → get (k ∷ path) v ≡ get (k ∷ path) u
unfolding get
get_same k path v u m n h g e = rw (h, get) (rw (g, get) (rw (e, get) refl))

pub as_map-object : (m : Members) → as_map (object m) ≡ some m
unfolding as_map
as_map-object m = refl

-- The cases of a removal.
remove_at-last :
    (k : String) (v : Value) (m : Members)
    → as_map v ≡ some m
    → remove_at (k ∷ []) v ≡ object (without k m)
unfolding remove_at
remove_at-last k v m h = rw (h, remove_at) refl

remove_at-below :
    (k j : String) (path : List String) (v : Value) (m : Members) (w : Value)
    → as_map v ≡ some m
    → member k m ≡ some w
    → remove_at (k ∷ j ∷ path) v ≡ object (with_member k (remove_at (j ∷ path) w) m)
unfolding remove_at
remove_at-below k j path v m w h e = rw (h, remove_at) (rw (e, remove_at) refl)

remove_at-missing :
    (k j : String) (path : List String) (v : Value) (m : Members)
    → as_map v ≡ some m
    → member k m ≡ none
    → remove_at (k ∷ j ∷ path) v ≡ v
unfolding remove_at
remove_at-missing k j path v m h e = rw (h, remove_at) (rw (e, remove_at) refl)

remove_at-no_map : (path : List String) (v : Value) → as_map v ≡ none → remove_at path v ≡ v
unfolding remove_at
remove_at-no_map [] v h = refl
remove_at-no_map (k ∷ []) v h = rw (h, remove_at) refl
remove_at-no_map (k ∷ j ∷ path) v h = rw (h, remove_at) refl

member-without_self : (k : String) (m : Members) → member k (without k m) ≡ none
member-without_self k m = rw (member-without k k m, ==_refl k) refl

pub member-with_member_self :
    (k : String) (w : Value) (m : Members) → member k (with_member k w m) ≡ some w
member-with_member_self k w m = rw (member-with_member k k w m, ==_refl k) refl

-- Nothing is left where a value was removed.
pub get-remove_at_self :
    (k : String) (path : List String) (v : Value) → get (k ∷ path) (remove_at (k ∷ path) v) ≡ none
get-remove_at_self k [] v = elim (Option-cases (as_map v)) [
  | inl h ↦ rw (remove_at-no_map (k ∷ []) v h) (get-no_map k [] v h)
  | inr (m, h) ↦
      rw (remove_at-last k v m h)
        (get-missing k [] _ (without k m) (as_map-object _) (member-without_self k m))
]
get-remove_at_self k (j ∷ rest) v = elim (Option-cases (as_map v)) [
  | inl h ↦ rw (remove_at-no_map (k ∷ j ∷ rest) v h) (get-no_map k (j ∷ rest) v h)
  | inr (m, h) ↦ elim (Option-cases (member k m)) [
    | inl e ↦ rw (remove_at-missing k j rest v m h e) (get-missing k (j ∷ rest) v m h e)
    | inr (w, e) ↦ rw (remove_at-below k j rest v m w h e) (
        get-member k (j ∷ rest) _ _ _ (as_map-object _) (member-with_member_self k _ m)
        ∙ get-remove_at_self j rest w)
  ]
]

-- The members that a removal below another key leaves.
other_without :
    (i k : String) (is : List String) (v : Value) (m : Members)
    → as_map v ≡ some m
    → (i == k) ≡ false
    → get (i ∷ is) (object (without k m)) ≡ get (i ∷ is) v
other_without i k is v m h differ =
    get_same i is _ v (without k m) m (as_map-object _) h (rw (member-without i k m, differ) refl)

pub other_with_member :
    (i k : String) (is : List String) (v w : Value) (m : Members)
    → as_map v ≡ some m
    → (i == k) ≡ false
    → get (i ∷ is) (object (with_member k w m)) ≡ get (i ∷ is) v
other_with_member i k is v w m h differ =
    get_same i is _ v (with_member k w m) m (as_map-object _) h
      (rw (member-with_member i k w m, differ) refl)

-- The value below the key that a removal enters.
pub same_member :
    (i k : String) (is : List String) (w : Value) (m : Members)
    → (i == k) ≡ true
    → get (i ∷ is) (object (with_member k w m)) ≡ get is w
same_member i k is w m same =
    get-member i is _ _ w (as_map-object _) (rw (member-with_member i k w m, same) refl)

-- A removal brings nothing up that was missing.
pub get-remove_at-none :
    (g f : List String) (v : Value) → get g v ≡ none → get g (remove_at f v) ≡ none
get-remove_at-none [] f v h = unfold get in cc
get-remove_at-none (i ∷ is) [] v h = unfold remove_at in h
get-remove_at-none (i ∷ is) (k ∷ []) v h = elim (Option-cases (as_map v)) [
  | inl e ↦ rw (remove_at-no_map (k ∷ []) v e) h
  | inr (m, e) ↦ rw (remove_at-last k v m e) (elim (Bool-cases (i == k)) [
    | inl same ↦
        get-missing i is _ (without k m) (as_map-object _) (rw (member-without i k m, same) refl)
    | inr differ ↦ other_without i k is v m e differ ∙ h
  ])
]
get-remove_at-none (i ∷ is) (k ∷ j ∷ f) v h = elim (Option-cases (as_map v)) [
  | inl e ↦ rw (remove_at-no_map (k ∷ j ∷ f) v e) h
  | inr (m, e) ↦ elim (Option-cases (member k m)) [
    | inl o ↦ rw (remove_at-missing k j f v m e o) h
    | inr (w, o) ↦ rw (remove_at-below k j f v m w e o) (elim (Bool-cases (i == k)) [
      | inl same ↦
          same_member i k is (remove_at (j ∷ f) w) m same
          ∙ get-remove_at-none is (j ∷ f) w
              (sym (get-member i is v m w e (rw (==→eq i k same) o)) ∙ h)
      | inr differ ↦ other_with_member i k is v (remove_at (j ∷ f) w) m e differ ∙ h
    ])
  ]
]

-- A removal leaves alone what neither lies below it nor above it.
pub get-remove_at-apart :
    (g f : List String) (v : Value) → apart g f ≡ true → get g (remove_at f v) ≡ get g v
get-remove_at-apart [] f v h = cc
get-remove_at-apart (i ∷ is) [] v h = cc
get-remove_at-apart (i ∷ is) (k ∷ []) v h = elim (Option-cases (as_map v)) [
  | inl e ↦ rw (remove_at-no_map (k ∷ []) v e) refl
  | inr (m, e) ↦ rw (remove_at-last k v m e) (elim (Bool-cases (i == k)) [
    | inl same ↦ absurd (apart-last i k is same h)
    | inr differ ↦ other_without i k is v m e differ
  ])
]
get-remove_at-apart (i ∷ is) (k ∷ j ∷ f) v h = elim (Option-cases (as_map v)) [
  | inl e ↦ rw (remove_at-no_map (k ∷ j ∷ f) v e) refl
  | inr (m, e) ↦ elim (Option-cases (member k m)) [
    | inl o ↦ rw (remove_at-missing k j f v m e o) refl
    | inr (w, o) ↦ rw (remove_at-below k j f v m w e o) (elim (Bool-cases (i == k)) [
      | inl same ↦
          same_member i k is (remove_at (j ∷ f) w) m same
          ∙ get-remove_at-apart is (j ∷ f) w (sym (rw same refl) ∙ h)
          ∙ sym (get-member i is v m w e (rw (==→eq i k same) o))
      | inr differ ↦ other_with_member i k is v (remove_at (j ∷ f) w) m e differ
    ])
  ]
]
