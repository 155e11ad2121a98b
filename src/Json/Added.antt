-- ===== src/Json/Added.antt =====
-- Reading a value after an add operation.
use crane_lib.Base.{String, true, some, List, [], ◌∷◌}
use crane_lib.Base.{string_eq, ◌==◌, ◌≡◌, refl, Bool-cases, Option-cases, inl, inr, ◌∙◌, sym, ==→eq}
use crane_lib.Json.{Value, object, Members, member, as_map, get}
use crane_lib.Json.Patch.{with_member, add_at}
use crane_lib.Json.Laws.{
  apart, get-member, member-with_member_self, as_map-object, other_with_member, same_member,
  apart-last,
}

-- An add below a key that holds a map.
add_at-below :
    (k j : String) (w : Value) (v : Value) (m n : Members)
    → as_map v ≡ some m
    → member k m ≡ some (object n)
    → add_at (k ∷ j ∷ []) w v ≡ object (with_member k (add_at (j ∷ []) w (object n)) m)
unfolding add_at
add_at-below k j w v m n h e = rw (h, add_at) (rw (e, add_at) refl)

add_at-last :
    (j : String) (w : Value) (n : Members)
    → add_at (j ∷ []) w (object n) ≡ object (with_member j w n)
unfolding add_at as_map
add_at-last j w n = elim (Option-cases (member j n)) [
  | inl e ↦ rw (e, add_at) refl
  | inr (old, e) ↦ rw (e, add_at) refl
]

-- An added value is found, and nothing else is changed.
pub get-add_at_self :
    (k j : String) (w : Value) (m n : Members)
    → member k m ≡ some (object n)
    → get (k ∷ j ∷ []) (add_at (k ∷ j ∷ []) w (object m)) ≡ some w
get-add_at_self k j w m n e =
    rw (add_at-below k j w (object m) m n (as_map-object m) e, add_at-last j w n)
      (get-member k (j ∷ []) _ _ _ (as_map-object _) (member-with_member_self k _ m)
        ∙ get-member j [] _ _ w (as_map-object _) (member-with_member_self j w n)
        ∙ unfold get in refl)

other_below :
    (is : List String) (j : String) (w : Value) (n : Members)
    → apart is (j ∷ []) ≡ true
    → get is (object (with_member j w n)) ≡ get is (object n)
other_below [] j w n h = cc
other_below (i ∷ is) j w n h = elim (Bool-cases (i == j)) [
  | inl same ↦ absurd (apart-last i j is same h)
  | inr differ ↦ other_with_member i j is (object n) w n (as_map-object n) differ
]

pub get-add_at-apart :
    (g : List String) (k j : String) (w : Value) (m n : Members)
    → member k m ≡ some (object n)
    → apart g (k ∷ j ∷ []) ≡ true
    → get g (add_at (k ∷ j ∷ []) w (object m)) ≡ get g (object m)
get-add_at-apart [] k j w m n e h = cc
get-add_at-apart (i ∷ is) k j w m n e h =
    rw (add_at-below k j w (object m) m n (as_map-object m) e, add_at-last j w n)
      (elim (Bool-cases (i == k)) [
        | inl same ↦
            same_member i k is _ m same
            ∙ other_below is j w n (sym (rw same refl) ∙ h)
            ∙ sym (get-member i is _ m (object n) (as_map-object m) (rw (==→eq i k same) e))
        | inr differ ↦ other_with_member i k is (object m) _ m (as_map-object m) differ
      ])
