-- ===== src/Kubernetes/NodePorts/Noted.antt =====
-- The set ports that `getNodePortPatch` notes are those of the last applied configuration.
use crane_lib.Base.{String, Bool, true, false, none, some, [], ◌∷◌, ◌||◌, contains}
use crane_lib.Base.{
  ok, err, panic, >>=-eq-ok, ok-injective, if◌then◌else◌, string_eq, ◌==◌, ==→eq, ==_refl, ◌≡◌,
  refl, sym, ◌∙◌, ap, subst, arith, Bool-cases, Option-cases, inl, inr, ◌⊎◌, ◌↔◌,
}
use crane_lib.Base.Int.{ℤ, pos, negsuc, eq_ℤ, eq_ℤ→eq, is_positive, is_zero}
use crane_lib.Json.{Value, Members, Elements, nothing, element, member, as_map, as_text}
use crane_lib.Kubernetes.{Api, Nested, present, absent, mistyped}
use crane_lib.Kubernetes.NodePorts.{
  Explicit, has_number, no_port, get_node_port_int, insert_port, note_port, note_ports,
  explicit_ports,
}
use crane_lib.Kubernetes.NodePorts.SetPorts.{
  IsNumber, Has, Sets, SetsName, SetsNumber, Applied, explicit_ports-Applied,
  get_node_port_int-IsNumber, IsNumber→get_node_port_int,
}

positive_not_zero : (n : ℤ) → is_positive n ≡ true → is_zero n ≡ false
positive_not_zero (pos n) h = ground arith
positive_not_zero (negsuc n) h = refl

eq_ℤ_refl : (n : ℤ) → eq_ℤ n n ≡ true
eq_ℤ_refl (pos n) = ground arith
eq_ℤ_refl (negsuc n) = ground arith

or_iff {ℓ} : (b c : Bool) {X : Type ℓ} → (b ≡ true) ↔ X → ((b || c) ≡ true) ↔ ((c ≡ true) ⊎ X)
or_iff true c (to, from) = (λ h. inr (to refl), λ h. refl)
or_iff false c (to, from) =
    (λ h. inl h, λ h. elim h [ inl h ↦ h | inr x ↦ let q = from x in absurd (cc q) ])

same_map : (v : Value) (p port : Members) → as_map v ≡ some p → as_map v ≡ some port → p ≡ port
same_map v p port is h = let q : some p ≡ some port = sym is ∙ h in ground arith

same_present : (v w : Value) → present v ≡ present w → v ≡ w
same_present v w h = ground arith

Nested-cases {ℓ} :
    {A : Type ℓ} (n : Nested A)
    → ((a : A) × (n ≡ present a)) ⊎ ((n ≡ absent) ⊎ ((m : String) × (n ≡ mistyped m)))
Nested-cases (present a) = inl (a, refl)
Nested-cases absent = inr (inl refl)
Nested-cases (mistyped m) = inr (inr (m, refl))

chained : {A B C X Y : Type 0} → B ↔ (A ⊎ X) → C ↔ (B ⊎ Y) → C ↔ (A ⊎ (X ⊎ Y))
chained (to, from) (to', from') = (
  λ c. elim (to' c) [
    | inl b ↦ elim (to b) [ inl a ↦ inl a | inr x ↦ inr (inl x) ]
    | inr y ↦ inr (inr y)
  ],
  λ h. elim h [
    | inl a ↦ from' (inl (from (inl a)))
    | inr (inl x) ↦ from' (inl (from (inr x)))
    | inr (inr y) ↦ from' (inr y)
  ],
)

module _ (api : Api) (s : String) (m : ℤ) where
  -- What is added to the set ports.
  abbrev AddsBy : Type 0 → Type 0 → Explicit → Explicit → Type 0
  AddsBy name number e e' =
      ((contains e'.names s ≡ true) ↔ ((contains e.names s ≡ true) ⊎ name))
      × ((has_number m e'.numbers ≡ true) ↔ ((has_number m e.numbers ≡ true) ⊎ number))

  kept : (name number : Type 0) (e : Explicit) → ¬ name → ¬ number → AddsBy name number e e
  kept name number e no_name no_number = (
    (λ h. inl h, λ h. elim h [ inl h ↦ h | inr h ↦ absurd (no_name h) ]),
    (λ h. inl h, λ h. elim h [ inl h ↦ h | inr h ↦ absurd (no_number h) ]),
  )

  AddsBy-never :
      (v : Value) (e : Explicit)
      → ((port : Members) (n : ℤ) → ¬ (Sets api v port n))
      → AddsBy (SetsName api s v) (SetsNumber api m v) e e
  AddsBy-never v e never =
      kept (SetsName api s v) (SetsNumber api m v) e (λ (port, n, sets, _). never port n sets)
        (λ (port, sets, _). never port m sets)

  module _ (v : Value) (p : Members) (is : as_map v ≡ some p) (node_port : Value)
      (field : api.nested_field p ("nodePort" ∷ []) ≡ present node_port) (n : ℤ)
      (number : IsNumber node_port n) (positive : is_positive n ≡ true) where
    same_port : (port : Members) → as_map v ≡ some port → p ≡ port
    same_port port h = let q : some p ≡ some port = sym is ∙ h in ground arith

    same_number : (k : ℤ) → Sets api v p k → n ≡ k
    same_number k (_, (other, found, number'), _) =
        let q : other ≡ node_port =
          (let r : present other ≡ present node_port = sym found ∙ field in ground arith) in
        ok-injective n k (
          sym (IsNumber→get_node_port_int node_port n number)
          ∙ IsNumber→get_node_port_int node_port k (subst (λ w. IsNumber w k) q number'))

    sets : Sets api v p n
    sets = (is, (node_port, field, number), positive)

    as_number :
        (e : Explicit)
        → member "name" p ≡ none
        → AddsBy
            (SetsName api s v)
            (SetsNumber api m v)
            e
            (record { names = e.names; numbers = n ∷ e.numbers })
    as_number e unnamed = (
      (
        λ h. inl h,
        λ h. elim h [
          | inl h ↦ h
          | inr (port, k, (at_v, _, _), (w, called, _)) ↦
              let q : member "name" p ≡ some w =
                ap (member "name") (same_port port at_v) ∙ called in
              absurd (cc (sym unnamed ∙ q))
        ],
      ),
      or_iff (eq_ℤ m n) (has_number m e.numbers) (
        λ h. (p, subst (Sets api v p) (sym (eq_ℤ→eq m n h)) sets, unnamed),
        λ (port, sets', _).
            let q =
              same_number m
                (subst (λ port. Sets api v port m) (sym (same_port port sets'.0)) sets') in
            ap (λ k. eq_ℤ m k) q ∙ eq_ℤ_refl m,
      ),
    )

    as_name :
        (e : Explicit) (name : Value) (t : String)
        → member "name" p ≡ some name
        → as_text name ≡ some t
        → AddsBy
            (SetsName api s v)
            (SetsNumber api m v)
            e
            (record { names = t ∷ e.names; numbers = e.numbers })
    as_name e name t called is_t = (
      or_iff (s == t) (contains e.names s) (
        λ h. (p, n, sets, (name, called, is_t ∙ ap some (sym (==→eq s t h)))),
        λ (port, k, (at_v, _, _), (w, called', is_s)).
            let q : member "name" p ≡ some w = ap (member "name") (same_port port at_v) ∙ called' in
            let same : name ≡ w = (let r : some name ≡ some w = sym called ∙ q in ground arith) in
            let st : t ≡ s =
              (let r : some t ≡ some s = sym is_t ∙ ap as_text same ∙ is_s in ground arith) in
            ap (λ u. s == u) st ∙ ==_refl s,
      ),
      (
        λ h. inl h,
        λ h. elim h [
          | inl h ↦ h
          | inr (port, (at_v, _, _), unnamed) ↦
              let q : member "name" p ≡ none = ap (member "name") (same_port port at_v) ∙ unnamed in
              absurd (cc (sym called ∙ q))
        ],
      ),
    )

    panics :
        (e e' : Explicit) (name : Value)
        → member "name" p ≡ some name
        → as_text name ≡ none
        → ¬ (insert_port p n e ≡ ok e')
    unfolding insert_port
    panics e e' name called no_text h =
        let q : panic ≡ ok e' =
          sym (rw (called, insert_port) (rw (no_text, insert_port) refl)) ∙ h in
        cc

    insert_port-AddsBy :
        (e e' : Explicit)
        → insert_port p n e ≡ ok e'
        → AddsBy (SetsName api s v) (SetsNumber api m v) e e'
    unfolding insert_port
    insert_port-AddsBy e e' h = elim (Option-cases (member "name" p)) [
      | inl unnamed ↦
          let q : insert_port p n e ≡ ok (record { names = e.names; numbers = n ∷ e.numbers }) =
            rw (unnamed, insert_port) refl in
          subst (AddsBy (SetsName api s v) (SetsNumber api m v) e) (ok-injective _ e' (sym q ∙ h))
            (as_number e unnamed)
      | inr (name, called) ↦ elim (Option-cases (as_text name)) [
        | inl no_text ↦ absurd (panics e e' name called no_text h)
        | inr (t, is_t) ↦
            let q : insert_port p n e ≡ ok (record { names = t ∷ e.names; numbers = e.numbers }) =
              rw (called, insert_port) (rw (is_t, insert_port) refl) in
            subst (AddsBy (SetsName api s v) (SetsNumber api m v) e) (ok-injective _ e' (sym q ∙ h))
              (as_name e name t called is_t)
      ]
    ]

  abbrev PortAdds : Value → Explicit → Explicit → Type 0
  PortAdds v = AddsBy (SetsName api s v) (SetsNumber api m v)

  unchanged :
      (v : Value) (e e' : Explicit)
      → ok e ≡ ok e'
      → ((port : Members) (n : ℤ) → ¬ (Sets api v port n))
      → PortAdds v e e'
  unchanged v e e' h never = subst (PortAdds v e) (ok-injective e e' h) (AddsBy-never v e never)

  present_port :
      (v : Value) (p : Members) (node_port : Value) (e e' : Explicit)
      → as_map v ≡ some p
      → api.nested_field p ("nodePort" ∷ []) ≡ present node_port
      → note_port api v e ≡ ok e'
      → PortAdds v e e'
  unfolding note_port
  present_port v p node_port e e' is field h =
      let (n, r, after) =
        >>=-eq-ok (get_node_port_int node_port)
          (λ n. if is_positive n then insert_port p n e else ok e)
          (sym (rw (is, note_port) (rw (field, note_port) refl)) ∙ h) in
      elim (Bool-cases (is_positive n)) [
        | inl positive ↦
            insert_port-AddsBy v p is node_port field n
              (get_node_port_int-IsNumber node_port n r (positive_not_zero n positive)) positive e
              e' (sym (rw positive refl) ∙ after)
        | inr small ↦
            unchanged v e e' (sym (rw small refl) ∙ after)
              (λ port k (at_v, (w, found, number), large).
                let there =
                  subst (λ port. api.nested_field port ("nodePort" ∷ []) ≡ present w)
                    (sym (same_map v p port is at_v)) found in
                let q : ok n ≡ ok k =
                  sym r
                  ∙ IsNumber→get_node_port_int node_port k (
                      subst (λ w. IsNumber w k) (same_present w node_port (sym there ∙ field))
                        number) in
                absurd (cc (sym small ∙ ap is_positive (ok-injective n k q) ∙ large)))
      ]

  note_port-AddsBy : (v : Value) (e e' : Explicit) → note_port api v e ≡ ok e' → PortAdds v e e'
  unfolding note_port
  note_port-AddsBy v e e' h = elim (Option-cases (as_map v)) [
    | inl no_map ↦
        unchanged v e e' (sym (rw (no_map, note_port) refl) ∙ h)
          (λ port n (at_v, _, _). absurd (cc (sym no_map ∙ at_v)))
    | inr (p, is) ↦ elim (Nested-cases (api.nested_field p ("nodePort" ∷ []))) [
      | inl (node_port, field) ↦ present_port v p node_port e e' is field h
      | inr (inl gone) ↦
          unchanged v e e' (sym (rw (is, note_port) (rw (gone, note_port) refl)) ∙ h)
            (λ port n (at_v, (w, found, _), _).
              let there =
                subst (λ port. api.nested_field port ("nodePort" ∷ []) ≡ present w)
                  (sym (same_map v p port is at_v)) found in
              absurd (cc (sym gone ∙ there)))
      | inr (inr (message, broken)) ↦
          let q : err message ≡ ok e' =
            sym (rw (is, note_port) (rw (broken, note_port) refl)) ∙ h in
          cc
    ]
  ]

  note_ports-AddsBy :
      (ports : Elements) (e e' : Explicit)
      → note_ports api ports e ≡ ok e'
      → AddsBy (Has (SetsName api s) ports) (Has (SetsNumber api m) ports) e e'
  unfolding note_ports
  note_ports-AddsBy nothing e e' h =
      subst (AddsBy ⊥ ⊥ e) (ok-injective e e' h) (kept ⊥ ⊥ e (λ never. never) (λ never. never))
  note_ports-AddsBy (element v vs) e e' h =
      let (e1, one, rest) = >>=-eq-ok (note_port api v e) _ h in
      let (name, number) = note_port-AddsBy v e e1 one in
      let (names, numbers) = note_ports-AddsBy vs e1 e' rest in
      (chained name names, chained number numbers)

-- The set ports of the last applied configuration are those that its ports set.
pub explicit_ports-Applied_iff :
    (api : Api) (u : Members) (ports : Elements) (e : Explicit) (s : String) (m : ℤ)
    → Applied api u ports
    → explicit_ports api u ≡ ok e
    → ((contains e.names s ≡ true) ↔ Has (SetsName api s) ports)
      × ((has_number m e.numbers ≡ true) ↔ Has (SetsNumber api m) ports)
explicit_ports-Applied_iff api u ports e s m applied h =
    let (names, numbers) =
      note_ports-AddsBy api s m ports no_port e
        (sym (explicit_ports-Applied api u ports applied) ∙ h) in
    (
      (
        λ h. elim (names.0 h) [ inl never ↦ absurd (unfold no_port in cc never) | inr has ↦ has ],
        λ has. names.1 (inr has),
      ),
      (
        λ h. elim (numbers.0 h) [ inl never ↦ absurd (unfold no_port in cc never) | inr has ↦ has ],
        λ has. numbers.1 (inr has),
      ),
    )
