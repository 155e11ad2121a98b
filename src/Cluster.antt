-- ===== src/Cluster.antt =====
-- The API server as the state-transfer code sees it. `client.Client` is not part of this
-- repository: it is the record `Client`, an argument of all that uses it, and `IsLawful` says what
-- is assumed of it. The loop of every function in state_transfer/quiesce.go is `for_items`.
pub mod Laws
pub mod Total
pub mod Store
use crane_lib.Base.{String, Bool, true, false, Option, none, some, List, [], ◌∷◌, ◌≡◌, ap}
use crane_lib.Base.{Result, ok, err, panic, Eq, ◌==◌, string_dec, string_eq, if◌then◌else◌}

-- types.NamespacedName
pub record NamespacedName : Type 0 where
  pub namespace : String
  pub name : String

unfoldable pub name_dec : Discrete NamespacedName
unfolding string_dec
name_dec a b = elim (string_dec a.namespace b.namespace) [
  | yes p ↦ elim (string_dec a.name b.name) [
    | yes q ↦ yes (λ i. record { namespace = p i; name = q i })
    | no n ↦ no (λ r. n (ap (λ (x : NamespacedName). x.name) r))
  ]
  | no n ↦ no (λ r. n (ap (λ (x : NamespacedName). x.namespace) r))
]

instance unfoldable pub name_eq : Eq NamespacedName
unfolding name_dec
name_eq = record { dec = name_dec }

-- What a `for` loop over listed objects does with one of them: `continue`, Update, return an
-- error, or panic at a nil pointer.
pub data Step (X : Type 0) : Type 0 where
  skip : Step X
  write : X → Step X
  stop : String → Step X
  crash : Step X

-- The object that a round leaves, if the round goes through.
abbrev pub outcome : {X : Type 0} → Step X → X → X
outcome skip x = x
outcome (write y) x = y
outcome (stop e) x = x
outcome crash x = x

-- A round that goes through.
abbrev pub Goes : {X : Type 0} → Step X → Type 0
Goes skip = Unit
Goes (write y) = Unit
Goes (stop e) = ⊥
Goes crash = ⊥

-- List returns the objects of a namespace, Update stores one; either can fail. An Update that
-- fails may still have changed the state.
pub record Client (S X : Type 0) : Type 0 where
  pub list : String → S → Result (List X)
  pub update : X → S → S × Result (Unit {0})

-- `if err != nil { return err }` behind a call that changes the state.
abbrev pub and_then :
    {S : Type 0} → S × Result (Unit {0}) → (S → S × Result (Unit {0})) → S × Result (Unit {0})
and_then (s, ok _) k = k s
and_then (s, err e) k = (s, err e)
and_then (s, panic) k = (s, panic)

module _ {S X : Type 0} (c : Client S X) (step : X → Step X) where
  -- The rounds of one loop, up to the first error.
  unfoldable pub for_items : List X → S → S × Result (Unit {0})
  for_items [] s = (s, ok tt)
  for_items (x ∷ xs) s = elim (step x) [
    | skip ↦ for_items xs s
    | write y ↦ and_then (c.update y s) (for_items xs)
    | stop e ↦ (s, err e)
    | crash ↦ (s, panic)
  ]

  -- List the namespace, and loop.
  unfoldable pub for_each : String → S → S × Result (Unit {0})
  unfolding for_items
  for_each ns s = elim (c.list ns s) [
    | ok xs ↦ for_items xs s
    | err e ↦ (s, err e)
    | panic ↦ (s, panic)
  ]

module _ {X : Type 0} (key : X → NamespacedName) where
  -- The object of a name in a list.
  unfoldable pub find : NamespacedName → List X → Option X
  find k [] = none
  find k (x ∷ xs) = if k == key x then some x else find k xs

  abbrev pub DistinctNames : List X → Type 0
  DistinctNames [] = Unit
  DistinctNames (x ∷ xs) = (find (key x) xs ≡ none) × DistinctNames xs

module _ {S X : Type 0} (key : X → NamespacedName) where
  -- What is assumed of a client: an Update that succeeds stores the object under its name and
  -- leaves every other object alone; List gives the objects of the namespace, each once.
  pub record IsLawful (c : Client S X) (get : S → NamespacedName → Option X) : Type 0 where
    pub get-update :
        (x : X) (s s' : S) (k : NamespacedName)
        → c.update x s ≡ (s', ok tt)
        → get s' k ≡ (if k == key x then some x else get s k)
    pub list-find :
        (ns : String) (s : S) (xs : List X) (k : NamespacedName)
        → c.list ns s ≡ ok xs
        → find key k xs ≡ (if k.namespace == ns then get s k else none)
    pub list-DistinctNames :
        (ns : String) (s : S) (xs : List X) → c.list ns s ≡ ok xs → DistinctNames key xs

-- A client whose calls do not fail.
pub record IsReliable {S X : Type 0} (c : Client S X) : Type 0 where
  pub lists : (ns : String) (s : S) → (xs : List X) × (c.list ns s ≡ ok xs)
  pub updates : (x : X) (s : S) → (t : S) × (c.update x s ≡ (t, ok tt))
