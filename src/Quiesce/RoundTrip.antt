-- ===== src/Quiesce/RoundTrip.antt =====
-- Unquiescing an object undoes quiescing it.
use crane_lib.Base.{String, true, false, none, some, ◌≡◌, ap, sym, subst, ◌∙◌, arith, ltb}
use crane_lib.Base.{string_eq, if◌then◌else◌, inl, inr, Bool-cases}
use crane_lib.Base.Dict
use crane_lib.Base.Dict.{Dict}
use crane_lib.Base.Int.{ℤ, is_zero, wrap_int32_of_IsInt32, IsInt32}
use crane_lib.Strconv.{format_int, atoi}
use crane_lib.Strconv.RoundTrip.{atoi-format_int}
use crane_lib.Cluster.{Step, skip, write, outcome, Goes}
use crane_lib.Quiesce.{Scaled, scaled_down, replicas_annotation, scale_down, scale_up, restore}
use crane_lib.Quiesce.{quiesce_deployment, quiesce_stateful_set, quiesce_replica_set, quiesce_job}
use crane_lib.Quiesce.{unquiesce_deployment, unquiesce_stateful_set, unquiesce_replica_set}
use crane_lib.Quiesce.{unquiesce_job}

-- The kinds whose count is a pointer.
pub data Kind : Type 0 where
  deployment stateful_set replica_set job : Kind

abbrev pub quiesce : Kind → Scaled → Step Scaled
quiesce deployment = quiesce_deployment
quiesce stateful_set = quiesce_stateful_set
quiesce replica_set = quiesce_replica_set
quiesce job = quiesce_job

abbrev pub unquiesce : Kind → Scaled → Step Scaled
unquiesce deployment = unquiesce_deployment
unquiesce stateful_set = unquiesce_stateful_set
unquiesce replica_set = unquiesce_replica_set
unquiesce job = unquiesce_job

-- An object that nobody has quiesced yet, with a count that fits its type.
pub record IsFresh (x : Scaled) (n : ℤ) : Type 0 where
  pub counted : x.replicas ≡ some n
  pub fits : IsInt32 n
  pub unmarked : Dict.lookup replicas_annotation x.annotations ≡ none

restore-marked :
    (x : Scaled) (text : String)
    → Dict.lookup replicas_annotation x.annotations ≡ some text
    → restore x ≡ scale_up x x.replicas (atoi text)
unfolding restore
restore-marked x text h = rw (h, restore)

restore-scaled_down : (x : Scaled) (n : ℤ) → IsFresh x n → restore (scaled_down x n) ≡ write x
unfolding scale_up
restore-scaled_down x n f =
    rw
      (
        restore-marked (scaled_down x n) (format_int n) (Dict.lookup-insert_self _ _ _),
        atoi-format_int n f.fits,
      )
      (ground (
        arith,
        Dict.erase-insert replicas_annotation (format_int n) x.annotations f.unmarked,
        wrap_int32_of_IsInt32 n f.fits,
      ))

restore-unmarked : (x : Scaled) (n : ℤ) → IsFresh x n → restore x ≡ skip
unfolding restore
restore-unmarked x n f = rw (f.unmarked, restore)

scale_down-counted :
    (x : Scaled) (n : ℤ)
    → IsFresh x n
    → scale_down x x.replicas ≡ (if is_zero n then skip else write (scaled_down x n))
unfolding scale_down
scale_down-counted x n f = ap (scale_down x) f.counted

outcome-scaled_down :
    (x : Scaled) (n : ℤ) → IsFresh x n → outcome (restore (scaled_down x n)) (scaled_down x n) ≡ x
outcome-scaled_down x n f = rw (restore-scaled_down x n f)

outcome-scale_down :
    (x : Scaled) (n : ℤ)
    → IsFresh x n
    → let y = outcome (scale_down x x.replicas) x in outcome (restore y) y ≡ x
outcome-scale_down x n f =
    rw (scale_down-counted x n f)
      (ground (arith, outcome-scaled_down x n f, restore-unmarked x n f))

-- Whatever the kind, an object that has a count of 32 bits and is not marked as quiesced gets back
-- its count and its annotations, also where quiescing left it alone (a count of 0, a ReplicaSet with an owner).
pub unquiesce-quiesce :
    (k : Kind) (x : Scaled) (n : ℤ)
    → IsFresh x n
    → let y = outcome (quiesce k x) x in outcome (unquiesce k y) y ≡ x
unquiesce-quiesce deployment x n f =
    unfold quiesce_deployment unquiesce_deployment in outcome-scale_down x n f
unquiesce-quiesce stateful_set x n f =
    unfold quiesce_stateful_set unquiesce_stateful_set in outcome-scale_down x n f
unquiesce-quiesce replica_set x n f =
    unfold quiesce_replica_set unquiesce_replica_set in
    ground (arith, scale_down-counted x n f, outcome-scaled_down x n f, restore-unmarked x n f)
unquiesce-quiesce job x n f =
    unfold quiesce_job unquiesce_job in ground (arith, f.counted, outcome-scaled_down x n f)

scale_down-Goes : (x : Scaled) (n : ℤ) → IsFresh x n → Goes (scale_down x x.replicas)
scale_down-Goes x n f = elim (Bool-cases (is_zero n)) [
  | inl none_left ↦ rw (scale_down-counted x n f, none_left) tt
  | inr some_left ↦ rw (scale_down-counted x n f, some_left) tt
]

quiesce_job-counted : (x : Scaled) (n : ℤ) → IsFresh x n → quiesce_job x ≡ write (scaled_down x n)
unfolding quiesce_job
quiesce_job-counted x n f = ground (arith, f.counted)

quiesce_replica_set-owned :
    (x : Scaled) → ltb 0 x.owner_references ≡ true → quiesce_replica_set x ≡ skip
unfolding quiesce_replica_set
quiesce_replica_set-owned x h = rw h

quiesce_replica_set-free :
    (x : Scaled)
    → ltb 0 x.owner_references ≡ false
    → quiesce_replica_set x ≡ scale_down x x.replicas
unfolding quiesce_replica_set
quiesce_replica_set-free x h = rw h

unquiesce_replica_set-owned :
    (x : Scaled) → ltb 0 x.owner_references ≡ true → unquiesce_replica_set x ≡ skip
unfolding unquiesce_replica_set
unquiesce_replica_set-owned x h = rw h

unquiesce_replica_set-free :
    (x : Scaled) → ltb 0 x.owner_references ≡ false → unquiesce_replica_set x ≡ restore x
unfolding unquiesce_replica_set
unquiesce_replica_set-free x h = rw h

owners-scale_down :
    (x : Scaled) → (outcome (scale_down x x.replicas) x).owner_references ≡ x.owner_references
unfolding scale_down
owners-scale_down x = ground arith

-- A round over a fresh object goes through, and keeps its name.
pub quiesce-Goes : (k : Kind) (x : Scaled) (n : ℤ) → IsFresh x n → Goes (quiesce k x)
quiesce-Goes deployment x n f = unfold quiesce_deployment in scale_down-Goes x n f
quiesce-Goes stateful_set x n f = unfold quiesce_stateful_set in scale_down-Goes x n f
quiesce-Goes replica_set x n f = elim (Bool-cases (ltb 0 x.owner_references)) [
  | inl owned ↦ subst Goes (sym (quiesce_replica_set-owned x owned)) tt
  | inr free ↦ subst Goes (sym (quiesce_replica_set-free x free)) (scale_down-Goes x n f)
]
quiesce-Goes job x n f = subst Goes (sym (quiesce_job-counted x n f)) tt

restore-Goes :
    (x : Scaled) (n : ℤ) → IsFresh x n → Goes (restore (outcome (scale_down x x.replicas) x))
restore-Goes x n f = elim (Bool-cases (is_zero n)) [
  | inl none_left ↦ rw (scale_down-counted x n f, none_left, restore-unmarked x n f) tt
  | inr some_left ↦ rw (scale_down-counted x n f, some_left, restore-scaled_down x n f) tt
]

pub unquiesce-Goes :
    (k : Kind) (x : Scaled) (n : ℤ) → IsFresh x n → Goes (unquiesce k (outcome (quiesce k x) x))
unquiesce-Goes deployment x n f =
    unfold quiesce_deployment unquiesce_deployment in restore-Goes x n f
unquiesce-Goes stateful_set x n f =
    unfold quiesce_stateful_set unquiesce_stateful_set in restore-Goes x n f
unquiesce-Goes replica_set x n f = elim (Bool-cases (ltb 0 x.owner_references)) [
  | inl owned ↦
      rw (quiesce_replica_set-owned x owned)
        (subst Goes (sym (unquiesce_replica_set-owned x owned)) tt)
  | inr free ↦ rw (quiesce_replica_set-free x free) (
      subst Goes (sym (unquiesce_replica_set-free _ (ap (ltb 0) (owners-scale_down x) ∙ free)))
        (restore-Goes x n f))
]
unquiesce-Goes job x n f =
    rw (quiesce_job-counted x n f)
      (unfold unquiesce_job in subst Goes (sym (restore-scaled_down x n f)) tt)

pub quiesce-key : (k : Kind) (x y : Scaled) → quiesce k x ≡ write y → y.key ≡ x.key
unfolding quiesce_deployment quiesce_stateful_set quiesce_replica_set quiesce_job scale_down
quiesce-key deployment x y h = ground arith
quiesce-key stateful_set x y h = ground arith
quiesce-key replica_set x y h = ground arith
quiesce-key job x y h = ground arith

restore-key : (x y : Scaled) → restore x ≡ write y → y.key ≡ x.key
unfolding restore scale_up
restore-key x y h = ground arith

pub unquiesce-key : (k : Kind) (x y : Scaled) → unquiesce k x ≡ write y → y.key ≡ x.key
unfolding unquiesce_deployment unquiesce_stateful_set unquiesce_replica_set unquiesce_job
unquiesce-key deployment x y h = restore-key x y h
unquiesce-key stateful_set x y h = restore-key x y h
unquiesce-key replica_set x y h = ground (arith, restore-key x y)
unquiesce-key job x y h = restore-key x y h
