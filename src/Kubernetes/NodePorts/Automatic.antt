-- ===== src/Kubernetes/NodePorts/Automatic.antt =====
-- The test on the node port of one port, and the pointer of a node port.
use Prim.Native.String.{◌++◌ as ◌<>◌}
use text.Mathlib.TextLemmas.{nil-append, cons-append}
use crane_lib.Base.{ℕ, String, true, false, some}
use crane_lib.Base.{
  ok, ◌>>=◌, string_eq, ◌==◌, contains, ◌≡◌, ◌≢◌, refl, sym, ◌∙◌, arith, Bool-cases, inl, inr,
  ok-injective, >>=-eq-ok, Option-cases, ==→eq, ==_ne, ==_refl,
}
use crane_lib.Base.Int.{ℤ, pos, is_zero}
use crane_lib.Strconv.{format_int}
use crane_lib.Strconv.Digits.{AreDigits, format_int-AreDigits}
use crane_lib.Json.{Value, Members, member, as_map}
use crane_lib.Kubernetes.{plain}
use crane_lib.Kubernetes.NodePorts.{
  Explicit, has_number, name_of, is_automatic, removes, node_port_path, get_node_port_int,
}

pub plain-append : (s t : String) → plain s ≡ true → plain t ≡ true → plain (s <> t) ≡ true
plain-append String.[] t h g = rw nil-append g
plain-append (String.◌∷◌ c s) t h g = rw cons-append (ground (arith, plain-append s t))

pub plain_of_AreDigits : (s : String) → AreDigits s → plain s ≡ true
plain_of_AreDigits String.[] h = refl
plain_of_AreDigits (String.◌∷◌ c s) (low, high, rest) =
    let later = plain_of_AreDigits s rest in ground arith

pub node_port_path-plain : (i : ℕ) → plain (node_port_path i) ≡ true
unfolding node_port_path
node_port_path-plain i = plain-append "/spec/ports/" (format_int (pos i) <> "/nodePort") refl (
    plain-append (format_int (pos i)) "/nodePort" (plain_of_AreDigits _ (format_int-AreDigits i))
      refl)

-- A port of the Service whose node port Kubernetes picked: the number is not 0, and the last
-- applied configuration sets no node port under the port's name or, without a name, no such number.
pub data Automatic (e : Explicit) (port_interface : Value) : Type 0 where
  unnamed :
      (port : Members) (node_port : Value) (n : ℤ)
      → as_map port_interface ≡ some port
      → member "nodePort" port ≡ some node_port
      → get_node_port_int node_port ≡ ok n
      → is_zero n ≡ false
      → name_of port ≡ ""
      → has_number n e.numbers ≡ false
      → Automatic e port_interface
  named :
      (port : Members) (node_port : Value) (n : ℤ)
      → as_map port_interface ≡ some port
      → member "nodePort" port ≡ some node_port
      → get_node_port_int node_port ≡ ok n
      → is_zero n ≡ false
      → name_of port ≢ ""
      → contains e.names (name_of port) ≡ false
      → Automatic e port_interface

module _ (e : Explicit) where
  removes-member :
      (v : Value) (port : Members) (node_port : Value)
      → as_map v ≡ some port
      → member "nodePort" port ≡ some node_port
      → removes e v ≡ (get_node_port_int node_port >>= λ n. ok (is_automatic e port n))
  unfolding removes
  removes-member v port node_port h g = rw (h, removes) (rw (g, removes) refl)

  by_name :
      (v : Value) (port : Members) (node_port : Value) (n : ℤ)
      → as_map v ≡ some port
      → member "nodePort" port ≡ some node_port
      → get_node_port_int node_port ≡ ok n
      → is_automatic e port n ≡ true
      → Automatic e v
  unfolding is_automatic
  by_name v port node_port n h g r auto = elim (Bool-cases (is_zero n)) [
    | inl z ↦ absurd (ground arith)
    | inr nz ↦ elim (Bool-cases (name_of port == "")) [
      | inl blank ↦ unnamed port node_port n h g r nz (==→eq (name_of port) "" blank) (ground arith)
      | inr name ↦ named port node_port n h g r nz (λ q. ground arith) (ground arith)
    ]
  ]

  pub removes→Automatic : (v : Value) → removes e v ≡ ok true → Automatic e v
  unfolding removes
  removes→Automatic v h = elim (Option-cases (as_map v)) [
    | inl m ↦ absurd (cc (ok-injective false true (sym (rw (m, removes) refl) ∙ h)))
    | inr (port, m) ↦ elim (Option-cases (member "nodePort" port)) [
      | inl p ↦
          absurd (cc (ok-injective false true (sym (rw (m, removes) (rw (p, removes) refl)) ∙ h)))
      | inr (node_port, p) ↦
          let (n, r, auto) =
            >>=-eq-ok (get_node_port_int node_port) (λ n. ok (is_automatic e port n))
              (sym (removes-member v port node_port m p) ∙ h) in
          by_name v port node_port n m p r (ok-injective _ true auto)
    ]
  ]

  is_automatic-unnamed :
      (port : Members) (n : ℤ)
      → is_zero n ≡ false
      → name_of port ≡ ""
      → has_number n e.numbers ≡ false
      → is_automatic e port n ≡ true
  unfolding is_automatic
  is_automatic-unnamed port n nz blank out = rw (nz, blank) (rw (==_refl {A = String} "", out) refl)

  is_automatic-named :
      (port : Members) (n : ℤ)
      → is_zero n ≡ false
      → name_of port ≢ ""
      → contains e.names (name_of port) ≡ false
      → is_automatic e port n ≡ true
  unfolding is_automatic
  is_automatic-named port n nz name out = rw (nz, ==_ne (name_of port) "" name, out) refl

  pub Automatic→removes : (v : Value) → Automatic e v → removes e v ≡ ok true
  Automatic→removes v (unnamed port node_port n m p r nz blank out) =
      removes-member v port node_port m p ∙ rw (r, is_automatic-unnamed port n nz blank out) refl
  Automatic→removes v (named port node_port n m p r nz name out) =
      removes-member v port node_port m p ∙ rw (r, is_automatic-named port n nz name out) refl
