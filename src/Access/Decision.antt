-- ===== src/Access/Decision.antt =====
-- ipaccess/access.go: the decision of a policy against the rules as they were configured.

use cloudflared.Common.{
  ◌==◌, if◌then◌else◌, Bool-cases, is_some, length, ◌≡◌, refl, inl, inr, Bool, true, false, ◌&&◌,
  not, Option, none, some, List, [], ◌∷◌, map, arith,
}
use cloudflared.Common.Bytes.{Bytes}
use cloudflared.Common.Int.{ℤ, pos, leb_ℤ}
use cloudflared.Access.Lookup.{has_port-sort_ints}
use cloudflared.Access.Net.{contains}
use cloudflared.Access.Ports.{insert_sorted, sort_ints, has_port, elem}
use cloudflared.Access.Policy.{
  Result, ok, err, Rule, Policy, is_invalid_port, first_invalid, port_error, validate, and_rule,
  validated, validate_all, policy_of, new_policy, covers_port, allowed_or, first_allowed, allowed,
}

-- What a configured rule is about: an address in its network, and one of its ports or any.
abbrev pub is_about : Rule → Bytes → ℤ → Bool
is_about r ip port = elim r.ip_net [
  | none ↦ false
  | some net ↦ contains net ip && (if length r.ports == 0 then true else elem port r.ports)
]

abbrev pub sorted : Rule → Rule
sorted r = record r { ports = sort_ints r.ports }

-- The first rule about the address and port, with its ports in order.
unfoldable pub decider : List Rule → Bytes → ℤ → Option Rule
decider [] ip port = none
decider (r ∷ rs) ip port = if is_about r ip port then some (sorted r) else decider rs ip port

-- Ports in 1 to 65535
abbrev pub valid_ports : List ℤ → Bool
valid_ports [] = true
valid_ports (p ∷ ps) = leb_ℤ (pos 1) p && leb_ℤ p (pos 65535) && valid_ports ps

-- The test of the code and that of the range
is_invalid_port-range : (p : ℤ) → is_invalid_port p ≡ not (leb_ℤ (pos 1) p && leb_ℤ p (pos 65535))
is_invalid_port-range p = ground arith

abbrev pub is_valid : Rule → Bool
is_valid r = is_some r.ip_net && valid_ports r.ports

abbrev pub all_valid : List Rule → Bool
all_valid [] = true
all_valid (r ∷ rs) = is_valid r && all_valid rs

-- The decider's decision, or the default.
abbrev pub decision : Bool → Option Rule → Bool
decision default_allow none = default_allow
decision default_allow (some r) = r.allow

covers_port-insert_sorted :
    (x : ℤ) (ys : List ℤ) (port : ℤ)
    → covers_port (insert_sorted x ys) port ≡ has_port (insert_sorted x ys) port
unfolding covers_port insert_sorted
covers_port-insert_sorted x [] port = refl
covers_port-insert_sorted x (y ∷ ys) port = elim (Bool-cases (leb_ℤ x y)) [
  | inl le ↦ rw le refl
  | inr gt ↦ rw gt refl
]

covers_port-sort_ints :
    (ps : List ℤ) (port : ℤ)
    → covers_port (sort_ints ps) port ≡ (if length ps == 0 then true else elem port ps)
unfolding sort_ints
covers_port-sort_ints [] port = unfold covers_port in refl
covers_port-sort_ints (x ∷ xs) port =
    ground
      (arith, covers_port-insert_sorted x (sort_ints xs) port, has_port-sort_ints (x ∷ xs) port)

valid_ports-insert_sorted :
    (x : ℤ) (ys : List ℤ)
    → valid_ports (insert_sorted x ys) ≡ (leb_ℤ (pos 1) x && leb_ℤ x (pos 65535) && valid_ports ys)
unfolding insert_sorted
valid_ports-insert_sorted x [] = refl
valid_ports-insert_sorted x (y ∷ ys) = ground (arith, valid_ports-insert_sorted x ys)

valid_ports-sort_ints : (ps : List ℤ) → valid_ports (sort_ints ps) ≡ valid_ports ps
unfolding sort_ints
valid_ports-sort_ints [] = refl
valid_ports-sort_ints (p ∷ ps) =
    ground (arith, valid_ports-insert_sorted p (sort_ints ps), valid_ports-sort_ints ps)

first_invalid-valid : (ps : List ℤ) → valid_ports ps ≡ true → first_invalid ps ≡ none
unfolding first_invalid
first_invalid-valid [] h = refl
first_invalid-valid (p ∷ ps) h = ground (arith, is_invalid_port-range p, first_invalid-valid ps)

pub validate-valid : (r : Rule) → is_valid r ≡ true → validate r ≡ (sorted r, none)
unfolding validate port_error
validate-valid r h =
    ground (arith, valid_ports-sort_ints r.ports, first_invalid-valid (sort_ints r.ports))

validate_all-valid : (rs : List Rule) → all_valid rs ≡ true → validate_all rs ≡ ok (map sorted rs)
unfolding validate_all validated and_rule
validate_all-valid [] h = refl
validate_all-valid (r ∷ rs) h = ground (arith, validate-valid r, validate_all-valid rs)

first_allowed-sorted :
    (d : Bool) (rs : List Rule) (ip : Bytes) (port : ℤ)
    → all_valid rs ≡ true
    → first_allowed d (map sorted rs) ip port
      ≡ some (decision d (decider rs ip port), decider rs ip port)
unfolding first_allowed decider allowed_or
first_allowed-sorted d [] ip port h = refl
first_allowed-sorted d (r ∷ rs) ip port h =
    ground (arith, first_allowed-sorted d rs ip port, covers_port-sort_ints r.ports port)

-- From rules with a network and with ports in 1 to 65535, NewPolicy makes a policy whose Allowed
-- answers every address and port by the first rule whose network has the address and whose
-- configured ports, in any order, are none or have the port, and by the default if there is no
-- such rule. That rule is returned with the answer, its ports in order.
pub new_policy_decides :
    (default_allow : Bool) (rules : List Rule) (ip : Bytes) (port : ℤ)
    → all_valid rules ≡ true
    → (p : Policy) × (new_policy default_allow rules ≡ ok p)
      × (allowed p ip port
          ≡ some (decision default_allow (decider rules ip port), decider rules ip port))
unfolding new_policy policy_of allowed
new_policy_decides d rules ip port h = (
  record { default_allow = d; rules = map sorted rules },
  ground (arith, validate_all-valid rules),
  first_allowed-sorted d rules ip port h,
)

abbrev pub is_ok {ℓ} : {A : Type ℓ} → Result A → Bool
is_ok (ok a) = true
is_ok (err e) = false

first_invalid_iff : (ps : List ℤ) → is_some (first_invalid ps) ≡ not (valid_ports ps)
unfolding first_invalid
first_invalid_iff [] = refl
first_invalid_iff (p ∷ ps) = ground (arith, is_invalid_port-range p, first_invalid_iff ps)

validate_iff : (r : Rule) → is_some (validate r).1 ≡ not (is_valid r)
unfolding validate port_error
validate_iff r =
    ground (arith, valid_ports-sort_ints r.ports, first_invalid_iff (sort_ints r.ports))

validate_all_iff : (rs : List Rule) → is_ok (validate_all rs) ≡ all_valid rs
unfolding validate_all validated and_rule
validate_all_iff [] = refl
validate_all_iff (r ∷ rs) = ground (arith, validate_iff r, validate_all_iff rs)

-- NewPolicy fails exactly when a rule has no network or a port outside 1 to 65535.
pub new_policy_checks :
    (default_allow : Bool) (rules : List Rule)
    → is_ok (new_policy default_allow rules) ≡ all_valid rules
unfolding new_policy policy_of
new_policy_checks d rules = ground (arith, validate_all_iff rules)
