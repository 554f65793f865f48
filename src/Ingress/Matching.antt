-- ===== src/Ingress/Matching.antt =====
-- ingress/ingress.go: validated rules always match, and the first that matches is found.

use cloudflared.Common.{
  ◌==◌, Bool-cases, Option-cases, length, get_elem?, ℕ, zero, suc, ◌+◌, ◌≤◌, ◌<◌, ◌≡◌, refl, sym,
  ap, ◌∙◌, subst, ◌≢◌, ◌↔◌, ◌⊎◌, inl, inr, Bool, true, false, ◌||◌, Option, none, some, List, [],
  ◌∷◌, ◌++◌, arith,
}
use cloudflared.Common.Bytes.{
  Bytes, bytes_eq, bytes_eq_iff, has_prefix, trim_prefix, has_prefix-append, trim_prefix-append,
  append-trim_prefix, has_suffix, has_suffix_iff,
}
use cloudflared.Common.Int.{pos, negsuc}
use cloudflared.Ingress.Rule.{
  Rule, match_host, is_any_host, matches, first_match, host_of, rule_of, find_matching_rule,
  UnvalidatedIngressRule, HostnameError, is_catch_all, validate_hostname, one_more, build_rule,
  validate_rules,
}
use mathlib.Core.Option.{some-injective}

match_host-wildcard :
    (s req_host : Bytes)
    → match_host (42 ∷ 46 ∷ s) req_host
      ≡ (bytes_eq (42 ∷ 46 ∷ s) req_host || has_suffix req_host (46 ∷ s))
unfolding match_host
match_host-wildcard s req_host =
    let starts : has_prefix (42 ∷ 46 ∷ s) (42 ∷ 46 ∷ []) ≡ true =
      has_prefix-append (42 ∷ 46 ∷ []) s in
    let trimmed : trim_prefix (42 ∷ 46 ∷ s) (42 ∷ []) ≡ 46 ∷ s =
      trim_prefix-append (42 ∷ []) (46 ∷ s) in
    rw (starts, trimmed) (ground arith)

match_host-other :
    (rule_host req_host : Bytes)
    → has_prefix rule_host (42 ∷ 46 ∷ []) ≡ false
    → match_host rule_host req_host ≡ bytes_eq rule_host req_host
unfolding match_host
match_host-other rule_host req_host e = rw e (ground arith)

match_host-same :
    (rule_host req_host : Bytes)
    → bytes_eq rule_host req_host ≡ true
    → match_host rule_host req_host ≡ true
unfolding match_host
match_host-same rule_host req_host e = rw e

-- A rule's hostname matches a request's exactly when they are equal, or the rule's is "*." followed by
-- a name s and the request's ends in "." followed by s.
pub match_host_iff :
    (rule_host req_host : Bytes)
    → (match_host rule_host req_host ≡ true) ↔ (
        (rule_host ≡ req_host)
        ⊎ ((s : Bytes) × (rule_host ≡ 42 ∷ 46 ∷ s)
            × ((front : Bytes) × (req_host ≡ front ++ 46 ∷ s))))
match_host_iff rule_host req_host = (to, from)
  where
    to :
        match_host rule_host req_host ≡ true
        → (rule_host ≡ req_host)
          ⊎ ((s : Bytes) × (rule_host ≡ 42 ∷ 46 ∷ s)
              × ((front : Bytes) × (req_host ≡ front ++ 46 ∷ s)))
    to h = elim (Bool-cases (has_prefix rule_host (42 ∷ 46 ∷ []))) [
      | inl e ↦
          let s : Bytes = trim_prefix rule_host (42 ∷ 46 ∷ []) in
          let whole : 42 ∷ 46 ∷ s ≡ rule_host = append-trim_prefix rule_host (42 ∷ 46 ∷ []) e in
          let either : (bytes_eq (42 ∷ 46 ∷ s) req_host || has_suffix req_host (46 ∷ s)) ≡ true =
            sym (match_host-wildcard s req_host)
            ∙ ap (λ (r : Bytes). match_host r req_host) whole
            ∙ h in
          elim (Bool-cases (bytes_eq (42 ∷ 46 ∷ s) req_host)) [
            | inl same ↦ inl (sym whole ∙ (bytes_eq_iff (42 ∷ 46 ∷ s) req_host).0 same)
            | inr other ↦ inr (s, sym whole, (has_suffix_iff req_host (46 ∷ s)).0 (ground arith))
          ]
      | inr e ↦
          inl
            ((bytes_eq_iff rule_host req_host).0 (sym (match_host-other rule_host req_host e) ∙ h))
    ]

    from :
        (rule_host ≡ req_host)
          ⊎ ((s : Bytes) × (rule_host ≡ 42 ∷ 46 ∷ s)
              × ((front : Bytes) × (req_host ≡ front ++ 46 ∷ s)))
        → match_host rule_host req_host ≡ true
    from (inl same) = match_host-same rule_host req_host ((bytes_eq_iff rule_host req_host).1 same)
    from (inr (s, whole, ends)) =
        ap (λ (r : Bytes). match_host r req_host) whole
        ∙ match_host-wildcard s req_host
        ∙ (let suffix = (has_suffix_iff req_host (46 ∷ s)).1 ends in ground arith)

-- The rule at place k is the first of rs that matches.
abbrev pub IsFirst : List Rule → Bytes → Bytes → ℕ → Rule → Type 0
IsFirst rs host path k r =
    (get_elem? rs k ≡ some r)
    × (matches r host path ≡ true)
    × ((j : ℕ) (r' : Rule) → j < k → get_elem? rs j ≡ some r' → matches r' host path ≡ false)

not_below_zero : (j : ℕ) → j < 0 → ⊥
not_below_zero j h = omega (arith, h)

earlier :
    (s : Rule) (rs : List Rule) (host path : Bytes) (d : ℕ)
    → matches s host path ≡ false
    → ((j : ℕ) (r : Rule) → j < d → get_elem? rs j ≡ some r → matches r host path ≡ false)
    → (j : ℕ) (r : Rule) → j < suc d
    → get_elem? (s ∷ rs) j ≡ some r
    → matches r host path ≡ false
earlier s rs host path d miss before zero r h e =
    subst (λ (x : Rule). matches x host path ≡ false) (some-injective _ _ e) miss
earlier s rs host path d miss before (suc j) r h e = before j r (omega (arith, h)) e

first_match-IsFirst :
    (host path : Bytes) (rs : List Rule) (i k : ℕ) (r : Rule)
    → first_match host path rs i ≡ some (r, k)
    → (d : ℕ) × (k ≡ i + d) × IsFirst rs host path d r
unfolding first_match
first_match-IsFirst host path [] i k r e = cc
first_match-IsFirst host path (s ∷ rs) i k r e = elim (Bool-cases (matches s host path)) [
  | inl hit ↦
      let same : (s, i) ≡ (r, k) = some-injective _ _ (rw hit at e) in
      let at_r : s ≡ r = ap (λ (g : Rule × ℕ). g.0) same in
      let at_k : i ≡ k = ap (λ (g : Rule × ℕ). g.1) same in
      (
        0,
        sym at_k ∙ omega arith,
        (
          ap some at_r,
          subst (λ (x : Rule). matches x host path ≡ true) at_r hit,
          λ j r' h. elim (not_below_zero j h) [ ],
        ),
      )
  | inr miss ↦
      let (d, place, (found, hit, before)) =
        first_match-IsFirst host path rs (i + 1) k r (rw miss at e) in
      (suc d, omega (arith, place), (found, hit, earlier s rs host path d miss before))
]

-- A rule that matches every request.
abbrev pub IsCatchAll : Rule → Type 0
IsCatchAll r = (host path : Bytes) → matches r host path ≡ true

build_rule-IsCatchAll :
    (to_ascii : Bytes → Option Bytes) (compile : Bytes → Option (Bytes → Bool))
    (u : UnvalidatedIngressRule) (r : Rule)
    → is_catch_all u ≡ true
    → build_rule to_ascii compile u ≡ some r
    → IsCatchAll r
unfolding build_rule matches
build_rule-IsCatchAll to_ascii compile u r all e host path =
    let no_path : bytes_eq u.path [] ≡ true = ground (arith, all) in
    let any : is_any_host u.hostname ≡ true = ground (arith, all) in
    let same = some-injective _ _ (rw no_path at e) in
    subst (λ (x : Rule). matches x host path ≡ true) same (rw any refl)

validate_hostname-none :
    (u : UnvalidatedIngressRule) (i total : ℕ)
    → validate_hostname u i total ≡ none
    → (i + 1 ≡ total → is_catch_all u ≡ true) × (i + 1 ≢ total → is_catch_all u ≡ false)
unfolding validate_hostname
validate_hostname-none u i total e = ((λ h. ground arith), λ h. ground arith)

one_more-some :
    (e : Option HostnameError) (rule : Option Rule) (rest : Option (List Rule)) (rs : List Rule)
    → one_more e rule rest ≡ some rs
    → (e ≡ none)
      × ((r : Rule) × (rs' : List Rule) × (rule ≡ some r) × (rest ≡ some rs') × (r ∷ rs' ≡ rs))
unfolding one_more
one_more-some (some e) rule rest rs v = cc
one_more-some none none rest rs v = cc
one_more-some none (some r) none rs v = cc
one_more-some none (some r) (some rs') rs v = (refl, (r, rs', refl, refl, some-injective _ _ v))

-- What the validation of a first rule tells.
validate_rules-cons :
    (to_ascii : Bytes → Option Bytes) (compile : Bytes → Option (Bytes → Bool))
    (u : UnvalidatedIngressRule) (us : List UnvalidatedIngressRule) (i total : ℕ) (rs : List Rule)
    → validate_rules to_ascii compile i total (u ∷ us) ≡ some rs
    → (r : Rule) × (rs' : List Rule) × (((i + 1 ≡ total → is_catch_all u ≡ true)
          × (i + 1 ≢ total → is_catch_all u ≡ false))
        × (build_rule to_ascii compile u ≡ some r))
      × (r ∷ rs' ≡ rs)
      × (validate_rules to_ascii compile (i + 1) total us ≡ some rs')
unfolding validate_rules
validate_rules-cons to_ascii compile u us i total rs v =
    let (ok, (r, rs', built, later, same)) =
      one_more-some (validate_hostname u i total) (build_rule to_ascii compile u)
        (validate_rules to_ascii compile (i + 1) total us) rs v in
    (r, rs', (validate_hostname-none u i total ok, built), same, later)

validate_rules-found :
    (to_ascii : Bytes → Option Bytes) (compile : Bytes → Option (Bytes → Bool))
    (us : List UnvalidatedIngressRule) (i total : ℕ) (rs : List Rule) (host path : Bytes) (k : ℕ)
    → i + length us ≡ total
    → 1 ≤ length us
    → validate_rules to_ascii compile i total us ≡ some rs
    → (got : Rule × ℕ) × (first_match host path rs k ≡ some got)
unfolding validate_rules first_match
validate_rules-found to_ascii compile [] i total rs host path k e some_us v = elim some_us [ ]
validate_rules-found to_ascii compile (u ∷ us) i total rs host path k e some_us v =
    let (r, rs', (here, built), same, later) =
      validate_rules-cons to_ascii compile u us i total rs v in
    elim (Bool-cases (matches r host path)) [
      | inl hit ↦
          ((r, k), ap (λ (x : List Rule). first_match host path x k) (sym same) ∙ (rw hit refl))
      | inr miss ↦ elim (Bool-cases (length us == 0)) [
        | inl last ↦
            let all : is_catch_all u ≡ true = ground (arith, here) in
            let hit = build_rule-IsCatchAll to_ascii compile u r all built host path in cc
        | inr more ↦
            let (got, found) =
              validate_rules-found to_ascii compile us (i + 1) total rs' host path (k + 1)
                (omega (arith, e)) (ground arith) later in
            (got, ap (λ (x : List Rule). first_match host path x k) (sym same) ∙ (rw miss found))
      ]
    ]

rule_of-internal :
    (found in_rules : Option (Rule × ℕ)) (rules : List Rule) (r : Rule) (i d : ℕ)
    → found ≡ some (r, i)
    → d ≡ i
    → rule_of found in_rules rules ≡ some (r, negsuc d)
unfolding rule_of
rule_of-internal found in_rules rules r i d e same = rw (e, same) refl

rule_of-user :
    (found in_rules : Option (Rule × ℕ)) (rules : List Rule) (r : Rule) (i d : ℕ)
    → found ≡ none
    → in_rules ≡ some (r, i)
    → d ≡ i
    → rule_of found in_rules rules ≡ some (r, pos d)
unfolding rule_of
rule_of-user found in_rules rules r i d e e' same = rw (e, e', same) refl

-- Rules whose validation succeeds, of which there is at least one, serve every request: the rule given
-- is the first internal rule that matches the request's host, or where none does, the first of the
-- user's rules that does, which there always is. An internal rule's index is negative.
pub find_matching_rule_validated :
    (to_ascii : Bytes → Option Bytes) (compile : Bytes → Option (Bytes → Bool))
    (us : List UnvalidatedIngressRule) (rules internal : List Rule) (hostname path : Bytes)
    → 1 ≤ length us
    → validate_rules to_ascii compile 0 (length us) us ≡ some rules
    → ((r : Rule) × (i : ℕ) × (find_matching_rule internal rules hostname path ≡ some (r, negsuc i))
        × IsFirst internal (host_of hostname) path i r)
      ⊎ ((r : Rule) × (i : ℕ) × (find_matching_rule internal rules hostname path ≡ some (r, pos i))
          × (first_match (host_of hostname) path internal 0 ≡ none)
          × IsFirst rules (host_of hostname) path i r)
unfolding find_matching_rule
find_matching_rule_validated to_ascii compile us rules internal hostname path some_us v =
    let host : Bytes = host_of hostname in
    let inside = first_match host path internal 0 in
    let among = first_match host path rules 0 in
    elim (Option-cases inside) [
      | inr ((r, i), e) ↦
          let (d, place, first) = first_match-IsFirst host path internal 0 i r e in
          inl (r, d, rule_of-internal inside among rules r i d e (omega (arith, place)), first)
      | inl nowhere ↦
          let ((r, i), e) =
            validate_rules-found to_ascii compile us 0 (length us) rules host path 0 (omega arith)
              some_us v in
          let (d, place, first) = first_match-IsFirst host path rules 0 i r e in
          inr (
            r,
            d,
            rule_of-user inside among rules r i d nowhere e (omega (arith, place)),
            nowhere,
            first,
          )
    ]
