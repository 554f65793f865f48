-- ===== src/Connection/Choice.antt =====
-- Which protocol a connection gets, and when it changes.

-- A split of the pool at the first protocol above the threshold.
use cloudflared.Common.{
  ltb, Bool-cases, All, ℕ, ◌+◌, ◌≤◌, ◌<◌, ◌≡◌, refl, sym, ap, subst, ◌≢◌, ◌⊎◌, inl, inr, Bool, true,
  false, Option, none, some, List, [], ◌∷◌, ◌++◌, arith,
}
use cloudflared.Common.Int.{ℤ, pos, ◌≤ℤ◌}
use cloudflared.Common.Bytes.{Bytes, str, bytes_eq}
use cloudflared.Connection.Protocol.{
  Protocol, http2, quic, unknown, string, protocol_list, ProtocolPercent, get_percentage,
  switch_threshold, Fetched, chosen, fetch_error, head_of, exceeds, first_exceeding, get_protocol,
}
use cloudflared.Connection.Selector.{
  RemoteProtocolSelector, Selector, fixed, remote, default, current, selector_fallback, or_zero,
  new_protocol_selector,
}

abbrev pub FirstAbove : List ProtocolPercent → ℤ → List Protocol → Protocol → Type 0
FirstAbove percents threshold pool p =
    (before : List Protocol) × (rest : List Protocol) × (pool ≡ before ++ (p ∷ rest))
    × All (λ q. exceeds percents threshold q ≡ false) before
    × (exceeds percents threshold p ≡ true)

first_exceeding_cases :
    (percents : List ProtocolPercent) (threshold : ℤ) (pool : List Protocol) (otherwise : Fetched)
    → ((p : Protocol) × (first_exceeding percents threshold pool otherwise ≡ chosen p)
        × FirstAbove percents threshold pool p)
      ⊎ ((first_exceeding percents threshold pool otherwise ≡ otherwise)
          × All (λ q. exceeds percents threshold q ≡ false) pool)
unfolding first_exceeding
first_exceeding_cases percents threshold [] otherwise = inr (refl, tt)
first_exceeding_cases percents threshold (p ∷ ps) otherwise =
    elim (Bool-cases (exceeds percents threshold p)) [
      | inl above ↦ inl (p, rw above, ([], ps, refl, tt, above))
      | inr below ↦ elim (first_exceeding_cases percents threshold ps otherwise) [
        | inl (q, e, (before, rest, split, low, high)) ↦
            inl (q, rw below e, (p ∷ before, rest, ap (◌∷◌ p) split, (below, low), high))
        | inr (e, low) ↦ inr (rw below e, (below, low))
      ]
    ]

-- getProtocol on a fetched list gives the first protocol of the pool whose percentage is above the
-- threshold, or the first of the pool where none is; it panics exactly on an empty pool and fails
-- exactly when the fetch failed.
pub get_protocol_cases :
    (pool : List Protocol) (percents : List ProtocolPercent) (threshold : ℤ)
    → (get_protocol pool none threshold ≡ fetch_error)
      × (((p : Protocol) × (get_protocol pool (some percents) threshold ≡ chosen p)
            × FirstAbove percents threshold pool p)
          ⊎ (All (λ q. exceeds percents threshold q ≡ false) pool
              × (get_protocol pool (some percents) threshold ≡ head_of pool)))
unfolding get_protocol
get_protocol_cases pool percents threshold = (
  refl,
  elim (first_exceeding_cases percents threshold pool (head_of pool)) [
    | inl found ↦ inl found
    | inr (e, low) ↦ inr (low, e)
  ],
)

switch_threshold-lt : (account_tag : Bytes) → switch_threshold account_tag < 100
unfolding switch_threshold
switch_threshold-lt account_tag = omega arith

current-fixed :
    (p : Protocol) (now : ℕ) (answer : Option (List ProtocolPercent))
    → current (fixed p) now answer ≡ some (fixed p, p)
unfolding current
current-fixed p now answer = refl

fallback-fixed : (p : Protocol) → selector_fallback (fixed p) ≡ (p, false)
unfolding selector_fallback
fallback-fixed p = refl

abbrev Sticks : Selector → Type 0
Sticks s =
    (p : Protocol) × ((later : ℕ) (answer : Option (List ProtocolPercent))
      → current s later answer ≡ some (s, p))
    × (selector_fallback s ≡ (p, false))

-- A protocol that the user picks (or that post-quantum mode forces) sticks: each call of Current, at
-- any time and whatever the fetcher answers, gives it and leaves the selector as it was, and there is
-- no fallback.
pub picked_protocol_sticks :
    (flag account_tag : Bytes) (token need_pq : Bool) (fetched : Option (List ProtocolPercent))
    (ttl now : ℕ) (s : Selector)
    → (bytes_eq flag (str "auto") ≡ false) ⊎ (need_pq ≡ true)
    → new_protocol_selector flag account_tag token need_pq fetched ttl now ≡ some s
    → (p : Protocol) × ((later : ℕ) (answer : Option (List ProtocolPercent))
        → current s later answer ≡ some (s, p))
      × (selector_fallback s ≡ (p, false))
unfolding new_protocol_selector
picked_protocol_sticks flag account_tag token need_pq fetched ttl now s picked made =
    let (p, e) = picked_fixed in subst Sticks (sym e) (p, current-fixed p, fallback-fixed p)
  where
    picked_fixed : (p : Protocol) × (s ≡ fixed p)
    picked_fixed = ground arith

-- After a refresh that fetched a list, the protocol chosen holds for the whole TTL, whatever the
-- fetcher would answer; a refresh that fails changes nothing and may be tried again at once.
pub remote_current_holds :
    (s : RemoteProtocolSelector) (now : ℕ) (percents : List ProtocolPercent) (p : Protocol)
    → s.refresh_after ≤ now
    → get_protocol s.protocol_pool (some percents) s.switch_threshold ≡ chosen p
    → (current (remote s) now none ≡ some (remote s, s.current))
      × ((s' : Selector) × (current (remote s) now (some percents) ≡ some (s', p))
          × ((later : ℕ) (answer : Option (List ProtocolPercent))
              → later < now + s.ttl
              → current s' later answer ≡ some (s', p)))
unfolding current
remote_current_holds s now percents p due e = (
  ground arith,
  (
    remote (record s { current = p; refresh_after = now + s.ttl }),
    ground arith,
    λ later answer before. ground arith,
  ),
)

-- What a selector made for a tunnel satisfies: it names a protocol and chooses from ProtocolList.
abbrev IsSafe : Selector → Type 0
IsSafe (fixed p) = p ≢ unknown
IsSafe (default p) = p ≢ unknown
IsSafe (remote s) = (s.current ≢ unknown) × (s.protocol_pool ≡ protocol_list)

first_exceeding_list :
    (percents : List ProtocolPercent) (threshold : ℤ)
    → (p : Protocol) × (get_protocol protocol_list (some percents) threshold ≡ chosen p)
      × (p ≢ unknown)
unfolding get_protocol first_exceeding
first_exceeding_list percents threshold = elim (Bool-cases (exceeds percents threshold quic)) [
  | inl e ↦ (quic, rw e, cc)
  | inr e ↦ elim (Bool-cases (exceeds percents threshold http2)) [
    | inl f ↦ (http2, rw (e, f), cc)
    | inr f ↦ (quic, rw (e, f), cc)
  ]
]

get_protocol-list :
    (fetched : Option (List ProtocolPercent)) (threshold : ℤ)
    → or_zero (get_protocol protocol_list fetched threshold) ≢ unknown
unfolding get_protocol
get_protocol-list none threshold = cc
get_protocol-list (some percents) threshold =
    let (p, e, known) = first_exceeding_list percents threshold in rw e known

IsSafe-eq : {s t : Selector} → s ≡ t → IsSafe t → IsSafe s
IsSafe-eq e h = subst IsSafe (sym e) h

new_protocol_selector-IsSafe :
    (flag account_tag : Bytes) (token need_pq : Bool) (fetched : Option (List ProtocolPercent))
    (ttl now : ℕ) (s : Selector)
    → new_protocol_selector flag account_tag token need_pq fetched ttl now ≡ some s
    → IsSafe s
unfolding new_protocol_selector
new_protocol_selector-IsSafe flag account_tag token need_pq fetched ttl now s made = elim cases [
  | inl e ↦ IsSafe-eq e cc
  | inr (inl e) ↦ IsSafe-eq e cc
  | inr (inr (inl e)) ↦ IsSafe-eq e cc
  | inr (inr (inr e)) ↦ IsSafe-eq e (get_protocol-list fetched threshold, refl)
]
  where
    threshold : ℤ
    threshold = pos (switch_threshold account_tag)

    fresh : RemoteProtocolSelector
    fresh = record {
      current = or_zero (get_protocol protocol_list fetched threshold);
      protocol_pool = protocol_list;
      switch_threshold = threshold;
      refresh_after = now + ttl;
      ttl = ttl;
    }

    cases : (s ≡ fixed quic) ⊎ (s ≡ fixed http2) ⊎ (s ≡ default quic) ⊎ (s ≡ remote fresh)
    cases = ground arith

current-IsSafe :
    (s : Selector) (now : ℕ) (answer : Option (List ProtocolPercent))
    → IsSafe s
    → (s' : Selector) × (p : Protocol) × (current s now answer ≡ some (s', p))
      × IsSafe s'
      × (p ≢ unknown)
unfolding current
current-IsSafe (fixed p) now answer h = (fixed p, p, refl, h, h)
current-IsSafe (default p) now answer h = (default p, p, refl, h, h)
current-IsSafe (remote s) now none h = (remote s, s.current, ground arith, h, h.0)
current-IsSafe (remote s) now (some percents) h = elim (Bool-cases (ltb now s.refresh_after)) [
  | inl early ↦ (remote s, s.current, rw (early, current), h, h.0)
  | inr due ↦
      let (p, e, known) = first_exceeding_list percents s.switch_threshold in
      let q : get_protocol s.protocol_pool (some percents) s.switch_threshold ≡ chosen p =
        rw h.1 e in
      (
        remote (record s { current = p; refresh_after = now + s.ttl }),
        p,
        rw (due, current, q),
        (known, h.1),
        known,
      )
]

-- Current called at a series of times, with the fetcher's answers.
pub run_current : Selector → List (ℕ × Option (List ProtocolPercent)) → Option Selector
run_current s [] = some s
run_current s ((now, answer) ∷ calls) = elim (current s now answer) [
  | none ↦ none
  | some (s', p) ↦ run_current s' calls
]

-- A fallback that is offered is http2, and offered only while the selector is on quic.
fallback_http2 :
    (s : Selector) → (selector_fallback s).1 ≡ true → selector_fallback s ≡ (http2, true)
unfolding selector_fallback
fallback_http2 (fixed p) h = cc
fallback_http2 (default p) h = ground arith
fallback_http2 (remote s) h = ground arith

run_current-IsSafe :
    (s : Selector) (calls : List (ℕ × Option (List ProtocolPercent)))
    → IsSafe s
    → (s' : Selector) × (run_current s calls ≡ some s') × IsSafe s'
unfolding run_current
run_current-IsSafe s [] h = (s, refl, h)
run_current-IsSafe s ((now, answer) ∷ calls) h =
    let (s₁, p, e, h₁, known) = current-IsSafe s now answer h in
    let (s₂, e₂, h₂) = run_current-IsSafe s₁ calls h₁ in (s₂, rw (e, run_current) e₂, h₂)

-- A selector that NewProtocolSelector makes never panics in Current, however often, whenever and with
-- whatever answers it is asked; each call names quic or http2, and the only fallback offered is http2.
pub run_current_safe :
    (flag account_tag : Bytes) (token need_pq : Bool) (fetched : Option (List ProtocolPercent))
    (ttl now : ℕ) (s : Selector) (calls : List (ℕ × Option (List ProtocolPercent)))
    → new_protocol_selector flag account_tag token need_pq fetched ttl now ≡ some s
    → (s' : Selector) × (run_current s calls ≡ some s')
      × ((later : ℕ) (answer : Option (List ProtocolPercent))
          → (t : Selector) × (p : Protocol) × (current s' later answer ≡ some (t, p))
            × (p ≢ unknown))
      × ((selector_fallback s').1 ≡ true → selector_fallback s' ≡ (http2, true))
run_current_safe flag account_tag token need_pq fetched ttl now s calls made =
    let safe = new_protocol_selector-IsSafe flag account_tag token need_pq fetched ttl now s made in
    let (s', e, h) = run_current-IsSafe s calls safe in
    (
      s',
      e,
      (λ later answer.
          let (t, p, q, _, known) = current-IsSafe s' later answer h in (t, p, q, known)),
      fallback_http2 s',
    )

-- The selector for `auto` without a token.
abbrev pub auto_selector : Bytes → List ProtocolPercent → ℕ → ℕ → RemoteProtocolSelector
auto_selector account_tag percents ttl now =
    let threshold = pos (switch_threshold account_tag) in
    record {
      current = or_zero (get_protocol protocol_list (some percents) threshold);
      protocol_pool = protocol_list;
      switch_threshold = threshold;
      refresh_after = now + ttl;
      ttl = ttl;
    }

auto_made :
    (account_tag : Bytes) (percents : List ProtocolPercent) (ttl now : ℕ)
    → new_protocol_selector (str "auto") account_tag false false (some percents) ttl now
      ≡ some (remote (auto_selector account_tag percents ttl now))
unfolding new_protocol_selector bytes_eq string
auto_made account_tag percents ttl now = refl

rollout_current :
    (account_tag : Bytes) (percents : List ProtocolPercent) (ttl now : ℕ)
    → let first = (auto_selector account_tag percents ttl now).current in
      let share = λ (p : Protocol). get_percentage (string p) percents in
      (pos 100 ≤ℤ share quic → first ≡ quic)
      × (share quic ≤ℤ pos 0 → pos 100 ≤ℤ share http2 → first ≡ http2)
      × (share quic ≤ℤ pos 0 → share http2 ≤ℤ pos 0 → first ≡ quic)
unfolding get_protocol first_exceeding
rollout_current account_tag percents ttl now = (
  (λ h. ground (arith, switch_threshold-lt account_tag)),
  (λ h k. ground (arith, switch_threshold-lt account_tag)),
  λ h k. ground (arith, switch_threshold-lt account_tag),
)

-- With an automatic choice and no token, quic at 100 percent gives every account quic; with quic at
-- nothing and http2 at 100 percent, every account starts with http2; and where neither is rolled out
-- at all, or the list names neither, with quic.
pub rollout :
    (account_tag : Bytes) (percents : List ProtocolPercent) (ttl now : ℕ)
    → let first = λ (p : Protocol).
      (s : RemoteProtocolSelector) × (new_protocol_selector
          (str "auto")
          account_tag
          false
          false
          (some percents)
          ttl
          now
        ≡ some (remote s))
      × (s.current ≡ p) in
      let share = λ (p : Protocol). get_percentage (string p) percents in
      (pos 100 ≤ℤ share quic → first quic)
      × (share quic ≤ℤ pos 0 → pos 100 ≤ℤ share http2 → first http2)
      × (share quic ≤ℤ pos 0 → share http2 ≤ℤ pos 0 → first quic)
rollout account_tag percents ttl now =
    let s = auto_selector account_tag percents ttl now in
    let made = auto_made account_tag percents ttl now in
    let (all_quic, all_http2, neither) = rollout_current account_tag percents ttl now in
    ((λ h. (s, made, all_quic h)), (λ h k. (s, made, all_http2 h k)), λ h k. (s, made, neither h k))
