-- ===== src/Funnels/Conservation.antt =====
-- packet/funnel.go: every funnel is in the map or closed.

use cloudflared.Common.{
  ltb, if◌then◌else◌, Bool-cases, Option-cases, ℕ, ◌+◌, ◌≤◌, ◌≡◌, sym, subst, ◌⊎◌, inl, inr, Bool,
  true, false, none, some, List, [], ◌∷◌, arith,
}
use cloudflared.Common.Map.{nat_eq, lookup}
use cloudflared.Common.Tally.{
  times, keys, values, times-append, keys-erase, lookup-none, insert_new, keys-insert, erase_one,
}
use cloudflared.Funnels.Tracking.{
  FunnelTracker, new_funnel_tracker, Registered, funnel, close_and_delete, register_funnel,
  get_or_register, unregister, sweep, cleanup, TrackerCall, get_or_register_call, unregister_call,
  cleanup_call, call_tracker, call_all,
}

abbrev pub owned : ℕ → FunnelTracker → ℕ
owned s ft = times s ft.closed + times s (values ft.funnels)

pub record IsKept (ft : FunnelTracker) : Type 0 where
  pub one_key : (k : ℕ) → times k (keys ft.funnels) ≤ 1
  pub one_owner : (s : ℕ) → owned s ft ≡ (if ltb s ft.made then 1 else 0)

new_funnel_tracker-IsKept : IsKept new_funnel_tracker
new_funnel_tracker-IsKept = record { one_key = λ k. omega arith; one_owner = λ s. ground arith }

close_and_delete-IsKept :
    (ft : FunnelTracker) (id f : ℕ)
    → lookup id ft.funnels ≡ some f
    → IsKept ft
    → IsKept (close_and_delete ft id f)
close_and_delete-IsKept ft id f e h = record {
  one_key = λ k. ground (arith, keys-erase k id ft.funnels, h.one_key k);
  one_owner = λ s. ground (arith, erase_one s id f ft.funnels e (h.one_key id), h.one_owner s);
}

register_funnel-IsKept :
    (ft : FunnelTracker) (id : ℕ) (makes : Bool)
    → times id (keys ft.funnels) ≡ 0
    → IsKept ft
    → IsKept (register_funnel ft id makes).0
unfolding register_funnel
register_funnel-IsKept ft id false e h = h
register_funnel-IsKept ft id true e h = record {
  one_key = λ k. ground (arith, keys-insert k id ft.made ft.funnels e, h.one_key k);
  one_owner = λ s. ground (arith, insert_new s id ft.made ft.funnels e, h.one_owner s);
}

-- What GetOrRegister answers for a current funnel, by whether it is replaced
abbrev replaced : FunnelTracker → ℕ → ℕ → Bool → Bool → FunnelTracker × Registered
replaced ft id f false makes = (ft, funnel f false)
replaced ft id f true makes = register_funnel (close_and_delete ft id f) id makes

registered-cases :
    (ft : FunnelTracker) (id : ℕ) (should_replace : ℕ → Bool) (makes : Bool)
    → ((lookup id ft.funnels ≡ none)
        × (get_or_register ft id should_replace makes ≡ register_funnel ft id makes))
      ⊎ ((f : ℕ) × (lookup id ft.funnels ≡ some f)
          × (get_or_register ft id should_replace makes ≡ (
              if should_replace f
              then register_funnel (close_and_delete ft id f) id makes
              else (ft, funnel f false))))
registered-cases ft id should_replace makes = elim (Option-cases (lookup id ft.funnels)) [
  | inl out ↦ inl (out, unfold get_or_register in ground (arith, out))
  | inr (f, there) ↦ inr (
    f,
    there,
    elim (Bool-cases (should_replace f)) [
      | inl e ↦ unfold get_or_register in ground (arith, there, e)
      | inr e ↦ unfold get_or_register in ground (arith, there, e)
    ],
  )
]

replaced-IsKept :
    (ft : FunnelTracker) (id f : ℕ) (replaces makes : Bool)
    → lookup id ft.funnels ≡ some f
    → IsKept ft
    → IsKept
        (if replaces
          then register_funnel (close_and_delete ft id f) id makes
          else (ft, funnel f false)).0
replaced-IsKept ft id f false makes e h = h
replaced-IsKept ft id f true makes e h =
    register_funnel-IsKept (close_and_delete ft id f) id makes
      (ground (arith, keys-erase id id ft.funnels)) (close_and_delete-IsKept ft id f e h)

get_or_register-IsKept :
    (ft : FunnelTracker) (id : ℕ) (should_replace : ℕ → Bool) (makes : Bool)
    → IsKept ft
    → IsKept (get_or_register ft id should_replace makes).0
get_or_register-IsKept ft id should_replace makes h =
    elim (registered-cases ft id should_replace makes) [
      | inl (out, e) ↦
          subst (λ (r : FunnelTracker × Registered). IsKept r.0) (sym e)
            (register_funnel-IsKept ft id makes (lookup-none id ft.funnels out) h)
      | inr (f, there, e) ↦
          subst (λ (r : FunnelTracker × Registered). IsKept r.0) (sym e)
            (replaced-IsKept ft id f (should_replace f) makes there h)
    ]

-- What Unregister answers for a current funnel, by whether it is the given one
abbrev removed : FunnelTracker → ℕ → ℕ → Bool → FunnelTracker × Bool
removed ft id f false = (ft, false)
removed ft id f true = (close_and_delete ft id f, true)

removed-IsKept :
    (ft : FunnelTracker) (id f : ℕ) (same : Bool)
    → lookup id ft.funnels ≡ some f
    → IsKept ft
    → IsKept (removed ft id f same).0
removed-IsKept ft id f false e h = h
removed-IsKept ft id f true e h = close_and_delete-IsKept ft id f e h

unregistered-cases :
    (ft : FunnelTracker) (id : ℕ) (equal : ℕ → ℕ → Bool) (f : ℕ)
    → (unregister ft id equal f ≡ (ft, true))
      ⊎ ((current : ℕ) × (lookup id ft.funnels ≡ some current)
          × (unregister ft id equal f ≡ removed ft id current (equal current f)))
unregistered-cases ft id equal f = elim (Option-cases (lookup id ft.funnels)) [
  | inl out ↦ inl (unfold unregister in ground (arith, out))
  | inr (current, there) ↦ inr (
    current,
    there,
    elim (Bool-cases (equal current f)) [
      | inl e ↦ unfold unregister in ground (arith, there, e)
      | inr e ↦ unfold unregister in ground (arith, there, e)
    ],
  )
]

unregister-IsKept :
    (ft : FunnelTracker) (id : ℕ) (equal : ℕ → ℕ → Bool) (f : ℕ)
    → IsKept ft
    → IsKept (unregister ft id equal f).0
unregister-IsKept ft id equal f h = elim (unregistered-cases ft id equal f) [
  | inl e ↦ subst (λ (r : FunnelTracker × Bool). IsKept r.0) (sym e) h
  | inr (current, there, e) ↦
      subst (λ (r : FunnelTracker × Bool). IsKept r.0) (sym e)
        (removed-IsKept ft id current (equal current f) there h)
]

sweep-keys :
    (idle now : ℕ) (last_active : ℕ → ℕ) (m : List (ℕ × ℕ)) (k : ℕ)
    → times k (keys (sweep idle now last_active m).0) ≤ times k (keys m)
unfolding sweep
sweep-keys idle now last_active [] k = omega arith
sweep-keys idle now last_active ((id, f) ∷ m) k =
    ground (arith, sweep-keys idle now last_active m k)

sweep-owned :
    (idle now : ℕ) (last_active : ℕ → ℕ) (m : List (ℕ × ℕ)) (s : ℕ)
    → times s (sweep idle now last_active m).1 + times s (values (sweep idle now last_active m).0)
      ≡ times s (values m)
unfolding sweep
sweep-owned idle now last_active [] s = omega arith
sweep-owned idle now last_active ((id, f) ∷ m) s =
    ground (arith, sweep-owned idle now last_active m s)

cleanup-IsKept :
    (ft : FunnelTracker) (idle now : ℕ) (last_active : ℕ → ℕ)
    → IsKept ft
    → IsKept (cleanup ft idle now last_active)
unfolding cleanup
cleanup-IsKept ft idle now last_active h = record {
  one_key = λ k. omega (arith, sweep-keys idle now last_active ft.funnels k, h.one_key k);
  one_owner = λ s. ground (
    arith,
    times-append s (sweep idle now last_active ft.funnels).1 ft.closed,
    sweep-owned idle now last_active ft.funnels s,
    h.one_owner s,
  );
}

call_tracker-IsKept :
    (ft : FunnelTracker) (c : TrackerCall) → IsKept ft → IsKept (call_tracker ft c)
unfolding call_tracker
call_tracker-IsKept ft (get_or_register_call id should_replace makes) h =
    get_or_register-IsKept ft id should_replace makes h
call_tracker-IsKept ft (unregister_call id equal f) h = unregister-IsKept ft id equal f h
call_tracker-IsKept ft (cleanup_call idle now last_active) h =
    cleanup-IsKept ft idle now last_active h

call_all-IsKept : (cs : List TrackerCall) (ft : FunnelTracker) → IsKept ft → IsKept (call_all ft cs)
call_all-IsKept [] ft h = h
call_all-IsKept (c ∷ cs) ft h = call_all-IsKept cs (call_tracker ft c) (call_tracker-IsKept ft c h)

-- After any calls of a new tracker, each funnel that was made is either in the map under one id and
-- not closed, or not in the map and closed once; and no other funnel is in the map or closed.
pub call_all_conserves :
    (cs : List TrackerCall) (s : ℕ)
    → let ft = call_all new_funnel_tracker cs in
      times s ft.closed + times s (values ft.funnels) ≡ (if ltb s ft.made then 1 else 0)
call_all_conserves cs s =
    (call_all-IsKept cs new_funnel_tracker new_funnel_tracker-IsKept).one_owner s
