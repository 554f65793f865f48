-- ===== src/Funnels/Tracking.antt =====
-- packet/funnel.go: FunnelTracker. Ids are numbers and a funnel is an address; times and durations are
-- nanoseconds. What a funnel's own methods answer is an argument.

-- The map, how many funnels the registrations made so far, the address of the next one, and the
-- funnels that were closed, the last one first.
use cloudflared.Common.{
  ltb, if◌then◌else◌, ℕ, ◌+◌, Bool, true, false, Option, none, some, List, [], ◌∷◌, ◌++◌,
}
use cloudflared.Common.Map.{nat_eq, lookup, insert, erase}

pub record FunnelTracker : Type 0 where
  pub funnels : List (ℕ × ℕ)
  pub made : ℕ
  pub closed : List ℕ

abbrev pub new_funnel_tracker : FunnelTracker
new_funnel_tracker = record { funnels = []; made = 0; closed = [] }

-- The funnel and whether it is new, or the error of newFunnelFunc
pub data Registered : Type 0 where
  funnel : ℕ → Bool → Registered
  not_made : Registered

abbrev pub close_and_delete : FunnelTracker → ℕ → ℕ → FunnelTracker
close_and_delete ft id f = record ft { funnels = erase id ft.funnels; closed = f ∷ ft.closed }

-- newFunnelFunc makes a funnel or fails.
unfoldable pub register_funnel : FunnelTracker → ℕ → Bool → FunnelTracker × Registered
register_funnel ft id false = (ft, not_made)
register_funnel ft id true =
    (record ft { funnels = insert id ft.made ft.funnels; made = ft.made + 1 }, funnel ft.made true)

unfoldable pub get_or_register : FunnelTracker → ℕ → (ℕ → Bool) → Bool → FunnelTracker × Registered
get_or_register ft id should_replace makes = elim (lookup id ft.funnels) [
  | none ↦ register_funnel ft id makes
  | some f ↦
      if should_replace f
      then register_funnel (close_and_delete ft id f) id makes
      else (ft, funnel f false)
]

abbrev pub get_funnel : FunnelTracker → ℕ → Option ℕ
get_funnel ft id = lookup id ft.funnels

-- `equal` is the Equal of the current funnel.
unfoldable pub unregister : FunnelTracker → ℕ → (ℕ → ℕ → Bool) → ℕ → FunnelTracker × Bool
unregister ft id equal f = elim (lookup id ft.funnels) [
  | none ↦ (ft, true)
  | some current ↦ if equal current f then (close_and_delete ft id current, true) else (ft, false)
]

-- The entries of the map that stay and the funnels that are closed
unfoldable pub sweep : ℕ → ℕ → (ℕ → ℕ) → List (ℕ × ℕ) → List (ℕ × ℕ) × List ℕ
sweep idle_timeout now last_active [] = ([], [])
sweep idle_timeout now last_active ((id, f) ∷ m) =
    let (kept, stale) = sweep idle_timeout now last_active m in
    if ltb (last_active f + idle_timeout) now then (kept, f ∷ stale) else ((id, f) ∷ kept, stale)

unfoldable pub cleanup : FunnelTracker → ℕ → ℕ → (ℕ → ℕ) → FunnelTracker
cleanup ft idle_timeout now last_active =
    let swept = sweep idle_timeout now last_active ft.funnels in
    record ft { funnels = swept.0; closed = swept.1 ++ ft.closed }

-- The methods run under the lock, and so one after the other.
pub data TrackerCall : Type 0 where
  get_or_register_call : ℕ → (ℕ → Bool) → Bool → TrackerCall
  unregister_call : ℕ → (ℕ → ℕ → Bool) → ℕ → TrackerCall
  cleanup_call : ℕ → ℕ → (ℕ → ℕ) → TrackerCall

unfoldable pub call_tracker : FunnelTracker → TrackerCall → FunnelTracker
call_tracker ft (get_or_register_call id should_replace makes) =
    (get_or_register ft id should_replace makes).0
call_tracker ft (unregister_call id equal f) = (unregister ft id equal f).0
call_tracker ft (cleanup_call idle_timeout now last_active) =
    cleanup ft idle_timeout now last_active

abbrev pub call_all : FunnelTracker → List TrackerCall → FunnelTracker
call_all ft [] = ft
call_all ft (c ∷ cs) = call_all (call_tracker ft c) cs
