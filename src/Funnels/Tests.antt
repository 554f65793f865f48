-- ===== src/Funnels/Tests.antt =====
-- A funnel that is replaced and one that goes idle.

use cloudflared.Common.{ltb, ◌==◌, if◌then◌else◌, ◌+◌, ◌≡◌, refl, true, false, List, [], ◌∷◌}
use cloudflared.Common.Map.{nat_eq, lookup, insert, erase}
use cloudflared.Common.Tally.{times, values}
use cloudflared.Funnels.Tracking.{
  new_funnel_tracker, register_funnel, get_or_register, unregister, sweep, cleanup, TrackerCall,
  get_or_register_call, unregister_call, cleanup_call, call_tracker, call_all,
}
use cloudflared.Funnels.Conservation.{call_all_conserves}

abbrev calls : List TrackerCall
calls =
    get_or_register_call 7 (λ f. false) true
    ∷ get_or_register_call 8 (λ f. false) true
    ∷ get_or_register_call 7 (λ f. f == 0) true
    ∷ get_or_register_call 9 (λ f. false) false
    ∷ unregister_call 7 ◌==◌ 0
    ∷ cleanup_call 10 100 (λ f. if f == 1 then 80 else 95)
    ∷ []

tracked :
    call_all new_funnel_tracker calls
    ≡ record { funnels = (7, 2) ∷ []; made = 3; closed = 1 ∷ 0 ∷ [] }
unfolding call_tracker get_or_register register_funnel unregister cleanup sweep lookup insert erase
tracked = refl

call_all_conserves_example :
    times 1 (call_all new_funnel_tracker calls).closed
      + times 1 (values (call_all new_funnel_tracker calls).funnels)
    ≡ (if ltb 1 (call_all new_funnel_tracker calls).made then 1 else 0)
call_all_conserves_example = call_all_conserves calls 1
