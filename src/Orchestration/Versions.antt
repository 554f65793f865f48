-- ===== src/Orchestration/Versions.antt =====
-- orchestration/orchestrator.go: versions only grow, and what runs is what is configured.

use cloudflared.Common.{
  if◌then◌else◌, Bool-cases, ℕ, zero, suc, ◌≡◌, refl, sym, ap, ◌∙◌, subst, ◌⊎◌, inl, inr, Bool,
  true, false, Option, none, some, List, [], ◌∷◌, arith,
}
use cloudflared.Common.Int.{ℤ, negsuc, ◌≤ℤ◌, leb_ℤ}
use cloudflared.Orchestration.Updates.{
  RuleSet, Parts, Orchestrator, start_origins, completed, install, update_ingress, updated,
  reply_of, update_config, new_orchestrator, run_updates,
}
use mathlib.Core.Option.{some-injective}

not_newer : (v w : ℤ) → leb_ℤ v w ≡ false → v ≤ℤ w → ⊥
not_newer v w e h = ground arith

module _ {R W : Type 0} (parts : Parts R W) where
  -- The numbers below n, the largest first.
  unfoldable pub below : ℕ → List ℕ
  below zero = []
  below (suc n) = n ∷ below n

  -- The proxy in use is that of the configuration, and of the channels of all proxies made only its
  -- own is not closed.
  pub record IsCoherent (o : Orchestrator R W) : Type 0 where
    pub in_use : o.proxy ≡ some o.config
    pub warp : o.warp_routing_enabled ≡ parts.enabled o.config.1
    pub one_open :
        (n : ℕ) × (o.proxies_made ≡ suc n) × (o.proxy_shutdown ≡ some n) × (o.closed ≡ below n)

  update_ingress-cases :
      (o : Orchestrator R W) (shut : Bool) (ingress : RuleSet R) (w : W)
      → (update_ingress parts o shut ingress w ≡ none)
        ⊎ ((i : RuleSet R) × (update_ingress parts o shut ingress w ≡ some (install parts o i w)))
  unfolding update_ingress
  update_ingress-cases o true ingress w = inl refl
  update_ingress-cases o false ingress w =
      elim (Bool-cases (start_origins parts (completed parts o ingress).rules)) [
        | inl e ↦ inr (completed parts o ingress, rw e refl)
        | inr e ↦ inl (rw e refl)
      ]

  updated-cases :
      (o : Orchestrator R W) (shut : Bool) (m : Option (RuleSet R × W))
      → (updated parts o shut m ≡ none)
        ⊎ ((i : RuleSet R) × (w : W) × (updated parts o shut m ≡ some (install parts o i w)))
  unfolding updated
  updated-cases o shut none = inl refl
  updated-cases o shut (some (ingress, w)) = elim (update_ingress-cases o shut ingress w) [
    | inl e ↦ inl e
    | inr (i, e) ↦ inr (i, w, e)
  ]

  -- What an update can do.
  abbrev IsOutcome : Orchestrator R W → ℤ → Orchestrator R W × (ℤ × Bool) → Type 0
  IsOutcome o v (o', (last, failed)) =
      ((o' ≡ o) × (last ≡ o.current_version))
      ⊎ ((ingress : RuleSet R) × (w : W) × (o'
            ≡ record (install parts o ingress w) { current_version = v })
          × (leb_ℤ v o.current_version ≡ false)
          × (last ≡ v)
          × (failed ≡ false))

  update_config-cases :
      (o : Orchestrator R W) (shut : Bool) (v : ℤ) (c : List ℕ)
      → IsOutcome o v (update_config parts o shut v c)
  unfolding update_config reply_of
  update_config-cases o shut v c =
      let done = updated parts o shut (parts.unmarshal c) in
      let out =
        λ (b : Bool). if b then (o, (o.current_version, false)) else reply_of parts o v done in
      elim (Bool-cases (leb_ℤ v o.current_version)) [
        | inl e ↦ subst (λ (b : Bool). IsOutcome o v (out b)) (sym e) (inl (refl, refl))
        | inr e ↦
            subst (λ (b : Bool). IsOutcome o v (out b)) (sym e)
              (elim (updated-cases o shut (parts.unmarshal c)) [
                | inl e' ↦
                    subst (λ (m : Option (Orchestrator R W)). IsOutcome o v (reply_of parts o v m))
                      (sym e') (inl (refl, refl))
                | inr (i, w, e') ↦
                    subst (λ (m : Option (Orchestrator R W)). IsOutcome o v (reply_of parts o v m))
                      (sym e') (inr (i, w, refl, e, refl, refl))
              ])
      ]

  config_kept :
      (o : Orchestrator R W) (shut : Bool) (v : ℤ) (c : List ℕ)
      → let (o', (last, failed)) = update_config parts o shut v c in
        (last ≡ o'.current_version)
        × (o.current_version ≤ℤ o'.current_version)
        × (failed ≡ true → o' ≡ o)
        × (v ≤ℤ o.current_version → o' ≡ o)
        × ((o' ≡ o) ⊎ (o'.current_version ≡ v))
  config_kept o shut v c = elim (update_config-cases o shut v c) [
    | inl (same, last) ↦ (
      last ∙ ap (λ (x : Orchestrator R W). x.current_version) (sym same),
      rw same (omega arith),
      (λ e. same),
      (λ e. same),
      inl same,
    )
    | inr (ingress, w, made, newer, last, ok) ↦
        let now : (update_config parts o shut v c).0.current_version ≡ v =
          ap (λ (x : Orchestrator R W). x.current_version) made in
        (
          last ∙ sym now,
          rw now (ground arith),
          (λ e. cc),
          (λ e. elim (not_newer v o.current_version newer e) [ ]),
          inr now,
        )
  ]

  -- An update that is newer: what its configuration is decoded to, and whether all the services of its
  -- rules start, decide about it.
  abbrev pub Decides :
      Orchestrator R W → ℤ → Bool → Option (RuleSet R × W) → Orchestrator R W × (ℤ × Bool) → Type 0
  Decides o v shut none (o', (last, failed)) = (o' ≡ o) × (failed ≡ true)
  Decides o v shut (some (ingress, warp)) (o', (last, failed)) =
      let c = completed parts o ingress in
      (shut ≡ false
        → start_origins parts c.rules ≡ true
        → (failed ≡ false)
          × (o'.current_version ≡ v)
          × (o'.config ≡ (c, warp))
          × (o'.proxy ≡ some (c, warp)))
      × ((shut ≡ true) ⊎ (start_origins parts c.rules ≡ false) → (o' ≡ o) × (failed ≡ true))

  newer-Decides :
      (o : Orchestrator R W) (shut : Bool) (v : ℤ) (m : Option (RuleSet R × W))
      → Decides o v shut m (reply_of parts o v (updated parts o shut m))
  unfolding updated reply_of
  newer-Decides o shut v none = (refl, refl)
  newer-Decides o true v (some (ingress, warp)) =
      unfold update_ingress in ((λ e. cc), λ e. (refl, refl))
  newer-Decides o false v (some (ingress, warp)) =
      elim (Bool-cases (start_origins parts (completed parts o ingress).rules)) [
        | inl e ↦
            unfold update_ingress install in
            rw e ((λ _ _. (refl, refl, refl, refl)), λ z. elim z [ inl x ↦ cc | inr x ↦ cc ])
        | inr e ↦ unfold update_ingress in rw e ((λ _ x. cc), λ _. (refl, refl))
      ]

  update_config-Decides :
      (o : Orchestrator R W) (shut : Bool) (v : ℤ) (c : List ℕ)
      → leb_ℤ v o.current_version ≡ false
      → Decides o v shut (parts.unmarshal c) (update_config parts o shut v c)
  unfolding update_config
  update_config-Decides o shut v c newer = rw newer (newer-Decides o shut v (parts.unmarshal c))

  stale_succeeds :
      (o : Orchestrator R W) (shut : Bool) (v : ℤ) (c : List ℕ)
      → v ≤ℤ o.current_version
      → (update_config parts o shut v c).1.1 ≡ false
  unfolding update_config
  stale_succeeds o shut v c e = elim (Bool-cases (leb_ℤ v o.current_version)) [
    | inl z ↦ rw z refl
    | inr z ↦ elim (not_newer v o.current_version z e) [ ]
  ]

  -- The reply tells the version in effect afterwards, which never goes down. An update that is not
  -- newer changes nothing and is not an error. One that is newer is an error that changes nothing if
  -- its configuration does not decode, if the orchestrator is shut down or if a service of it does not
  -- start; and otherwise it is not an error, its version is in effect and its ingress, completed, and
  -- its warp routing are the configuration and that of the proxy.
  pub update_config_replies :
      (o : Orchestrator R W) (shut : Bool) (v : ℤ) (c : List ℕ)
      → let (o', (last, failed)) = update_config parts o shut v c in
        (last ≡ o'.current_version)
        × (o.current_version ≤ℤ o'.current_version)
        × (v ≤ℤ o.current_version → (o' ≡ o) × (failed ≡ false))
        × (leb_ℤ v o.current_version ≡ false
            → Decides o v shut (parts.unmarshal c) (update_config parts o shut v c))
  update_config_replies o shut v c =
      let (last, up, failing, stale, either) = config_kept o shut v c in
      (last, up, (λ e. (stale e, stale_succeeds o shut v c e)), update_config-Decides o shut v c)

  install-IsCoherent :
      (o : Orchestrator R W) (ingress : RuleSet R) (w : W) (v : ℤ)
      → IsCoherent o
      → IsCoherent (record (install parts o ingress w) { current_version = v })
  unfolding install
  install-IsCoherent o ingress w v h = record {
    in_use = refl;
    warp = refl;
    one_open =
        let (n, made, open_one, shut) = h.one_open in
        (suc n, omega (arith, made), ap some made, unfold below in rw (open_one, shut) refl);
  }

  run_updates-IsCoherent :
      (o : Orchestrator R W) (us : List (ℤ × List ℕ))
      → IsCoherent o
      → IsCoherent (run_updates parts o us)
        × (o.current_version ≤ℤ (run_updates parts o us).current_version)
  unfolding run_updates
  run_updates-IsCoherent o [] h = (h, omega arith)
  run_updates-IsCoherent o ((v, c) ∷ us) h =
      let o' = (update_config parts o false v c).0 in
      let (last, up, kept, stale, either) = config_kept o false v c in
      let h' : IsCoherent o' = elim (update_config-cases o false v c) [
        | inl (same, l) ↦ subst IsCoherent (sym same) h
        | inr (ingress, w, made, l1, l2, l3) ↦
            subst IsCoherent (sym made) (install-IsCoherent o ingress w v h)
      ] in
      let (coherent, later) = run_updates-IsCoherent o' us h' in
      (coherent, omega (arith, up, later))

  first-IsCoherent :
      (o : Orchestrator R W) (ingress : RuleSet R) (w : W)
      → o.proxies_made ≡ 0
      → o.proxy_shutdown ≡ none
      → o.closed ≡ []
      → IsCoherent (install parts o ingress w)
  unfolding install below
  first-IsCoherent o ingress w made unset open_all = record {
    in_use = refl;
    warp = refl;
    one_open = (0, omega (arith, made), ap some made, rw (unset, open_all) refl);
  }

  -- After any updates of a new orchestrator, the proxy in use serves the current configuration, its
  -- warp routing included, the channel of every earlier proxy has been closed, once each and in
  -- order, that of the current one has not, and the version is at least -1.
  pub run_updates-new-IsCoherent :
      (internal_rules : List R) (ingress : RuleSet R) (w : W) (o : Orchestrator R W)
      (us : List (ℤ × List ℕ))
      → new_orchestrator parts internal_rules (ingress, w) false ≡ some o
      → IsCoherent (run_updates parts o us) × (negsuc 0 ≤ℤ (run_updates parts o us).current_version)
  unfolding new_orchestrator install
  run_updates-new-IsCoherent internal_rules ingress w o us e =
      let o0 : Orchestrator R W = record {
        current_version = negsuc 0;
        internal_rules = internal_rules;
        config = (ingress, w);
        proxy = none;
        warp_routing_enabled = false;
        proxy_shutdown = none;
        proxies_made = 0;
        closed = [];
      } in
      elim (update_ingress-cases o0 false ingress w) [
        | inl failed ↦ let absurd : none ≡ some o = sym failed ∙ e in cc
        | inr (i, made) ↦
            let same : install parts o0 i w ≡ o = some-injective _ _ (sym made ∙ e) in
            let low : o.current_version ≡ negsuc 0 =
              sym (ap (λ (x : Orchestrator R W). x.current_version) same) in
            let (coherent, up) =
              run_updates-IsCoherent o us
                (subst IsCoherent same (first-IsCoherent o0 i w refl refl refl)) in
            (coherent, subst (λ (x : ℤ). x ≤ℤ (run_updates parts o us).current_version) low up)
      ]
