-- ===== src/Streams/Upkeep.antt =====
-- h2mux/activestreammap.go: what holds of the map after any calls.

use cloudflared.Common.{
  ◌==◌, if◌then◌else◌, Bool-cases, length, ℕ, suc, ◌+◌, ◌≤◌, ◌≡◌, refl, sym, ap, subst, ◌≢◌, ◌⊎◌,
  inl, inr, Bool, true, false, ◌&&◌, none, List, [], ◌∷◌, arith,
}
use cloudflared.Common.Map.{nat_eq, lookup, insert, erase}
use cloudflared.Common.Count.{count_p}
use cloudflared.Streams.Active.{
  ActiveStreamMap, new_active_stream_map, notify_streams_empty, is_present, set, untrack,
  notify_if_drained, delete, shutdown, acquire_local_id, acquire_peer_id, abort, Call, sets,
  deletes, shuts_down, aborts, acquires_local_id, acquires_peer_id, perform, run_calls,
}

abbrev pub keyed : ℕ → List (ℕ × ℕ) → ℕ
keyed k s = count_p (λ (e : ℕ × ℕ). e.0 == k) s

keyed-insert :
    (k j v : ℕ) (s : List (ℕ × ℕ))
    → lookup k s ≡ none
    → keyed j (insert k v s) ≡ (if k == j then 1 else 0) + keyed j s
unfolding lookup insert
keyed-insert k j v [] e = refl
keyed-insert k j v ((i, w) ∷ s) e = ground (arith, keyed-insert k j v s)

length-insert :
    (k v : ℕ) (s : List (ℕ × ℕ)) → lookup k s ≡ none → length (insert k v s) ≡ suc (length s)
unfolding lookup insert
length-insert k v [] e = refl
length-insert k v ((i, w) ∷ s) e = ground (arith, length-insert k v s)

keyed-erase : (k j : ℕ) (s : List (ℕ × ℕ)) → keyed j (erase k s) ≡ (if k == j then 0 else keyed j s)
unfolding erase
keyed-erase k j [] = ground arith
keyed-erase k j ((i, w) ∷ s) = ground (arith, keyed-erase k j s)

length-erase : (k : ℕ) (s : List (ℕ × ℕ)) → length (erase k s) + keyed k s ≡ length s
unfolding erase
length-erase k [] = omega arith
length-erase k ((i, w) ∷ s) = ground (arith, length-erase k s)

lookup-keyed :
    (k : ℕ) (s : List (ℕ × ℕ)) → is_present (lookup k s) ≡ (if keyed k s == 0 then false else true)
unfolding lookup
lookup-keyed k [] = ground arith
lookup-keyed k ((i, w) ∷ s) = ground (arith, lookup-keyed k s)

-- Each ID has at most one stream; the gauge counts the streams; the done channel is closed only in a
-- shutdown, and is closed in one without streams.
pub record IsSettled (m : ActiveStreamMap) : Type 0 where
  pub one_each : (k : ℕ) → keyed k m.streams ≤ 1
  pub counted : m.incs ≡ m.decs + length m.streams
  pub done_late : m.streams_empty ≡ true → m.ignore_new_streams ≡ true
  pub done_soon : m.ignore_new_streams ≡ true → length m.streams ≡ 0 → m.streams_empty ≡ true

new-IsSettled : (client : Bool) → IsSettled (new_active_stream_map client)
unfolding new_active_stream_map
new-IsSettled client = record {
  one_each = λ k. omega arith;
  counted = refl;
  done_late = λ e. cc;
  done_soon = λ e. cc;
}

set-cases :
    (m : ActiveStreamMap) (id stream : ℕ)
    → ((set m id stream).0 ≡ m)
      ⊎ ((lookup id m.streams ≡ none)
          × (m.ignore_new_streams ≡ false)
          × ((set m id stream).0
              ≡ record m { streams = insert id stream m.streams; incs = m.incs + 1 }))
unfolding set
set-cases m id stream = ground arith

set-IsSettled : (m : ActiveStreamMap) (id stream : ℕ) → IsSettled m → IsSettled (set m id stream).0
set-IsSettled m id stream h = elim (set-cases m id stream) [
  | inl same ↦ subst IsSettled (sym same) h
  | inr (e, open_yet, new) ↦ subst IsSettled (sym new) (record {
    one_each = λ k.
        ground
          (arith, h.one_each k, keyed-insert id k stream m.streams e, lookup-keyed id m.streams);
    counted = omega (arith, h.counted, length-insert id stream m.streams e);
    done_late = h.done_late;
    done_soon = λ shut. cc;
  })
]

-- All of IsSettled but the last field.
record IsSettledButDone (m : ActiveStreamMap) : Type 0 where
  one_each : (k : ℕ) → keyed k m.streams ≤ 1
  counted : m.incs ≡ m.decs + length m.streams
  done_late : m.streams_empty ≡ true → m.ignore_new_streams ≡ true

untrack-cases :
    (m : ActiveStreamMap) (id : ℕ)
    → (untrack m id ≡ m)
      ⊎ ((is_present (lookup id m.streams) ≡ true)
          × (untrack m id ≡ record m { streams = erase id m.streams; decs = m.decs + 1 }))
unfolding untrack
untrack-cases m id = ground arith

untrack-IsSettledButDone :
    (m : ActiveStreamMap) (id : ℕ) → IsSettled m → IsSettledButDone (untrack m id)
untrack-IsSettledButDone m id h = elim (untrack-cases m id) [
  | inl same ↦
      subst IsSettledButDone (sym same)
        (record { one_each = h.one_each; counted = h.counted; done_late = h.done_late })
  | inr (there, gone) ↦ subst IsSettledButDone (sym gone) (record {
    one_each = λ k. ground (arith, h.one_each k, keyed-erase id k m.streams);
    counted =
        ground
          (arith, h.counted, h.one_each id, length-erase id m.streams, lookup-keyed id m.streams);
    done_late = h.done_late;
  })
]

notify_if_drained-IsSettled :
    (m : ActiveStreamMap) → IsSettledButDone m → IsSettled (notify_if_drained m)
unfolding notify_if_drained
notify_if_drained-IsSettled m h =
    elim (Bool-cases (m.ignore_new_streams && (length m.streams == 0))) [
      | inl e ↦
          subst IsSettled (ap (λ (b : Bool). if b then notify_streams_empty m else m) (sym e))
            (record {
              one_each = h.one_each;
              counted = h.counted;
              done_late = λ d. ground arith;
              done_soon = λ shut none_left. refl;
            })
      | inr e ↦
          subst IsSettled (ap (λ (b : Bool). if b then notify_streams_empty m else m) (sym e))
            (record {
              one_each = h.one_each;
              counted = h.counted;
              done_late = h.done_late;
              done_soon = λ shut none_left. ground arith;
            })
    ]

shutdown-cases :
    (m : ActiveStreamMap)
    → let m' = record m { ignore_new_streams = true } in
      ((shutdown m).0 ≡ m)
      ⊎ ((length m.streams ≡ 0) × ((shutdown m).0 ≡ notify_streams_empty m'))
      ⊎ ((length m.streams ≢ 0) × ((shutdown m).0 ≡ m'))
unfolding shutdown
shutdown-cases m = ground arith

shutdown-IsSettled : (m : ActiveStreamMap) → IsSettled m → IsSettled (shutdown m).0
shutdown-IsSettled m h = elim (shutdown-cases m) [
  | inl same ↦ subst IsSettled (sym same) h
  | inr (inl (e, now)) ↦ subst IsSettled (sym now) (record {
    one_each = h.one_each;
    counted = h.counted;
    done_late = λ d. refl;
    done_soon = λ shut none_left. refl;
  })
  | inr (inr (e, now)) ↦ subst IsSettled (sym now) (record {
    one_each = h.one_each;
    counted = h.counted;
    done_late = λ d. refl;
    done_soon = λ shut none_left. elim (e none_left) [ ];
  })
]

acquire_peer_id-cases :
    (m : ActiveStreamMap) (id : ℕ)
    → ((acquire_peer_id m id).0 ≡ m)
      ⊎ ((acquire_peer_id m id).0 ≡ record m { max_peer_stream_id = id })
unfolding acquire_peer_id
acquire_peer_id-cases m id = ground arith

perform-IsSettled : (m : ActiveStreamMap) (c : Call) → IsSettled m → IsSettled (perform m c)
unfolding perform delete abort acquire_local_id
perform-IsSettled m (sets id stream) h = set-IsSettled m id stream h
perform-IsSettled m (deletes id) h =
    notify_if_drained-IsSettled (untrack m id) (untrack-IsSettledButDone m id h)
perform-IsSettled m shuts_down h = shutdown-IsSettled m h
perform-IsSettled m aborts h = record {
  one_each = h.one_each;
  counted = h.counted;
  done_late = λ d. refl;
  done_soon = λ shut none_left. refl;
}
perform-IsSettled m acquires_local_id h = record {
  one_each = h.one_each;
  counted = h.counted;
  done_late = h.done_late;
  done_soon = h.done_soon;
}
perform-IsSettled m (acquires_peer_id id) h = elim (acquire_peer_id-cases m id) [
  | inl same ↦ subst IsSettled (sym same) h
  | inr now ↦ subst IsSettled (sym now) (record {
    one_each = h.one_each;
    counted = h.counted;
    done_late = h.done_late;
    done_soon = h.done_soon;
  })
]

run_calls-IsSettled :
    (m : ActiveStreamMap) (cs : List Call) → IsSettled m → IsSettled (run_calls m cs)
unfolding run_calls
run_calls-IsSettled m [] h = h
run_calls-IsSettled m (c ∷ cs) h = run_calls-IsSettled (perform m c) cs (perform-IsSettled m c h)

-- After any calls on a new map, by a client or a server, each ID has at most one open stream, the
-- gauge counts the open streams, the done channel is closed only once a shutdown or an abort has
-- begun, and it is closed as soon as one has and no stream is open.
pub run_calls-new-IsSettled :
    (client : Bool) (cs : List Call) → IsSettled (run_calls (new_active_stream_map client) cs)
run_calls-new-IsSettled client cs =
    run_calls-IsSettled (new_active_stream_map client) cs (new-IsSettled client)
