-- ===== src/Shards/Bounds.antt =====
-- The window of shards, and the shards that are picked.
use native.Mathlib.Nat.{mod-lt}
use http_client.Prelude.{
  ℕ, ◌+◌, ◌%◌, ◌≡◌, ◌≤◌, ◌<◌, inl, inr, true, ◌||◌, not, List, [], ◌∷◌, ◌==◌, if◌then◌else◌, leb,
  arith, Bool-cases, if-both,
}
use http_client.Shards.{
  ShardOptions, Shards, new_shards, pick_request_shard, pick_shard, shard_limit, expand_to,
  maybe_expand_auto_shards, expand_target, enter_inflight, leave_inflight, narrow,
  preconnect_window, preconnect_targets, Event, picks, enters, maintains, preconnects, leaves, step,
  run, word,
}

-- There is a shard, and the window holds one at least and no more than there are.
pub record IsWindow (s : Shards) : Type 0 where
  pub some_shard : 0 < s.size
  pub some_active : 0 < s.active_auto_shards
  pub active : s.active_auto_shards ≤ s.size

module _ (o : ShardOptions) where
  expand_target-le :
      (inflight current size : ℕ) → current ≤ size → expand_target inflight current size ≤ size
  unfolding expand_target
  expand_target-le inflight current size h = ground arith

  expand_to-IsWindow :
      (now inflight target : ℕ) (s : Shards)
      → s.active_auto_shards < target
      → target ≤ s.size
      → IsWindow s
      → IsWindow (expand_to o now inflight target s)
  unfolding expand_to
  expand_to-IsWindow now inflight target s lo hi v = ground arith

  expand-IsWindow :
      (now inflight : ℕ) (s : Shards)
      → IsWindow s
      → IsWindow (maybe_expand_auto_shards o now inflight s)
  unfolding maybe_expand_auto_shards
  expand-IsWindow now inflight s v =
      let target = expand_target inflight s.active_auto_shards s.size in
      if-both IsWindow (not o.auto_shards || leb s.size 1) s
        (if leb target s.active_auto_shards then s else expand_to o now inflight target s) (λ _. v)
        (λ _.
          if-both IsWindow (leb target s.active_auto_shards) s (expand_to o now inflight target s)
            (λ _. v)
            (λ e.
              expand_to-IsWindow now inflight target s (ground arith)
                (expand_target-le inflight s.active_auto_shards s.size v.active) v))

  narrow-IsWindow : (now : ℕ) (s : Shards) → IsWindow s → IsWindow (narrow o now s)
  unfolding narrow
  narrow-IsWindow now s v = ground arith

  preconnect-IsWindow :
      (count : ℕ) (s : Shards) → IsWindow s → IsWindow (preconnect_window o count s)
  unfolding preconnect_window
  preconnect-IsWindow count s v = ground arith

  step-IsWindow : (e : Event) (s : Shards) → IsWindow s → IsWindow (step o e s)
  unfolding step enter_inflight leave_inflight pick_request_shard preconnect_targets
  step-IsWindow (picks hash) s v = elim (Bool-cases o.stripe_origins_across_shards) [
    | inl e ↦
        rw e (record { some_shard = v.some_shard; some_active = v.some_active; active = v.active })
    | inr e ↦ rw e v
  ]
  step-IsWindow (enters now) s v =
      expand-IsWindow now (s.global_inflight + 1)
        (record s { global_inflight = s.global_inflight + 1 })
        (record { some_shard = v.some_shard; some_active = v.some_active; active = v.active })
  step-IsWindow (maintains now) s v = narrow-IsWindow now s v
  step-IsWindow (preconnects count) s v = elim (Bool-cases (count == 0)) [
    | inl e ↦ rw (step, e) v
    | inr e ↦ elim (Bool-cases o.stripe_origins_across_shards) [
      | inl f ↦ rw (step, e, f) (preconnect-IsWindow count s v)
      | inr f ↦ rw (step, e, f) v
    ]
  ]
  step-IsWindow leaves s v = record {
    some_shard = v.some_shard;
    some_active = v.some_active;
    active = v.active;
  }

  run-IsWindow : (es : List Event) (s : Shards) → IsWindow s → IsWindow (run o es s)
  unfolding run
  run-IsWindow [] s v = v
  run-IsWindow (e ∷ es) s v = run-IsWindow es (step o e s) (step-IsWindow e s v)

  new_shards-IsWindow : (n now : ℕ) → IsWindow (new_shards o n now)
  unfolding new_shards
  new_shards-IsWindow n now = ground arith

  limit_bounds : (s : Shards) → IsWindow s → (0 < shard_limit o s) × (shard_limit o s ≤ s.size)
  unfolding shard_limit
  limit_bounds s v = ground arith

  -- A request's shard is there, and in the window if origins are striped over it.
  pick-lt :
      (hash : ℕ) (s : Shards)
      → IsWindow s
      → ((pick_request_shard o hash s).0 < s.size)
        × (o.stripe_origins_across_shards ≡ true
            → o.auto_shards ≡ true
            → (pick_request_shard o hash s).0 < s.active_auto_shards)
  unfolding pick_request_shard pick_shard shard_limit
  pick-lt hash s v =
      let bounds = limit_bounds s v in
      let striped = mod-lt ((hash + s.next_request_shard) % word) {m = shard_limit o s} bounds.0 in
      (
        if-both (λ (p : ℕ × Shards). p.0 < s.size) (not o.stripe_origins_across_shards)
            (pick_shard hash s, s)
            (
              ((hash + s.next_request_shard) % word) % shard_limit o s,
              record s { next_request_shard = (s.next_request_shard + 1) % word },
            )
            (λ _. mod-lt hash v.some_shard) (λ _. omega (arith, striped, bounds.1)),
        λ e a. ground (arith, e, a, striped, v.active),
      )

  -- After any requests, preconnections and maintenance of new shards, at least one shard exists, the
  -- window is between 1 and their number, and the next request goes to one of the shards, if
  -- origins are striped and the shards are automatic to one in the window.
  pub run-new_shards-pick :
      (n now : ℕ) (es : List Event) (hash : ℕ)
      → IsWindow (run o es (new_shards o n now))
        × ((pick_request_shard o hash (run o es (new_shards o n now))).0
            < (run o es (new_shards o n now)).size)
        × (o.stripe_origins_across_shards ≡ true
            → o.auto_shards ≡ true
            → (pick_request_shard o hash (run o es (new_shards o n now))).0
              < (run o es (new_shards o n now)).active_auto_shards)
  run-new_shards-pick n now es hash =
      let v = run-IsWindow es (new_shards o n now) (new_shards-IsWindow n now) in
      let p = pick-lt hash (run o es (new_shards o n now)) v in (v, p.0, p.1)
