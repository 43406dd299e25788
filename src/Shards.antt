-- ===== src/Shards.antt =====
-- The shards of src/asio_http_client.cpp: how many there are, which one a request goes to, the window of
-- shards that `auto_shards` widens and narrows, and how `preconnect` spreads its connections. The hash of an
-- origin's key is an argument, and so is the time in milliseconds.
pub mod Bounds
pub mod Spread
use http_client.Prelude.{
  ℕ, zero, suc, ◌+◌, ◌-◌, ◌/◌, ◌%◌, ◌^◌, Bool, true, false, ◌&&◌, ◌||◌, not, List, [], ◌∷◌, ◌==◌,
  if◌then◌else◌, ltb, leb, min, max,
}

-- The members of `Options` that the shards read.
pub record ShardOptions : Type 0 where
  pub shard_count : ℕ
  pub auto_shards : Bool
  pub stripe_origins_across_shards : Bool
  pub auto_scale_up_interval : ℕ
  pub auto_scale_down_idle_ttl : ℕ

-- `shards_.size()`, `active_auto_shards_`, `next_request_shard_`, `global_inflight_`,
-- `last_auto_scale_up_` and `last_auto_busy_`.
pub record Shards : Type 0 where
  pub size : ℕ
  pub active_auto_shards : ℕ
  pub next_request_shard : ℕ
  pub global_inflight : ℕ
  pub last_auto_scale_up : ℕ
  pub last_auto_busy : ℕ

-- The constructor's count of shards, on a machine with that many processors.
unfoldable pub shard_count_of : ShardOptions → ℕ → ℕ
shard_count_of o hardware_concurrency =
    if o.shard_count == 0
    then max 1 (if o.auto_shards then min 16 hardware_concurrency else min 4 hardware_concurrency)
    else o.shard_count

-- The client is made at the time `now`.
unfoldable pub new_shards : ShardOptions → ℕ → ℕ → Shards
unfolding shard_count_of
new_shards o hardware_concurrency now = record {
  size = shard_count_of o hardware_concurrency;
  active_auto_shards = 1;
  next_request_shard = 0;
  global_inflight = 0;
  last_auto_scale_up = 0;
  last_auto_busy = now;
}

abbrev pub word : ℕ
word = 2 ^ 64

unfoldable pub pick_shard : ℕ → Shards → ℕ
pick_shard hash s = hash % s.size

-- `shard_limit` of `pick_request_shard`, and of `preconnect`.
unfoldable pub shard_limit : ShardOptions → Shards → ℕ
shard_limit o s = if o.auto_shards then max 1 (min s.active_auto_shards s.size) else s.size

-- The shard of a request, and the next count.
unfoldable pub pick_request_shard : ShardOptions → ℕ → Shards → ℕ × Shards
unfolding pick_shard shard_limit
pick_request_shard o hash s =
    if not o.stripe_origins_across_shards then (pick_shard hash s, s) else (
      ((hash + s.next_request_shard) % word) % shard_limit o s,
      record s { next_request_shard = (s.next_request_shard + 1) % word },
    )

-- The window that so many requests in flight ask for.
unfoldable pub expand_target : ℕ → ℕ → ℕ → ℕ
expand_target inflight current size =
    if leb 512 inflight
    then min 16 size
    else if leb 128 inflight
    then min 8 size
    else if leb 96 inflight
    then min 4 size
    else if leb 32 inflight
    then min 2 size
    else current

-- The compare-and-exchange loop, which no other thread disturbs here.
unfoldable pub widen : ℕ → Shards → Shards
widen target s = record s { active_auto_shards = target }

-- Behind the test that the target is wider; below 128 requests it keeps to the interval.
unfoldable pub expand_to : ShardOptions → ℕ → ℕ → ℕ → Shards → Shards
unfolding widen
expand_to o now inflight target s =
    if leb 128 inflight
    then widen target s
    else if ltb (now - s.last_auto_scale_up) o.auto_scale_up_interval
    then s
    else widen target (record s { last_auto_scale_up = now })

unfoldable pub maybe_expand_auto_shards : ShardOptions → ℕ → ℕ → Shards → Shards
unfolding expand_target expand_to
maybe_expand_auto_shards o now inflight s =
    let target = expand_target inflight s.active_auto_shards s.size in
    if not o.auto_shards || leb s.size 1
    then s
    else if leb target s.active_auto_shards
    then s
    else expand_to o now inflight target s

-- The constructor of `InflightGuard`, and its destructor.
unfoldable pub enter_inflight : ShardOptions → ℕ → Shards → Shards
unfolding maybe_expand_auto_shards
enter_inflight o now s =
    maybe_expand_auto_shards o now (s.global_inflight + 1)
      (record s { global_inflight = s.global_inflight + 1 })

unfoldable pub leave_inflight : Shards → Shards
leave_inflight s = record s { global_inflight = s.global_inflight - 1 }

-- `run_maintenance` of the first shard, behind the eviction.
unfoldable pub narrow : ShardOptions → ℕ → Shards → Shards
narrow o now s =
    if not o.auto_shards
    then s
    else if ltb 8 s.global_inflight
    then record s { last_auto_busy = now }
    else if ltb (now - s.last_auto_busy) o.auto_scale_down_idle_ttl
    then s
    else if ltb 1 s.active_auto_shards
    then record s { active_auto_shards = max 1 (s.active_auto_shards / 2); last_auto_busy = now }
    else s

-- The shards of `preconnect`: the window is widened to the count first.
unfoldable pub preconnect_window : ShardOptions → ℕ → Shards → Shards
unfolding widen
preconnect_window o count s =
    let wanted = min s.size (max 1 count) in
    if o.auto_shards && ltb s.active_auto_shards wanted then widen wanted s else s

unfoldable pub preconnect_targets : ShardOptions → ℕ → Shards → ℕ × Shards
unfolding preconnect_window shard_limit
preconnect_targets o count s =
    if o.stripe_origins_across_shards
    then (shard_limit o (preconnect_window o count s), preconnect_window o count s)
    else (1, s)

-- `target_count` of the shard with that index in `preconnect`.
unfoldable pub target_count : ℕ → ℕ → ℕ → ℕ
target_count count targets i = ((count - i) + targets - 1) / targets

-- The connections for the first `k` of them.
unfoldable pub targets_sum : ℕ → ℕ → ℕ → ℕ
unfolding target_count
targets_sum count targets zero = 0
targets_sum count targets (suc k) = targets_sum count targets k + target_count count targets k

-- What happens to the shards.
pub data Event : Type 0 where
  picks enters maintains preconnects : ℕ → Event
  leaves : Event

unfoldable pub step : ShardOptions → Event → Shards → Shards
unfolding pick_request_shard enter_inflight leave_inflight narrow preconnect_targets
step o (picks hash) s = (pick_request_shard o hash s).1
step o (enters now) s = enter_inflight o now s
step o (maintains now) s = narrow o now s
step o (preconnects count) s = if count == 0 then s else (preconnect_targets o count s).1
step o leaves s = leave_inflight s

unfoldable pub run : ShardOptions → List Event → Shards → Shards
unfolding step
run o [] s = s
run o (e ∷ es) s = run o es (step o e s)
