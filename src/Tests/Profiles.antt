-- ===== src/Tests/Profiles.antt =====
-- Profiles, at concrete inputs.
use http_client.Prelude.{◌≤◌, ◌∷◌, [], false}
use http_client.Pool.{new_pool}
use http_client.Pool.Run.{acquires, connected, run}
use http_client.Profile.{ProfileOptions, auto}
use http_client.Profile.Bounds.{limits_of, profile_limit, run-normalize_options-active}

abbrev wide : ProfileOptions
wide = record {
  runtime_profile = auto;
  h1 = record {
    shard_count = 0;
    auto_shards = false;
    stripe_origins_across_shards = false;
    max_connections_per_origin = 256;
  };
  h2 = record { shard_count = 0; auto_shards = false; sessions_per_origin = 1 };
}

run-normalize_options-active_example :
    (run (limits_of 8 64 wide) (acquires ∷ connected ∷ acquires ∷ []) new_pool).active
    ≤ profile_limit auto 256
run-normalize_options-active_example =
    run-normalize_options-active 8 64 wide (acquires ∷ connected ∷ acquires ∷ [])
