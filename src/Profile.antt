-- ===== src/Profile.antt =====
-- `RuntimeProfile` of `HttpClient::Options` and `normalize_options` of src/http_client.cpp, of the
-- options of the two clients the members that it sets.
pub mod Bounds
use http_client.Prelude.{ℕ, Bool, true, false, ◌==◌, if◌then◌else◌, min, max}

pub data RuntimeProfile : Type 0 where
  auto balanced throughput : RuntimeProfile

pub record H1Options : Type 0 where
  pub shard_count : ℕ
  pub auto_shards : Bool
  pub stripe_origins_across_shards : Bool
  pub max_connections_per_origin : ℕ

pub record H2Options : Type 0 where
  pub shard_count : ℕ
  pub auto_shards : Bool
  pub sessions_per_origin : ℕ

pub record ProfileOptions : Type 0 where
  pub runtime_profile : RuntimeProfile
  pub h1 : H1Options
  pub h2 : H2Options

-- A count of 0 is replaced by the number of processors, up to a limit.
unfoldable pub or_hardware : ℕ → ℕ → ℕ → ℕ
or_hardware limit hw n = if n == 0 then min limit hw else n

-- `options.h1` in each case of the `switch`.
unfoldable pub normalize_h1 : RuntimeProfile → ℕ → H1Options → H1Options
unfolding or_hardware
normalize_h1 auto hw o = record {
  shard_count = or_hardware 16 hw o.shard_count;
  auto_shards = true;
  stripe_origins_across_shards = true;
  max_connections_per_origin = min o.max_connections_per_origin 32;
}
normalize_h1 throughput hw o = record {
  shard_count = or_hardware 16 hw o.shard_count;
  auto_shards = false;
  stripe_origins_across_shards = true;
  max_connections_per_origin = max o.max_connections_per_origin 512;
}
normalize_h1 balanced hw o = record o { auto_shards = false }

-- `options.h2`.
unfoldable pub normalize_h2 : RuntimeProfile → ℕ → H2Options → H2Options
unfolding or_hardware
normalize_h2 auto hw o = record {
  shard_count = or_hardware 4 hw o.shard_count;
  auto_shards = true;
  sessions_per_origin = max o.sessions_per_origin 4;
}
normalize_h2 throughput hw o = record {
  shard_count = or_hardware 4 hw o.shard_count;
  auto_shards = false;
  sessions_per_origin = max o.sessions_per_origin 4;
}
normalize_h2 balanced hw o = record o { auto_shards = false }

-- `cores` is `std::thread::hardware_concurrency()`, which may be 0.
unfoldable pub normalize_options : ℕ → ProfileOptions → ProfileOptions
unfolding normalize_h1 normalize_h2
normalize_options cores o = record o {
  h1 = normalize_h1 o.runtime_profile (max 1 cores) o.h1;
  h2 = normalize_h2 o.runtime_profile (max 1 cores) o.h2;
}
