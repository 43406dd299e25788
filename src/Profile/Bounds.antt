-- ===== src/Profile/Bounds.antt =====
-- What a profile means for the connection pools.
use http_client.Prelude.{ℕ, ◌≡◌, ◌≤◌, List, refl, sym, arith, min, max}
use http_client.Pool.{Limits, max_connections, new_pool}
use http_client.Pool.Run.{Event, run}
use http_client.Pool.Counts.{run-new_pool-IsCounted}
use http_client.Profile.{
  RuntimeProfile, auto, balanced, throughput, ProfileOptions, normalize_h1, normalize_options,
}

-- The limits of a pool under the options that the client goes by.
abbrev pub limits_of : ℕ → ℕ → ProfileOptions → Limits
limits_of cores connecting o = record {
  max_connections_per_origin = (normalize_options cores o).h1.max_connections_per_origin;
  max_connecting_per_origin = connecting;
}

abbrev pub profile_limit : RuntimeProfile → ℕ → ℕ
profile_limit auto n = min (max 1 n) 32
profile_limit throughput n = max n 512
profile_limit balanced n = max 1 n

normalized-profile_limit :
    (p : RuntimeProfile) (cores connecting : ℕ) (o : ProfileOptions)
    → o.runtime_profile ≡ p
    → max_connections (limits_of cores connecting o)
      ≡ profile_limit p o.h1.max_connections_per_origin
unfolding normalize_options normalize_h1
normalized-profile_limit auto cores connecting o e = rw e (omega arith)
normalized-profile_limit throughput cores connecting o e = rw e (omega arith)
normalized-profile_limit balanced cores connecting o e = rw e (omega arith)

-- Whatever happens to a pool under the options that `normalize_options` gives, its active connections are
-- at most those the profile stands for: 32 and the limit asked for under `Auto`, 512 or a higher limit
-- asked for under `Throughput`, and just the limit asked for under `Balanced`, a limit below 1 counting
-- as 1.
pub run-normalize_options-active :
    (cores connecting : ℕ) (o : ProfileOptions) (es : List Event)
    → (run (limits_of cores connecting o) es new_pool).active
      ≤ profile_limit o.runtime_profile o.h1.max_connections_per_origin
run-normalize_options-active cores connecting o es =
    rw (sym (normalized-profile_limit o.runtime_profile cores connecting o refl))
      (run-new_pool-IsCounted (limits_of cores connecting o) es).active_limit
