-- ===== src/Systemd/Clock/Tests.antt =====
-- The timestamps that src/systemd.rs tests.
use systemd_ops.Base.{◌≡◌, refl, codes}
use systemd_ops.Systemd.Clock.{usec_to_rfc3339}

epoch : usec_to_rfc3339 0 ≡ codes "1970-01-01T00:00:00.000000Z"
unfolding usec_to_rfc3339
epoch = refl
