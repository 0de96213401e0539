-- ===== src/Sync/Order/Tests.antt =====
-- The order of reports on one client.
use dreamsso.Common.{ℕ, none, some, true, ◌≡◌, refl, [], nat_eq, option_eq}
use dreamsso.Common.Result.{ok}
use dreamsso.Store.{RoleSyncState, revisioned}
use dreamsso.Sync.Order.{
  RoleCatalog, catalog_order, revisioned_order, revision_order, apply, same_digest, EnvelopeTime,
}
use dreamsso.Sync.Order.Monotone.{catalog_order_revisioned, Ordered}

abbrev state : RoleSyncState
state = record {
  catalog_mode = revisioned;
  catalog_epoch = some 4;
  catalog_revision = some 8;
  catalog_digest = some 1;
  last_sync_iat = 100;
  authority_epoch = 5;
  authority_revision = 3;
}

abbrev report : RoleCatalog
report = record { roles = []; default_role = none; site_name = none; version = some (4, 9) }

abbrev digest : RoleCatalog → ℕ
digest cat = 2

order_run : catalog_order digest state report 200 true ≡ ok apply
unfolding catalog_order revisioned_order revision_order
order_run = refl

catalog_order_revisioned_example :
    (epoch : ℕ) × (incoming : ℕ) × (current : ℕ) × (report.version ≡ some (epoch, incoming))
    × (state.catalog_epoch ≡ some epoch)
    × (state.catalog_revision ≡ some current)
    × Ordered apply incoming current (same_digest digest state report)
catalog_order_revisioned_example =
    catalog_order_revisioned digest state report 200 true apply refl order_run

abbrev time : EnvelopeTime
time = record { iat = 1000; exp = 1300 }
