-- ===== src/GuestCodes.antt =====
-- portal/store_guestcode.go, portal/admin.go and portal/internal/dbstore/models.go: guest codes and
-- their redemptions.
pub mod Rows
pub mod Store
pub mod Queries
pub mod Counts
pub mod Redemption
pub mod Valid
pub mod Invariant
pub mod Lookup
pub mod Changes
pub mod Added
