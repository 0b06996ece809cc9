-- ===== src/Plan.antt =====
-- internal/storage/plan_token.go and plan_transaction.go: plans that a caller confirms with a signed token.
pub mod Base64
pub mod Order
pub mod Binding
pub mod Canonical
pub mod Token
pub mod Verify
pub mod Issued
pub mod RoundTrip
pub mod Execute
pub mod Applied
pub mod Outcomes
pub mod Reads
pub mod SingleUse
pub mod Create
