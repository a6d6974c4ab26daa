-- ===== src/TenantFinance.antt =====
-- services/cmd/tenantfinance: the invoices that a partner issues to its own customers.
pub mod Items
pub mod Parties
pub mod Store
pub mod Consumer
