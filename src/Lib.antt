-- ===== src/Lib.antt =====
-- The himate platform: Go services that share a PostgreSQL server and talk over signed HTTP. What is
-- modelled is the core that money and events pass through.
--
-- The parts and their files:
-- - Base: texts as lists of code points with Go's strings functions (the Unicode case tables are an
--   instance argument), int64 with its wrap-around, results, and lists with the searches and
--   updates of SQL statements.
-- - FinancePolicy: services/internal/financepolicy/policy.go, function by function: ValidateDays is
--   validate_days, ResolvePaymentTerms is resolve_payment_terms, NormalizePolicy is
--   normalize_policy.
-- - TenantFinance: services/cmd/tenantfinance/domain.go. Items is calculateItems (calculate_items,
--   one line is add_item); Parties is normalizeCurrency, normalizeInvoicePrefix,
--   normalizeCustomer, normalizeIssuer and validateSourceForService. Store is
--   services/cmd/tenantfinance/storage.go: loadPolicy and savePolicy (load_policy, save_policy),
--   Store/Drafts has createManualDraft and updateManualDraft, Store/Issue has finalizeManual and
--   createAutomatedReady. A name in _tx is the part of an operation that ends with its commit; the
--   operation then reads the invoice again. Consumer is
--   services/cmd/tenantfinance/automation_consumer.go: consumeAutomationOnce is consume_all, after
--   the claim, and a call to the bus is an entry of the list that it returns.
-- - Automation: services/internal/automation/outbox.go in Outbox (EnqueueTx, ClaimOutbox,
--   MarkOutboxPublished, FailOutbox) and services/cmd/automation/main.go in Bus (the handlers
--   subscriptions and events as subscribe and publish_event) and Bus/Deliveries (claim and
--   deliveryAction). Picking is the query that claims of both share. Contract is
--   services/internal/automation/contract.go (SignRequest, VerifyRequest).
-- - ServiceAuth: services/internal/serviceauth/contract.go (KnownCaller, Sign, Verify), the signature of
--   calls between services, with the HMAC and the encodings as parameters.
-- - Payments: services/cmd/payments/main.go: in Requests ensureProfile, the update of a profile and
--   createCharge (create_charge: validate_charge, prepare_charge up to the call of the provider, finish_charge
--   after it), verifyStripeSignature in Signature, stripeWebhook in Webhook. Amounts are float64 in
--   the source: what the service does with them is the record Money.
-- - Partners: services/cmd/partners/main.go: the table lifecycleTransitions, Company (the columns that a
--   request changes), Slug (slugify, partnerTechnicalSlug), Handlers (the PATCH of partnerByID as
--   patch_partner: check_patch, then patch_tx; purgeOperationalPartner), Create (the POST of partners
--   as create_partner), and Archive (archiveComplianceTx of compliance_archive.go). Serve runs requests
--   one after the other. Diagram is the specification of the life cycle, Refines compares the two.
-- - Billing: the tables that services/cmd/billing/payment_provider.go uses; Settlement is
--   paymentSettlement (settle_tx is its transaction), which the webhook of the payment service calls;
--   Onboarding is services/cmd/billing/central6.go: in Rules ensureOnboarding and
--   onboardingPrerequisite, in Modes ensureCommercialMode and its change, in Handler the PATCH of
--   partnerOnboarding (patch_onboarding), in Invoices advanceOnboardingFromInvoice, which a settlement
--   calls (advance_onboarding_from_invoice). Dunning is services/cmd/billing/dunning.go: Steps has
--   markPastDue, suspendForNonPayment and recoverDunningPayment, Collect has queueInvoiceCollection of
--   payment_provider.go (queue_invoice_collection) and what a settlement of a dunned invoice calls
--   after its commit (follow), Cycle has archiveExpiredDunning, runDunningCycle and
--   retryPendingInvoiceCollections, Plans syncPlanEntitlements of plans.go; dates are day numbers. An
--   operation keeps what it wrote when a call to another service fails, as in the source; the answers
--   of those services are functions of all calls made so far. Keeps is the rule by which a property
--   that each write keeps is kept by whole cycles, and History runs cycles, settlements and collections
--   in any order.
--
-- A service fills its outbox in the transaction of its own change. A publisher claims the rows under a
-- lease and posts them to the bus, which stores an event once for its producer and key and adds a
-- delivery for every subscribed consumer. A consumer claims its deliveries under a lease and
-- acknowledges or fails each.
--
-- State is passed explicitly; a request is one step, a transaction that fails leaves the state as it
-- was. A table is a list of rows in the order of insertion. Times are nanoseconds, and a zero time is
-- `none`. The clock is an argument, as is the hash of an envelope. There is no fuel: every loop is a
-- recursion on the list that it runs over.
--
-- Where an operation reads before its transaction, the two stores are two arguments (`before` and
-- `s`), so that whatever other requests do in between is covered. Drafts read one store. The
-- partner's profile, which another service gives, and the new random identifiers are arguments.
--
-- A partner is onboarded by billing, pays its license and its invoices through the payment service,
-- whose webhook settles them with billing, and is taken through its life cycle by the partners service,
-- which asks billing before it provisions.
--
-- Not modelled: plan invoices and plan changes of billing, HTTP and JSON (a handler gets the method
-- test, the verified caller and the decoded body), database failures other than violated constraints,
-- columns that only record when a row was written, listings and exports, and the other services: the gateway, the catalog, provisioning,
-- environments, backups, the connector, content and reports.
pub mod Base
pub mod FinancePolicy
pub mod TenantFinance
pub mod Automation
pub mod ServiceAuth
pub mod Payments
pub mod Partners
pub mod Billing
