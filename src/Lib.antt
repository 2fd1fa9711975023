-- ===== src/Lib.antt =====
-- Cost management for the AI Grid: a model of the cost service in inventory-watcher/.
--
-- The service keeps an inventory of tenants' resources in PostgreSQL. Metering turns the time that
-- resources run, and the usage that events report, into metering entries; rating turns these into
-- cost entries by tiered rates or by pricing rules; quotas raise alerts when a window's use passes
-- their thresholds; wallets are debited with the costs. An agent in each Kubernetes cluster, in
-- kube-cost-agent/, sends events to the service. Paths are below inventory-watcher/internal unless
-- they start with kube-cost-agent.
--
-- Parts and files:
-- - Calendar: the calendar of Go's time package, on microseconds since the zero time. Durations has
--   the int64 of nanoseconds, which wraps around.
-- - Billing: billing/period.go. Period has ResolvePeriod and PeriodLabel (resolve_period,
--   period_label), Duration the parsers of "Nd" and "Nh".
-- - Decimal: the interface of github.com/shopspring/decimal and the rounding of NUMERIC columns,
--   as parameters with their documented laws, and whole numbers as an instance.
-- - Models: inventory/models.go, a record per struct.
-- - Store: inventory/store.go. A table is the list of its rows, in the order of insertion; a
--   function is the effect of its SQL, the sequences of the ids included; the order of a query by
--   meter_name is left out, that by id is the order of insertion. Tables has the state, Inventory,
--   Metering, Quotas, Wallets and Events the operations, under the names of the Go methods.
-- - Metering: metering/metering.go and billable.go. States, Meters (the entries of a period) and
--   Sweep (the sweeps, final metering, event-driven metering).
-- - Rating: rating/rating.go. Tiers (ApplyRate and the waterfall), Index (buildRateIndex,
--   matchRate), Sweep (the loop over batches, tryRuleEngine), Thresholds (evaluateThresholds) and
--   Wallets (DeductWallets).
-- - Api: api/handler.go. Quotas has CreateQuota, UpdateQuota (handle_update_quota), DeleteQuota and
--   validateProjectOvercommit, Wallets CreateWallet, TopUpWallet and AdjustWallet
--   (handle_create_wallet, handle_top_up_wallet, handle_adjust_wallet), on decoded requests, Status
--   GetQuotaStatus and GetEntitlementValue.
--   Events has the ingestion of events: CloudEvents (the envelope and the errors), Payloads (the
--   structs of the data), Validate (classifyEvent, validateCloudEvent), Resources and Inference (the
--   handlers of the event types) and Process (processEvent, the transaction, IngestEvent and
--   IngestEventBatch).
-- - Json: documents as encoding/json decodes them, up to the spelling of keys.
-- - CustomMetrics: custommetrics/custommetrics.go. Config has validate and the map that
--   LoadFromFile makes, Extract the fields of an event, Registry ClassifyEvent and ProcessEvent.
-- - Osac: osac/types.go. Watcher: watcher/watcher.go, from handleEvent on; watch is a sequence of
--   events. Reconciler: reconciler/reconciler.go; reconcile_table has the two loops that three of
--   the kinds share. Store.Alive tells which resources are alive.
-- - Agent: kube-cost-agent/internal. Kube has the Kubernetes objects, Controller the data of the
--   events of controller/controller.go, Controller.Handlers its handlers and heartbeats, Emitter
--   emitter/emitter.go; Reaches are the states of its loop.
-- - Splunk: splunk/forwarder.go. sweep is forward_sweep, on the answers of the collector.
-- - Fixtures and the modules Tests: concrete runs.
--
-- Numbers: a float64 quantity is a whole number of millionths, the scale of its columns, and its
-- arithmetic is exact; a duration in seconds is then a number of microseconds. An amount of money
-- is a decimal, counted by `amount` in a finest unit. int64 identifiers and counts are unbounded, a
-- duration that is multiplied by time.Second wraps around (add_negated).
-- Fuel: the loop over the batches of the rating sweep has one unit more than there are metering
-- entries; a batch rates at least one. The sweep of the forwarder has fuel for three posts of each
-- raw event: a third error in a row ends it.
--
-- Parameters: the rule engine behind tryRuleEngine (`Rules`), the SHA-256 of an event,
-- strconv.ParseFloat and the `%v` of a value (`EventHandler`, `Formats`), the order in which Go
-- visits a map (`MapOrder`), the answers of the Splunk collector and of the consumer of the agent's
-- events, the lists of the OSAC API (`Listings`), and Quantity.Value (`Settings`).
-- Not modelled: the failure of a statement of the database, logging, counters and tickers, the rest
-- of the HTTP API, reports, the Kafka and OSAC clients, authentication and the configuration.
pub mod Prelude
pub mod Calendar
pub mod Billing
pub mod Decimal
pub mod Models
pub mod Json
pub mod CustomMetrics
pub mod Store
pub mod Metering
pub mod Rating
pub mod Api
pub mod Agent
pub mod Osac
pub mod Watcher
pub mod Reconciler
pub mod Splunk
pub mod Fixtures
