-- ===== src/Lib.antt =====
-- Verification library of ksef-client-ts, a TypeScript client for the Polish national e-invoice
-- system KSeF. All paths are below packages/ksef-client-ts/src.
--
-- Parts and files:
--  - Base: shared names; Base/Dict is JavaScript's Map with string keys in insertion order,
--   Base/Number the numbers that guards on options see, Base/Text texts as code points.
--  - Http/CircuitBreaker: http/circuit-breaker-policy.ts. `ensure_closed`, `record_success`,
--   `record_failure`, `release_probe` and `maybe_sweep_stale_closed` are the methods of the same
--   name; the object is a record, and a method returns the new one. Times are microseconds of
--   `performance.now()`; a subtraction of times is written as a sum on the other side.
--  - Http/Retry: http/retry-policy.ts. Delays are in thousandths of a millisecond. `Number(text)` and
--   `new Date(text)` are the parameter `Host`; `Math.random()` is an argument.
--  - Http/RestClient: `sendRequest` of http/rest-client.ts. The environment is a value: an `Entry`
--   before the loop and a `Round` for each attempt, with the transport's replies, the refresh, the
--   limiter and the breaker calls that other requests make while this one awaits. A `Turn` holds
--   the breaker, the ownership of the probe, the events and the verdict. The loop recurs on the
--   attempts that are left, `maxRetries + 1` at the start.
--  - Workflows/MetadataPaging: workflows/metadata-query-paging.ts. The generator's yields are a list
--   and the API is a function of the request and of the number of requests before. The outer loop
--   recurs on the boundary crossings that are left, the inner one on fuel for the pages of a window:
--   a theorem that says how a run ends assumes windows whose pages are within that fuel.
--  - Offline: offline/types.ts and, in Offline/Storage, offline/storage.ts: the filter and the storage
--   in memory, a Map of records.
--  - Offline/Holidays: offline/holidays.ts. A date is a day number of the host's `Date`, a parameter.
--  - Offline/Deadline: `nextBusinessDay` of offline/deadline.ts. Its loop has fuel; that a day is found
--   assumes a business day within the fuel.
--  - Workflows/OfflineInvoice: `submit` of workflows/offline-invoice-workflow.ts over that storage. A
--   `World` gives the time, whether a session opens and how each sending goes.
--  - Builders/BatchFile: builders/batch-file.ts. Bytes are numbers; AES, SHA-256 and the chunks that a
--   stream gives are parameters. splitBuffer has fuel, the length of the data, which is enough.
--  - Xml: the values of xml/types.ts, an object being the list of its entries. Xml/OrderMap:
--   xml/order-map.ts, with `Array.prototype.sort` and `Number(text)` in the parameter `Host`; the
--   table is in Xml/OrderMap/Table.
--  - Workflows/CollectiveIdentifierPaging: workflows/collective-identifier-paging.ts. The yields of a
--   walk are a list and the loop recurs on the pages that are left; the API calls are a parameter.
--  - Workflows/HwmCoordinator: workflows/hwm-coordinator.ts and the store in memory of
--   workflows/hwm-storage.ts. `Date.parse` is a parameter.
--  - Workflows/IncrementalExport: workflows/incremental-export-workflow.ts over that store. A `World`
--   has the export of a window, the download of a part, the archives and the cryptography; the loop
--   recurs on the iterations that are left. The callback of an iteration is left out.
--  - Validation/CharValidity: the discouraged characters of validation/char-validity.ts. The binary
--   search has fuel, the size of the table, which is enough.
--  - Validation/Patterns: `isValidNip` and `isValidPesel` of validation/patterns.ts, their regular
--   expressions written out as tests.
--  - Workflows/Polling: workflows/polling.ts; the loop recurs on the attempts that are left.
--
-- Bounds of the model: the retry budget and the delays of a retry policy, the part sizes of a batch
-- file and the numbers in the names of XML elements are natural numbers, so that negative, fractional
-- and NaN values of them are not covered.
--
-- Not modelled: logging, the bodies and headers of requests, wall-clock scheduling beyond the times
-- that the environment gives.
pub mod Base
pub mod Builders
pub mod Http
pub mod Offline
pub mod Validation
pub mod Workflows
pub mod Xml
