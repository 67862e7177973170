-- ===== src/Lib.antt =====
-- The operational core of Orvo Brain: the cases that a shop's operator works on, the history of the
-- report runs, and the redaction that both pass their texts through.
--
-- Parts and their files:
-- - Base and Value: what the modules share. Results stand for calls that raise, `Base.Offset` has
--   the two replacements between the offset of UTC and Z, `Dict` is for Python's dict, `Value` for what a `dict[str, Any]` holds, `Base.Sort` for the stable sort.
-- - Model: the exceptions, `datetime` arguments and the pydantic checks that several modules use.
-- - Redaction: app/brain/security/redaction.py. `Engine` is what the code takes from `re`,
--   `urllib.parse` and `str.lower`; no assumption is made on it. Uri and Coverage are
--   about what is left to see, `Redactor` is what the stores use.
-- - Cases: app/brain/operational_cases.py. Status has the vocabularies and the lifecycle table,
--   Record and Validators the models, Unique and Detection the helpers, Upsert and Changes the
--   case that a call builds, Mutations the four operations over any store (`StoreOps`), InMemory and
--   Listing the in-memory store. Validity, Same, Timeline, Built, Lifecycle, History, Opening, Progress and Moves are
--   about one call; Calls has calls as data and what holds along every sequence of them.
-- - Run: app/brain/run_ledger.py. Metadata, Record and Ledger have the code, Kept, Revalidated, Evolution, Invariant,
--   Appends, History and Trace what a call and a sequence of calls does to a run, InMemory the in-memory ledger.
-- - Listing: the filters, the sort and the limit that the in-memory stores list by.
-- - Auth: app/brain/operator_auth.py, with Auth.Access on what a principal may do and what is shown, and
--   Auth.Commas on the items of a header.
-- - Dispatch: `_send_text_once` of app/brain/dispatch.py, with the message bound of
--   app/brain/reporting.py. The WhatsApp client is a parameter that answers as it likes.
-- - Scheduler: app/brain/scheduler.py, over a `Calendar` that stands for `int`, `str.split` and
--   `zoneinfo`.
-- - Platform: what the workflow modules take from the host: the clock, `astimezone`, `isoformat`,
--   `sha256` and `str.strip`.
-- - Catalog: app/brain/action_catalog.py.
-- - Workflow: app/brain/workflow_action_ledger.py, workflow_approval_queue.py and
--   workflow_execution_queue.py. Record and Ledger have the in-memory store, Queues the projections;
--   Decision, Outcomes and Outcome are about one call, Consistent, Keeps, Settles, Calls and Final
--   about the invariant and sequences of calls, Awaiting, Exact and Handover about the queues; Sqlite
--   and Updates have the SQLite store over tables as lists of rows, Mirror and Mirrored compare its
--   recordings, Rows, Mirrors and Mirroring its decisions, Durable its sequences of calls. The ids
--   are made of the first 16 digits of a hash: that two keys in use never get the same id is a named
--   hypothesis (`DistinctIds`).
-- - External: app/brain/external_actions.py over any run ledger. Request has the checks and the
--   projections, Execute the control flow; Audit, Approval, Cleared, Guards, Marks and Once what a call leaves in the
--   ledger, when a client is called, and how often. The client is a parameter that answers as it likes.
-- - Automation: app/brain/workflow_automation.py. Rule has the validation and the projections,
--   Simulate the planning; Plans, Rerun and Simulated what a plan contains and what a second run does.
-- - Delivery: app/brain/delivery_status.py. Webhook parses a payload, Store has the append-only table;
--   Statuses and Reported are about what is parsed, Again about retried webhooks.
-- - Audit: app/brain/operator_audit.py, over its table as a list of rows.
-- - Examples: concrete inputs.
--
-- How the code corresponds: a store is passed explicitly, an operation returns its result (`ok` or
-- `raise`) and the store after it; an exception is raised before the store is written, as in the code.
-- An instant is a number of microseconds in UTC; a `datetime` argument may be `naive`, which the
-- validators refuse. Where pydantic collects several errors, the first one is raised here. `uuid4`, the
-- clock and `str` are the `Host` of a call. Model copies are values, so `deep=True` needs no store of
-- objects. All functions are total by structural recursion; no fuel is used.
--
-- Not modelled: the SQLite stores of cases and runs, the detection of cases from a report, HTTP routes, adapters of third-party services, and floating-point metrics.
pub mod Base
pub mod Value
pub mod Workflow
pub mod External
pub mod Automation
pub mod Model
pub mod Platform
pub mod Catalog
pub mod Listing
pub mod Redaction
pub mod Cases
pub mod Run
pub mod Auth
pub mod Dispatch
pub mod Delivery
pub mod Audit
pub mod Scheduler
pub mod Examples
