-- ===== src/Lib.antt =====
-- Open Immigration CRM is a Django application for immigration law practices. This library models
-- four parts of its core: billing (crm/billing), connections to other services with what is sent,
-- synced and received through them (crm/connect, crm/events), the workflows of matters
-- (crm/workflows), and the second factor of staff sign-in (crm/two_factor.py). Event delivery is a
-- client of the outbound policy: every attempt is a call of `send`. Webhooks, syncs and the policy
-- share the rows of connections, which the services of crm/connect/services.py make, change and end.
-- Billing asks processors for payment links through the policy, and records the payments that they
-- report. Workflows and the second factor stand by themselves.
--
-- Billing. Amounts are whole cents in ℤ, a line's quantity is in hundredths, and the amount that a
-- payment is recorded with is in ten-thousandths of a dollar before `money` rounds it; the 28 digits
-- of Python's decimals are not exceeded by what the columns hold. Dates are those of `datetime.date`,
-- without its end at the year 9999. `billable_hours` works on doubles: each quotient is rounded to its
-- 53 bits, half to even, in the order of the source's operations.
--   Billing/Money.antt, Billing/Calendar.antt: the arithmetic of crm/billing/services.py and models.py
--   Billing/Records.antt: the rows of crm/billing/models.py that belong to one invoice, and their
--     properties. A plan's reminders, rows of their own there, stand in their installments.
--   Billing/Store.antt: the database as one service call sees it, and the clock. A service is an
--     `Action`: its `ValidationError`s, and the `IntegrityError` of a unique constraint, are errors
--     that carry no store, as the transaction is rolled back. Primary keys come from a counter. An
--     invoice's number is kept as its prefix, year and value, which the printed number tells apart.
--   Billing/Draft.antt, Billing/Sync.antt, Billing/Service.antt, Billing/Plans.antt: the services
--     of crm/billing/services.py, under their names
--   Billing/Links.antt, Billing/Links/Creation.antt: crm/billing/links.py. `create_links` is a client of
--     the outbound policy; the connector's accounts and answers are arguments.
--   Billing/Reported.antt: `store_records` of crm/billing/records.py, at one invoice: a reference names
--     it or none, and what refunds a payment on another invoice is a step at that one
--   Billing/Operations.antt: every service as a request, and histories of requests
-- The modules below these hold their proofs, named for what they prove. Not modelled are
-- `delete_draft`, the query for unbilled time, the details of audit entries, the printed texts
-- and crm/billing/reminders.py. Two calls at once are not modelled: the services lock the invoice's
-- row.
--
-- Outbound requests. Moments are seconds.
--   Connect/Records.antt: connections and what the policy reads of a connector's class, after
--     crm/connect/models.py and crm/connect/base.py, and `mark_connection` of crm/connect/tasks.py
--   Connect/Policy.antt: `evaluate` and `send` of crm/connect/policy.py. What a connector's `perform`
--     answers or raises is an argument of `send`, and each call of it is written to `performed`. The
--     payload, the summary and the kind of target are only stored, and are left out. Calls are decided
--     one after another: the source takes no lock between counting requests and saving one.
--   Connect/Delivery.antt: crm/events/tasks.py, the state of crm/events/models.py, and the loop
--     of `queue_deliveries` in crm/events/services.py. A run that raises leaves the tables as they
--     were. Lookups in the list of delays give an option, of which `none` is an `IndexError`.
--   Connect/Emission.antt: `subscribed` and `emit` of crm/events/services.py, for one object in one
--     transaction; the events that a connection chose in its `config` are an argument
-- The content of events is not modelled, nor are connectors.
--
-- Syncs, webhooks and the life of connections.
--   Connect/Syncs.antt: the rows of runs and crm/connect/scheduler.py. Runs are kept newest first; one
--     reading of the clock serves for a whole step, and the capabilities of a connection are taken in
--     the order of their values. What the receivers of a tick do is an argument.
--   Connect/Syncs/Jobs.antt: `run_sync` of crm/connect/tasks.py, in two halves, so that other steps can
--     come in between or the second half never comes. The connector's batch is an argument; a cursor
--     is the text of its JSON.
--   Connect/Syncs/History.antt: steps of time, workers, staff and jobs in any order
--   Connect/Webhooks.antt: `receive_webhook` of crm/connect/views.py and `process_webhook_event` of
--     crm/connect/tasks.py. The digest and the methods of connectors are fields of `Methods`, and what
--     a connector makes of a payload is an argument. `taken` tells which runs handed on an event's
--     records, and `lost` which failed or stopped before the event was saved; neither is in the source.
--     A job is one step, so the jobs of one event do not overlap. An answer keeps its status and text. The count of attempts has no
--     upper end here. Another exception than a `ConnectorError` out of parsing is an answer of its own.
--   Connect/Settings.antt, Connect/Services.antt, Connect/Access.antt: crm/connect/services.py and `can`
--     of crm/roles.py. The random texts, the digest and what the provider answers are arguments; a
--     setting's value is a text. A connection's class is that of its key in the registry.
-- Connect/Examples.antt is one connection for the tests. Sign-in at providers, pages and forms are not
-- modelled.
--
-- Workflows.
--   Workflows/Records.antt: the rows of crm/workflows/models.py, and the rows of a matter that its
--     workflow touches. A phase's deadline is kept by its key in `work_items`.
--   Workflows/Templates.antt: `save_template` of crm/workflows/services.py and `WorkflowTemplate.clean`
--   Workflows/Phases.antt: the services that apply a template, move a matter from phase to phase and
--     remove its workflow. Template phases and phases are in the order of their positions. The errors
--     carry no matter, as the transaction is rolled back; what `emit` is told is kept in `events`.
--   Workflows/Outline.antt: `parse_outline` and `outline_text`. Which characters are digits, and the
--     text of a number, are Python's and are arguments; letters match as IGNORECASE lets them.
-- The texts of activities and deadlines are not modelled.
--
-- Second factor.
--   TwoFactor.antt: the rows of one user and the functions of crm/two_factor.py. The digest, the hash
--     and `str.upper` are Python's, and are fields of `Library`; the random codes are arguments. One
--     moment serves for both clocks that a check reads. The base32 secret is given to the digest as
--     it is stored.
-- The making of secrets, the QR code and the pages of the sign-in are not modelled.
--
-- Loops are recursion on lists. Only `to_double`, which doubles a quotient until it has 53 bits, runs on
-- fuel: its 128 doublings are enough for every quotient from 2 ^ -75 on (Billing/Money/Doubles.antt), and what is smaller is far below
-- one increment. The seven attempts of a delivery come from
-- the source, and one theorem shows that they end it. A history is a list of steps of any length.
pub mod Prelude
pub mod Billing
pub mod Connect
pub mod TwoFactor
pub mod Workflows
