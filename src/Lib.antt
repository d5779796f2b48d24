-- ===== src/Lib.antt =====
-- Verification of the ticketing core of Proman Edge ACE (backend/src).
--
-- The program is a NestJS service over a PostgreSQL database. TicketsService is the entry for everything that
-- happens to a service ticket; it moves a ticket's status only through WorkflowService, computes due dates with
-- the service-level policies and the business-hours clock, and tells people by way of the notification
-- templates and the notification gateway. A cron checks the clocks of open tickets every 15 minutes
-- and climbs an escalation ladder after a breach. AuthService guards the accounts.
--
-- Which file models which part:
--   Schema, Domain   backend/prisma/schema.prisma: the tables' rows and the enumerations
--   Env, Action      what a call reads from outside, and a call itself: it reads its environment, reads and
--                    writes the database, and returns or throws. What was written before a throw
--                    stays written, unless the call is a transaction.
--   Store            Prisma's reads and writes of single rows
--   Workflow         ticketing/workflow/workflow.service.ts and workflow.constants.ts
--   SlaPolicy        ticketing/sla-policy/sla-policy.service.ts (resolve), tickets/sla-policy.constants.ts
--   BusinessHours    ticketing/tickets/business-hours.util.ts
--   Notifications    notifications/notification.service.ts (send) and notification-template.service.ts
--   Tickets          ticketing/tickets/tickets.service.ts: Labels (constants), Routing (managersForRegion,
--                    pickRoundRobinAsm), Numbering (ticket-number.util.ts), Announce (the notifications
--                    of a new ticket), Creation (create), Dispatch (assign to acknowledgeEscalation),
--                    Edits (resolveDuplicate and the updates), Progress (reachedSite to regularize,
--                    and csat/csat.service.ts), Intake (imports and automatic tickets)
--                    Queries (list and findOne)
--   Visits           ticketing/fsv/fsv.service.ts: Editing, Items (parts and photos), Submitting
--   PriceLists       ticketing/price-lists/price-list.service.ts
--   Quotations       ticketing/quotations/quotation.service.ts: Chargeability, Drafting (the editor), Orders (to
--                    ERPNext and the purchase order), Billing (deliveries and invoices), Direct (the path
--                    without a quotation)
--   Contracts        ticketing/amc: Schedule and Visits (amc-contract.service.ts), Renewal (amc-renewal.cron.ts)
--   Machines         ticketing/equipment: Warranty (equipment.service.ts), Engines (warranty-engine.cron.ts,
--                    warranty-pm.cron.ts and amc/amc-visit.cron.ts), Predictive (predictive-engine.cron.ts)
--   Users            users/users.service.ts and auth/roles.guard.ts
--   SlaBreach        ticketing/tickets/sla-breach.cron.ts and sla-notification-rule.service.ts
--   Auth             auth/auth.service.ts and auth/jwt.strategy.ts
--   Tests            concrete data, and the theorems applied to it
--
-- A definition has the source's name in snake case. Rows stand under their keys; a UUID is a number, since the
-- program only compares it, and a new row gets a key that no row has. Foreign keys are not enforced:
-- a missing customer makes the call throw, as Prisma's findUniqueOrThrow does. Times are milliseconds
-- since the epoch, and one reading of the clock serves a whole call. Calls run one after the other; the
-- notifications of a new ticket, which the service does not wait for, run at the place where they
-- start. A service's writing operations are the constructors of its type of requests, and
-- Action.Requests.serve answers a list of them, each at its own time: what a request that throws
-- has written stays written. A quantity, a price or an amount is a number of JavaScript's under its
-- bits, and its sum and product are operations of Env; an hours meter is in thousandths of an hour.
--
-- Parameters: the answers of the gateways and of ERPNext (Env.Erp, which stands for the client of
-- erp-writeback.service.ts), JavaScript's Date and numbers, the database's matching of text (Env) and its sorting
-- (Tickets.Queries.Sorter), the environment's variables (Env), the password and
-- token libraries (Auth.Crypto), and the CSV parser's answer (Tickets.Intake). The message of a locked account
-- is modelled without its time.
--
-- The loop of addBusinessHours runs on fuel: twice the hours, twice the days to the last holiday and three more
-- rounds, which is enough for every input. So does the loop over the months of a warranty: two rounds
-- more than the milliseconds up to its end, which is enough where the interval is a month at least; an
-- interval of 0 months, which the checks of a request refuse, plans nothing here. All other loops are
-- structural. The shares of a contract's time are divided exactly and then rounded down.
--
-- Not modelled: todayVisits, timeline and the other lists that only read, the expiry cron and the
-- PDF of quotations, the masters' administration, ERP synchronisation, dashboards, reports and the frontend.
-- The generic trail of changed fields that backend/src/prisma/prisma.service.ts writes for
-- visits, contracts, quotations and users is left out: `audit_log` holds the entries that the services write.
pub mod Prelude
pub mod PriceLists
pub mod BusinessHours
pub mod Domain
pub mod Schema
pub mod Env
pub mod Action
pub mod Store
pub mod SlaPolicy
pub mod Workflow
pub mod Notifications
pub mod Tickets
pub mod Visits
pub mod Contracts
pub mod Machines
pub mod Quotations
pub mod SlaBreach
pub mod Auth
pub mod Users
pub mod Tests
