-- ===== src/Lib.antt =====
-- ThrottleDeck's control window: a browser page that shows a snapshot of the local Governor
-- service and submits control actions to it.
--
-- The window has one source of data, `parseSnapshot`, which turns the JSON of the service into a
-- snapshot or a problem; one client, which loads snapshots and submits actions; a set of
-- derivations, which turn a snapshot into texts and tones; and a state, which `load` and `run`
-- change around the calls of the client. Files and the code that they model:
--
-- - Platform: the number type of JavaScript and the built-in functions on numbers, dates and
--   texts, as a record that every module takes; Laws is what IEEE arithmetic promises of them,
--   and only the theorems that name it rest on it. A module of tests fills both with the natural
--   numbers.
-- - Json: the dynamic values of `response.json()`.
-- - Contracts (ui/src/contracts.ts): Types for the interfaces, Readers for the readers of one
--   field, Rows for `readBudget`, `readAppRow`, `readActivityEvent` and `readBrokerRecord`,
--   Snapshot for `parseSnapshot`, under the source's names in snake_case. WellFormed says what a
--   good snapshot is and Content what it says of its payload; Validity, Built, Accepted, ReadOff,
--   Faithful and Rejected hold the proofs.
-- - Derive (ui/src/derive.ts): Copy, Budgets, Freshness, Apps, Money and Events, with proofs in
--   Header, Alerts and Access.
-- - Api (ui/src/api.ts): Fetch for requests and responses, Csrf for `readCookie` and
--   `readCsrfToken`, Load for `loadSnapshot`, Audit for `runTrafficAudit`, Control for
--   `applyControl`, Actions for the four builders of actions, with proofs in Answers, Bodies,
--   Cookies and Audits.
-- - Markup: what a component gives React to show, as elements with attributes and handlers, and
--   what a click on each part makes happen.
-- - Components (ui/src/components): a module for each component, with its tests, its state where
--   it has one and its markup: ConfirmDialog, SafetyStrip, BudgetCard (with
--   ui/src/useCompact.ts), AppTable, AppDetail, Sparkline, Icons and Header (with `ProblemPanel`
--   of ui/src/App.tsx); ActivityFeed.tsx is ActivityFeed for the listed events, FeedLayout for
--   the state and the compact layout, and FeedPage for the markup. The proofs are in Controls,
--   Feed, FirstAt, FeedLead, FeedShown, Audit, Cards, Bars, Clicks and TableClicks.
-- - App (ui/src/App.tsx): State for the state and for `load` and `run`, each split at its await;
--   Requests for the three confirmations; Handlers for the handlers; Steps for the relation
--   between the states that the window may pass through; Page for what `App` returns and for the
--   handler of each click. Loads, Ids, Invariant, Entitled, Authority, Shown, Busy, Races,
--   Settle, Offers, Clicked, Unchanged and Told hold the proofs.
--
-- Conventions. A field or result that may be null is an Option. A missing key of a JSON object
-- reads as undefined, and an object is the list of its keys, which are distinct in what JSON
-- gives, with their values. The record that `parseSnapshot` fills for the access of applications
-- keeps its own keys and its prototype apart, since the service chooses the keys. A fetcher maps
-- a request to a response, or to none where its promise is rejected; a response has no JSON where
-- `json()` rejects. Statuses and counters are natural numbers. The characters of a cookie are a
-- list of code units, and `decodeURIComponent` is a parameter that may fail, in which case the
-- outcome of the call is thrown. Texts are strings, without lone surrogates.
--
-- A step of the window starts a load, answers any load in flight, answers any action in flight,
-- or is an event of the operator that the page offers then; answers come in any order and from
-- any service, and time is not modelled, so that the timer of polls is the step that starts a
-- load. Each handler reads the current state, as after a render. The functions recur on the
-- structure of their arguments, and no fuel is used.
--
-- The markup is a tree of elements; a click reaches the handler of an enabled button. Attributes
-- are texts, a style is the attribute of its property, and the keys of lists, which React keeps
-- to itself, are left out. The time, the inner width of the window and the states of the feed and
-- the dialog are arguments of the page, so that a timer or a resize is another argument.
--
-- Not modelled: the focus of the dialog; the listeners of ui/src/useCompact.ts; ui/src/main.tsx,
-- which mounts the window; the style sheets; that React throws on an event of the kind
-- `__proto__`, whose title is an object, where the markup shows nothing; the Python services in
-- governor and venue_broker, the scripts, and the bundle in governor/static, which the build
-- generates.
pub mod Base
pub mod Platform
pub mod Json
pub mod Markup
pub mod Contracts
pub mod Derive
pub mod Api
pub mod Components
pub mod App
pub mod Tests
