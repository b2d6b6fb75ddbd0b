-- ===== src/Lib.antt =====
-- Models of the parts of cards402 that move money: the agent SDK (sdk/src), which orders a prepaid
-- card over HTTP, pays a Soroban contract on Stellar for it and waits for the card; the backend
-- (backend/src), which takes the payment, buys the card or refunds the agent; and the roles of the
-- dashboard (web/app/dashboard/_lib/permissions.ts).
--
-- The parts, and the files that model them:
--   Prelude       shared names, Boolean tests, lists, texts as lists of codes, trimming.
--   Errors        sdk/src/errors.ts: the error classes as one data type, `Result`, parse_api_error.
--   Amount        decimalToStroops of sdk/src/soroban.ts, and the amount check that
--                 sdk/src/commands/purchase.ts and sdk/src/mcp.ts make in the same words.
--   Client        sdk/src/client.ts: types in Client, validateOrderId in OrderId, fetchWithRetry in
--                 Retry, createOrder and getOrder in Orders, the phases in Settle, waitForCardPoll in
--                 Poll, the event stream in Events and Stream, waitForCard in Wait.
--   Soroban       sdk/src/soroban.ts: the URLs and selectContractCall, buildContractPaymentTx in Build,
--                 submitSorobanTx in Submit.
--   Pay           payViaContractOWS of sdk/src/ows.ts, and payViaContract of sdk/src/stellar.ts in Raw.
--   Purchase      purchaseCardOWS of sdk/src/ows.ts: types and checkSorobanTxLanded in Purchase,
--                 getOWSBalance and the trustline test in Account, the steps and the whole in Steps.
--   Command       sdk/src/commands/purchase.ts: parseArgs in Args, the file of the last order in
--                 LastOrder, purchaseCommand in Run.
--   Config        sdk/src/config.ts: loadCards402Config, assertSafeBaseUrl, resolveCredentials, and the
--                 constructor of Cards402Client.
--   Permissions   web/app/dashboard/_lib/permissions.ts; backend/src/lib/permissions.js in Backend.
--   Decimal       the decimal amounts of backend/src/payment-handler.js and backend/src/fulfillment.js,
--                 with the integers and the reading of BigInt (Int, Print).
--   Fulfillment   the life of an order in the backend: its row, the calls and the waiting functions in
--                 Fulfillment, scheduleRefund of backend/src/fulfillment.js in Refund, handlePayment of
--                 backend/src/payment-handler.js in Handler, backend/src/api/vcc-callback.js in
--                 Callback, the order jobs of backend/src/jobs.js in Jobs, and all of these as one step
--                 relation in Steps.
--   Response      buildOrderResponse of backend/src/api/orders.js, with backend/src/lib/card-vault.js in
--                 Vault and backend/src/lib/normalize-card.js, as the SDK reads it.
--   Policy        checkPolicy of backend/src/policy.js.
--   Signature     verifyCallback of backend/src/lib/hmac.js, verifyVccSignature of
--                 backend/src/vcc-client.js.
--   Webhooks      the circuit breaker and the queue of backend/src/fulfillment.js, retryWebhooks of
--                 backend/src/jobs.js.
--
-- How they interact: Command checks the arguments and calls Purchase, keeping the state of a
-- resumable error in a file for the next run. Purchase calls Client for the order and the card, and
-- Pay for the payment; Pay builds and submits with Soroban; each says by its error whether a
-- transaction may still be applied, and Purchase waits or stops by that. Purchase takes the calls of
-- Client, Pay and Horizon as the fields of a record, Services, and Command takes the purchase as a
-- field of its environment.
--
-- In the backend a payment event calls Handler, which reads amounts with Decimal, claims the order's
-- row, asks the card service for an invoice, pays it and says so; a callback that Signature and the
-- checks of Callback let through delivers the order or fails it; the jobs retry what got stuck; and
-- a failed order goes to Refund. An `async` function is cut at its awaits: what is left of it is a
-- value, a Task, that waits in the state for its reply, and Steps lets the waiting functions,
-- events, jobs and decisions follow one another in any order; its second relation, Course, adds the
-- suspension of an agent (backend/src/api/dashboard.js), which writes an order whose approval
-- request is pending. The state holds one order, the list of the calls made for it, the payments
-- kept apart, the clock and the freeze switch. The rules of Policy are asked before an order exists;
-- Webhooks tells the agent of what became of it, and Response shows it to an agent that asks, whose
-- wait (Client) takes the card from there.
--
-- The world outside is a parameter: replies of the backend, the RPC server and Horizon are functions
-- of the number of the call, clocks are functions of the round, and JSON, URLs, keys and signatures
-- are functions or their results; so are the HMAC, the opening of sealed secrets, floats, and
-- whether a delivery of a webhook succeeds. What a theorem needs of them is among its hypotheses:
-- that a clock advances by the interval that the code sleeps, that a jitter is in its range, that
-- stellar-sdk assembles a transaction without changing its call or number, that the ledger applies
-- one transaction at most for an account and sequence number, that JSON that is printed parses back,
-- that the secret box opens what it sealed.
--
-- Fuel: submit_soroban_tx runs its polling for 61 rounds of two seconds, which is more than its
-- deadline of 120 seconds. The buffer of the event stream is drained with its length as fuel, and
-- each event takes two characters. The polling of wait_for_card has the fuel as an argument, and its
-- theorem asks for one round more than the timeout holds intervals. run_waits of Fulfillment/Handled
-- has five waits as fuel, the four awaits of handlePayment and one of its refund. print_nat has one
-- more than its number as fuel, which has fewer digits. Everything else is structural recursion.
--
-- Not modelled: what is printed or logged, the signing of transactions, aborting by timers except as
-- errors that they cause, listOrders, getUsage and reportStatus, onboarding and wallets, the MCP and
-- MPP clients, the version check, saving the config, the dashboard's other helpers, the contract
-- (Rust) and the user interface. Of the backend: the creation of orders and the routes of the API,
-- the Stellar watcher and sender, the sending of a webhook, sign-in, alerts and retention; and of
-- what is modelled, the audit rows, telemetry columns and totals of a key, the approval requests but
-- for whether one is pending (in the suspension of an agent), the webhook of a decision, the columns
-- of an order for its card, which retention empties, and for MPP, and an UPDATE that fails. Texts
-- are lists of code points where JavaScript has UTF-16 units.
pub mod Prelude
pub mod Errors
pub mod Amount
pub mod Client
pub mod Soroban
pub mod Pay
pub mod Purchase
pub mod Command
pub mod Permissions
pub mod Config
pub mod Decimal
pub mod Fulfillment
pub mod Policy
pub mod Signature
pub mod Webhooks
pub mod Response
