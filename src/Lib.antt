-- ===== src/Lib.antt =====
-- Verification of the service's core: the sales, the transactional outbox, the identity keys, the
-- stock ledger, the cash vouchers, the purchase bills, the orders, the supplier ledger, and the
-- users and sessions of the repository, as functions and step relations with their theorems.
--
-- The parts, and how they interact:
--
-- - Prelude: shared names; Boolean tests, lists, the integers ℤ with the wrap-around of uint32 and
--   int32, and texts as lists of code points.
-- - Identity (pkg/identity): Decimal and Keys are documentkey.go and the point-of-sale id of
--   requestid.go, Uuid is uuid.go and the request id. Injective and Generated hold the proofs.
-- - Outbox (pkg/outbox): Table is the table outbox with the statements of pkg/db/queries/outbox.sql;
--   Append is Append, Drain is DrainOnce with claim and recordFailure, Backoff is backoff and
--   truncate, Config is config.go. Drained, Settled, Exclusion and Invariant are about DrainOnce.
-- - Stock (pkg/handlers/stock.go): Table is the tables product and stock_movements; Movements is the
--   four recorders that the bill handlers call; Adjust is StockAdjust and StockCheck. Levels and
--   Refusals are about enforce mode, History about the ledger, Replies about the answers of Adjust.
-- - Voucher (pkg/handlers/cash_vouchar.go): Table is the table cash_voucher; Handlers is the five
--   requests that change it and the validation; Workflow lets requests overlap; Approval, Numbers
--   and Validation are about what the handlers promise.
-- - Sale (pkg/handlers/sale.go, bill_sale.go, and BillEvent of pub.go): Table is the tables of bills;
--   Request is what is checked before the transaction, Write and Complete are its statements, and
--   Handler is saveSale as a whole; Event is the outbox event. It calls the recorder of Stock, Append
--   of Outbox and the validators of Identity. Rules, Opened, Finish, Paid, Record and Written carry a
--   property of the bills and payments through the transaction; Replay and Retry hold the theorems.
--   Delete is DeleteBillDetail of bill.go, and Deleted is about it.
-- - Purchase (pkg/handlers/purchase_bill.go): Table is the tables of purchase bills; Request is the
--   request and the rules on prices and on the PDF; Products is the lines and the products that they
--   update or create; Bill is the transaction of a new bill and Handlers the three requests. It
--   calls the recorders of Stock. Ledger, History and Runs are about the stock, Created, Refusals
--   and Saved about the rows of a bill.
-- - Order (pkg/handlers/order.go): Table is the tables of orders, Handlers the three requests that
--   write them; Totals, Rows and Runs are about the total of an order.
-- - Supplier (pkg/handlers/supplier_ledger.go): Ledger is the entries by supplier, the running balances
--   and the summary; Balance is about the summary.
-- - User (pkg/handlers/auth.go, user_admin.go): Table is the tables of users and tokens and the
--   third-party services; Sessions is Login, Refresh and Logout, Passwords the resets, Accounts
--   CreateUser and Register, Changes UpdateUser and DeleteUser, Access the middleware; Requests is
--   a request to any of them. Rules, Effects, Guards and Guarded are about the table user; Refreshed,
--   Revoked, LoggedIn, Renewal and OneReset about tokens.
-- - Pagination (pkg/pagination): Cursor is cursor.go, ListQuery is listquery.go; Pages is about the
--   limit, the rows and the cursor of a page.
--
-- Conventions. A table is a list of rows, a statement a function on it. The state of a component is
-- passed along, and a handler returns its answer with the new state. Which statements fail is an
-- argument (a record of faults), so every error path is a value of that argument. A DECIMAL is an
-- integer count of its last place, rounded where a generated column of the database rounds; requests
-- whose numbers have more places than the columns that take them are outside the model of the stock,
-- the sales and the purchases. An UPDATE that the constraint on a product's quantity refuses fails.
-- A time is a natural number; in the outbox it is in nanoseconds, and its columns round to seconds. The stock, purchase, order and user handlers run alone; the requests on
-- vouchers, whose check and write are separate statements, are interleaved. In a sale the consistent
-- reads see a view of the bills that may be older than the table, so a race for a request id is a
-- view without the bill that the unique key then finds.
-- What is not under the repository is an argument: the message publisher, the JSON check, the parsers
-- of numbers and durations, strings.ToLower, the random bytes of a UUID, the fingerprint of a request
-- (SHA-256 of its JSON), the JSON of an event, the base64 JSON of a cursor, bcrypt, the JWT library,
-- the collation of user names, and the order in which Go walks a map.
--
-- Bounds and fuel. The decimal digits of a uint64 are computed on fuel 20, the most digits that it
-- has, which the injectivity of the document keys uses; the other loops are structural recursion on
-- the list they walk or on a count.
--
-- Not modelled: the HTTP frame (gin), JSON of replies, logs, read-only lists and reports, PDF and
-- message services, password hashing and JWT. The summary of the vouchers, whose query errors the
-- source ignores, and the requests that delete branches, which set a voucher's branch to NULL, are
-- left out. The float64 totals of the supplier ledger are exact here, its amounts natural numbers; created_at and updated_at, which the
-- database writes, are left out.
pub mod Prelude
pub mod Outbox
pub mod Identity
pub mod Stock
pub mod Voucher
pub mod Sale
pub mod Pagination
pub mod User
pub mod Purchase
pub mod Order
pub mod Supplier
