-- ===== src/Lib.antt =====
-- MintFlow records a person's expenses: a capture draft is filled by hand, from Telegram or by reading
-- a receipt, and is confirmed into an expense, which can be edited, deleted and restored. People sign
-- in by a link that is sent by e-mail, and may link a Telegram account. This library models the
-- program's core as functions and proves what makes it correct.
--
-- The parts and their files (paths of the repository under src/mintflow):
--   Domain/Money, Values, Category   domain/capture/money.py, values.py, category.py: the checked values
--   Domain/Draft (Edit, Lifecycle,   domain/capture/draft.py: each method of `CaptureDraft` is a function
--     Recognition)                   from a draft to a draft or the error it raises
--   Domain/Draft/Steps               calls of these methods in any order, as a relation on drafts
--   Domain/Expense, Domain/Receipt   domain/capture/expense.py, receipt.py, in the same way
--   Domain/User                      domain/user/model.py, preferences.py
--   Capture/Changes, Dates           application/capture/expense_changes.py, transaction_dates.py
--   Capture/Database                 infrastructure/persistence/capture_drafts.py, expenses.py,
--                                    expense_changes.py: the tables and the queries on them
--   Capture/ConfirmDraft,            application/capture/confirm_draft.py, edit_expense.py and
--     EditExpense, Deletion          expense_deletion.py: each use case is one transaction
--   Authentication/Store             infrastructure/persistence/models.py: the tables of accounts
--   Authentication/Sessions          application/authentication/web_session.py and
--                                    infrastructure/persistence/web_sessions.py
--   Authentication/Login             application/authentication/login_challenge.py and
--                                    infrastructure/persistence/login_challenges.py: the use of a link
--   Authentication/RateLimit         application/authentication/rate_limit.py and
--                                    infrastructure/persistence/authentication_rate_limits.py
--   Telegram/Links                   application/telegram/linking.py, link_use_cases.py and
--                                    infrastructure/persistence/telegram_links.py
--   Calendar                         the dates of Python's standard library, and their day numbers
--   Capture/History                  application/capture/expense_history.py and `list_history` of
--                                    infrastructure/persistence/expenses.py
--   Telegram/Conversation            application/telegram/conversation.py and
--                                    infrastructure/persistence/telegram_conversations.py
--   Telegram/Parsing, Flow           telegram/parsing.py and telegram/capture_flow.py: an update is a
--                                    step on the tables, the conversations and the queued receipts
--   Users/Deletion                   application/users/deletion.py; References are the foreign keys of
--                                    infrastructure/persistence/models.py, and Statements is
--                                    infrastructure/persistence/account_deletion.py
--   Rates                            application/rates/rates.py and
--                                    infrastructure/persistence/exchange_rates.py
--   Analytics/Periods                application/analytics/periods.py
--   Analytics/Aggregates, Queries    application/analytics/aggregates.py and
--                                    infrastructure/persistence/analytics.py: the statements as
--                                    grouping and ordering of the rows of Capture/Database
--   Analytics/Dashboard              application/analytics/dashboard.py: Shares, Figures, Converter,
--                                    Converted, Detail and Build are its functions in this order
--   Prelude                          what the sources use of Python: results, texts, datetimes,
--                                    integers, decimals and stable sorting
--   Tests                            runs on concrete data
--
-- How the parts meet: the use cases of Capture read and write the tables of Capture/Database and call
-- the domain; Login opens sessions of Sessions and makes users of Domain/User; Links asks Sessions'
-- table whether the caller's session is valid, and unlinking removes the row of the bot's conversation;
-- Flow locks that row, edits the draft it points at, and confirms through Capture/ConfirmDraft; the
-- deletion of an account removes the rows of every part.
-- The dashboard reads its aggregates through `AnalyticsRepository`,
-- which Analytics/Queries fills from the tables of Capture/Database, and converts through Rates.
--
-- How the code is modelled:
--   A raised exception is the error of a result, and rolls a transaction back; a method that returns a
--   changed copy is a function. The clock is an argument, and so is each id or secret that is drawn:
--   ids and digests are numbers. A datetime is naive, or aware with an offset, and a UTC datetime is
--   its instant, a number of microseconds; two are compared as instants. A text is the list of its code
--   points; case mapping is the record `Unicode`, of which it is assumed that it fixes ASCII letters of
--   the case it maps to, and the time zone database is the record `Zones`. Dates are those of the
--   proleptic Gregorian calendar, with years of four digits where they are printed.
--   Transactions are taken one after the other: the locks that make them so are not modelled. Rows of a
--   table form a list; an insertion checks the unique constraints, a query takes the first row that
--   fits. Foreign keys are checked in the deletion of an
--   account only. An update of the bot reads the clock once.
--   Two loops run on fuel: the monthly buckets of the chart get a round more than the period has days,
--   which suffices since each round starts a later month, and the walk through the history a page more
--   than it has rows, which suffices since each page that has a next one is not empty. All other
--   functions are structurally recursive.
--   Decimals are coefficient and exponent, rounded to 28 digits after each operation; the limits on
--   exponents are left out. The table of rates keeps ten decimals: the database rounds what is written,
--   half up, and refuses a value of more than 24 digits or one that rounds to zero, which is how
--   PostgreSQL treats its column type. How the database orders texts is the record `Collation`, of which nothing is
--   assumed, and the order that statements give to rows is that of a stable sort by their keys.
--
-- Not modelled: the web and HTTP interfaces, the bot's texts and keyboards and its worker for
-- receipts, the recognition of receipts, the sources of exchange rates, retention, and the reading of
-- configuration.
pub mod Prelude
pub mod Calendar
pub mod Domain
pub mod Capture
pub mod Authentication
pub mod Telegram
pub mod Users
pub mod Rates
pub mod Analytics
mod Tests
