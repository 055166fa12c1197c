-- ===== src/Lib.antt =====
-- cogni-cash: the logic of the web frontend of a personal finance manager.
--
-- The frontend (frontend/src) is a React application. Each page fetches typed data from the backend
-- (frontend/src/api), keeps filters, a selection and dialogs in local state, and computes what it
-- shows by pure functions of the two. Mutations update the query cache at once and roll it back when
-- the request fails. Pages are modelled without their rendering: the state is a record, a handler is
-- a function on it, a memoized value is a function of the state and of the fetched data.
--
-- Files:
-- Base: what the parts share. Base.Int has the integers that stand for amounts of money,
--   Base.Text the operations of JavaScript texts, Base.Collections sets and dictionaries in insertion
--   order, Base.Sort the stable `sort` with a comparator, Base.Platform what the JavaScript engine
--   gives and no source file defines.
-- Types: the types of frontend/src/api/types.
-- Transactions.Page: the state, the handlers and the URL of
--   frontend/src/pages/TransactionsPage.tsx; Transactions.Rows its `filtered` rows and their date
--   range; Transactions.Charts its totals, `chartData`, `topIncomes` and `topSpends`;
--   Transactions.Cache its optimistic mutations; Transactions.Requests the requests of the query
--   and of the mutations; Transactions.Job the effect on the status of the categorization job.
-- Api.Services: the request that each function of frontend/src/api/services sends; Api.Session the
--   interceptor of frontend/src/api/client.ts with the refresh token; Api.Settings the settings of a
--   device (frontend/src/api/utils).
-- Payslips: frontend/src/pages/PayslipsPage.tsx and frontend/src/components/payslips/utils.ts;
--   Payslips.Chart has PayslipChart.tsx, Payslips.Preview the preview of a file.
-- Reconcile: frontend/src/pages/ReconcilePage.tsx.
-- Statements: frontend/src/pages/BankStatementsPage.tsx.
-- Invoices: frontend/src/pages/InvoicesPage.tsx; Invoices.Updates has its handlers and mutations,
--   Invoices.Form the form of frontend/src/components/invoices/InvoiceForm.tsx.
-- LlmProfiles: frontend/src/components/settings/LLMProfileManager.tsx.
-- Analytics: frontend/src/pages/AnalyticsPage.tsx; Analytics.Months has its trends by month.
-- Forecasting: frontend/src/pages/ForecastingPage.tsx; Forecasting.Table has the table of
--   frontend/src/components/forecasting/ForecastTable.tsx, Forecasting.Planned the list and the form
--   of PlannedTransactionsList.tsx and PlannedTransactionModal.tsx beside it.
-- Subscriptions: frontend/src/pages/SubscriptionsPage.tsx with the subscriptions' card of
--   DashboardPage.tsx; Subscriptions.Detail has SubscriptionDetailPage.tsx.
-- Accounts: frontend/src/pages/LoginPage.tsx and ForgotPasswordPage.tsx; Accounts.Passwords has
--   ResetPasswordPage.tsx, Accounts.Users the dialog of UsersPage.tsx.
-- Categories: frontend/src/pages/CategoriesPage.tsx.
-- Connections: frontend/src/pages/BankConnectionsPage.tsx.
-- SettingsPage: frontend/src/pages/SettingsPage.tsx.
-- Documents: frontend/src/pages/DocumentVaultPage.tsx; Documents.Form has
--   frontend/src/components/documents.
-- Sharing: frontend/src/components/ShareCategoryModal.tsx, ShareInvoiceModal.tsx and
--   ShareBankAccountModal.tsx.
--
-- Numbers: the source computes amounts as IEEE doubles. Here an amount is an integer of a fixed small
-- unit, so that sums and comparisons are exact; rounding of doubles is not modelled. Texts are
-- sequences of code points, where JavaScript has UTF-16 units; the two agree on the formats that the
-- code slices and matches. Sets and dictionaries list their elements in insertion order; keys that
-- look like array indices, which JavaScript enumerates first, do not occur as dates or names here, and
-- the years of the chart of payslips are sorted after they are enumerated.
--
-- Parameters: case mapping, collation and the reading of decimal numbers (Base.Platform) and the
-- query cache of TanStack Query (Transactions.Cache.Client), each with the documented laws that the
-- code relies on and with a concrete instance; the network (Api.Session); the text of a number and
-- the product with a ratio of doubles (Payslips, Reconcile), percentages (Payslips.Chart), the year and
-- the time of a date (Statements), and what JSON.parse and JSON.stringify make of profiles
-- (SettingsPage).
--
-- Fuel: only the interceptor of Api.Session is on fuel, which bounds how often it sends a request;
-- two is shown to be enough. Every other function is by structural recursion.
--
-- Not modelled: rendering, translations, most timers that hide messages, network transport, and the backend.
pub mod Base
pub mod Types
pub mod Api
pub mod Transactions
pub mod Payslips
pub mod Reconcile
pub mod Statements
pub mod Invoices
pub mod LlmProfiles
pub mod Analytics
pub mod Forecasting
pub mod Subscriptions
pub mod Accounts
pub mod Categories
pub mod Connections
pub mod SettingsPage
pub mod Documents
pub mod Sharing
