-- ===== src/Transactions.antt =====
-- frontend/src/pages/TransactionsPage.tsx: the transactions page without its rendering.
pub mod Page
pub mod Rows
pub mod Charts
pub mod Cache
pub mod Job
pub mod Requests
pub mod Samples
mod Tests
