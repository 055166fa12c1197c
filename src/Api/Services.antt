-- ===== src/Api/Services.antt =====
-- frontend/src/api/services: one module per service. A constructor is a function of the service with
-- its arguments; the request is what the function sends.
pub mod Transaction
pub mod Subscription
pub mod Bank
pub mod Category
pub mod Invoice
pub mod Payslip
pub mod Document
pub mod Others
