-- ===== src/Api.antt =====
-- api-service/main.py: the connections of the dashboard, the opportunity score and the momentum of
-- sentiment. The routes, which read the database and present what they read, are not modelled.
pub mod Connections
pub mod Opportunity
pub mod Momentum
