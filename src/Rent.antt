-- ===== src/Rent.antt =====
-- The rent cycle and who may pay: backend/api/rent_cycle.py and
-- backend/services/tenant_rent_eligibility.py.
pub mod Cycle
pub mod Eligibility
pub mod Due
pub mod Payable
