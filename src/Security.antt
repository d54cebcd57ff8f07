-- ===== src/Security.antt =====
-- packages/domain/full_shelf_domain: who may act on which data (authority.py), and the signed
-- approvals that allow a repair (kms.py).
pub mod Approvals
pub mod Scopes
