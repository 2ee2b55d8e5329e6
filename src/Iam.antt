-- ===== src/Iam.antt =====
-- Identity and access (pkg/modules/iam and its stores).
pub mod Refresh
pub mod Rbac
pub mod Ids
pub mod Service
pub mod Security
pub mod AuthCache
pub mod Authentication
pub mod Registration
