-- ===== src/Api.antt =====
-- pkg/apis/unikorn/v1alpha1 and pkg/constants: the resource types and their vocabularies.
pub mod Reason
pub mod Names
pub mod Object
pub mod Conditions
pub mod Tags
pub mod Application
pub mod Scalars
