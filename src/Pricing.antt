-- ===== src/Pricing.antt =====
-- internal/pricing: the price table of the models, and how a reported model name finds its row.
pub mod Name
pub mod Price
pub mod Match
pub mod Basename
pub mod Registry
pub mod Admin
pub mod Suggest
mod Tests
