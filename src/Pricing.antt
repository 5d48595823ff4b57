-- ===== src/Pricing.antt =====
-- modules/pricing: tariffs and the bands of a day.
pub mod Bands
pub mod Tariffs
pub mod Versions
