-- ===== src/Context.antt =====
-- What the model's context is filled with: the token budget.
pub mod Budget
pub mod Fits
pub mod Kept
pub mod Cut
mod Tests
