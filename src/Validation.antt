-- ===== src/Validation.antt =====
-- validation/: the check of characters and the numbers with check digits.
pub mod CharValidity
pub mod Patterns
