-- ===== src/Validation.antt =====
-- internal/validation: the validation of a tuple against a model.
pub mod Struct
pub mod Users
pub mod Conditions
pub mod Tuples
pub mod Shapes
pub mod Fits
pub mod Accepted
