-- ===== src/Models.antt =====
-- models.py: steps with the checks of `__post_init__`, the factory, definitions and results.
pub mod Step
pub mod Factory
pub mod Expected
pub mod Definitions
pub mod Levels
pub mod Validity
