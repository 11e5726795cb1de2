-- ===== src/IdBlock.antt =====
-- cvm_props.py and c3_0_0_1/id_block_test.py: the ID block of a guest, and the checks of it.
pub mod Metadata
pub mod Measurement
pub mod MeasurementLaws
pub mod Generate
pub mod Negative
pub mod Fields
pub mod FrameLaws
mod Tests
