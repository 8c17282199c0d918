-- ===== src/Mapping.antt =====
-- src/layout/data_type_layout.cc and src/layout/data_type_processor.cc: the physical regions of one server
-- that a request against a file view stands for.
pub mod FileLayout
pub mod Processor
pub mod Tests
