-- ===== src/Mouse.antt =====
-- The mouse pointer that the test programs of src/examples/input_show move by the events of
-- input_reader.c: with signed coordinates in input_show.c, with unsigned ones in
-- m_buffer_input_show_test.cpp.
pub mod Signed
pub mod Unsigned
pub mod Driven
pub mod Midway
mod Tests
