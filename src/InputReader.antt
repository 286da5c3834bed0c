-- ===== src/InputReader.antt =====
-- src/inputs/input_reader.c, the input devices of the program: the table of open devices, the thread
-- that keeps it in step with /dev/input, and the thread that reads events.
pub mod Kernel
pub mod Table
pub mod Listener
pub mod Input
mod Tests
