-- ===== src/Lib.antt =====
-- A verification library for dsui, a small user interface system on Linux: it reads input devices,
-- moves a mouse pointer by their events, draws frame buffers and shows them on a screen.
--
-- Parts of the program and where they are modelled (paths from the repository's root):
--
-- InputReader: src/inputs/input_reader.c and input_reader.h. Two threads. `event_change_listener` keeps
-- the table `g_his` of devices in step with /dev/input, by a directory scan and then by inotify, and
-- tells the client; `event_input_listener` hands the events of all devices to the client.
--   Kernel    the system calls. What they answer is a parameter, a function of all calls made before,
--             so any behaviour of the system is covered. The list of calls is the observable history.
--   Table     `g_his`, `init_his`, `add_his`, `remove_his` (children: what they do to descriptors,
--             to the registered devices, as counts and as a bag of names, to paths, to the client's view).
--   Listener  the directory scan and the loop over inotify records, on the bytes of the buffer.
--   Input     `event_input_listener` and `init_input`, which starts both threads.
--   A write past a buffer is the result `none`. What a call without `return` gives back, which the
--   language leaves open, is a parameter of the system (`junk_is_zero`). The loop over a buffer runs
--   on fuel, one round for each byte and one more, which is enough unless the length of a record is so
--   near 2^32 that the index comes back (Listener.Total); the two endless loops are followed for any
--   number of rounds.
--
-- Mouse: `init_mp`, `test_input_callback` and `update_last_mp` of src/examples/input_show/input_show.c
-- (Signed, `int32_t` coordinates, an overflow is `none`) and m_buffer_input_show_test.cpp (Unsigned,
-- `uint32_t` coordinates modulo 2^32). Driven puts the first behind `event_input_listener`;
-- Midway is about the pointer in the middle of `test_input_callback`.
--
-- Frame: `create_fb` of input_show.c and `draw_fb` of m_buffer_input_show_test.cpp, the loops that write
-- the pixels of a frame buffer and the pointer in it (Paint), and the colour of `draw_fb` (Color). Memory
-- is a function from the index of a pixel.
--
-- MBuffer: src/display/m_buffer.h and m_buffer.cpp, the multi-buffer model: producer threads draw tasks,
-- a consumer thread shows them and gives them back, a third kind of thread ticks. Start has the
-- constructor, the destructor and `start_m_buffer_thread`. Live counts the statements that a task has
-- before it until it is shown.
--
-- Screen: how the programs of src/examples/input_show set up the screen. The calls of libdrm and of the
-- kernel are a parameter, as functions of all calls made before.
--   Drm       the structs of third/libs/include/xf86drmMode.h and libdrm/drm_mode.h that the programs
--             fill or read, the calls, what is held after them, and the memory of the mappings.
--   Screen    the loop over the connectors, which differs in the programs by two constants, and the part
--             of `main` of m_buffer_input_show_test.cpp that has it (Checks).
--   Buffers   `create_fb` and `release_fb` of m_buffer_input_show_test.cpp.
--   Slides    the whole of input_show_.c: three frame buffers shown one after the other.
--   Show      `main` of input_show.c: the set-up, then rounds of the endless loop, with the pointer where it
--             is at each pixel that is drawn (Pointer, Loop).
--
-- Program: m_buffer_input_show_test.cpp as a whole. `main` (Program), then turns of the threads of
-- MBuffer, each with what it does to the frame buffers and the screen, and with the mouse where it
-- is then. A turn of the thread that draws is one pixel, for which it reads both coordinates of the
-- mouse at once, so that the other threads run and the mouse moves in the middle of a draw (Picture,
-- Shown, Draws, Away, Effects, Turns; InOrder, Moves and Sequence are about the order); Undisturbed
-- has a draw in which the mouse stands still. Input adds the thread that moves the mouse, with
-- `test_input_callback` statement by statement. Live is about the turns that a statement of MBuffer
-- takes when it draws. There is one producer, as this file's
-- MAX_PRODUCE_THREAD_NUM says; with another number in the build of m_buffer.cpp, as in that of the
-- Makefile, its constructor writes behind the object and `main` is undefined (`Build`). A mapping has an
-- end. Machine is what the tests run on.
--
-- Log: src/includes/ds_log.h, the five macros, with the line that is printed for a tag without a `%`.
--
-- InputCopy: "src/inputs/input_reader copy.c", the input reader with messages by these macros. Its calls
-- are those of InputReader and its state is that of InputReader with the messages said. Same compares
-- the two files; Told is about the messages.
--
-- FlashFb: src/display/flash_fb.c, three boxes shown by serial number. FlashRing:
-- src/examples/input_show/flash_buffer.c, a ring of three frame buffers. Start has the functions that
-- start the threads of either, with any of them not created.
--
-- BoundedBuffer: src/examples/input_show/product_consume_model.c, producers and consumers with
-- semaphores. CondBuffer: triple_buffer_model.c of the same directory, the same with condition variables. Main has
-- what their `main` does after it has started the threads.
--
-- Threads: what the threaded parts (MBuffer, FlashFb, FlashRing, BoundedBuffer, CondBuffer) share. Each has a
-- record of the shared globals, a data type `Pc` with a constructor for each statement that touches
-- them, and `step` for one statement of one thread, which is `none` while it blocks; Threads gives the
-- `turn` of a thread and the `run` of a schedule, a list of thread numbers of any length (in CondBuffer
-- with what `rand` returns): nothing is assumed about the scheduler, and mostly nothing about the number
-- of threads. Fair has schedules in rounds, in each of which every thread has a turn. A statement is one
-- step, as it is under a mutex; `g_ready_fb_serial++` of flash_fb.c, which no mutex protects, and `g_num++`
-- of flash_buffer.c, which three different ones do, are two.
-- Lists of what was printed, drawn or shown are kept in the globals to state the theorems and are never
-- read by the code.
--
-- Fifo: a bounded first-in first-out queue as an abstract machine, and the interface (Refines) by
-- which threads implement it. The module Queue of BoundedBuffer, of MBuffer and of FlashFb is about
-- that part as such a queue.
--
-- Prelude: the names that all parts share: Boolean tests on the native numbers, C arrays as lists,
-- functions from thread numbers, bags (lists up to order), and signed integers (Int).
--
-- Not modelled: third/ (a copy of libdrm), but for the structs named above; `mdelay` of
-- m_buffer_input_show_test.cpp, which nothing calls; the times that `consume_frame_buffer` and
-- `show_mouse` measure and print, which are in floating point; sleeps; and the messages of the files
-- but for the copy of the input reader.
pub mod Prelude
pub mod Threads
pub mod Fifo
pub mod InputReader
pub mod Log
pub mod InputCopy
pub mod MBuffer
pub mod Mouse
pub mod Frame
pub mod Screen
pub mod Program
pub mod FlashFb
pub mod FlashRing
pub mod BoundedBuffer
pub mod CondBuffer
