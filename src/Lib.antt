-- ===== src/Lib.antt =====
-- Verification of NixBench's core state machines: the session watchdog, the pacing of frames, the
-- console shortcuts, the damage regions of a frame, the window model, the window manager, the
-- menu bar, and the privileged helper and its protocol with the core.
--
-- The program is a desktop environment in C. The desktop runtime (src/desktop_runtime.c) feeds
-- pointer events and window requests to the window manager (src/desktop.c), which keeps windows
-- (src/window.c) in fixed slots with a stacking order, and to the menu bar (src/menu.c), which gives
-- the commands that the user chooses. The session core (src/session_core.c) collects the changed rectangles of a frame in a damage region (src/damage_region.c) and presents
-- frames at the pace of the display (src/session_frame_pacing.c). The supervising session runner
-- (src/wsdisplay_session_runner.c) handles the console's key chords itself
-- (src/session_console_shortcuts.c), pings the core and ends the session when it stays silent
-- (src/session_watchdog.c). A privileged helper process owns the display and talks to the core over
-- a byte stream (src/privsep_protocol.c); its state machine (src/privsep_helper.c) takes the bytes of
-- the core and the events of the device, and leaves the bytes of its answers in a queue.
--
-- Files and code:
-- - Prelude (Tests, Lists, Int, Bits): Boolean tests, lists, the integers of the models, `|`.
-- - Watchdog: src/session_watchdog.[ch], one function per C function and one constructor per
--   phase and action; Watchdog/Invariant (runs of any calls), Watchdog/Timing, Watchdog/Tests.
-- - FramePacing: src/session_frame_pacing.[ch]; FramePacing/Timing, FramePacing/Tests.
-- - ConsoleShortcuts: src/session_console_shortcuts.[ch]; a bit mask is a function of the key's
--   number; ConsoleShortcuts/Presses, ConsoleShortcuts/Modifiers (the held keys, read off the
--   events), ConsoleShortcuts/Tests.
-- - Damage: src/damage_region.[ch]; the array with its count is a list. Damage/Geometry (pixels),
--   Clip, Rects, Absorb and Insert (the loops), Validity, Pixels (validity by pixels), Operations,
--   Bounds, Tests.
-- - Window: the types of src/window.h and `nb_window_init`; Window/Settings (the setters and their
--   validation), Window/Layout (the rectangles of title, content and gadgets), Window/Pointer (hit
--   test and pointer events), Window/Frame (minimise, maximise, full screen, clamp). Proofs in
--   Window/Clamp, Restore, Drag, Clicks, Gadgets, Stacked and Marks; Window/Tests.
-- - Desktop: the types and lookups of src/desktop.[ch]; Desktop/Stack (open, destroy, raise,
--   activate), Desktop/Windows (operations on one and on all windows), Desktop/Pointing (pointer
--   events). Proofs in Desktop/Lookup, Invariant, Focus, Retouch, Settled, Pressed, Reachable
--   (runs of any operations), Counter (ids), Answers and Frontmost (presses) and the files of
--   Desktop/Order, which compare each operation with one on a list of window ids; Desktop/Tests.
-- - Menu: the types, the search for items, and opening and closing of src/menu.[ch]; Menu/Layout (the
--   rectangles), Menu/Input (hit test, pointer and keys). Proofs in Menu/Valid and Calls (the state
--   between calls) and Runs; Menu/Tests.
-- - Privsep: src/privsep_protocol.h. Privsep/Bytes (stores and loads), Valid (the validity tests),
--   Sizes, Encode and Decode (payloads), Stream (whole messages and the parser), each of
--   src/privsep_protocol.c. Privsep/Bytes/Laws and Privsep/RoundTrip (payloads read back), and in
--   Privsep/Stream: Sound (the parser's state), PayloadPieces, HeaderPieces and Pieces (a message
--   in pieces), HeaderBytes and Deliver (a whole message), Accepted, Progress; Privsep/Tests.
-- - Helper: the state and the queue's writer of src/privsep_helper.[ch]; Helper/Outbound (reading
--   the queue, purging input), Frames (the handlers of messages), Messages (greeting, dispatch, the
--   feed), Session (the calls for the device, and the queries). Proofs in Helper/Ring and Queue (the
--   ring of bytes), Keeps (the parser), Loops, Consistent (the state between calls), Handlers,
--   Dispatch and Calls (each call), Runs, Grows and Onward (the order of generations and serials),
--   Suspended and Late (suspension), Columns (the rectangles of a frame), and Parsing (the parser in
--   a run); Helper/Tests.
--
-- Conventions. An operation that changes a structure in place returns the new structure, beside
-- its result. A pointer is a value, so the tests for null pointers have no counterpart; a window
-- title may be missing. `int` and `int64_t` are exact integers, since their overflow is undefined
-- in C; casts to `int` and to `unsigned int`, and unsigned 64-bit arithmetic, wrap as written out.
-- Where the code's loops read an array up to a count, the model has the list of those elements.
-- A pointer into a byte buffer is the list of the bytes from there on; bytes stored one behind the
-- other are a list, and of a buffer with a count of bytes in use the list holds those bytes. A union
-- under a type tag is a data type with a constructor for each tag, and a value cast to an enumeration
-- is a number, or has a constructor for the values outside the enumeration. The buffers of the
-- helper are functions of the index. Its presentation callback, with the data it is given, is a
-- function of the generation and the frame; an allocation that can fail is an argument.
--
-- Loops. The loops over arrays are structural. The search for an id in src/desktop.c makes 17
-- attempts, as in the code. The `while` loop of `nb_damage_region_add` goes back to the start after
-- each merge and runs on `rounds` fuel, which grows with the square of the number of rectangles;
-- the jump to `merge_again` happens at most once, since a compaction leaves the list below its
-- capacity, and has fuel 2. The loop of `nb_privsep_helper_feed` and the one over the bytes of a
-- FRAME_DATA message run on as many rounds as there are bytes, since each round takes a byte; the one
-- that consumes the outbound queue runs on the number of records.
--
-- Not modelled: the Wayland and X11 servers, the hosts, process supervision, rendering, themes,
-- configuration files and applications. They call system interfaces and libraries, and use the
-- parts above.
pub mod Prelude
pub mod Watchdog
pub mod FramePacing
pub mod ConsoleShortcuts
pub mod Damage
pub mod Window
pub mod Desktop
pub mod Privsep
pub mod Helper
pub mod Menu
