-- ===== src/Lib.antt =====
-- The message server that runs on the Raspberry Pi of the cplink card, and talks to the CPC through
-- the card's two FIFOs: sw/examples/mcp/rpi_c.
--
-- Bytes from the CPC are put into the in_queue by the main loop. When a whole packet
-- (`+ + + PACKET_SIZE PACKET_TYPE PAYLOAD - - -`) is there, the main loop reads the command in it,
-- as text or as one byte, and has the command processor run the command's handler. A handler reads
-- its parameters off the in_queue, works on the memory allocations, and writes packets to the
-- out_queue, which the main loop sends to the CPC. A handler that is not complete is stored in
-- `command_states` and ticked later, or its packet is put back and read again.
--
-- Files, each with the source in sw/examples/mcp/rpi_c that it is about:
--   Queue      queue.c: the ring buffers. Valid: indices and counts; Window: the unread bytes as a
--              list; Transfer: the operations on that list; Fifo: the refinement; Holds: the
--              interface that the other parts use; Sample: queues with given contents.
--   Packet     packet.c: Frame: the bytes of a packet, and a parser on lists; Write, Skip, Receive,
--              Payload: the functions against it.
--   Command    command.c, command.h: Id: the enum; Table: the table of commands; Params: the
--              readers of commands and parameters; Binary, Text, LongName, TextParam: what they
--              read; Keeps: the queue that they leave.
--   Memstore   memstore_manager.c: Valid: the invariant; Slots: creating and freeing; Pages: pages;
--              Block, Edit: inserting and cutting; Files, Load, Contents: loading and
--              saving; Keeps, EditKeeps:
--              what any call leaves in order; Sample: a store for the tests.
--   Server     the global state: mcp_pi.c, and the arrays of memstore_manager.c and
--              command_processor.c. Order: the server in order.
--   Processor  command_processor.c: States: the two searches; Process: running a command; Tick.
--   MainLoop   mcp_pi.c: the loop of `main`; Locks: the lock of the send mode; Packets: the packet
--              at the front of the in_queue; Reach: the states that the loop reaches.
--   General    command_general.c, command_file.c: the handlers that only answer, and those to be done;
--              Answers: what they leave, up to a whole command through the loop; Keeps: the loop with
--              them; States: the stored commands that they leave; System, Shell, ShellExec: the
--              handlers that call the operating system.
--   Memory     command_memory.c: the handlers on allocations, in Memory, Writes and Files. Replies: the
--              answers; Buffer: the buffers that packets are read into; Allocs, Retrieve, Store, Cut, Insert: what each handler does; Files, Load:
--              PILALLOC and PISALLOC; Keeps: that
--              the handlers return and keep the server in order; States: that they leave the stored
--              commands alone; Run: the handlers behind their
--              pointers; Exchange: whole packets through the loop; Sample: a server for the tests.
--   Help       command.c, and the help functions of command_general.c (General, Command),
--              command_memory.c (Memory) and command_file.c (File); Frame: texts as packets; Answers:
--              what HELP sends.
--   Prelude    shared names, lists, memory, integers and text.
--
-- Definitions have the names of the C functions. Functions that change a queue or another global
-- take its state and return it. A BOOL is a Bool, and `none` as the result is an access outside an
-- array or an allocation, or through NULL; the model of a call, of a pass and of the loop stops there. Bytes and counts are natural numbers; the array of a queue is a function
-- of the index, of which the operations use the first 131070 (QUEUE_SIZE) values. Where an `int`
-- goes below 0 or wraps it is a ℤ, with the 32-bit wrap written out. A time is the pattern of a
-- `long`, which has 32 bits on the Pi, and two times are compared as `long`s.
--
-- The loop of `queue_skip_to_next_packet` runs on fuel, the number of unread bytes: each round
-- takes one of them off the queue, and Packet/Skip has the result for any fuel from there on. All
-- other loops run over a list or a count.
--
-- Parameters: the handlers of the commands (`run`), which are called through pointers, and of those
-- that are not in a dispatcher (`others`); `calloc` (`Calloc`, with the promise that its block is all
-- zeros); the C library's functions on files (`Stdio`), `system` and `fgetc` (`Os`), over what they
-- keep of their own; the pins and the clock, as arguments of a pass of the main loop. A `size_t` has
-- 32 bits, as on the Pi.
--
-- Not modelled: TIME and DATE, which print what `localtime` gives; debug output and the injection of
-- test messages (DEBUG_MCP_IF); a buffer or a file that stays allocated where a handler returns FALSE;
-- the pins themselves (sw/commonlib/rpi_c/fifolib.c); the programs for the CPC, which print and call
-- an assembler library; the hardware.
pub mod Prelude
pub mod Queue
pub mod Packet
pub mod Command
pub mod Memstore
pub mod Server
pub mod Processor
pub mod MainLoop
pub mod General
pub mod Memory
pub mod Help
