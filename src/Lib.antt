-- ===== src/Lib.antt =====
-- Ultramat, the GUI program of a drink mixing robot: a development over its C sources.
--
-- The program reads ingredients and recipes, lets the user choose which ingredient stands at which
-- position, and sends the steps of an ordered recipe as messages to a microcontroller, which answers
-- each with a done response. The parts, with the files that model them:
--
-- - Ring, Fifo: the circular buffer that src/util/queue.c and src/util/ring_buffer.c write out three
--   times, and the bounded queue that it implements. RingBuffer and Queue give it the sources' names.
-- - Proto: the messages of proto/commands.proto as the C code sees them.
-- - CommandHandler: src/command_handler.c, which callback a done response runs.
-- - MessageHandler: src/message_handler.c, the worker. Its static variables are the record `System`;
--   `message_handler_add_outgoing`, `_add_incoming`, `_init` and `_process` are `add_outgoing`,
--   `add_incoming`, `init` and `process`; what a call does outside the module is a list of effects.
--   `Linked` is its invariant, `Trace` runs any sequence of calls, `Responses` says what a round does,
--   `Abstract` is a specification over lists, with what follows from it for many rounds, and `Service`
--   is what the worker does with messages that are all answered.
-- - Wire: `proto_comms_send_msg` of src/proto_serial.c, over the encoder (nanopb) and the serial port,
--   which are parameters: a record of two functions that may differ from call to call.
-- - Serial: the rest of src/proto_serial.c: reading a response, the loop of the serial thread, and the
--   connection with its start and its stop. What the port answers is a parameter of each round, and
--   what allocating, opening and creating a thread answer is one of each start.
-- - DynamicArray: src/util/dynamic_array.c, over the rounding of the float growth.
-- - Drinks: the data of inc/drinks.h, the look-ups of src/drinks.c, how it reads a line, and in Files
--   how it reads a file. A file is a parameter: its characters, or that it cannot be opened.
-- - Stores: src/drinklists.c, the rows that the combo boxes offer.
-- - Program: src/main.c, from the two files to the window and the end.
-- - Pages: how src/pages.c and src/gui.c register widgets with src/callbacks_position.c.
-- - Layout: the tree of widgets that src/gui.c and src/pages.c make, with what they set of each.
-- - Info: the text of the version of src/callbacks_info.c.
-- - Positions: the table of active ingredients of src/callbacks_position.c, and the positions that
--   src/pages.c offers.
-- - Selection: page one as the user sees it: the same callbacks with the combo boxes, their texts and
--   images, and what the user does there in any order.
-- - Mixing: `proto_comms_start_new_mixing` of src/proto_serial.c.
-- - Orders: the callbacks of src/callbacks_position.c for orders, done commands, manual moves and the
--   motor switch, on a record of what the widgets show; a whole order, with the worker, and in
--   `Session` the motor switch with the first message and then any number of orders.
-- - App: all of it while the window is open, as a step relation: each callback of the GUI thread, each
--   round of the serial thread, and the idle queue between them.
-- - Tests: runs on concrete inputs.
--
-- Numbers are natural numbers, with the wrap of the C type written out where a value can reach it
-- (`u8`, `u16`, `u32`); an `int` that can be negative is of `Base.Int`. Time is a number of seconds.
-- Return values 0 or 1 and -1 are `success` and `failure`. A failed assertion is `aborts`. Loops are
-- recursions on the lists and counts that bound them. The loop of `recipe_create` runs on
-- fuel: the number of characters left and one is enough, as each round takes a character; so does the
-- reading of lines, with the number of characters in the file.
--
-- Not modelled: the drawing of widgets and their style, the list stores and icons of GTK, logging, the
-- encoding of messages, a memory that runs out, util/cmd_buffer.c, which nothing uses, and what two
-- threads do inside one call: each call of the message handler runs as a whole, and the serial
-- thread is cancelled between two rounds. The memset of `out_msg_q_init` and `in_resp_q_init` counts
-- encoded sizes: the model clears just the array of a queue, which is empty then anyway, and leaves out
-- what the memset writes behind it.
pub mod App
pub mod Base
pub mod Fifo
pub mod Ring
pub mod RingBuffer
pub mod Proto
pub mod Queue
pub mod Wire
pub mod Serial
pub mod CommandHandler
pub mod Info
pub mod Layout
pub mod MessageHandler
pub mod DynamicArray
pub mod Drinks
pub mod Stores
pub mod Positions
pub mod Mixing
pub mod Orders
pub mod Tests
pub mod Program
pub mod Pages
pub mod Selection
