-- ===== src/Lib.antt =====
-- The Sybase and FreeTDS driver of Qore: a verification library for the C++ code below `src/`.
--
-- A query text goes through the scanner (`sybase_query::init`), a command sends it and reads results
-- in the order in which the server has them (`command::read_next_result`). Where a result has rows,
-- the command describes its columns, binds a buffer to each, fetches row by row and turns the
-- buffers into values; the result factory puts the values of several statements together. Every
-- error that the library reports goes through the functions for messages of `connection`. The
-- library itself, Client-Library, is the parameter `CtLib` of the definitions that call it.
--
-- Which file models what:
--   Query              src/sybase_query.h, src/sybase_query.cpp. The text is a list of bytes and its
--                      terminator the end of the list; `m_cmd` is what the scanner has passed over.
--                      `scan` is the loop, on fuel: each round takes a byte, so that the length of
--                      the text is enough. Query/Spec is the independent description by pieces.
--   Conversions        src/conversions.h, src/conversions.cpp, with the machine integers written
--                      out. Products with 3.3333333 that are rounded are exact quotients, as none is
--                      half way between two integers.
--   Messages           the functions for messages of src/connection.cpp: discard_messages,
--                      purge_messages, do_check_exception and do_exception, of the debug build,
--                      where a failed assertion is an outcome. Messages/Queue states what is relied
--                      on of `ct_diag`.
--   Command/Results    read_next_result1, read_next_result, cancel, cancelIntern, cancelDisconnect of
--                      src/command.cpp and src/command.h. The loop takes fuel: one round more than
--                      the library has results left is enough.
--   Command/Describe   get_column_count, get_row_description, setup_output_buffers, retr_colinfo and
--                      ensure_colinfo, with the buffers of src/row_output_buffers.cpp.
--   Command/Names      get_placeholder_at and the search for a free column name, on fuel: one round
--                      more than the hash has keys is enough.
--   Command/Convert    get_value, is_number and need_trim, on a little-endian machine; Number has
--                      getNumber.
--   Command/Rows       fetch_row_into_buffers, output_buffers_to_hash, append_buffers_to_list,
--                      setupColumns, fetch_row, read_cols and read_rows. The loops take fuel: one
--                      round more than there are rows is enough.
--   Command/Params     set_params and bind_query, on the arguments of Command/Arguments; the conversion
--                      of strings and the calendar are Qore's. Expected describes the parameters.
--   Command/Sending    the constructor, initiate_language_command, send and clear.
--   Connection         src/connection.h, src/connection.cpp. Execute has direct_execute, commit and
--                      rollback, where a scope guard is a function on how a block ends; its loop takes
--                      one round more of fuel than there are results. Options has setOption and
--                      getOption. Context is the class of that name; Handles has ping, the registration
--                      of a statement, the parts of closeAndReconnect without a reconnection, and the
--                      life of a command and of the connection. Recover has setupCommand,
--                      closeAndReconnect and readNextResult, Output readOutput, execReadOutput, select,
--                      exec, execRaw, exec_rows, exec_row and get_server_version, and Charset and Login
--                      have init. A reconnection calls init, which runs queries, which may reconnect: the
--                      fuel of init is the depth of these calls, and that of a query bounds its rounds.
--                      Lost has what a lost connection cannot recover from, Output/Collected the
--                      results of several statements, Dropped the end of a command.
--   Statements         src/statement.h, src/statement.cpp (Methods) and src/dbmodulewrap.h (Wrap). The
--                      wraps are a store under their addresses, as is the private data of Qore's
--                      statements. Owners has the invariant of the registrations, Reach the calls of
--                      the driver as steps, Fetch what fetch_rows does with the rows of a server.
--   Driver             the functions of src/sybase.cpp that Qore calls, with BEGIN_CALLBACK and
--                      END_CALLBACK. Callback and Opened have the outcomes that these leave.
--   Encoding           src/encoding_helpers.cpp.
--   ResultFactory      src/resultfactory.h, and RefHolderVector of src/utils.h.
--   Value              the values of Qore, with its lists and hashes.
--   Ct, Effect, Build  Client-Library; the driver's state and the monad of its methods, with errors
--                      that are thrown and exceptions that are recorded; and the macros of a build.
--   Base               lists, bytes and integers. Tests has a server that follows a script.
--
-- Throws, failed assertions and reads through a null pointer are outcomes: `thrown` and `fault`. A
-- method that loops, or that a reconnection may reach again, returns `none` where its fuel has run out.
-- What a method leaves alone is proved with `Keeps` and `FKeeps` (Effect), by rules for binds and
-- tests that `search` applies along the body.
--
-- Not modelled: the registration of the driver's functions and options in the module's
-- initialisation, which has no logic; the test framework and its tests; the locks of a build for
-- Sybase. Left out: reference counts, memory that cannot be had, and debugging output.
-- The texts that `%d` and `%s` insert are taken to hold no NUL byte: the code would insert such a text
-- up to that byte only, and go on behind its full length.
-- `connection_reset` is never set by the code, and is left out with the tests of it.
pub mod Base
pub mod Build
pub mod Query
pub mod Conversions
pub mod Ct
pub mod Effect
pub mod Encoding
pub mod Messages
pub mod Value
pub mod Command
pub mod Connection
pub mod Statements
pub mod Driver
pub mod Number
pub mod ResultFactory
pub mod Tests
