-- ===== src/Lib.antt =====
-- The program `xtru` unloads the tables and the definitions of an Oracle database to files; `mpx` runs
-- several commands at a time, and `mkcrd` keeps credentials. This library models parts of the C++ code
-- and proves what they do.
--
-- The parts and the files that model them:
-- Common: what the other modules share. A `std::string` is the list of its bytes, a number is a natural
--   number, with the width of a machine integer written out where it matters, and a failing function has
--   a `Result`: a thrown exception, a violated assertion, or `fault` for undefined behaviour.
-- Text: helpers of lib/nsPsCommon.cpp, lib/nsEffector.cpp and inc/nsEffector.h. `Text.Wild` is
--   `wild_strmatch`, `Text.Names` is `iMatchedBackward`, `Text.Cascade` is
--   `iCascadeTernaryAnd` and its kin, `Text.Trim` is `vTrim`, `Text.Placeholders` is `vConvPlaceHolder`,
--   `Text.Numbers` is `sIntToa` and `sBinIntToIntStr` at `int64_t`. The loop of
--   `sBinIntToIntStr` has as much fuel as there are units.
-- Delimiter: inc/cDelimiter.h and lib/cDelimiter.cpp. `Delimiter.Literal` is `sConvLiteral` with its
--   scanner, on fuel of the length of the text; `boost::regex_search` is a parameter of which
--   `Delimiter.Literal.Finds` states the documented behaviour. `Delimiter.Fields` is `cDelimiter` and the
--   rows that lib/sql/occi/cUnloader.cpp builds and writes with it (`vSetRowBuf`, `vPostBulkAction`,
--   `vPutRowsToDataFile`). `Delimiter.Configured` is `oMakeVarDelimiter`,
--   with the tokenizer as a parameter, and the names of the columns in front of the rows.
--   `Delimiter.Records` and `Delimiter.Unload` have readers of the written format.
-- Dispatch: lib/cRtn.cpp (`cRtn`), inc/cPool.h (`cPool`) and inc/cDispatcher.h (`vSynchronize` and
--   `cDispatcher::vRun`). The main thread and the threads of the pool make interleaved steps on one state;
--   what a task throws is a parameter. The library of threads is not modelled: a step is what a thread does
--   while it holds a mutex, or between two such places. Where the source has undefined behaviour, by a lock
--   of the mutex after its scope, by a read of the exception that is not ordered with its storing, or by a
--   race on a thread object, the main thread stands at `undefined`. A thread that cannot be started is not
--   modelled.
-- Replace: app/xtru/getmeta/cFunctionalReplace.cpp. `atoi` is a parameter.
-- Piece: lib/sql/occi/cPieceVct.cpp, the callback by which OCI fetches a value in pieces. What OCI stores
--   is a parameter, and `Piece.Fetch.Stores` states its documented behaviour.
-- Mpx: app/mpx/cAppLocal.cpp. `Mpx.Lines` is the expansion of a command line, on fuel of its length, and
--   `Mpx.Schedule` is the loop that runs the commands in batches, while the process is not being stopped.
--   `Mpx.Child` is the end of a child process in app/mpx/cExtProc.cpp, on the state of `Dispatch.Rtn`; the
--   format of the elapsed time is a parameter.
-- Failover: lib/sql/occi/cFailover.cpp. The answers of the database are a parameter; the texts of the
--   messages are left out. `Failover.Reader` has a reader of the statements that are sent.
-- Fetch: lib/sql/occi/cStmt.cpp (`iFetch`) and `vExecuteAndFetch` of lib/sql/occi/cUnloader.cpp for one
--   statement. What OCI brings is a list of bulks, and a row is the bytes that it adds to the file. The
--   counters of rows and of bytes wrap around as in the source.
-- Meta: the lists of the metadata extraction. `Meta.Compare` is `composite_less` and `composite_equal` of
--   inc/nsPsCommon.h, `Meta.Match` is `vPrintMatched` and `iEraseMatchedKeyItem` of
--   app/xtru/getmeta/nsGetMeta.h, `Meta.Catalog` is the list of a class like
--   app/xtru/getmeta/cOutputOrderTbl.cpp or app/xtru/getmeta/cParentWithChild.cpp, its nodes numbered, and
--   `Meta.Validate` is app/xtru/getmeta/cConsValidate.cpp. `std::list::sort` is a stable insertion.
--   `Meta.Report` says what the calls promise on the rows.
-- Cred: app/mkcrd. `Cred.Account` is `vSplitUser` of nsMkcrd.cpp and `sGetInputString` of cInput.cpp, and
--   `Cred.Input` is the rest of cInput.cpp, on the bytes that are typed at the terminal.
-- Stream: lib/nsStreamLocator. `Stream.Macros` and `Stream.Initialize` are nsStreamLocator.cpp, with the
--   static variables as a record, and `Stream.Open` is `oOpen` of cStreamLocator.cpp up to the construction
--   of the stream; it reads the groups of a match in a text that is destroyed by then, and what they hold
--   is the parameter `read_back`. What the regular expressions find is the record `Stream.Macros.Engine`,
--   and what the system says of paths, environment and time is `Stream.Macros.Platform`.
-- Ctrl: `Ctrl.Grammar` is lib/sql/cCtrlFile.cpp and `vPutGrammerToCtrlFile` of lib/sql/occi/cUnloader.cpp;
--   `Ctrl.Reads` has a reader of the written text. How a path is printed is a parameter.
-- Format: inc/sql/formatter. `Format.Director` is `oConvert` of cDirector.h, on the tokens that the parser
--   has found.
-- Args: app/mkcrd/nsCompo/cSwitchUtils.cpp and app/mkcrd/nsCompo/cArgUtils.cpp. The parser that separates
--   a switch from its argument is a parameter; the order of the synonyms is that of their set.
--
-- Not modelled are the calls of the database client, of the operating system and of cryptography, the SQL
-- texts of the metadata extraction, the configuration, and the parts that are still to come: several
-- statements of one unloader, and the launching of child processes.
pub mod Common
pub mod Stream
pub mod Ctrl
pub mod Text
pub mod Delimiter
pub mod Dispatch
pub mod Replace
pub mod Piece
pub mod Mpx
pub mod Fetch
pub mod Failover
pub mod Args
pub mod Meta
pub mod Cred
pub mod Format
