-- ===== src/Lib.antt =====
-- crashinfo: a program that the kernel starts when a process dumps core. It reads its configuration,
-- copies the core from standard input to an output, and writes a YAML document about the process to
-- another.
--
-- Parts of the program, and where they are modelled:
--
-- - Base: the names that all files share. A C string is the list of its bytes without the
--   terminator (Base/Tests), an `int` or a `long` is an integer (Base/Int), numbers are printed by
--   Base/Digits and Base/Printing.
-- - Log: log.c. `logmsg` is a function of the thresholds and of what the sinks and the exit code
--   hold; `handler` is that of main.c. Log/Status and Log/Sinks are about what a sequence of
--   messages leaves behind.
-- - Util: `strlen_chomp` and `open_devnull` of util.c, with Util/Chomp.
-- - Yaml: `yaml_esc` and `fputy` of info.c. A write past the buffer of `yaml_esc` is the result
--   `none`. Yaml/Scalar has the reader for the round trip, Yaml/Overflow the bytes that do not
--   fit.
-- - Conf: conf.h and conf.c. Conf has the records and the slots, which stand for the pointers of
--   the keyword table; Conf/Text the functions of the C library on text; Conf/Table the keyword
--   table; Conf/Value the parsers for a value; Conf/Line `parse_line`; Conf/File `parse_file`.
--   They run on one state: the configuration, the counters of the keywords, the outcomes of the
--   coming allocations, and the log. Undefined behaviour of C (a null pointer read, a failed
--   assertion, a write past a buffer) is the result `none`. Children hold the proofs:
--   Conf/Value/Frame is about what a parser may change, Conf/Value/Stores about what it stores,
--   Conf/Value/Numbers and Printed about what `%d` and `%#x` print and `strtol` reads,
--   Conf/Line/Defined, Spacing, Effect and Meaning about lines, Conf/Value/Exit, Conf/Line/Exit
--   and Conf/File/Exit about the exit code, and Conf/File/Total and Lines about files.
-- - Expand: the first half of `open_output` in main.c, which expands the wild cards of a file name
--   from right to left and in place, with `is_escape` and `intlen`. The buffer is a function from
--   positions to bytes. Expand/Buffer is about its cells, Expand/Scan has the reading of a name
--   from left to right, Expand/Exe is about the wild cards for the executable, Expand/Wildcard
--   about all of them, Expand/Correct about the loop, and Expand/Name about a whole name.
-- - Conf/Dump: `log_conf` of conf.c, with Conf/Dump/Restore.
-- - Output: `open_output` up to its label `opened`, and `make_path`. The calls of the system are a
--   record that the definitions take. Output/Sequence is about the name that sequence mode takes,
--   Output/Keep about the modes that keep files, Output/Named about the names that Expand gives,
--   and Output/Distinct about the names of different counters, with Expand/Counter on their
--   digits.
-- - Spawn: how `spawn_proc` of main.c takes a command apart, with Spawn/Arguments; Spawn/Process
--   has the whole of it.
-- - Filters: `open_output` from its label `opened` on, with Filters/Descriptors; Close:
--   `close_output`, with Close/Endings. The calls of the system are recorded.
-- - Info: the document of info.c, with Info/Arguments and Info/Sequence on the command line,
--   Info/Mappings on the mappings, Info/Block on the files that are copied into it, and
--   Info/Duration on the processing time.
-- - Proc: the loops of proc.c over `maps` and over the tasks, and `proc_pid_map`, with Proc/Maps,
--   Proc/Pids and Proc/Open, and with Proc/Status and Proc/Tasks on what the files of Linux give;
--   Proc/Whole has `read_proc_info`, which is put together from them.
-- - Unwind: unw.c, with what libunwind gives as an argument, and Unwind/Choice on the pid;
--   Unwind/Core has the objects of libunwind that are made and destroyed.
-- - Copy: `main` from the creation of the thread on, as far as it moves the core: the feeding of
--   the unwinder and the copy loop, with Copy/Whole on what they move, Copy/Ends on when they end
--   and Copy/Progress on how many rounds feeding takes.
-- - Threads: `main` from its lock on and `info_dump_thread`, as steps on what the two share.
--   Threads/Invariant is about the lock and the open outputs, Threads/Rank about how long a
--   run is, Threads/Ends about how it ends, and Threads/Pid about the identity of the process.
-- - Main: the phases of `main` around the copying. Main/Setup has `disable_core_generation`; Main
--   has the opening of the core and the directory of the process, with Main/Path and Main/Reading;
--   Main/Outputs the two outputs and the label `err0` of `open_output`, with Main/Outputs/Calls
--   and Closing.
-- - Transfer: `safe_read` and `safe_write` of main.c, on the list of what the calls do, with
--   Transfer/Moves.
-- - Options: the loop over the command line in `main`, with Options/Ends.
-- - Tests: runs of the definitions, and the theorems at concrete inputs.
--
-- The configuration parser calls Util for white space and Log for messages, whose thresholds are
-- themselves part of the configuration; Options calls both parsers; `open_output` reads the
-- configuration that they have stored, and expands the name before it opens it; Filters takes its
-- descriptor, and Close ends what Filters began. Copy moves blocks by Transfer. Proc hands the mappings
-- to the parser of a line, and gives Unwind the pids that it names; Info prints by Yaml and Unwind.
-- Main puts them together: it reads the directory by Proc, and opens and closes its outputs by Filters
-- and Close. Threads says in which order Copy and Info come.
--
-- Bounds and fuel: `file_loop` runs on fuel above the length of the file, of which each round reads
-- a byte at least; `expand_loop` on fuel above the position in the name, which falls in each round;
-- `intlen_loop` on fuel above the number. The fuel of `open_loop` counts the calls of `open`, since
-- without a limit a sequence may go on for ever. `dump_lines`, `maps_loop` and `status_loop` run on
-- fuel above the length of their file. `feed` and `copy_loop` take a list of what the calls of each
-- round do, and have no result while it is too short. A line is at most 4094 bytes, an escape at
-- most 5, a name at most 4095, as the buffers of the source are. `long` has 64 bits and `int` 32.
--
-- Not modelled: what `fork` and `execvp` do, which are arguments; the freeing of memory; the second
-- copy of `proc_dump`, in proc.c, which nothing calls. In Threads the calls on the pipe end, whatever
-- the other thread does, but for `unw_prepare`, which waits where it needs more than the first block
-- of the core. A name that does not begin with a '/' is refused before it is expanded, so that
-- `put_text` never comes to the positions below 0 that the source could. A file that is read, what libunwind, `sscanf` and `strftime`
-- give, and the text of an error message of the system are arguments. The streams of the document
-- and of `fputy` take all that is written; what a copy of the core passes to `safe_write` counts,
-- since main ignores the result.
mod Base
pub mod Log
pub mod Util
pub mod Yaml
pub mod Conf
pub mod Expand
pub mod Transfer
pub mod Output
pub mod Options
pub mod Spawn
pub mod Filters
pub mod Close
pub mod Info
pub mod Copy
pub mod Proc
pub mod Unwind
pub mod Threads
pub mod Main
mod Tests
