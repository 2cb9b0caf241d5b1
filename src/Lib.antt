-- ===== src/Lib.antt =====
-- A verification library for linux_c_code, a collection of small C programs and libraries for Linux.
--
--   Base (Base.Tests, Base.Lists, Base.Int, Base.Slices, Base.Decimal): shared names: Boolean tests,
--   lists over the native numbers, signed integers, slices of arrays, decimals.
--
--   Eloop: the event loop of eloop/src/eloop.c and eloop/src/eloop.h as CONFIG_ELOOP_SELECT compiles it.
--     Eloop.Time: struct os_reltime, os_reltime_before, os_reltime_sub and os_get_reltime. A time is two
--     signed integers; only the sums that the source lets wrap (`add_long`) wrap here.
--     Eloop.State: struct eloop_data and its parts, eloop_init, eloop_get_sock_table.
--     Eloop.Table: struct eloop_sock_table. A table is its count and the allocated array, which may be
--     longer than what is in use; registration, removal with its memmove, and the fd_set of select.
--     Eloop.Timeouts: registration, cancelling and changing of timeouts. The ring is read along its
--     next pointers as a list. The carry loop of eloop_register_timeout has as many rounds as the
--     quotient of the microseconds by a million, plus one, which is all that it takes.
--     Eloop.Timeouts.Change, Eloop.Timeouts.Deplete: a timeout that is put earlier or later.
--     Eloop.World: the application. A callback answers a call with the functions of eloop.h that it
--     calls in turn, after all calls made before; it cannot call eloop_register_signal, eloop_run or
--     eloop_destroy. So code outside the repository is a parameter of every definition that calls it.
--     Eloop.Signals: eloop_handle_signal, which only counts, and eloop_process_pending_signals, which
--     makes the calls. The kernel delivers signals while the loop waits.
--     Eloop.Poll, Eloop.Poll.Asked, Eloop.Poll.Loops: the array for poll in the build with CONFIG_ELOOP_POLL.
--     Eloop.Destroy: eloop_destroy, which frees arrays that the state goes on pointing to.
--     Eloop.Run: eloop_run over the rounds that the kernel answers: which signals come, what select
--     returns, what the clock reads. The list of rounds is the fuel: a run that outlasts it waits.
--
--   Crc: the tool of bin_crc_make/src/main.c. Bytes and words are numbers below 2 ^ 8 and 2 ^ 32.
--     Crc: the table, crc32 and main; the answers of lstat, fopen, fread and fwrite are a record.
--     Crc.Xor: laws of xor and of the mask. Crc.Bitwise: the checksum one bit at a time.
--     Crc.File, Crc.Detect: the file that main writes, and changes of a file.
--
--   DlList: the lists of dllist/src/dllist.h, and of eloop/src/list.h, which has the first half of the
--   same functions. A store gives the next and prev pointer of every address.
--     DlList: every function, one assignment after the other. dl_list_len has a bound on its rounds.
--     DlList.Ring: when a store holds a list with a head and a sequence of nodes. DlList.Insert,
--     DlList.Remove, DlList.Splice, DlList.Replace, DlList.Walk: the functions on such lists.
--
--   Http: the client of httpclient/src/http.c, without FT_SUPPORT_HTTPS. Strings are lists of bytes.
--     Http.Field: _field_value_malloc on the bytes of its buffer. Http.Field.Grow, Http.Field.Limits: what it
--     holds.
--     Http.State: the client, with the fields that the code uses, since the repository does not define
--     the structure. Http.Client: the small entry points.
--     Http.Parser: the callbacks for http_parser. Http.Parser.Header, Http.Parser.Body: the pieces
--     of a header and of the body.
--     Http.Socket: socket_select, http_check_error and http_read_write over the kernel's answers, whose
--     list is the fuel. Http.Socket.Transfer, Http.Socket.Ending: how a
--     transfer ends. Http.Request: what
--     is sent. Http.Request.Sent: how far a request gets.
--     Http.Connect: http_connect_host, with what the resolver and connect answer. Http.Connect.Dialing,
--     Http.Connect.Hosts: its loop and its buffer.
--     Http.Descriptor, Http.Descriptor.Paired: the socket of a client over its requests, ft_http_cancel_request
--     and ft_http_destroy.
--     Http.Response: the receive loop; http_parser is a parameter that answers bytes with events.
--     Http.Response.Whole, Http.Response.Sized: responses without and with a content length.
--     Http.Sync: http_internal_sync_request and the entry points that call it, one record of answers for
--     each connection; the list of these is the fuel. Http.Sync.Codes, Http.Sync.Redirects,
--     Http.Sync.Success: error codes, redirects, and a request from the URL to the body.
--
--   Log: the logger of log/src/lf_log.c and log/src/lf_log.h.
--     Log: its variables with the file system, and every function. Log.Text: the text of a line and the
--     names of the files. Log.Files: names and contents. Log.Opening, Log.Rotation, Log.Order: one
--     message. Log.Short: sizes as an int. Log.Shown: what the three files hold together. Log.Setup:
--     LOG_Init and LOG_Destroy.
--
--   Uci: the wrappers around libuci in uci_c/src/main.c. The library is a record of what it answers.
--     Uci: values, calls, and the life of a context. Uci.Change, Uci.Query: every function, with its
--     result and its calls. Uci.Sessions, Uci.Faults: the calls against the life of the context.
--     Uci.First: the search by type.
--
--   Shell: SystemRtn of exe_shell/src/main.c. Inotify: the loop of inotify/src/main.c that reads events;
--   Inotify.Events: buffers as the kernel writes them. Rtc: the clock chip of mips_test/i2c_test.c;
--   Rtc.Digits, Rtc.Alarm: its decimals and its registers.
--
--   FileDelete: file/src/file_delete.c on a tree of files; FileDelete.Reference: descriptions of trees;
--   FileDelete.Steps: its steps and paths; FileDelete.Complete, FileDelete.Kept: what is deleted, and
--   what never is.
--
--   Timespec: time/src/main.c, the clock in milliseconds and a time from now; Timespec.Carry: its sum.
--
-- What memory allocation, the clock and the kernel answer are arguments. Descriptors and pointers are
-- numbers. Not modelled: the epoll build, of the poll build all but the array that it gives to poll,
-- TLS, the other programs of the repository, and the overflow of the count of a table or of the
-- signals registered, which the memory for the entries excludes; the counters of signals that came
-- wrap at 32 bits.
pub mod Base
pub mod Crc
pub mod DlList
pub mod Eloop
pub mod FileDelete
pub mod Http
pub mod Inotify
pub mod Log
pub mod Rtc
pub mod Shell
pub mod Timespec
pub mod Uci
