-- ===== src/Lib.antt =====
-- A model of the TCP server library, and what its parts promise.
--
-- The server (TcpServerController) keeps its connections as TcpClient objects. A connection's bytes
-- arrive in segments. If the client has a demarcator, they go through a byte ring into messages,
-- which the application gets by the callback `client_msg_recvd`. A client is served by a thread of
-- its own or by the thread of TcpClientServiceManager, which waits for all of its clients at once.
-- TcpClientDbManager lists the clients. Every list and every thread holds a counted reference to
-- each client that it uses, and the last one to go deletes the object. The command line of the
-- server stands on CommandParser, whose TLV buffers are serialization buffers.
--
-- Files:
--   Base: numbers, lists, blocks of memory (`memcpy`), and the outcomes of a run. `stop assertion` is
--     a failed `assert` (the build does not define NDEBUG), `stop memory` an access out of bounds or
--     through a bad pointer, `stop past_end` a read through an iterator at the end of a list, `stop
--     arithmetic` a division by 0 or an `int` overflow, and `stop fuel` a loop that the model cut off.
--   Bcb: ByteCircularBuffer.h and ByteCircularBuffer.cpp. The record is the struct, an operation that
--     changes `*bcb` returns it anew, and the uint16_t sums and differences wrap. Bcb/Queue is the
--     specification, a bounded queue of bytes; Bcb/Write and Bcb/Read prove that it is met.
--   Demarcar: TcpMsgDemarcar.cpp, TcpMsgFixedSizeDemarcar.cpp and TcpMsgVariableSizeDemarcar.cpp. The
--     subclass is the field `framing`; `process_msg` is ProcessMsg, `process_client_msg` is
--     ProcessClientMsg, and `feed` is the receive loop of TcpClient::ClientThreadFunction. The
--     messages that are handed to the callback are returned as a list.
--   Serialize: CommandParser/serialize.c. The functions for the various types share a body,
--     `serialize_bytes`; Serialize/Transfer reads back, restores and truncates.
--   Client: TcpClient.h and TcpClient.cpp. A pointer is a number, and the heap says what it points to;
--     a deleted object is gone from it, so its later use is a fault. Client/Heap states what a
--     reference count stands for. Client/Connect has TryClientConnect, its retry thread and SendMsg;
--     what the socket calls return is an argument.
--   Db: TcpClientDbManager.cpp, over that heap. The lock round an operation makes it one step.
--   SvcMgr: TcpClientServiceManager.cpp, the operations of the `Simple` variant and what the thread
--     does up to its loop, and Stop.
--   Glthread: CommandParser/gluethread/glthread.h and glthread.c, the lists whose links stand in the
--     nodes. `Chain` in Glthread/Chain is what a list stands for; the other files prove what each
--     operation makes of it. A macro's loop takes a round of fuel for each node.
--   Strings: CommandParser/string_util.c. The C library's `strtok`, `strstr`, `isspace` and `atoi` are
--     spelled out. Strings/Strtok says what the calls of `strtok` come to: the words of a string.
--   Controller: TcpServerController.cpp, how clients are taken in, moved between threads and deleted.
--     Controller/Queue has the message queue and CreateActiveClient; Controller/Active, Controller/Delete,
--     Controller/Freed and Controller/Stale have what is proved of them. What `new`, `socket` and
--     `connect` come to is given by the record Surroundings.
--   Acceptor: TcpNewConnectionAcceptor.h and TcpNewConnectionAcceptor.cpp. A round of the loop is
--     `accept_round`; what the calls in it return is the record Incoming.
--   Tlv: CommandParser/cmdtlv.h. Tlv/Reverse has the loop that puts the TLVs of a buffer in the opposite
--     order, Tlv/Value what is put into a TLV and read from it.
--   CmdTree: CommandParser/cmd_hier.h and cmd_hier.c, the tree of commands and how it grows, with
--     find_matching_param of parser.c. A `param_t *` is a number, and the record's `options` is the array.
--   Shell: the rest of cmd_hier.c, of parser.c and, as far as these call it, of clistd.c. The
--     record Shell has the global variables. Shell/Build is build_tlv_buffer, Shell/Input is
--     parse_input_cmd and parse_file. Shell/Sound, Shell/Take and Shell/Walk prove what the loop
--     over the tokens does, the other files what becomes of the leaf values of a mode. Shell/Init is
--     init_libcli, where the callbacks' addresses are an argument. Shell/Extension is what "brief"
--     behind a command leaves. What the callbacks do and the user answers is in the record
--     Environment.
--   TimerLib: libtimer/timerlib.h and timerlib.cpp. Of the POSIX timer the model keeps what
--     `timer_settime` last got; what `timer_gettime` tells is an argument.
--   WheelTimer: libtimer/WheelTimer.h and WheelTimer.cpp. A slot's list is the order of its nodes, since
--     Glthread shows what the operations on links make of an order. `wheel_fn` returns the elements
--     whose callbacks it has called. WheelTimer/Clock has the arithmetic of slots and rotations.
--
-- Bounds and fuel. A byte is a number, and 0 to 255 is not enforced, except where a `uint16_t` is
-- read from two bytes, on a little-endian host. The loop of ProcessClientMsg has one round more of
-- fuel than there are bytes in the ring: each message takes a byte or more out of it, unless its
-- header is 0. The growth loop of the serialization has 32 rounds: it doubles an `int`. The
-- two Purge loops take as much fuel as there are clients, and that is enough. FD_SETSIZE is 1024. The loops over tokens
-- take one round more than the string has characters; a round of the wheel takes one for each element
-- that is due, and one more. The loops from a parameter up to the root take one for each parent. What `realloc` adds to a block
-- is indeterminate and given by a parameter, `junk`.
--
-- Not modelled: sockets and their failures, `select` and the loop behind it, printing, the start
-- and the stop of TcpServerController, the listening socket, the commands of TcpServerCli, the handler
-- of CTRL-C, the console loop, the history file and the test driver of
-- CommandParser, `print_tokens` and `replaceSubstring`, the POSIX timers, and the
-- older copy of the program in Course. The callback is one that does not change the demarcator,
-- a timer's callback does not change the wheel, and the application's `client_connected` changes
-- nothing of the server. `serialize_float` and `serialize_double` are
-- left out, with the bytes of a floating-point number. That `malloc` and `calloc` return a block
-- is assumed.
pub mod Acceptor
pub mod Base
pub mod Bcb
pub mod Client
pub mod CmdTree
pub mod Controller
pub mod Db
pub mod Demarcar
pub mod Glthread
pub mod Serialize
pub mod Shell
pub mod Strings
pub mod SvcMgr
pub mod TimerLib
pub mod Tlv
pub mod WheelTimer
