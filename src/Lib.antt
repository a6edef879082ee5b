-- ===== src/Lib.antt =====
-- gotools: a model of the parts of the Go library that carry its own logic, and what is proved of it.
--
-- The parts, by the file that models them.
--
-- - Encode (stutil/encode.go): EncodeFixed32, DecodeFixed32, EncodeVarint, DecodeVarint,
--   EncodeRawBytes and DecodeRawBytes over lists of bytes. A slice that the code writes to is passed
--   in and returned; a panic is a value of `Outcome`. The loop of EncodeVarint is recursion on the
--   accessibility of the number, that of DecodeVarint on the bytes.
-- - Lru (stkvbuffer/lru.go): the cache as a record with the linked list, newest first, and the map
--   from keys to list elements, which are numbers; `find_elem` follows such a number. The callback
--   of an eviction acts on a state that the operations pass on. The parent has NewLRU, Add, Get,
--   Contains, Peek, Remove, RemoveOldest, GetOldest, Keys, Len, Resize and Purge; Lru/Valid has the
--   invariant, Lru/Refine and Lru/Evict the operations against a view as a list of pairs. The map of
--   the cache has its `range` order as an argument of `purge`.
-- - Spb (stnet/spb.go): the tagged binary format that requests and messages travel in. Spb/Values
--   has Go values and types as far as the codec walks them by reflection; Spb/Pack has packNumber,
--   packHeader, packSlice, packMap, packStruct, pack and SpbEncode; Spb/Read has unpackNumber,
--   unpackByte, unpackHeader and the skipping of fields; Spb/Unpack and Spb/Decode have unpack, with
--   newValByType, and SpbDecode. Spb/Wire describes the bytes of a value by itself, and
--   `Carried` the values that the format carries: well typed, without pointers and floats, the keys
--   of a map apart, the fields of a struct told apart by their numbers, and lengths that `make`
--   allocates. Scalars of defined types and fields that are not exported, with which the code panics,
--   are left out. `Runtime` holds what the code takes from Go's runtime: the conversion of floats, the
--   limit of `make` and the equality of map keys.
-- - Frame (stnet/encode.go, and in stnet/rpc.go, stnet/simpleimp.go and stnet/session.go what has
--   to do with frames): MsgLen, EncodeProtocol, encodeProtocol, Unmarshal of ServiceSpb, and the
--   branch of dohand that cuts the received bytes into messages, with its last message. The
--   decoding of a body, which for ServiceSpb is Spb's, is a parameter, and does not panic.
-- - Rpc (stnet/rpc.go): remote calls. Rpc has the state of a service: the table of requests by their
--   numbers, the counter, and the store of channels, of one place each, in which the calls that wait
--   get their responses. What the code does to the outside is a list of effects. Rpc/Params and
--   Rpc/Calls have rpc_call, Loop, handleRpcReq, handleRpcRsp and HandleMessage, Rpc/Args the packing
--   and unpacking of parameters and results, Rpc/Proto Unmarshal and the sending of the two structs.
--   A call that waits is cut where it waits: `sync_response` and `sync_timeout` are its two ends.
--   Rpc/Once takes all operations as steps in any order. A function called by reflection is its
--   parameter types and what it returns; whether a session takes a frame is an argument of a call. A
--   request or response travels as a frame of Frame around a struct of Spb.
-- - Config (stconfig/ini.go): the configuration file with its comments and sections: LoadINI and
--   readIniFile, Save, the setters and the typed getters. Config/Text has the functions on strings
--   that the code takes from Go's library, over code points, with the Scanner and its limit for a line,
--   which goes by the bytes in UTF-8; the parsers of numbers are parameters. The
--   opened file is the text that it has, and a saved one the text that is written.
-- - Kv (stkvbuffer/kvbuffer.go and stkvbuffer/util.go): the key-value buffer in a block of memory. Kv
--   has the bytes of a node's chunks: GetKey, getValPos, GetVal, and what Set writes for a new key.
--   Kv/Buffer has the buffer, whose memory and free list the callback of its Lru cache changes too:
--   Get, Set, Del, Keys; Kv/Format has NewKVBuffer on a block without a header, Kv/Reload on one that
--   has it, and NewLRUKVBuffer, with chunk sizes cut to 32 bits and the ends without a usable buffer;
--   Kv/Stat has Stat. A chunk is a number and the bytes behind it; the
--   block is the list of its whole chunks.
-- - Service (stnet/service.go): the queues of a service, one for each thread of its server:
--   PushRequest, ParseMsg, sessionEvent, getProcessor, handleMsg, messageThread and the loop of
--   destroy. A channel is the list of what is in it; the implementation that a program gives is a
--   parameter, which says what it unmarshals and which thread it chooses, and whether a call of it
--   panics. Service/Fifo takes all of these as events in any order. Service/Wake is the loop of a
--   thread of stnet/server.go that has no services of its own, with its signal, as a step relation:
--   its own moves, and those of others who queue a message or close the server and then signal.
-- - Transport (stnet/session.go): NewSession, newConnSession, restart, Send, the loops of dosend and
--   dorecv. The socket is a parameter: how much a Write takes and whether it fails, how much a Read
--   gives. Transport/Sent takes Send, the rounds of dosend and the end of dorecv in any order;
--   Transport/EndToEnd joins both sides with Frame. Transport/Connect (stnet/connector.go) has the
--   rounds of `connect`, with what each wait asks of its timer.
-- - Server (stnet/server.go, stnet/close.go, and SessionOpen of the proxy in stnet/simpleimp.go):
--   NewServer, AddService, PushRequest by name, Start up to the threads that it starts, Stop, and
--   the weights of AddTcpProxyService. A pointer to a service is its place in the list of services;
--   what Init of a service returns is an argument of Start.
-- - SpbService (stnet/simpleimp.go): ServiceSpb with its registered types, on top of Spb and Frame:
--   RegisterMsg, Unmarshal, HandleMessage and SendSpbCmd, whose number and bytes travel in the struct
--   JsonProto; and HandleMessage of ServiceJson. The implementation is what it is called with.
-- - SortMap (stutil/sort.go): the order of values by their kinds, and SortMap with the loop that turns
--   the order round. sort.Sort and the order of floats are parameters.
-- - Common: the native numbers and lists that the parts share, bit operations as arithmetic, varints,
--   association lists, and the result type of code that panics.
--
-- Machine integers are natural numbers below 2 ^ 64, or below 2 ^ w for a value of w bits, with the
-- wrap-around written as a remainder; a signed integer is its bit pattern. An `int` has 64 bits.
--
-- Fuel: the decoder of Spb takes a unit for each nested value and for each round of a loop.
-- `enough` gives two for each byte of the buffer and two more, since each value takes a byte at
-- least and each round of a loop reads a value. The loop of dohand has one unit for each byte and
-- one more, and so has the loop of dosend that writes a message. That of SortMap has one for each
-- pair. The loops of Kv that make room have one unit for each entry of the cache, since a round
-- evicts one, and in an update one more for each chunk that is needed; its loops over a block have
-- one for each byte, and that along a node's chunks one for each chunk.
--
-- Not modelled: what is read and written before a decoding fails, since the caller gets an error; in
-- stnet the scheduling of goroutines but for the order of their steps, timers but for whether they are
-- over, the heartbeat, UDP but for what dosend writes, the listener, the http service, and the thread
-- of a server that has services of its own; the percentage in Stat of stkvbuffer/kvbuffer.go, a float;
-- the logs, the mapped files and shared memory, the database generator, the proxy and the updater,
-- which are for the most part calls of the operating system.
pub mod Common
pub mod Config
pub mod Encode
pub mod Frame
pub mod Lru
pub mod Rpc
pub mod Service
pub mod Transport
pub mod Server
pub mod SpbService
pub mod SortMap
pub mod Kv
pub mod Spb
