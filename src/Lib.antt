-- ===== src/Lib.antt =====
-- A verification library for the backend of AVB Introspection, a passive observer of AVB/TSN control
-- protocols: it decodes captured packets and reconstructs protocol state machines from them.
--
-- The engine decodes a capture packet by packet (`Decode`, over the byte reader of `Bytes`), sorts the
-- packets by their time in the capture, and lets the state pass (`Engine`) go over them, which knows a
-- packet by its time from the file's first packet (`relTs`, a difference modulo 2 ^ 64). Each decoded message is a context
-- of named fields (`VarLayerContext`), which the pass gives to the logic module of its protocol, in
-- `onDecode`; after each packet of interest `onTimeTick` tells every module how far the capture time
-- has come. The modules share one `SharedModel`, in which each publishes what the others need. All of
-- this runs in one thread, so a call is a function from the state of a module and the shared model to
-- their next values. `Pcap` is the reader of capture files and their merge.
--
-- Files and the code they model (paths from the repository's root):
--   Base, Base/Tests, Base/Lists, Base/Loops, Base/Maps, Base/History, Base/Strings: shared helpers;
--     tests and lists over native numbers, maps as association lists, capped lists, histories
--   Context.antt: backend/src/tsn_gen/var_context.h, and `tsOf`, `numOf` of
--     backend/src/logic/avb_logic.h
--   Mrp.antt and Mrp/: backend/src/logic/mrp_registrar.cpp
--   Shared.antt: `SharedModel` of backend/src/logic/avb_logic.h
--   Adp.antt and Adp/: backend/src/logic/adp_logic.cpp
--   Maap.antt and Maap/: backend/src/logic/maap_logic.cpp
--   Mvrp.antt and Mvrp/: backend/src/logic/mvrp_logic.cpp
--   Acmp.antt and Acmp/: backend/src/logic/acmp_logic.cpp
--   Aecp.antt and Aecp/: backend/src/logic/aecp_logic.cpp
--   Bytes.antt and Bytes/: backend/src/util/bytes.h
--   Decode.antt and Decode/: backend/src/decode/decode.cpp and backend/src/decode/decode.h
--   Engine.antt and Engine/: the state pass of backend/src/engine/engine.cpp, backend/src/engine/session.h
--   Gptp.antt and Gptp/: backend/src/logic/gptp_logic.cpp
--   Msrp.antt and Msrp/: backend/src/logic/msrp_logic.cpp
--   Pcap.antt and Pcap/: backend/src/pcapio/pcap_reader.cpp and backend/src/pcapio/pcap_reader.h
--
-- How the code is read. A C++ method that changes its object is a function to the new record; a
-- `std::map` is an association list without an order of keys, since no result here depends on it but
-- the order in which one time tick reports its transitions. The state of a machine, a text in the
-- source, is a data type, with `unset` for the empty text. A text that is put together for people
-- (a reason, a summary) is kept as the values that go into it. Numbers are natural numbers with the
-- wrap-around of their C++ type written out where they are narrowed or counted up. A capture time
-- is a number of nanoseconds, as the field `ts_ns` has it, where the source divides by 1e9 into a
-- double; so the rounding of that division is not modelled. The time -1, which stands for "never",
-- is `none`. A cast from a 64-bit field to `int` is taken modulo 2^32, where the source reads a
-- number from 2^31 on as negative: the code tells such values only from small constants. Every loop
-- is structural recursion on a list, or takes fuel where the file says so;
-- the decoder's fuel is the length of the frame, which the file Decode/Always.antt is about.
--
-- Not modelled: what only prints a state (`snapshot`, JSON output), the packet inspector's display
-- fields and the texts of packet events, the snapshots of a session, sockets, files, threads
-- and locks, the web API, the session store, authentication and hashing, and decompression.
pub mod Base
pub mod Context
pub mod Mrp
pub mod Shared
pub mod Adp
pub mod Maap
pub mod Mvrp
pub mod Acmp
pub mod Aecp
pub mod Msrp
pub mod Pcap
pub mod Gptp
pub mod Bytes
pub mod Decode
pub mod Engine
