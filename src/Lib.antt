-- ===== src/Lib.antt =====
-- The core of PeerCast, as a model in which its operations are definitions that compute: what a relay
-- keeps of a stream (packets in a ring), whom it knows (identifiers, hosts, hit lists), whom it lets in
-- (filters), what it speaks (byte streams, chunked bodies, trees of atoms and the messages made of them,
-- AMF0, queries and escapes), and what it logs.
--
-- Prelude.antt, with its children, has what the components share: tests into Bool, lists measured by
-- native numbers, 32-bit words, bits, and the loops whose index is an unsigned word.
--
-- Packet.antt and Packet/Buffer.antt are core/common/chanpacket.h and chanpacket.cpp. `Packet` is
-- ChanPacket, `Buffer` is ChanPacketBuffer: its fields are those of the class, its array a function of
-- the index. The operations have the names of the methods (writePacket is `write_packet`). The clock is an
-- argument; the turns of the wait of readPacket are a list of what the other threads do and of what the
-- clock shows. Loops over the packets run on fuel for 65 rounds: the window has at most 64 packets.
-- Children: Inv (the invariant), Queue (the contract), Find and Positions
-- (the questions about positions), Wait, Copy (copyFrom).
--
-- Address.antt is core/common/ip.h with host.h and `isMemberOf` of host.cpp. An address is a list of
-- bytes, `none` an exception. The printing and parsing of addresses and the name service are left out.
--
-- Filter.antt is core/common/servfilter.h and servfilter.cpp, without the parsing and printing of
-- patterns, which stand on a library of regular expressions. The name service is a parameter (`Resolver`).
-- A shift that C++ leaves undefined is a result of its own.
--
-- GnuId.antt is core/common/gnuid.h and gnuid.cpp: GnuID and GnuIDList. Random numbers are arguments.
--
-- Hits.antt, Hits/Totals.antt and Hits/Search.antt are core/common/chanhit.h and chanhit.cpp: ChanHit,
-- ChanHitList and ChanHitSearch. The linked list is a list of nodes with their addresses, so that a
-- deletion while a loop walks can be followed; that loop runs on fuel for one round more than there are
-- nodes. Hits/Atoms.antt is the message of `ChanHit::writeAtoms`. The XML and state reports,
-- initLocal and the locks are left out.
--
-- Io.antt is Stream of core/common/stream.h and stream.cpp, over a stream that reads like the socket of
-- core/unix/usocket.cpp: all bytes asked for, or an exception. The input is the list of bytes to come.
-- The loops of skip and writeTo run on fuel for one round more than there are bytes.
--
-- Dechunker.antt, over Io.antt, is core/common/dechunker.h and dechunker.cpp, for counts that are not
-- negative. The size of a chunk is read by recursion on the bytes to come; the loop of read runs on fuel
-- for one round more than there are of them, since every chunk takes some. Dechunker/Chunker.antt is the
-- writer, core/common/chunker.h; a size has at most 8 hexadecimal digits.
--
-- Atom.antt, over Io.antt and Address.antt, is AtomStream of core/common/atom.h. The recursions over a
-- tree of atoms run on fuel, which bounds its depth: a tree is no deeper than it has atoms.
--
-- Pcp.antt, over Atom, Hits and Packet, is the PCP protocol, core/common/pcp.cpp. The loop over the children of
-- a message, whose number is in it, is structural; fuel bounds the depth of atoms that are skipped or copied.
-- Pcp/Host.antt is the message of a host (`readHostAtoms`, with the lists of hits of core/common/chanmgr.cpp
-- that it changes). Pcp/Packets.antt is that of a packet (`readPktAtoms`, with what `sendPCPChannel` of
-- core/common/servent.cpp writes). Pcp/Info.antt is ChanInfo and TrackInfo of core/common/chaninfo.h and
-- chaninfo.cpp: their atoms and `update`. Pcp/Broadcast.antt is a message that goes from peer to peer
-- (`readBroadcastAtoms`), over what is done with the messages inside it; where it is sent on is a list of
-- targets. Pcp/Dispatch.antt ties the knot: `readAtom` and `procAtom`, as far as they are modelled, the
-- message of a host inside a broadcast among them. Pcp/Routing.antt is what the targets do: `broadcastPacket` of
-- core/common/servmgr.cpp and `broadcastPacketUp` of chanmgr.cpp, down to the buffer of a stream, one by one
-- (Delivery) and for a group (Once). Pcp/Output.antt is how that buffer is written out (`flush`); its loop runs
-- on fuel for 65 rounds, since at most 64 packets wait.
--
-- Text.antt has parts of core/common/str.cpp: Text/Utf8.antt (validation, truncation and encoding of
-- UTF-8), Text/Split.antt (split and join), Text/Lines.antt, and Text/Shell.antt (the escape of an argument
-- for a shell, and the words of a command). A text is a list of bytes. The loop of split runs on fuel for
-- one round more than the text has bytes.
--
-- Dict.antt is the `std::map` of strings, as a list in the order of the keys. Cgi.antt, Cgi/Query.antt and
-- Cgi/Html.antt, over it and over Text, are core/common/cgi.cpp: escapes for URLs, the class Query, and
-- escapes of HTML with the table of entities.
--
-- LogBuffer.antt is core/common/logbuf.h and logbuf.cpp, with the ring of 1000 lines of 100 bytes that
-- core/common/sys.cpp makes: an array as a function of the index. LogBuffer/Add.antt is the way of a
-- message into it, in core/common/peercast.cpp. The loop of `write` runs on fuel; with 1025 rounds it ends
-- for every message, since each round takes a byte at least of a valid text of at most 1024.
--
-- Amf.antt, over Io and Dict, is the serialisation of AMF0 values, core/common/amf0.h and amf0.cpp. Fuel
-- bounds the calls, which nest as the values do.
--
-- Not modelled: the rest of the server (servents, channels, their threads and connections) and of the PCP
-- protocol (the messages of whole channels and of the root, the requests to connect back, broadcasts in
-- broadcasts), RTMP, the
-- container formats, the web interface, configuration, directories, and the vendored code. Much of this is
-- socket I/O between threads.
pub mod Prelude
pub mod Packet
pub mod Address
pub mod Filter
pub mod GnuId
pub mod Hits
pub mod Io
pub mod Dechunker
pub mod Atom
pub mod Text
pub mod Dict
pub mod Cgi
pub mod Pcp
pub mod LogBuffer
pub mod Amf
