-- ===== src/Lib.antt =====
-- SocketCPlusPlus: a networking library for games. Packets are classes that write themselves to a
-- byte buffer and read themselves back. A factory makes them from pools of objects that are made in
-- advance and given back. Over TCP a packet travels in a frame with its size; over UDP a connection
-- starts with a handshake. Around these stand containers, packed positions, and tables of names.
--
-- The parts, and the files that model them (paths from the repository's root):
-- - Wire, with Wire/Laws, Wire/Append and Wire/Reads: the pair of a buffer and an offset that each
--   serializer passes on (`U8* data, int& bufferOffset`). An access outside the buffer, which is
--   undefined in C++, is `none`.
-- - Serialize: UDP01/OldCode/Packets/Serialize.h and Serialize.cpp, one function per Serializer and
--   direction. The socket library's htons, ntohs, htonl and ntohl are the record ByteOrder of
--   Serialize/Host, with their documented behaviour as laws; Serialize/Hosts has a host of each order.
-- - Packets: UDP01/OldCode/Packets/BasePacket.h, BasePacket.cpp, MovementPacket.h, MovementPacket.cpp
--   and IBinarySerializable.h. The classes are the constructors of Packet. Packets/Wire lists their
--   bytes; Packets/Classes has what FactoryBoilerplate declares, Packets/Types the packet types.
-- - CircularBuffer: UDP01/OldCode/General/CircularBuffer.h. CircularBuffer/Queue has the bounded queue
--   that the ring is meant to be.
-- - PacketFactory: UDP01/OldCode/Packets/PacketFactory.h and PacketFactory.cpp. The state has the three
--   maps and the store of all objects; a shared_ptr is an address in it. PacketFactory/Traces has the
--   calls of the factory and its clients as a step relation.
-- - SizePacket: the class of that name in BasePacket.h and BasePacket.cpp, the user of the factory.
-- - Connection: Common/Connection.h. Connection/States has the sends and receives as a step relation.
-- - CommonTypes: UDP01/OldCode/Packets/CommonTypes.h and CommonTypes.cpp; CommonTypes/Vectors has the
--   two vectors.
-- - ServerConstants: ServerType.h, ServerType.cpp, ServerConstants.h and ServerConstants.cpp under
--   UDP01/OldCode. The C library's stricmp is the record Stricmp.
-- - Compression: UDP01/OldCode/NetworkUtils.h, and Pack and Unpack of MovementPacket.cpp.
-- - Sockets: UDP01/udpServer.h and udpServer.cpp, and IsPortBusy of UDP01/OldCode/NetworkUtils.cpp.
-- - TcpClient: TCPClient of UDP01/OldCode/Socket/ClientSocket.h. A handler is a function of the client;
--   a call that starts an asynchronous operation adds it to the list of those that are pending.
--   TcpClient/Actors has the client and the library together as a step relation, in which the library
--   chooses what ends next; TcpClient/Connecting, Reading, Writing, Silence and Shutdown follow one actor
--   or phase each. TcpClient/Threaded has ThreadedTcpClient.
-- - TcpServer: TCPConnection and TCPServer of UDP01/OldCode/Socket/Socket.h and Socket.cpp. The
--   connections are a store, a TCPConnection::pointer is a place in it. TcpServer/Receiving and Frames
--   are about the handler of a read, which takes frames with SizePacket; TcpServer/Scheduling has the
--   handlers and the loops of TCPThreader::ThreadRun as a step relation; TcpServer/Owning and Keeping
--   follow the packets that the connections queue, TcpServer/Leaving the connections that are taken out
--   of the list. TcpServer/Threader has TCPThreader, with what the library does in a round as an argument.
-- - ThreadedServer: UDPServer of UDP01-ThreadedServer/UDP01-ThreadedServer.cpp, with a machine of
--   Connection for each peer. ThreadedServer/Serving has its rounds as a step relation,
--   ThreadedServer/Running the whole of operator().
-- - UdpClient: UDP01 - Client/UDP01 - Client.cpp, the program that shakes hands with ThreadedServer. Its
--   loop runs over the list of what the system answers; a list that ends stands for a wait.
--   UdpClient/Session has it together with ThreadedServer.
-- - DatagramServer: UDP01/UDP01.cpp, the program that prints what it receives.
-- - ServerLog: UDP01/OldCode/NetworkCommon/server_log.h and server_log.cpp, as built for Windows. What
--   vsnprintf and boost::format make of a message is an argument.
-- - ServerSocket: the class of UDP01/OldCode/Socket/ServerSocket.h, its constructor and its count of
--   clients, with the TCPThreader of TcpServer.
-- - Daytime: UDPServer of UDP01/OldCode/Socket/Socket.h, which answers with the time of day.
-- - BoundedStrings: FixedLengthString and BoundedLengthString of UDP01/OldCode/General/FixedLengthString.h
--   and FixedLengthString.inl. The C library's strncpy, strcpy, strcmp and strstr are written out.
-- - Base64: UDP01/OldCode/General/Base64.cpp. boost's iterators are the record Base64Iterators of
--   Base64/Iterators, with their documented behaviour as laws; Base64/Examples has the usual alphabet.
--   From 3 * 2 ^ 30 bytes on the encoder's index wraps round, and the model does not show what is overwritten.
-- - Observers: PacketObserver.h and the listeners of ServerSocket.h, both in UDP01/OldCode/Socket.
-- - Exchange: a client of TcpClient and a server of TcpServer together.
-- - Utils: UDP01/OldCode/Utils/Utils.cpp, with its dates in Utils/Dates and its files in Utils/Files. The
--   C library's gmtime and mktime are arguments.
-- - Prelude: tests, lists, bits and maps. A module Examples below a part has runs on concrete inputs.
--
-- The parts meet thus: TcpClient's start_write and TcpServer's send_message call SizePacket's size_out
-- and give the packet back to PacketFactory; TcpServer's handle_receive calls SizePacket's size_in, which
-- takes an object from PacketFactory and reads it with Packets; ThreadedServer passes each datagram to
-- the Connection of its sender and asks each Connection in turn what to send; UdpClient is a peer of it,
-- with a machine of Connection of its own; ServerLog makes its directory with Utils; ServerSocket owns a
-- TCPThreader, which owns a TcpServer.
--
-- Numbers are natural numbers. An unsigned value of w bits is one below 2^w, and where the code
-- cuts or wraps, `% 2 ^ w` stands there; an `int` on the wire is its pattern of 32 bits. A loop is a
-- recursion over the list or the number that bounds it. The loop over the frames of a read runs on fuel,
-- one round more than there are bytes, since every round moves the offset; TcpServer/Receiving is about
-- that. The digits of a printed number run on fuel too, one more than the number. A std::map is an
-- association list, so what a loop over one does comes in the order of the list. The ring's put,
-- get and reset hold its lock, and its other methods do not; each is taken as one step. A factory's
-- `assert` is taken as in a release build.
-- The handlers of boost::asio are steps that do not overlap. The bytes of an asynchronous write are those
-- of the buffer when the write is started. The handler of a cancelled wait runs like that of one that
-- has ended, since the code binds it without the error code.
--
-- TCPClient's start is taken to be called once: TcpClient/Actors has the user's other calls.
--
-- Not modelled: the destructors of ServerSocket and of TCPThreader, which wait for the threads that run
-- the library; the making of these threads and the signal_set in TCPThreader's BeginService; the socket
-- calls, the running of threads, clocks, the keyboard and the console, which are calls of the platform
-- and of boost; the float arithmetic in front of the packing; the examples of
-- boost::asio and the tests.
pub mod Prelude
pub mod Wire
pub mod Serialize
pub mod Packets
pub mod CircularBuffer
pub mod PacketFactory
pub mod SizePacket
pub mod Connection
pub mod CommonTypes
pub mod ServerConstants
pub mod Compression
pub mod Sockets
pub mod Utils
pub mod Observers
pub mod TcpClient
pub mod TcpServer
pub mod Exchange
pub mod ThreadedServer
pub mod UdpClient
pub mod DatagramServer
pub mod ServerLog
pub mod ServerSocket
pub mod Daytime
pub mod BoundedStrings
pub mod Base64
