-- ===== src/TcpServer.antt =====
-- TCPConnection and TCPServer of UDP01/OldCode/Socket/Socket.h and Socket.cpp. A connection is an
-- address in the list of all connections ever made, as a shared_ptr leads to it. The library runs the
-- handler of each pending accept and read once, at a time of its own choice.
pub mod Receiving
pub mod Frames
pub mod Places
pub mod Scheduling
pub mod Runs
pub mod Leaving
pub mod Owning
pub mod Keeping
pub mod Numbers
pub mod Threader
pub mod Examples
use socket_cplus_plus.Prelude.{
  ℕ, zero, suc, ◌+◌, ◌%◌, ◌^◌, Bool, true, false, Option, none, some, List, [], ◌∷◌, ◌++◌, length,
  take, get_elem?, if◌then◌else◌,
}
use socket_cplus_plus.Wire.{Cursor}
use socket_cplus_plus.Serialize.Host.{ByteOrder}
use socket_cplus_plus.Packets.{Packet}
use socket_cplus_plus.PacketFactory.{Pointer, Factory, release}
use socket_cplus_plus.SizePacket.{size_out, size_in, is_remaining_buffer_bigenough}

-- Less its socket.
pub record TcpConnection : Type 0 where
  pub connection_id : ℕ
  pub has_closed : Bool
  pub has_server : Bool
  pub inward_packets : List Pointer

-- `accepts` and `reads` are the connections whose handler is pending.
pub record TcpServer : Type 0 where
  pub connection_id_tracking : ℕ
  pub is_accepting : Bool
  pub connections : List TcpConnection
  pub connections_made : List ℕ
  pub connections_awaiting_schedule : List ℕ
  pub accepts : List ℕ
  pub reads : List ℕ

abbrev pub connection_id_start : ℕ
connection_id_start = 1024

-- sizeof(receiveBuffer)
abbrev pub max_length : ℕ
max_length = 512

pub new : TcpServer
new = record {
  connection_id_tracking = connection_id_start;
  is_accepting = false;
  connections = [];
  connections_made = [];
  connections_awaiting_schedule = [];
  accepts = [];
  reads = [];
}

-- A call of a connection's method, which changes the object that the pointer leads to.
abbrev pub modify : ℕ → (TcpConnection → TcpConnection) → List TcpConnection → List TcpConnection
modify i f [] = []
modify zero f (c ∷ cs) = f c ∷ cs
modify (suc i) f (c ∷ cs) = c ∷ modify i f cs

pub close : TcpConnection → TcpConnection
close c = record c { has_closed = true }

pub set_server : TcpConnection → TcpConnection
set_server c = record c { has_server = true }

pub set_connection_id : ℕ → TcpConnection → TcpConnection
set_connection_id id c = record c { connection_id = id % 2 ^ 16 }

-- `junk` is the id that the constructor leaves.
pub create : ℕ → TcpConnection
create junk = record {
  connection_id = junk;
  has_closed = false;
  has_server = false;
  inward_packets = [];
}

pub begin_accepting_new_connections : ℕ → TcpServer → TcpServer
begin_accepting_new_connections junk s = record s {
  connections = s.connections ++ (set_connection_id s.connection_id_tracking (create junk) ∷ []);
  connection_id_tracking = s.connection_id_tracking + 1;
  accepts = s.accepts ++ (length s.connections ∷ []);
  is_accepting = true;
}

pub reschedule_me : ℕ → TcpServer → TcpServer
reschedule_me conn s = record s {
  connections_awaiting_schedule = s.connections_awaiting_schedule ++ (conn ∷ []);
}

pub new_connection_accepted_handler : ℕ → ℕ → Bool → TcpServer → TcpServer
new_connection_accepted_handler junk conn error s = begin_accepting_new_connections junk (
    if error
    then s
    else let t =
        reschedule_me conn (record s { connections = modify conn set_server s.connections }) in
      record t { connections_made = t.connections_made ++ (conn ∷ []) })

-- TCPConnection::Start
pub start : ℕ → TcpServer → TcpServer
start conn s = record s { reads = s.reads ++ (conn ∷ []) }

pub start_all : List ℕ → TcpServer → TcpServer
start_all [] s = s
start_all (conn ∷ rest) s = start_all rest (start conn s)

pub handle_reschedule : TcpServer → TcpServer
handle_reschedule s = record (start_all s.connections_awaiting_schedule s) {
  connections_awaiting_schedule = [];
}

-- It looks for the connection and leaves it in the list.
pub remove_connection : ℕ → TcpServer → TcpServer
remove_connection conn s = s

pub is_closed : List TcpConnection → ℕ → Bool
is_closed [] i = false
is_closed (c ∷ cs) zero = c.has_closed
is_closed (c ∷ cs) (suc i) = is_closed cs i

pub open_ones : List TcpConnection → List ℕ → List ℕ
open_ones cs [] = []
open_ones cs (conn ∷ rest) =
    if is_closed cs conn then open_ones cs rest else conn ∷ open_ones cs rest

pub cleanup_closed_connections : TcpServer → TcpServer
cleanup_closed_connections s = record s {
  connections_made = open_ones s.connections s.connections_made;
}

-- How the loop of a read's handler ends: with an access outside the buffer or through a null pointer,
-- or with the packets of the connection and the factory. `unfinished` is a want of fuel.
pub data Outcome : Type 0 where
  unfinished : Outcome
  fault : Outcome
  finished : List Pointer → Factory → Outcome

module _ ⦃net : ByteOrder⦄ where
  pub receive_packets : ℕ → List ℕ → ℕ → ℕ → List Pointer → Factory → Outcome
  receive_packets zero buffer offset total packets f = unfinished
  receive_packets (suc fuel) buffer offset total packets f =
      elim (is_remaining_buffer_bigenough buffer offset total) [
        | none ↦ fault
        | some enough ↦ elim enough [
          | false ↦ finished packets f
          | true ↦ elim (size_in f buffer offset) [
            | none ↦ fault
            | some (a, next, g) ↦
                receive_packets fuel buffer next total (packets ++ (some a ∷ [])) g
          ]
        ]
      ]

  -- The handler of TCPConnection::Start without an error, for the connection's own packets.
  pub receive : List ℕ → ℕ → List Pointer → Factory → Outcome
  receive buffer total packets f = receive_packets (suc total) buffer 0 total packets f

  -- The same, with the server; `buffer` is the connection's receive buffer, and `total` the number
  -- of bytes that the library has put there.
  pub handle_receive : ℕ → Bool → List ℕ → ℕ → TcpServer → Factory → Option (TcpServer × Factory)
  handle_receive conn error_code buffer total s f =
      if error_code
      then some
          (remove_connection conn (record s { connections = modify conn close s.connections }), f)
      else elim (get_elem? s.connections conn) [
        | none ↦ none
        | some c ↦ elim (receive buffer total c.inward_packets f) [
          | unfinished ↦ none
          | fault ↦ none
          | finished packets g ↦ some (
            reschedule_me conn (record s {
              connections =
                  modify conn (λ (t : TcpConnection). record t { inward_packets = packets })
                    s.connections;
            }),
            g,
          )
        ]
      ]

  -- The bytes that go out; `stack` is what the buffer of 120 bytes starts with.
  pub send_message : Packet → List ℕ → Option (List ℕ)
  send_message bp stack = elim (size_out bp (record { bytes = stack; offset = 0 })) [
    | none ↦ none
    | some filled ↦ some (take filled.offset filled.bytes)
  ]

pub peek_message : TcpConnection → Option Pointer
peek_message c = elim c.inward_packets [ [] ↦ none | p ∷ rest ↦ some p ]

pub get_num_messages : TcpConnection → ℕ
get_num_messages c = length c.inward_packets

-- The front of an empty deque is undefined.
pub deque_front : List Pointer → TcpConnection → Factory → Option (TcpConnection × Factory)
deque_front [] c f = none
deque_front (p ∷ rest) c f = elim (release p f) [
  | none ↦ none
  | some (_, _, g) ↦ some (record c { inward_packets = rest }, g)
]

pub deque_message : TcpConnection → Factory → Option (TcpConnection × Factory)
deque_message c f = deque_front c.inward_packets c f
