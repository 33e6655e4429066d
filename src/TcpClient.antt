-- ===== src/TcpClient.antt =====
-- TCPClient of UDP01/OldCode/Socket/ClientSocket.h: a client whose work is done by the handlers of
-- asynchronous operations. A function that starts an operation adds it to `pending`; the library runs
-- the handler of a pending operation once, at a time of its own choice.
-- A cancelled wait is run like one that has ended, since its handler is not told apart from it.
pub mod Connecting
pub mod Reading
pub mod Writing
pub mod Actors
pub mod Soundness
pub mod Runs
pub mod Silence
pub mod Shutdown
pub mod Threaded
pub mod Examples
use socket_cplus_plus.Prelude.{
  ℕ, ◌+◌, ◌-◌, Bool, true, false, Option, none, some, List, [], ◌∷◌, ◌++◌, length, take, drop,
  get_elem?, leb, if◌then◌else◌,
}
use socket_cplus_plus.Wire.{Cursor}
use socket_cplus_plus.Serialize.Host.{ByteOrder}
use socket_cplus_plus.PacketFactory.{Pointer, Factory, release}
use socket_cplus_plus.SizePacket.{size_out}

-- An iterator over the endpoints is the list from its place on.
pub data Operation : Type 0 where
  connecting : List ℕ → Operation
  reading : Operation
  writing : List ℕ → Operation
  heartbeat_wait : Operation
  deadline_wait : Operation

-- `deadline` is `none` for the maximal time point. `printed` has the lines that went to std::cout
-- behind "Received: ".
pub record TcpClient : Type 0 where
  pub stopped : Bool
  pub endpoints : List ℕ
  pub socket_is_open : Bool
  pub input_buffer : List ℕ
  pub deadline : Option ℕ
  pub heartbeat_timer : Option ℕ
  pub is_connected : Bool
  pub packet_out : List Pointer
  pub packet_in : List Pointer
  pub pending : List Operation
  pub printed : List (List ℕ)

-- The constructor; a new timer's expiry is the library's.
pub new : Option ℕ → TcpClient
new expiry = record {
  stopped = false;
  endpoints = [];
  socket_is_open = false;
  input_buffer = [];
  deadline = expiry;
  heartbeat_timer = expiry;
  is_connected = false;
  packet_out = [];
  packet_in = [];
  pending = [];
  printed = [];
}

abbrev pub initiate : Operation → TcpClient → TcpClient
initiate o c = record c { pending = c.pending ++ (o ∷ []) }

pub write : Pointer → TcpClient → TcpClient
write packet c = record c { packet_out = c.packet_out ++ (packet ∷ []) }

pub get_num_pending_outgoing_packets : TcpClient → ℕ
get_num_pending_outgoing_packets c = length c.packet_out

-- The caller's deque, and the client.
pub read : List Pointer → Bool → TcpClient → List Pointer × TcpClient
read packet_deque should_clear c =
    (packet_deque ++ c.packet_in, if should_clear then record c { packet_in = [] } else c)

pub get_num_pending_inward_packets : TcpClient → ℕ
get_num_pending_inward_packets c = length c.packet_in

pub stop : TcpClient → TcpClient
stop c = record c { stopped = true; socket_is_open = false; is_connected = false }

-- The library opens the socket at the start of async_connect.
pub start_connect : ℕ → List ℕ → TcpClient → TcpClient
start_connect now [] c = stop c
start_connect now (endpoint ∷ rest) c =
    initiate (connecting (endpoint ∷ rest))
      (record c { deadline = some (now + 60); socket_is_open = true })

pub start : ℕ → List ℕ → TcpClient → TcpClient
start now endpoints c =
    initiate deadline_wait (start_connect now endpoints (record c { endpoints = endpoints }))

pub start_read : ℕ → TcpClient → TcpClient
start_read now c = initiate reading (record c { deadline = some (now + 30) })

-- An empty line is a heartbeat.
pub print_line : List ℕ → TcpClient → TcpClient
print_line [] c = c
print_line (b ∷ line) c = record c { printed = c.printed ++ ((b ∷ line) ∷ []) }

-- `n` bytes of the input buffer are a line and its newline.
pub handle_read : ℕ → Bool → ℕ → TcpClient → TcpClient
handle_read now ec n c =
    if c.stopped
    then c
    else if ec
    then stop c
    else let line = take (n - 1) c.input_buffer in
      start_read now (print_line line (record c { input_buffer = drop n c.input_buffer }))

pub check_deadline : ℕ → TcpClient → TcpClient
check_deadline now c =
    if c.stopped
    then c
    else initiate deadline_wait (elim c.deadline [
      | none ↦ c
      | some expiry ↦
          if leb expiry now then record c { socket_is_open = false; deadline = none } else c
    ])

pub handle_write : ℕ → Bool → TcpClient → TcpClient
handle_write now ec c =
    if c.stopped
    then c
    else if ec
    then stop c
    else initiate heartbeat_wait (record c { heartbeat_timer = some (now + 10) })

module _ ⦃net : ByteOrder⦄ where
  -- The loop of start_write over the queue. The offset runs on from packet to packet, and each
  -- write takes the buffer from its start. `none` where a packet is null or the buffer is too short.
  pub write_all : List Pointer → Cursor → TcpClient → Factory → Option (TcpClient × Factory)
  write_all [] buffer c f = some (c, f)
  write_all (none ∷ rest) buffer c f = none
  write_all (some a ∷ rest) buffer c f = elim (get_elem? f.heap a) [
    | none ↦ none
    | some packet ↦ elim (size_out packet buffer) [
      | none ↦ none
      | some filled ↦ elim (release (some a) f) [
        | none ↦ none
        | some (_, _, g) ↦
            write_all rest filled (initiate (writing (take filled.offset filled.bytes)) c) g
      ]
    ]
  ]

  -- `stack` is what the buffer of 120 bytes starts with.
  pub start_write : List ℕ → TcpClient → Factory → Option (TcpClient × Factory)
  start_write stack c f =
      if c.stopped
      then some (c, f)
      else elim (write_all c.packet_out (record { bytes = stack; offset = 0 }) c f) [
        | none ↦ none
        | some (d, g) ↦ some (record d { packet_out = [] }, g)
      ]

  pub handle_connect :
      ℕ → Bool → List ℕ → List ℕ → TcpClient → Factory → Option (TcpClient × Factory)
  handle_connect now ec endpoint_iter stack c f =
      if c.stopped
      then some (c, f)
      else if c.socket_is_open
      then if ec
        then some
            (start_connect now (drop 1 endpoint_iter) (record c { socket_is_open = false }), f)
        else start_write stack (start_read now (record c { is_connected = true })) f
      else some (start_connect now (drop 1 endpoint_iter) c, f)
