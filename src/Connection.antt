-- ===== src/Connection.antt =====
-- Common/Connection.h: CommsStateMachine, the handshake of a UDP connection, and Connection, which
-- runs it. A buffer is its bytes, and `numBytes` its length.
pub mod Handshake
pub mod States
pub mod Serving
pub mod Client
pub mod Examples
use socket_cplus_plus.Prelude.{
  ℕ, ◌+◌, ◌-◌, Bool, true, false, not, ◌&&◌, ◌||◌, Option, none, some, List, [], ◌∷◌, ◌++◌, length,
  take, drop, get_or, ltb, leb, ◌==◌, if◌then◌else◌,
}

pub data State : Type 0 where
  send_handshake : State
  send_connection_id : State
  send_connection_policies : State
  send_channels : State
  send_topology : State
  normal_send : State
  connection_failed : State

-- `iniates` is the source's spelling.
pub record CommsStateMachine : Type 0 where
  pub current_state : State
  pub iniates : Bool
  pub has_sent_state : Bool
  pub conn_id : ℕ

abbrev pub server_id : ℕ
server_id = 0x08

abbrev pub client_id : ℕ
client_id = 0x04

abbrev pub sentinel : ℕ
sentinel = 0xAA

-- "IOIC"
abbrev pub unique_library_id : List ℕ
unique_library_id = 73 ∷ 79 ∷ 73 ∷ 67 ∷ []

-- The constructor; `junk` is what connId starts with.
pub new : ℕ → Bool → CommsStateMachine
new junk is_server = record {
  current_state = send_handshake;
  iniates = not is_server;
  has_sent_state = false;
  conn_id = junk;
}

-- The two bytes, and what is left of the buffer behind them.
pub write_protocol_sentinel : CommsStateMachine → List ℕ → List ℕ × List ℕ
write_protocol_sentinel m buffer =
    (sentinel ∷ (if m.iniates then client_id else server_id) ∷ [], drop 2 buffer)

-- strcpy_s of the library id into `size` bytes: the text and its zero; with less room the library
-- reports an error, which ends the program: `none`.
pub copy_library_id : ℕ → List ℕ → Option (List ℕ)
copy_library_id size destination =
    let text = unique_library_id ++ (0 ∷ []) in
    if leb (length text) size then some (text ++ drop (length text) destination) else none

-- The result, bytesUsed, the buffer and the machine.
pub data_send : CommsStateMachine → List ℕ → Option (Bool × ℕ × List ℕ × CommsStateMachine)
data_send m buffer = elim m.current_state [
  | send_handshake ↦
      if ltb (length buffer) 6
      then some (false, 0, buffer, record m { current_state = connection_failed })
      else let (written, behind) = write_protocol_sentinel m buffer in
        elim (copy_library_id (length buffer - 2) behind) [
          | none ↦ none
          | some text ↦ some (true, 6, written ++ text, record m { has_sent_state = true })
        ]
  | _ ↦ some (true, 0, buffer, m)
]

-- The result and the machine; the caller's pointer moves past the two bytes.
pub read_protocol_sentinel : CommsStateMachine → List ℕ → Bool × CommsStateMachine
read_protocol_sentinel m buffer =
    let val1 = get_or buffer 0 0 in
    let val2 = get_or buffer 1 0 in
    let failed = record m { current_state = connection_failed } in
    if not (val1 == sentinel)
    then (false, failed)
    else if m.iniates
    then if not (val2 == server_id) then (false, failed) else (true, m)
    else if not (val2 == client_id)
    then (false, failed)
    else (true, m)

-- strncmp(uniqueLibraryId, buffer, 4) == 0. The id has no zero, so the bytes have to be the same.
pub same_text : List ℕ → List ℕ → Bool
same_text [] bytes = true
same_text (c ∷ text) [] = false
same_text (c ∷ text) (b ∷ bytes) = let rest = same_text text bytes in c == b && rest

pub data_receive : CommsStateMachine → List ℕ → Bool × CommsStateMachine
data_receive m buffer = elim m.current_state [
  | send_handshake ↦
      let failed = record m { current_state = connection_failed } in
      let (known, after) = read_protocol_sentinel m buffer in
      if ltb (length buffer) 6
      then (false, failed)
      else if not known
      then (false, after)
      else if not (same_text unique_library_id (drop 2 buffer))
      then (false, failed)
      else if m.iniates
      then (true, record m { current_state = send_connection_id })
      else (true, record m { current_state = send_connection_id; has_sent_state = false })
  | _ ↦ (true, m)
]

pub ready_to_send : CommsStateMachine → Bool
ready_to_send m = not m.has_sent_state

pub is_expecting_receive : CommsStateMachine → Bool
is_expecting_receive m = true

-- Connection, less its socket and address: it is built as a server's.
pub connection : ℕ → CommsStateMachine
connection junk = new junk true

pub handle_data_in : CommsStateMachine → List ℕ → CommsStateMachine
handle_data_in m data_in = (data_receive m data_in).1

pub needs_service : CommsStateMachine → Bool
needs_service m = ready_to_send m || is_expecting_receive m

-- The datagram that goes out, if any; `stack` is what the buffer of 1024 bytes starts with.
pub run_service : CommsStateMachine → List ℕ → Option (Option (List ℕ) × CommsStateMachine)
run_service m stack =
    if ready_to_send m
    then elim (data_send m stack) [
      | none ↦ none
      | some (_, _, buffer, after) ↦ some (some buffer, after)
    ]
    else some (none, m)

pub has_expired : CommsStateMachine → Bool
has_expired m = false
