-- ===== src/Sockets.antt =====
-- UDP01/udpServer.h and udpServer.cpp, and Network::IsPortBusy of UDP01/OldCode/NetworkUtils.cpp: code
-- that takes sockets and address lists from the system and has to give them back on every path.
-- What the system answers to each call is a parameter.
pub mod Balance
pub mod Examples
use socket_cplus_plus.Prelude.{
  ℕ, zero, suc, ◌+◌, ◌-◌, ◌*◌, ◌/◌, ◌%◌, Bool, true, false, not, ◌&&◌, Option, none, some, List, [],
  ◌∷◌, ◌==◌, if◌then◌else◌,
}

-- The handles of the open sockets, the last one first, and how many address lists are allocated.
pub record Held : Type 0 where
  pub sockets : List ℕ
  pub address_lists : ℕ

abbrev pub open_socket : ℕ → Held → Held
open_socket handle h = record h { sockets = handle ∷ h.sockets }

abbrev pub get_address_list : Held → Held
get_address_list h = record h { address_lists = suc h.address_lists }

-- A handle taken out of those that are open; `none` if it is not among them.
pub without : ℕ → List ℕ → Option (List ℕ)
without handle [] = none
without handle (x ∷ open_ones) =
    let rest = without handle open_ones in
    if handle == x then some open_ones else elim rest [ none ↦ none | some l ↦ some (x ∷ l) ]

-- Closing or freeing what is not held is an error: `none`.
abbrev pub close_socket : ℕ → Held → Option Held
close_socket handle h = elim (without handle h.sockets) [
  | none ↦ none
  | some l ↦ some (record h { sockets = l })
]

abbrev pub free_address_list : Held → Option Held
free_address_list h = elim h.address_lists [
  | zero ↦ none
  | suc n ↦ some (record h { address_lists = n })
]

abbrev pub ◌then◌ : {A B : Type 0} → Option A → (A → Option B) → Option B
◌then◌ none f = none
◌then◌ (some a) f = f a

-- Whether getaddrinfo, socket, setsockopt, bind and listen succeed. getaddrinfo allocates a list only
-- if it succeeds.
pub record Answers : Type 0 where
  pub resolved : Bool
  pub made : Bool
  pub option_set : Bool
  pub bound : Bool
  pub listening : Bool

-- freeaddrinfo; closesocket
abbrev pub give_back : ℕ → Held → Option Held
give_back handle h = ◌then◌ (free_address_list h) (close_socket handle)

-- `handle` is what socket() answers.
pub is_port_busy : Answers → ℕ → Held → Option (Bool × Held)
is_port_busy os handle h =
    let with_list = get_address_list h in
    let with_socket = open_socket handle with_list in
    if not os.resolved
    then some (true, h)
    else if not os.made
    then ◌then◌ (free_address_list with_list) (λ g. some (true, g))
    else if not os.option_set
    then ◌then◌ (give_back handle with_socket) (λ g. some (true, g))
    else if not os.bound
    then ◌then◌ (give_back handle with_socket) (λ g. some (true, g))
    else ◌then◌ (free_address_list with_socket) λ g.
      if not os.listening
      then ◌then◌ (close_socket handle g) (λ k. some (true, k))
      else ◌then◌ (close_socket handle g) (λ k. some (false, k))

pub record UdpServer : Type 0 where
  pub f_socket : ℕ
  pub f_port : ℕ
  pub f_addr : List ℕ

-- udp_client_server_runtime_error, by its message.
pub data Error : Type 0 where
  invalid_address could_not_create could_not_bind : Error

pub data Constructed : Type 0 where
  constructed : UdpServer → Constructed
  thrown : Error → Constructed

-- The constructor; `handle` is what socket() answers.
pub new : Answers → ℕ → List ℕ → ℕ → Held → Option (Constructed × Held)
new os handle addr port h =
    let with_list = get_address_list h in
    let with_socket = open_socket handle with_list in
    if not os.resolved
    then some (thrown invalid_address, h)
    else if not os.made
    then ◌then◌ (free_address_list with_list) (λ g. some (thrown could_not_create, g))
    else if not os.bound
    then ◌then◌ (give_back handle with_socket) (λ g. some (thrown could_not_bind, g))
    else some
        (constructed (record { f_socket = handle; f_port = port; f_addr = addr }), with_socket)

-- The destructor.
pub destroy : UdpServer → Held → Option Held
destroy server h = give_back server.f_socket h

pub get_socket : UdpServer → ℕ
get_socket server = server.f_socket

pub get_port : UdpServer → ℕ
get_port server = server.f_port

pub get_addr : UdpServer → List ℕ
get_addr server = server.f_addr

-- What the system's recv answers for a socket and the size of the buffer.
pub recv : (ℕ → ℕ → Option ℕ) → UdpServer → ℕ → Option ℕ
recv system_recv server max_size = system_recv server.f_socket max_size

-- What select answers.
pub data Selected : Type 0 where
  failed timed_out ready : Selected

-- The timeval of a wait.
pub timeout : ℕ → ℕ × ℕ
timeout max_wait_ms = (max_wait_ms / 1000, max_wait_ms % 1000 * 1000)

-- What recv answers (`none` for its -1), whether recv is called, and whether errno is set to EAGAIN.
pub timed_recv : Selected → Option ℕ → Option ℕ × Bool × Bool
timed_recv failed received = (none, false, false)
timed_recv ready received = (received, true, false)
timed_recv timed_out received = (none, false, true)
