-- ===== src/TcpClient/Threaded.antt =====
-- ThreadedTcpClient of UDP01/OldCode/Socket/ClientSocket.h and ClientSocket.cpp.
use socket_cplus_plus.Prelude.{ℕ, ◌≡◌, refl, Bool, true, false, Option, List, [], ◌∷◌}
use socket_cplus_plus.TcpClient.{TcpClient, new, start}

-- `has_work` is whether the work guard keeps the library from running out of work.
pub record ThreadedTcpClient : Type 0 where
  pub tcp_client : TcpClient
  pub has_work : Bool
  pub ip_address : List ℕ
  pub port_address : ℕ
  pub is_thread_running : Bool

-- `expiry` is that of the client's new timers.
pub new_threaded : Option ℕ → List ℕ → ℕ → ThreadedTcpClient
new_threaded expiry ip_addr port_addr = record {
  tcp_client = new expiry;
  has_work = true;
  ip_address = ip_addr;
  port_address = port_addr;
  is_thread_running = false;
}

-- The client that is started is a local variable; `endpoints` is what the resolver answers.
pub begin_service : Option ℕ → ℕ → List ℕ → ThreadedTcpClient → TcpClient × ThreadedTcpClient
begin_service expiry now endpoints t = (start now endpoints (new expiry), t)

pub is_connected : ThreadedTcpClient → Bool
is_connected t = t.tcp_client.is_connected

pub prepare_stop : ThreadedTcpClient → ThreadedTcpClient
prepare_stop t = record t { is_thread_running = false }

pub stop : ThreadedTcpClient → ThreadedTcpClient
stop t = record t { has_work = false }

pub data Call : Type 0 where
  begins_service : Option ℕ → ℕ → List ℕ → Call
  prepares_stop : Call
  stops : Call

pub call_all : List Call → ThreadedTcpClient → ThreadedTcpClient
call_all [] t = t
call_all (begins_service expiry now endpoints ∷ calls) t =
    call_all calls (begin_service expiry now endpoints t).1
call_all (prepares_stop ∷ calls) t = call_all calls (prepare_stop t)
call_all (stops ∷ calls) t = call_all calls (stop t)

-- Whatever is called, the client stays as it is connected or not.
is_connected-call_all :
    (calls : List Call) (t : ThreadedTcpClient) → is_connected (call_all calls t) ≡ is_connected t
unfolding call_all is_connected begin_service prepare_stop stop
is_connected-call_all [] t = refl
is_connected-call_all (begins_service expiry now endpoints ∷ calls) t =
    is_connected-call_all calls t
is_connected-call_all (prepares_stop ∷ calls) t = is_connected-call_all calls (prepare_stop t)
is_connected-call_all (stops ∷ calls) t = is_connected-call_all calls (stop t)

-- A ThreadedTcpClient is never connected.
never_connected :
    (calls : List Call) (expiry : Option ℕ) (ip_addr : List ℕ) (port_addr : ℕ)
    → is_connected (call_all calls (new_threaded expiry ip_addr port_addr)) ≡ false
unfolding new_threaded is_connected new
never_connected calls expiry ip_addr port_addr =
    is_connected-call_all calls (new_threaded expiry ip_addr port_addr)
