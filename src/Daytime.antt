-- ===== src/Daytime.antt =====
-- UDPServer of UDP01/OldCode/Socket/Socket.h, which answers each datagram with the time of day. The
-- library runs the handler of a pending operation once, at a time of its own choice; the text that
-- MakeDaytimeString gives is an argument.
pub mod Answers
use socket_cplus_plus.Prelude.{ℕ, suc, Bool, List, [], ◌∷◌, ◌++◌, if◌then◌else◌}

-- `receives` counts the receives that are pending; `sends` has those that are, with their receivers.
pub record DaytimeServer : Type 0 where
  pub remote_endpoint : ℕ
  pub receives : ℕ
  pub sends : List (ℕ × List ℕ)

pub start_receive : DaytimeServer → DaytimeServer
start_receive s = record s { receives = suc s.receives }

-- `unset` is the endpoint before anything came.
pub new : ℕ → DaytimeServer
new unset = start_receive (record { remote_endpoint = unset; receives = 0; sends = [] })

pub handle_receive : List ℕ → Bool → DaytimeServer → DaytimeServer
handle_receive message error s =
    if error
    then s
    else start_receive (record s { sends = s.sends ++ ((s.remote_endpoint, message) ∷ []) })

-- It only prints.
pub handle_send : DaytimeServer → DaytimeServer
handle_send s = s
