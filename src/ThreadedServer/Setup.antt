-- ===== src/ThreadedServer/Setup.antt =====
-- What Init takes from the system, on every branch.
use socket_cplus_plus.Prelude.{
  ℕ, ◌≡◌, refl, Bool, true, false, ◌&&◌, not, ◌==◌, arith, none, some, [], ◌∷◌, if◌then◌else◌,
}
use socket_cplus_plus.Prelude.Maps.{pair_key, find}
use socket_cplus_plus.ThreadedServer.{
  SocketPair, new, close_socket, cleanup_and_exit, networking_init, open_dgram_socket, bind_socket,
  init,
}

-- Init of a new server for which a socket can be opened makes it valid exactly when the library starts,
-- the socket takes its option and has another handle than 0, and the bind succeeds. From the moment the option is taken the socket
-- stays open and the library started, also where the handle
-- is 0 or the bind then fails. Where the option is refused the
-- library is given back, and what is closed is the handle that the member held before.
pub init_lem :
    (junk handle : ℕ) (started option_set bound : Bool)
    → ((init started (some handle) option_set bound (new junk)).is_valid
        ≡ started && (option_set && (not (handle == 0) && bound)))
      × ((init started (some handle) option_set bound (new junk)).open_sockets ≡ (
          if started
          then if option_set then handle ∷ [] else close_socket junk (handle ∷ [])
          else []))
      × ((init started (some handle) option_set bound (new junk)).startups
          ≡ (if started && option_set then 1 else 0))
unfolding init networking_init open_dgram_socket bind_socket cleanup_and_exit new
init_lem junk handle true true bound = (ground arith, refl, refl)
init_lem junk handle true false bound = (refl, refl, refl)
init_lem junk handle false option_set bound = (refl, refl, refl)

pub new_unknown : (junk : ℕ) (pair : SocketPair) → find pair (new junk).connections ≡ none
unfolding new
new_unknown junk pair = refl
