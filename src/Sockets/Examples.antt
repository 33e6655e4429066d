-- ===== src/Sockets/Examples.antt =====
-- A run with a system that grants every call.
use socket_cplus_plus.Prelude.{◌≡◌, true, false, some, []}
use socket_cplus_plus.Sockets.{Held, Answers, is_port_busy, new, ◌then◌}
use socket_cplus_plus.Sockets.Balance.{outlived, destroy-new, is_port_busy_lem}

abbrev granted : Answers
granted = record { resolved = true; made = true; option_set = true; bound = true; listening = true }

abbrev idle : Held
idle = record { sockets = []; address_lists = 0 }

destroy-new_example : ◌then◌ (new granted 5 [] 8080 idle) outlived ≡ some idle
destroy-new_example = destroy-new granted 5 8080 [] idle

abbrev refused_option : Answers
refused_option = record granted { option_set = false }

is_port_busy_lem_example : is_port_busy refused_option 5 idle ≡ some (true, idle)
is_port_busy_lem_example = is_port_busy_lem refused_option 5 idle
