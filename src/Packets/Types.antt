-- ===== src/Packets/Types.antt =====
-- The packet types of BasePacket.h with their numbers, and the names that BasePacket.cpp gives them.
use Prim.Native.String.{String}
use text.Mathlib.Text.{◌==◌ as str_eq}
use text.Mathlib.TextEquality.{eq_iff}
use socket_cplus_plus.Prelude.{
  ℕ, ◌<◌, ◌≤◌, dec_lt, not, get_elem?-beyond, ◌≡◌, refl, ◌∙◌, ◌≢◌, List, [], ◌∷◌, Option, none,
  some, Bool, true, ◌||◌, ◌==◌, ==_iff, get_elem?, every_below, every_below_sound, arith,
  Bool-cases, inl, inr,
}

-- enum PacketType, PacketType_Num left out: no packet has it.
pub data PacketType : Type 0 where
  base login server_tick network_protocol chat user_info contact asset user_state_change db_query :
      PacketType
  gameplay gateway_wrapper server_to_server_wrapper server_job_wrapper server_information :
      PacketType
  gateway_information error_report cheat purchase tournament analytics notification invitation :
      PacketType
  user_stats : PacketType

-- The constructors in the order of their numbers, from 0 on.
abbrev packet_types : List PacketType
packet_types =
    base ∷ login ∷ server_tick ∷ network_protocol ∷ chat ∷ user_info ∷ contact ∷ asset
    ∷ user_state_change ∷ db_query ∷ gameplay ∷ gateway_wrapper ∷ server_to_server_wrapper
    ∷ server_job_wrapper ∷ server_information ∷ gateway_information ∷ error_report ∷ cheat
    ∷ purchase ∷ tournament ∷ analytics ∷ notification ∷ invitation ∷ user_stats ∷ []

-- A number cast to the enumeration.
abbrev pub packet_type : ℕ → Option PacketType
packet_type n = get_elem? packet_types n

abbrev pub packet_type_num : ℕ
packet_type_num = 24

abbrev pub type_name : PacketType → String
type_name base = "Base"
type_name login = "Login"
type_name server_tick = "ServerTick"
type_name network_protocol = "NetworkProtocol"
type_name chat = "Chat"
type_name user_info = "UserInfo"
type_name contact = "Contact"
type_name asset = "Asset"
type_name user_state_change = "User state change"
type_name db_query = "DbQuery"
type_name gameplay = "Gameplay"
type_name gateway_wrapper = "GW wrapper"
type_name server_to_server_wrapper = "S2S Wrapper"
type_name server_job_wrapper = "Server job wrapper"
type_name server_information = "Server info"
type_name gateway_information = "GW info"
type_name error_report = "Error"
type_name cheat = "Cheat"
type_name purchase = "Purchase"
type_name tournament = "Tournament"
type_name analytics = "Analytics"
type_name notification = "Notification"
type_name invitation = "Invitation"
type_name user_stats = "UserStats"

-- GetPacketTypename; any other number falls to the default of the switch.
unfoldable pub get_packet_typename : ℕ → String
get_packet_typename type = elim (packet_type type) [ none ↦ "" | some t ↦ type_name t ]

-- A test of `get_packet_typename` on two numbers: a name in common means the same number.
tells_apart : ℕ → ℕ → Bool
unfolding get_packet_typename
tells_apart m n = m == n || not (str_eq (get_packet_typename m) (get_packet_typename n))

all_told_apart : every_below 24 (λ m. every_below 24 (λ n. tells_apart m n)) ≡ true
unfolding tells_apart every_below
all_told_apart = refl

typename_out_of_range : (n : ℕ) → 24 ≤ n → get_packet_typename n ≡ ""
unfolding get_packet_typename
typename_out_of_range n h = rw (get_elem?-beyond packet_types n (omega arith), get_packet_typename)

told :
    (m n : ℕ)
    → str_eq (get_packet_typename m) (get_packet_typename n) ≡ true
    → tells_apart m n ≡ true
    → m ≡ n
unfolding tells_apart
told m n e test = elim (Bool-cases (m == n)) [
  | inl yes_eq ↦ (==_iff m n).0 yes_eq
  | inr no_eq ↦ cc (rw (no_eq, e, tells_apart) at test)
]

-- A number that has a name shares it with no other number.
pub get_packet_typename-injective :
    (m n : ℕ) → get_packet_typename m ≢ "" → get_packet_typename m ≡ get_packet_typename n → m ≡ n
get_packet_typename-injective m n named same =
    let in_range : (k : ℕ) → get_packet_typename k ≢ "" → k < packet_type_num = λ k h.
      elim (dec_lt k packet_type_num) [
        | yes below ↦ below
        | no above ↦ absurd (h (typename_out_of_range k (omega arith)))
      ] in
    let hm = in_range m named in
    let hn = in_range n (λ e. named (same ∙ e)) in
    let row =
      every_below_sound 24 (λ i. every_below 24 (λ j. tells_apart i j)) m all_told_apart hm in
    let test = every_below_sound 24 (λ j. tells_apart m j) n row hn in
    told m n ((eq_iff _ _).1 same) test
