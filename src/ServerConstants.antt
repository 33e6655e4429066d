-- ===== src/ServerConstants.antt =====
-- UDP01/OldCode/ServerType.h, ServerType.cpp, ServerConstants.h and ServerConstants.cpp: the kinds of
-- servers, and the tables of products and platforms.
pub mod Lookup
pub mod Examples
use Prim.Native.String.{String}
use socket_cplus_plus.Prelude.{
  ℕ, zero, suc, ◌+◌, Bool, true, false, Option, none, some, List, [], ◌∷◌, ◌≡◌, get_elem?,
  if◌then◌else◌,
}

pub data ServerType : Type 0 where
  gateway game_instance account database log login process tournament general : ServerType
  chat controller asset contact purchase load_balancer analytics test starter : ServerType
  notification user_stats count all : ServerType

pub get_server_type_name : ServerType → String
get_server_type_name gateway = "Gateway"
get_server_type_name game_instance = "Game"
get_server_type_name account = "Account"
get_server_type_name database = "DB"
get_server_type_name log = "Logging"
get_server_type_name login = "Login"
get_server_type_name process = "Process"
get_server_type_name tournament = "Tournament"
get_server_type_name general = "General"
get_server_type_name chat = "Chat"
get_server_type_name controller = "Controller"
get_server_type_name asset = "Asset"
get_server_type_name contact = "Contact"
get_server_type_name purchase = "Purchase"
get_server_type_name load_balancer = "Load balancer"
get_server_type_name analytics = "Analytics"
get_server_type_name test = "Test"
get_server_type_name starter = "starter"
get_server_type_name notification = "Notification"
get_server_type_name user_stats = "UserStats"
get_server_type_name count = "Number of server... this is an error"
get_server_type_name all = "bug: bad reference value"

pub is_gateway_server_type : ServerType → Bool
is_gateway_server_type gateway = true
is_gateway_server_type load_balancer = true
is_gateway_server_type _ = false

pub is_core_server_type : ServerType → Bool
is_core_server_type asset = true
is_core_server_type login = true
is_core_server_type chat = true
is_core_server_type contact = true
is_core_server_type purchase = true
is_core_server_type notification = true
is_core_server_type user_stats = true
is_core_server_type _ = false

pub is_login_server_type : ServerType → Bool
is_login_server_type login = true
is_login_server_type _ = false

pub is_game_server_type : ServerType → Bool
is_game_server_type game_instance = true
is_game_server_type _ = false

abbrev pub product_names : List String
product_names =
    "" ∷ "ascension" ∷ "dominion" ∷ "thunderstone" ∷ "wowcmg" ∷ "summonwar" ∷ "foodfight"
    ∷ "nightfall" ∷ "pennyarcade" ∷ "infinitecity" ∷ "agricola" ∷ "fluxx" ∷ "smashup" ∷ "tantocuore"
    ∷ "waterdeep" ∷ "twilight_struggle" ∷ "unsung_story" ∷ "mber" ∷ []

abbrev pub platform_strings : List String
platform_strings =
    "" ∷ "ios" ∷ "android" ∷ "pc" ∷ "mac" ∷ "vita" ∷ "sony" ∷ "xbox" ∷ "blackberry" ∷ "wii"
    ∷ "phone" ∷ "all" ∷ []

-- GameProductId: its names, numbered from 1 on.
abbrev pub game_product_ids : List String
game_product_ids =
    "ASCENSION" ∷ "DOMINION" ∷ "THUNDERSTONE" ∷ "WOWCMG" ∷ "SUMMONWAR" ∷ "FOODFIGHT" ∷ "NIGHTFALL"
    ∷ "PENNYARCADE" ∷ "INFINITECITY" ∷ "AGRICOLA" ∷ "FLUXX" ∷ "SMASHUP" ∷ "TANTOCUORE" ∷ "WATERDEEP"
    ∷ "MONKEYS_FROM_MARS" ∷ "TWILIGHT_STUGGLE" ∷ "UNSUNG_STORY" ∷ []

-- What the code relies on of the C library's stricmp: it answers whether two texts are one but for
-- the case of their letters, and so does not tell a text from itself.
pub record Stricmp : Type 0 where
  pub equal : String → String → Bool
  pub equal_self : (s : String) → equal s s ≡ true

module _ ⦃c : Stricmp⦄ where
  -- The loops over a table: the first index that matches, from `i` on, or 0.
  pub find_from : ℕ → String → List String → ℕ
  find_from i value [] = 0
  find_from i value (name ∷ names) =
      let rest = find_from (suc i) value names in if c.equal value name then i else rest

  pub find_product_id : String → ℕ
  find_product_id value = find_from 0 value product_names

  pub find_platform_id : String → ℕ
  find_platform_id value = find_from 0 value platform_strings

  pub get_index_of_platform_all : ℕ
  get_index_of_platform_all = find_from 0 "all" platform_strings

  pub get_index_of_platform_mber : ℕ
  get_index_of_platform_mber = find_from 0 "mber" product_names

-- The parameter is an `int`: `none` for its sign, and for a number past the table.
pub find_product_name : Bool → ℕ → Option String
find_product_name negative product_id =
    if negative then none else get_elem? product_names product_id

pub find_platform_name : Bool → ℕ → Option String
find_platform_name negative platform_id =
    if negative then none else get_elem? platform_strings platform_id
