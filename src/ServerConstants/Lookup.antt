-- ===== src/ServerConstants/Lookup.antt =====
-- Looking up names and numbers against each other, and the server kinds against each other.
use Prim.Native.String.{String}
use socket_cplus_plus.Prelude.{
  ℕ, zero, suc, ◌+◌, ◌≤◌, ◌≡◌, refl, ap, ◌∙◌, inl, inr, true, false, not, ◌&&◌, ◌||◌, some, List,
  [], ◌∷◌, get_elem?, Bool-cases, some_inj, none_ne_some, arith,
}
use socket_cplus_plus.ServerConstants.{
  ServerType, is_gateway_server_type, is_core_server_type, is_login_server_type,
  is_game_server_type, Stricmp, product_names, platform_strings, find_from, find_product_id,
  find_platform_id, find_product_name, find_platform_name,
}

module _ ⦃c : Stricmp⦄ where
  -- Where a table has a name that matches, the loop stops at the first.
  stops :
      (names : List String) (value name : String) (i k : ℕ)
      → get_elem? names k ≡ some name
      → c.equal value name ≡ true
      → (j : ℕ) × (match : String) × (find_from i value names ≡ i + j)
        × (j ≤ k)
        × (get_elem? names j ≡ some match)
        × (c.equal value match ≡ true)
  unfolding find_from
  stops [] value name i k there same = absurd (none_ne_some there)
  stops (n ∷ names) value name i zero there same =
      let first : n ≡ name = some_inj there in
      let hit : c.equal value n ≡ true = ap (c.equal value) first ∙ same in
      (0, n, rw (hit) (omega arith), omega arith, refl, hit)
  stops (n ∷ names) value name i (suc k) there same = elim (Bool-cases (c.equal value n)) [
    | inl hit ↦ (0, n, rw hit (omega arith), omega arith, refl, hit)
    | inr miss ↦
        let (j, m, at, le, found, equal) = stops names value name (suc i) k there same in
        (suc j, m, rw miss (omega (arith, at)), omega arith, found, equal)
  ]

  -- A product's name leads to a number whose name is the same but for case, and no larger than the
  -- product's own.
  pub find_product_id-find_product_name :
      (id : ℕ) (name : String)
      → find_product_name false id ≡ some name
      → (match : String) × (find_product_name false (find_product_id name) ≡ some match)
        × (c.equal name match ≡ true)
        × (find_product_id name ≤ id)
  unfolding find_product_name find_product_id
  find_product_id-find_product_name id name e =
      let (j, m, at, le, found, equal) = stops product_names name name 0 id e (c.equal_self name) in
      let here : find_from 0 name product_names ≡ j = omega (arith, at) in
      (m, ap (get_elem? product_names) here ∙ found, equal, omega (arith, here))

  -- So with platforms.
  pub find_platform_id-find_platform_name :
      (id : ℕ) (name : String)
      → find_platform_name false id ≡ some name
      → (match : String) × (find_platform_name false (find_platform_id name) ≡ some match)
        × (c.equal name match ≡ true)
        × (find_platform_id name ≤ id)
  unfolding find_platform_name find_platform_id
  find_platform_id-find_platform_name id name e =
      let (j, m, at, le, found, equal) =
        stops platform_strings name name 0 id e (c.equal_self name) in
      let here : find_from 0 name platform_strings ≡ j = omega (arith, at) in
      (m, ap (get_elem? platform_strings) here ∙ found, equal, omega (arith, here))

-- Every kind of server passes at most one of the gateway, core and game tests, and the login test
-- only with the core test.
pub server_kinds_apart :
    (t : ServerType)
    → ((is_gateway_server_type t && is_core_server_type t) ≡ false)
      × ((is_gateway_server_type t && is_game_server_type t) ≡ false)
      × ((is_core_server_type t && is_game_server_type t) ≡ false)
      × ((not (is_login_server_type t) || is_core_server_type t) ≡ true)
unfolding is_gateway_server_type is_core_server_type is_game_server_type is_login_server_type
server_kinds_apart t = ground arith
