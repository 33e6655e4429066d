-- ===== src/Serialize/Extent.antt =====
-- The deserializers of numbers never move the offset back.
use socket_cplus_plus.Prelude.{
  ℕ, ◌+◌, ◌≤◌, ◌≡◌, sym, length, take, drop, ◌∙◌, inl, inr, ◌<◌, List, none, some, get_or,
  Option-cases, none_ne_some, arith,
}
use socket_cplus_plus.Wire.{fetch, ◌>>=◌}
use socket_cplus_plus.Wire.Advance.{
  Advances, fetch_extent, fetch_total, fetch-Advances, pure-Advances, >>=-Advances,
}
use socket_cplus_plus.Wire.Reads.{fetch-short}
use socket_cplus_plus.Serialize.{in_u8, in_u16, in_int, in_u64}
use socket_cplus_plus.Serialize.Host.{ByteOrder, host_value}

ruleset parts = (>>=-Advances, pure-Advances, fetch-Advances)

pub u8-Advances : Advances in_u8
unfolding in_u8
u8-Advances = search parts

pub in_u8_extent :
    (bytes : List ℕ) (offset a next : ℕ) → in_u8 bytes offset ≡ some (a, next) → next ≡ offset + 1
unfolding in_u8
in_u8_extent bytes offset a next e = elim (Option-cases (fetch 1 bytes offset)) [
  | inl failed ↦ absurd (none_ne_some (sym (rw (failed, ◌>>=◌)) ∙ e))
  | inr ((bs, middle), ran) ↦
      let here : in_u8 bytes offset ≡ some (get_or bs 0 0, middle) = rw (ran, ◌>>=◌) in
      ground (arith, here, fetch_extent 1 bytes offset bs middle ran)
]

module _ ⦃net : ByteOrder⦄ where
  pub u16-Advances : Advances in_u16
  unfolding in_u16
  u16-Advances = search parts

  pub int-Advances : Advances in_int
  unfolding in_int
  int-Advances = search parts

  pub u64-Advances : Advances in_u64
  unfolding in_u64
  u64-Advances = search parts

  pub in_u16_total :
      (bytes : List ℕ) (offset : ℕ)
      → offset + 2 ≤ length bytes
      → (v : ℕ) × (in_u16 bytes offset ≡ some (v, offset + 2))
  unfolding in_u16
  in_u16_total bytes offset room =
      let bs = take 2 (drop offset bytes) in
      (net.ntohs (host_value net.is_little bs), rw (◌>>=◌, fetch_total 2 bytes offset room))

  pub in_u16_short :
      (bytes : List ℕ) (offset : ℕ) → length bytes < offset + 2 → in_u16 bytes offset ≡ none
  unfolding in_u16
  in_u16_short bytes offset short = rw (◌>>=◌, fetch-short 2 bytes offset short)
