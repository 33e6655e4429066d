-- ===== src/Serialize/Words.antt =====
-- What each primitive writes and reads: the byte order of the host cancels out.
use socket_cplus_plus.Prelude.{
  subst, ℕ, ◌+◌, ◌*◌, ◌/◌, ◌%◌, ◌^◌, ◌<◌, ◌≡◌, refl, sym, ap, ap₂, ◌∙◌, List, [], ◌∷◌, ◌++◌, Bool,
  true, false, some, not, arith, Bool-cases, if◌then◌else◌, ◌==◌, length, get_or, bit_or, All, inl,
  inr,
}
use socket_cplus_plus.Prelude.Bits.{bit_or-join}
use socket_cplus_plus.Wire.{emit, fetch, ◌>>=◌, pure}
use socket_cplus_plus.Wire.Reads.{Reads, fetch-Reads}
use socket_cplus_plus.Serialize.Host.{
  ByteOrder, host_bytes, host_value, be_bytes, be_value, le_bytes, le_value, IsByte,
}
use socket_cplus_plus.Serialize.{
  out_u8, out_bool, in_u8, in_bool, out_u16, in_u16, out_u32, in_u32, out_int, in_int, htonll,
  ntohll, out_u64, in_u64,
}

-- A reader that takes `n` bytes and converts them.
pub fetched-Reads :
    {A : Type 0} (n : ℕ) (f : List ℕ → A) (bs : List ℕ) (a : A)
    → n ≡ length bs
    → f bs ≡ a
    → Reads (do b ← fetch n; pure (f b)) bs a
fetched-Reads n f bs a e h pre post =
    rw (fetch-Reads n bs e pre post, ◌>>=◌) (ap (λ t. some (t, length pre + length bs)) h)

pub u8-writes : (v : ℕ) → out_u8 v ≡ emit (v ∷ [])
unfolding out_u8
u8-writes v = refl

pub bool-writes : (v : Bool) → out_bool v ≡ emit ((if v then 1 else 0) ∷ [])
unfolding out_bool
bool-writes v = refl

pub u8-Reads : (v : ℕ) → Reads in_u8 (v ∷ []) v
unfolding in_u8
u8-Reads v = fetched-Reads 1 (λ bs. get_or bs 0 0) (v ∷ []) v refl refl

pub bool-Reads : (v : Bool) → Reads in_bool ((if v then 1 else 0) ∷ []) v
unfolding in_bool
bool-Reads true = fetched-Reads 1 (λ bs. not (get_or bs 0 0 == 0)) (1 ∷ []) true refl refl
bool-Reads false = fetched-Reads 1 (λ bs. not (get_or bs 0 0 == 0)) (0 ∷ []) false refl refl

four_bytes :
    (x a b c d : ℕ)
    → x < 2 ^ 32
    → a < 256
    → b < 256
    → c < 256
    → d < 256
    → le_value (le_bytes 4 x) ≡ le_value (be_bytes 4 (le_value (a ∷ b ∷ c ∷ d ∷ [])))
    → x ≡ be_value (a ∷ b ∷ c ∷ d ∷ [])
four_bytes x a b c d hx ha hb hc hd e =
    let back : le_value (le_bytes 4 x) ≡ x = omega arith in
    let spelled : le_value (be_bytes 4 (le_value (a ∷ b ∷ c ∷ d ∷ [])))
        ≡ be_value (a ∷ b ∷ c ∷ d ∷ []) =
      omega arith in
    sym back ∙ e ∙ spelled

le_bytes-halves :
    (lo hi : ℕ) → hi < 2 ^ 32 → le_bytes 8 (lo * 2 ^ 32 + hi) ≡ le_bytes 4 hi ++ le_bytes 4 lo
le_bytes-halves lo hi h = ground arith

be_bytes-halves :
    (v : ℕ) → v < 2 ^ 64 → be_bytes 8 v ≡ be_bytes 4 (v / 2 ^ 32) ++ be_bytes 4 (v % 2 ^ 32)
be_bytes-halves v h = ground arith

module _ ⦃net : ByteOrder⦄ where
  pub u16-writes : (v : ℕ) → v < 2 ^ 16 → out_u16 v ≡ emit (be_bytes 2 v)
  unfolding out_u16
  u16-writes v h = ap emit (net.htons_order v h)

  pub u16-Reads : (v : ℕ) → v < 2 ^ 16 → Reads in_u16 (be_bytes 2 v) v
  unfolding in_u16
  u16-Reads v h =
      fetched-Reads 2 (λ bs. net.ntohs (host_value net.is_little bs)) (be_bytes 2 v) v refl
        (net.ntohs_order (be_bytes 2 v) refl (omega arith) ∙ omega arith)

  pub u32-writes : (v : ℕ) → v < 2 ^ 32 → out_u32 v ≡ emit (be_bytes 4 v)
  unfolding out_u32
  u32-writes v h = ap emit (net.htonl_order v h)

  pub u32-Reads : (v : ℕ) → v < 2 ^ 32 → Reads in_u32 (be_bytes 4 v) v
  unfolding in_u32
  u32-Reads v h =
      fetched-Reads 4 (λ bs. net.ntohl (host_value net.is_little bs)) (be_bytes 4 v) v refl
        (net.ntohl_order (be_bytes 4 v) refl (omega arith) ∙ omega arith)

  pub int-writes : (v : ℕ) → v < 2 ^ 32 → out_int v ≡ emit (be_bytes 4 v)
  unfolding out_int
  int-writes v h = ap emit (net.htonl_order v h)

  pub int-Reads : (v : ℕ) → v < 2 ^ 32 → Reads in_int (be_bytes 4 v) v
  unfolding in_int
  int-Reads v h =
      fetched-Reads 4 (λ bs. net.ntohl (host_value net.is_little bs)) (be_bytes 4 v) v refl
        (net.ntohl_order (be_bytes 4 v) refl (omega arith) ∙ omega arith)

  -- On a little-endian host `htonl` of four bytes is the value that they spell in network order.
  htonl-swap :
      net.is_little ≡ true
      → (a b c d : ℕ) → a < 256
      → b < 256
      → c < 256
      → d < 256
      → net.htonl (le_value (a ∷ b ∷ c ∷ d ∷ [])) ≡ be_value (a ∷ b ∷ c ∷ d ∷ [])
  htonl-swap little a b c d ha hb hc hd =
      let w : ℕ = le_value (a ∷ b ∷ c ∷ d ∷ []) in
      let fits : w < 2 ^ 32 = omega arith in
      let law : le_bytes 4 (net.htonl w) ≡ be_bytes 4 w =
        subst (λ t. host_bytes t 4 (net.htonl w) ≡ be_bytes 4 w) little (net.htonl_order w fits) in
      four_bytes (net.htonl w) a b c d (net.htonl_width w fits) ha hb hc hd (ap le_value law)

  -- `htonll`, with the host's order as an argument.
  abbrev htonll_on : Bool → ℕ → ℕ
  htonll_on little v =
      if little then bit_or (net.htonl (v % 2 ^ 32) * 2 ^ 32) (net.htonl (v / 2 ^ 32)) else v

  htonll-order : (v : ℕ) → v < 2 ^ 64 → host_bytes net.is_little 8 (htonll v) ≡ be_bytes 8 v
  unfolding htonll
  htonll-order v h = elim (Bool-cases net.is_little) [
    | inl little ↦
        let up : v / 2 ^ 32 < 2 ^ 32 = omega arith in
        let down : v % 2 ^ 32 < 2 ^ 32 = omega arith in
        let high : le_bytes 4 (net.htonl (v / 2 ^ 32)) ≡ be_bytes 4 (v / 2 ^ 32) =
          subst (λ t. host_bytes t 4 (net.htonl (v / 2 ^ 32)) ≡ be_bytes 4 (v / 2 ^ 32)) little
            (net.htonl_order _ up) in
        let low : le_bytes 4 (net.htonl (v % 2 ^ 32)) ≡ be_bytes 4 (v % 2 ^ 32) =
          subst (λ t. host_bytes t 4 (net.htonl (v % 2 ^ 32)) ≡ be_bytes 4 (v % 2 ^ 32)) little
            (net.htonl_order _ down) in
        subst (λ t. host_bytes t 8 (htonll_on t v) ≡ be_bytes 8 v) (sym little)
          (ap (le_bytes 8) (bit_or-join 32 _ _ (net.htonl_width _ up))
            ∙ le_bytes-halves _ _ (net.htonl_width _ up)
            ∙ ap₂ ◌++◌ high low
            ∙ sym (be_bytes-halves v h))
    | inr big ↦ subst (λ t. host_bytes t 8 (htonll_on t v) ≡ be_bytes 8 v) (sym big) refl
  ]

  pub u64-writes : (v : ℕ) → v < 2 ^ 64 → out_u64 v ≡ emit (be_bytes 8 v)
  unfolding out_u64
  u64-writes v h = ap emit (htonll-order v h)

  -- `ntohll` on the host value of some bytes, with the host's order as an argument.
  abbrev ntohll_on : Bool → List ℕ → ℕ
  ntohll_on little bs =
      let value = host_value little bs in
      if little
      then bit_or (net.htonl (value % 2 ^ 32) * 2 ^ 32) (net.htonl (value / 2 ^ 32))
      else value

  -- `ntohll` undoes what the host's order did to eight bytes.
  ntohll-order :
      (a b c d e f g k : ℕ)
      → All IsByte (a ∷ b ∷ c ∷ d ∷ e ∷ f ∷ g ∷ k ∷ [])
      → ntohll (host_value net.is_little (a ∷ b ∷ c ∷ d ∷ e ∷ f ∷ g ∷ k ∷ []))
        ≡ be_value (a ∷ b ∷ c ∷ d ∷ e ∷ f ∷ g ∷ k ∷ [])
  unfolding ntohll htonll
  ntohll-order a b c d e f g k (ha, (hb, (hc, (hd, (he, (hf, (hg, (hk, _)))))))) =
      let bs : List ℕ = a ∷ b ∷ c ∷ d ∷ e ∷ f ∷ g ∷ k ∷ [] in
      elim (Bool-cases net.is_little) [
        | inl little ↦
            let low : ℕ = le_value (a ∷ b ∷ c ∷ d ∷ []) in
            let high : ℕ = le_value (e ∷ f ∷ g ∷ k ∷ []) in
            let up : le_value bs / 2 ^ 32 ≡ high = omega arith in
            let down : le_value bs % 2 ^ 32 ≡ low = omega arith in
            let lows = htonl-swap little a b c d ha hb hc hd in
            let highs = htonl-swap little e f g k he hf hg hk in
            let high_fits : be_value (e ∷ f ∷ g ∷ k ∷ []) < 2 ^ 32 = omega arith in
            subst (λ t. ntohll_on t bs ≡ be_value bs) (sym little)
              (ap₂ (λ x y. bit_or (net.htonl x * 2 ^ 32) (net.htonl y)) down up
                ∙ ap₂ (λ x y. bit_or (x * 2 ^ 32) y) lows highs
                ∙ bit_or-join 32 (be_value (a ∷ b ∷ c ∷ d ∷ [])) (be_value (e ∷ f ∷ g ∷ k ∷ []))
                    high_fits
                ∙ omega arith)
        | inr big ↦ subst (λ t. ntohll_on t bs ≡ be_value bs) (sym big) refl
      ]

  pub u64-Reads : (v : ℕ) → v < 2 ^ 64 → Reads in_u64 (be_bytes 8 v) v
  unfolding in_u64
  u64-Reads v h =
      fetched-Reads 8 (λ bs. ntohll (host_value net.is_little bs)) (be_bytes 8 v) v refl
        (ntohll-order _ _ _ _ _ _ _ _ (omega arith) ∙ omega arith)
