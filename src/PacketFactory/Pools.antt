-- ===== src/PacketFactory/Pools.antt =====
-- Pools in order: a valid ring in which every pointer leads to an object that answers the pool's
-- pair. Kept by the ring's methods and by making further objects.
use socket_cplus_plus.Prelude.{
  ℕ, zero, suc, ◌≤◌, ◌<◌, ◌≡◌, refl, sym, ap, subst, ◌∙◌, inl, inr, none, some, List, [], ◌∷◌, ◌++◌,
  length, get_elem?, get_elem?-beyond, ◌==◌, ==_iff, if◌then◌else◌, Bool-cases, none_ne_some,
  some_inj, arith,
}
use socket_cplus_plus.Prelude.Maps.{find, assign, pair_key}
use socket_cplus_plus.CircularBuffer.{CircularBuffer, create, put, get}
use socket_cplus_plus.CircularBuffer.Invariant.{IsValid, create-IsValid, put-IsValid, get-IsValid}
use socket_cplus_plus.CircularBuffer.Refine.{contents-create}
use socket_cplus_plus.Packets.{Packet}
use socket_cplus_plus.Packets.Classes.{class_of}
use socket_cplus_plus.PacketFactory.{Pointer, TypePair, moved, type_pair}
use socket_cplus_plus.PacketFactory.Counting.{
  one, times, stored, pooled, one_self, times-put, times-get, null-get,
}

-- The address leads to an object of the pair.
abbrev pub Answers : List Packet → TypePair → ℕ → Type 0
Answers heap key a = (o : Packet) × (get_elem? heap a ≡ some o) × (type_pair (class_of o) ≡ key)

pub record PoolValid (heap : List Packet) (key : TypePair) (b : CircularBuffer Pointer)
    : Type 0 where
  pub ring : IsValid b
  pub no_null : times none (stored b) ≡ 0
  pub answers : (a : ℕ) → 0 < times (some a) (stored b) → Answers heap key a

abbrev pub PoolsValid : List Packet → List (TypePair × CircularBuffer Pointer) → Type 0
PoolsValid heap [] = Unit
PoolsValid heap ((k, b) ∷ pools) = PoolValid heap k b × PoolsValid heap pools

get_elem?-grown :
    (heap xs : List Packet) (a : ℕ) (o : Packet)
    → get_elem? heap a ≡ some o
    → get_elem? (heap ++ xs) a ≡ some o
get_elem?-grown [] xs a o e = cc
get_elem?-grown (x ∷ heap) xs zero o e = e
get_elem?-grown (x ∷ heap) xs (suc a) o e = get_elem?-grown heap xs a o e

pub get_elem?-newest :
    (heap : List Packet) (o : Packet) → get_elem? (heap ++ (o ∷ [])) (length heap) ≡ some o
get_elem?-newest [] o = refl
get_elem?-newest (x ∷ heap) o = get_elem?-newest heap o

pub PoolValid-grown :
    (heap xs : List Packet) (k : TypePair) (b : CircularBuffer Pointer)
    → PoolValid heap k b
    → PoolValid (heap ++ xs) k b
PoolValid-grown heap xs k b v = record {
  ring = v.ring;
  no_null = v.no_null;
  answers = λ a h. let (o, e, same) = v.answers a h in (o, get_elem?-grown heap xs a o e, same);
}

pub PoolsValid-grown :
    (heap xs : List Packet) (pools : List (TypePair × CircularBuffer Pointer))
    → PoolsValid heap pools
    → PoolsValid (heap ++ xs) pools
PoolsValid-grown heap xs [] v = tt
PoolsValid-grown heap xs ((k, b) ∷ pools) (v, vs) =
    (PoolValid-grown heap xs k b v, PoolsValid-grown heap xs pools vs)

pub create-PoolValid :
    (heap : List Packet) (k : TypePair) (n : ℕ) → 0 < n → PoolValid heap k (create none moved n)
create-PoolValid heap k n h =
    let bare = contents-create none moved n in
    record {
      ring = create-IsValid none moved n h;
      no_null = ap (times none) bare;
      answers = λ a some_left. absurd (omega (arith, ap (times (some a)) bare));
    }

pub put-PoolValid :
    (heap : List Packet) (k : TypePair) (b : CircularBuffer Pointer) (a : ℕ)
    → PoolValid heap k b
    → Answers heap k a
    → PoolValid heap k (put none moved b (some a))
put-PoolValid heap k b a v h = record {
  ring = put-IsValid none moved b (some a) v.ring;
  no_null = omega (arith, times-put none (some a) b v.ring, v.no_null);
  answers = λ c some_left. elim (Bool-cases (c == a)) [
    | inl yes_same ↦ subst (Answers heap k) (sym ((==_iff c a).0 yes_same)) h
    | inr no_same ↦ v.answers c (ground (arith, times-put (some c) (some a) b v.ring))
  ];
}

pub get-PoolValid :
    (heap : List Packet) (k : TypePair) (b : CircularBuffer Pointer)
    → PoolValid heap k b
    → PoolValid heap k (get none moved b).1
get-PoolValid heap k b v = record {
  ring = get-IsValid none moved b v.ring;
  no_null = null-get b v.ring v.no_null;
  answers = λ a h. v.answers a (omega (arith, times-get a b v.ring));
}

-- What a get takes off answers the pair.
pub get-Answers :
    (heap : List Packet) (k : TypePair) (b : CircularBuffer Pointer) (a : ℕ)
    → PoolValid heap k b
    → (get none moved b).0 ≡ some a
    → Answers heap k a
get-Answers heap k b a v e =
    v.answers a (omega (arith, times-get a b v.ring, ap (one (some a)) e, one_self a))

pub find-PoolsValid :
    (heap : List Packet) (k : TypePair) (pools : List (TypePair × CircularBuffer Pointer))
    (b : CircularBuffer Pointer)
    → PoolsValid heap pools
    → find k pools ≡ some b
    → PoolValid heap k b
find-PoolsValid heap k [] b vs e = cc
find-PoolsValid heap k ((j, c) ∷ pools) b (v, vs) e = elim (Bool-cases (pair_key.same j k)) [
  | inl yes_same ↦
      let same_key : j ≡ k = (pair_key.same_iff j k).0 yes_same in
      let same_pool : c ≡ b =
        some_inj (sym (ap (λ t. if t then some c else find k pools) yes_same) ∙ e) in
      subst (λ t. PoolValid heap t b) same_key (subst (PoolValid heap j) same_pool v)
  | inr no_same ↦
      find-PoolsValid heap k pools b vs
        (sym (ap (λ t. if t then some c else find k pools) no_same) ∙ e)
]

pub assign-PoolsValid :
    (heap : List Packet) (k : TypePair) (b : CircularBuffer Pointer)
    (pools : List (TypePair × CircularBuffer Pointer))
    → PoolsValid heap pools
    → PoolValid heap k b
    → PoolsValid heap (assign k b pools)
assign-PoolsValid heap k b [] vs v = (v, tt)
assign-PoolsValid heap k b ((j, c) ∷ pools) (u, vs) v = elim (Bool-cases (pair_key.same j k)) [
  | inl yes_same ↦
      rw yes_same (subst (λ t. PoolValid heap t b) (sym ((pair_key.same_iff j k).0 yes_same)) v, vs)
  | inr no_same ↦ rw no_same (u, assign-PoolsValid heap k b pools vs v)
]

-- No pool knows an object that is yet to be made.
pub unmade :
    (heap : List Packet) (a : ℕ) (k : TypePair) (b : CircularBuffer Pointer)
    → PoolValid heap k b
    → length heap ≤ a
    → times (some a) (stored b) ≡ 0
unmade heap a k b v h = elim (Bool-cases (times (some a) (stored b) == 0)) [
  | inl none_left ↦ (==_iff _ 0).0 none_left
  | inr some_left ↦ absurd (
      let found = v.answers a (ground arith) in
      none_ne_some (sym (get_elem?-beyond heap a h) ∙ found.1))
]

pub unmade_pools :
    (heap : List Packet) (a : ℕ) (pools : List (TypePair × CircularBuffer Pointer))
    → PoolsValid heap pools
    → length heap ≤ a
    → pooled (some a) pools ≡ 0
unmade_pools heap a [] vs h = refl
unmade_pools heap a ((k, b) ∷ pools) (v, vs) h =
    omega (arith, unmade heap a k b v h, unmade_pools heap a pools vs h)
