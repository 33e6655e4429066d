-- ===== src/PacketFactory/Lifecycle.antt =====
-- The way of a packet: a pool is filled with a hundred, Create takes the oldest, Release appends it.
use socket_cplus_plus.Prelude.{
  ℕ, zero, suc, ◌+◌, ◌≤◌, ◌<◌, ◌≡◌, refl, sym, ap, ◌∙◌, true, false, none, some, List, [], ◌∷◌,
  ◌++◌, length, length-append, ◌==◌, arith,
}
use socket_cplus_plus.Prelude.Maps.{find, has, pair_key, find-assigned}
use socket_cplus_plus.CircularBuffer.{CircularBuffer, create, put, get}
use socket_cplus_plus.CircularBuffer.Invariant.{
  IsValid, put-IsValid, get-IsValid, create-IsValid, max_size-create, size-le,
}
use socket_cplus_plus.CircularBuffer.Queue.{length-contents, queue_put, queue_get}
use socket_cplus_plus.CircularBuffer.Refine.{
  put_refines, get_refines, contents-create, capacity_stays,
}
use socket_cplus_plus.Packets.Classes.{class_of}
use socket_cplus_plus.PacketFactory.{
  Pointer, TypePair, Factory, moved, type_pair, num_to_create, create_by_type, release, allocate,
  fill, init_pool, is_pool_already_allocated,
}
use socket_cplus_plus.PacketFactory.Counting.{stored}
use socket_cplus_plus.PacketFactory.Pools.{find-PoolsValid, get-Answers}
use socket_cplus_plus.PacketFactory.Making.{Owned}
use socket_cplus_plus.PacketFactory.Ownership.{
  create_by_type_found, drawn, put_back, release_pooled,
}

-- A ring with room takes one more.
length-put :
    (b : CircularBuffer Pointer) (p : Pointer)
    → IsValid b
    → length (stored b) < b.max_size
    → length (stored (put none moved b p)) ≡ suc (length (stored b))
length-put b p v room =
    let not_full : (length (stored b) == b.max_size) ≡ false = ground arith in
    ap length (put_refines none moved b p v)
    ∙ rw not_full (omega (arith, length-append (stored b) (p ∷ [])))

-- The loop of InitFactory adds as many as it is asked for, where the ring has room for them.
pub length-fill :
    (junk n : ℕ) (k : TypePair) (b : CircularBuffer Pointer) (f : Factory)
    → IsValid b
    → length (stored b) + n ≤ b.max_size
    → length (stored (fill junk n k b f).0) ≡ length (stored b) + n
unfolding fill
length-fill junk zero k b f v room = omega arith
length-fill junk (suc n) k b f v room =
    let (p, g) = allocate junk k f in
    let more = length-put b p v (omega arith) in
    let same = (capacity_stays none moved b p).0 in
    omega (
      arith,
      more,
      length-fill junk n k (put none moved b p) g (put-IsValid none moved b p v)
          (omega (arith, more, same)),
    )

-- Initialising a pair that has no pool gives it one with a hundred entries.
pub init_pool_filled :
    (junk : ℕ) (k : TypePair) (f : Factory)
    → has k f.creation_pool ≡ false
    → (b : CircularBuffer Pointer) × (find k (init_pool junk k f).creation_pool ≡ some b)
      × (length (stored b) ≡ num_to_create)
unfolding init_pool is_pool_already_allocated
init_pool_filled junk k f missing =
    let fresh = create none moved num_to_create in
    let (b, g) = fill junk num_to_create k fresh f in
    rw missing (
      b,
      find-assigned k k b g.creation_pool refl,
      length-fill junk num_to_create k fresh f
            (create-IsValid none moved num_to_create (omega arith))
            (omega (
              arith,
              ap length (contents-create none moved num_to_create),
              max_size-create none moved num_to_create,
            ))
          ∙ omega (arith, ap length (contents-create none moved num_to_create)),
    )

-- Create on a pair whose pool has entries takes the oldest off, and Release of what it gave succeeds,
-- takes the caller's pointer and appends it to the same pool.
pub release-create_by_type :
    (held : List Pointer) (k : TypePair) (f : Factory) (b : CircularBuffer Pointer) (a : ℕ)
    (rest : List Pointer)
    → Owned held f
    → find k f.creation_pool ≡ some b
    → stored b ≡ some a ∷ rest
    → (c : CircularBuffer Pointer) × (g : Factory) × ((create_by_type k f).0 ≡ some a)
      × (release (some a) (create_by_type k f).1 ≡ some (true, none, g))
      × (find k g.creation_pool ≡ some c)
      × (stored c ≡ rest ++ (some a ∷ []))
release-create_by_type held k f b a rest o found oldest =
    let v = find-PoolsValid f.heap k f.creation_pool b o.pools found in
    let left = (get none moved b).1 in
    let drawn_pair = get_refines none moved b v.ring ∙ ap (queue_get none b.max_size) oldest in
    let given : (get none moved b).0 ≡ some a = ap (λ r. r.0) drawn_pair in
    let behind : stored left ≡ rest = ap (λ r. r.1) drawn_pair in
    let (packet, there, same) = get-Answers f.heap k b a v given in
    let made = create_by_type_found k f b found in
    let pair = type_pair (class_of packet) in
    let at_pair : find pair (drawn k b f).creation_pool ≡ some left =
      find-assigned k pair left f.creation_pool (sym same) in
    let roomy : (length rest == left.max_size) ≡ false = ground (
      arith,
      ap length oldest,
      length-contents none moved b,
      size-le none moved b v.ring,
      (capacity_stays none moved b none).1,
    ) in
    let c = put none moved left (some a) in
    (
      c,
      put_back a pair left (drawn k b f),
      ap (λ r. r.0) made ∙ given,
      ap (λ r. release (some a) r.1) made
          ∙ release_pooled a packet left (drawn k b f) there at_pair,
      find-assigned pair k c (drawn k b f).creation_pool same,
      put_refines none moved left (some a) (get-IsValid none moved b v.ring)
          ∙ ap (λ q. queue_put none left.max_size q (some a)) behind
          ∙ rw roomy,
    )

-- Create on a pair with an empty pool gives a null pointer.
pub create_by_type_exhausted :
    (k : TypePair) (f : Factory) (b : CircularBuffer Pointer)
    → IsValid b
    → find k f.creation_pool ≡ some b
    → stored b ≡ []
    → (create_by_type k f).0 ≡ none
create_by_type_exhausted k f b v found empty =
    ap (λ r. r.0) (create_by_type_found k f b found)
    ∙ ap (λ r. r.0) (get_refines none moved b v ∙ ap (queue_get none b.max_size) empty)
