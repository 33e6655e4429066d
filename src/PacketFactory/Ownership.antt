-- ===== src/PacketFactory/Ownership.antt =====
-- Who holds a packet: Create hands out what nobody has, Release takes it back, and so it stays in
-- whatever order the clients call.
use Prim.Native.String.{String}
use socket_cplus_plus.Prelude.{
  ℕ, ◌≡◌, ◌⊎◌, refl, sym, ap, subst, ◌∙◌, inl, inr, Bool, true, false, none, some, List, ◌∷◌,
  get_elem?, Option-cases, none_ne_some, some_inj, arith,
}
use socket_cplus_plus.Prelude.Maps.{find, assign, pair_key, string_key}
use socket_cplus_plus.CircularBuffer.{CircularBuffer, put, get}
use socket_cplus_plus.Packets.{Packet}
use socket_cplus_plus.Packets.Classes.{class_of}
use socket_cplus_plus.PacketFactory.{
  Pointer, TypePair, Factory, moved, type_pair, make, create_by_type, create_by_name, release,
}
use socket_cplus_plus.PacketFactory.Counting.{
  one, times, pooled, one_self, times-put, times-get, pooled-assign,
}
use socket_cplus_plus.PacketFactory.Pools.{
  Answers, put-PoolValid, get-PoolValid, get-Answers, find-PoolsValid, assign-PoolsValid, unmade,
}
use socket_cplus_plus.PacketFactory.Making.{Owned, make-Owned}

-- The order of the held pointers does not matter.
pub held_alike :
    (xs ys : List Pointer) (f : Factory)
    → ((a : ℕ) → times (some a) xs ≡ times (some a) ys)
    → Owned xs f
    → Owned ys f
held_alike xs ys f same o = record {
  pools = o.pools;
  methods = o.methods;
  once = λ a. omega (arith, o.once a, same a);
  made = λ a h. omega (arith, o.made a h, same a);
}

-- The factory behind a Create that found the pool.
abbrev pub drawn : TypePair → CircularBuffer Pointer → Factory → Factory
drawn k b f = record f { creation_pool = assign k (get none moved b).1 f.creation_pool }

drawn-Owned :
    (held : List Pointer) (k : TypePair) (b : CircularBuffer Pointer) (f : Factory)
    → find k f.creation_pool ≡ some b
    → Owned held f
    → Owned ((get none moved b).0 ∷ held) (drawn k b f)
drawn-Owned held k b f e o =
    let v = find-PoolsValid f.heap k f.creation_pool b o.pools e in
    let left = get-PoolValid f.heap k b v in
    record {
      pools = assign-PoolsValid f.heap k (get none moved b).1 f.creation_pool o.pools left;
      methods = o.methods;
      once = λ a. omega (
        arith,
        o.once a,
        times-get a b v.ring,
        pooled-assign (some a) k b (get none moved b).1 f.creation_pool e,
      );
      made = λ a h. omega (arith, o.made a h, unmade f.heap a k b v h, times-get a b v.ring);
    }

-- Create's two ways.
abbrev pub CreateCases : TypePair → Factory → Type 0
CreateCases k f =
    (create_by_type k f ≡ (none, f))
    ⊎ ((b : CircularBuffer Pointer) × (find k f.creation_pool ≡ some b)
        × (create_by_type k f ≡ ((get none moved b).0, drawn k b f)))

pub create_by_type-cases : (k : TypePair) (f : Factory) → CreateCases k f
unfolding create_by_type
create_by_type-cases k f = elim (Option-cases (find k f.creation_pool)) [
  | inl missing ↦ inl (rw (create_by_type, missing))
  | inr (b, e) ↦ inr (b, e, rw (create_by_type, e))
]

pub create_by_type_found :
    (k : TypePair) (f : Factory) (b : CircularBuffer Pointer)
    → find k f.creation_pool ≡ some b
    → create_by_type k f ≡ ((get none moved b).0, drawn k b f)
unfolding create_by_type
create_by_type_found k f b e = rw (create_by_type, e)

null_held : (held : List Pointer) (f : Factory) → Owned held f → Owned (none ∷ held) f
null_held held f o = held_alike held (none ∷ held) f (λ a. omega arith) o

pub create_by_type-Owned :
    (held : List Pointer) (k : TypePair) (f : Factory)
    → Owned held f
    → Owned ((create_by_type k f).0 ∷ held) (create_by_type k f).1
create_by_type-Owned held k f o = elim (create_by_type-cases k f) [
  | inl e ↦ subst (λ r. Owned (r.0 ∷ held) r.1) (sym e) (null_held held f o)
  | inr (b, found, e) ↦ subst (λ r. Owned (r.0 ∷ held) r.1) (sym e) (drawn-Owned held k b f found o)
]

-- What Create hands out answers the pair that was asked for, is in no pool any more, and is held by
-- nobody else.
pub create_by_type-exclusive :
    (held : List Pointer) (k : TypePair) (f : Factory) (a : ℕ)
    → Owned held f
    → (create_by_type k f).0 ≡ some a
    → Answers (create_by_type k f).1.heap k a
      × (pooled (some a) (create_by_type k f).1.creation_pool ≡ 0)
      × (times (some a) held ≡ 0)
create_by_type-exclusive held k f a o given =
    let next = create_by_type-Owned held k f o in
    let mine : one (some a) (create_by_type k f).0 ≡ 1 = ap (one (some a)) given ∙ one_self a in
    elim (create_by_type-cases k f) [
      | inl e ↦ absurd (none_ne_some (sym (ap (λ r. r.0) e) ∙ given))
      | inr (b, found, e) ↦ (
        subst (λ r. Answers r.1.heap k a) (sym e)
            (get-Answers f.heap k b a (find-PoolsValid f.heap k f.creation_pool b o.pools found)
              (sym (ap (λ r. r.0) e) ∙ given)),
        omega (arith, next.once a, mine),
        omega (arith, next.once a, mine),
      )
    ]

pub create_by_name-Owned :
    (junk : ℕ) (held : List Pointer) (name : String) (f : Factory)
    → Owned held f
    → Owned ((create_by_name junk name f).0 ∷ held) (create_by_name junk name f).1
unfolding create_by_name
create_by_name-Owned junk held name f o = elim (Option-cases (find name f.methods)) [
  | inl missing ↦ rw (create_by_name, missing) (null_held held f o)
  | inr (c, e) ↦
      rw (create_by_name, e)
        (create_by_type-Owned held (type_pair c) (make junk c f).1 (make-Owned junk held f c o))
]

-- The factory behind a Release that found the pool.
abbrev pub put_back : ℕ → TypePair → CircularBuffer Pointer → Factory → Factory
put_back a k b f = record f { creation_pool = assign k (put none moved b (some a)) f.creation_pool }

pub release_pooled :
    (a : ℕ) (packet : Packet) (b : CircularBuffer Pointer) (f : Factory)
    → get_elem? f.heap a ≡ some packet
    → find (type_pair (class_of packet)) f.creation_pool ≡ some b
    → release (some a) f ≡ some (true, none, put_back a (type_pair (class_of packet)) b f)
unfolding release
release_pooled a packet b f e found = rw (release, e, found)

release_kept :
    (a : ℕ) (packet : Packet) (f : Factory)
    → get_elem? f.heap a ≡ some packet
    → find (type_pair (class_of packet)) f.creation_pool ≡ none
    → release (some a) f ≡ some (false, some a, f)
unfolding release
release_kept a packet f e missing = rw (release, e, missing)

release_dangling : (a : ℕ) (f : Factory) → get_elem? f.heap a ≡ none → release (some a) f ≡ none
unfolding release
release_dangling a f e = rw (release, e)

-- The release of a pointer that leads to an object goes through, and touches no object.
pub release_there :
    (a : ℕ) (packet : Packet) (f : Factory)
    → get_elem? f.heap a ≡ some packet
    → (given : Bool) × (left : Pointer) × (g : Factory) × (release (some a) f
        ≡ some (given, left, g))
      × (g.heap ≡ f.heap)
release_there a packet f there =
    let key = type_pair (class_of packet) in
    elim (Option-cases (find key f.creation_pool)) [
      | inl e ↦ (false, some a, f, release_kept a packet f there e, refl)
      | inr (pool, e) ↦
          (true, none, put_back a key pool f, release_pooled a packet pool f there e, refl)
    ]

put_back-Owned :
    (held : List Pointer) (a : ℕ) (packet : Packet) (b : CircularBuffer Pointer) (f : Factory)
    → get_elem? f.heap a ≡ some packet
    → find (type_pair (class_of packet)) f.creation_pool ≡ some b
    → Owned (some a ∷ held) f
    → Owned (none ∷ held) (put_back a (type_pair (class_of packet)) b f)
put_back-Owned held a packet b f e found o =
    let k = type_pair (class_of packet) in
    let v = find-PoolsValid f.heap k f.creation_pool b o.pools found in
    let full = put-PoolValid f.heap k b a v (packet, e, refl) in
    record {
      pools = assign-PoolsValid f.heap k (put none moved b (some a)) f.creation_pool o.pools full;
      methods = o.methods;
      once = λ c. omega (
        arith,
        o.once c,
        times-put (some c) (some a) b v.ring,
        pooled-assign (some c) k b (put none moved b (some a)) f.creation_pool found,
      );
      made = λ c h. omega (arith, o.made c h);
    }

-- Release of a held pointer leaves the factory in order, with the pointer that is left in its place.
pub release-Owned :
    (held : List Pointer) (p q : Pointer) (f g : Factory) (taken : Bool)
    → Owned (p ∷ held) f
    → release p f ≡ some (taken, q, g)
    → Owned (q ∷ held) g
unfolding release
release-Owned held none q f g taken o e = absurd (none_ne_some e)
release-Owned held (some a) q f g taken o e = elim (Option-cases (get_elem? f.heap a)) [
  | inl missing ↦ absurd (none_ne_some (sym (release_dangling a f missing) ∙ e))
  | inr (packet, there) ↦ elim (Option-cases (find (type_pair (class_of packet)) f.creation_pool)) [
    | inl missing ↦
        let same = some_inj (sym (release_kept a packet f there missing) ∙ e) in
        subst (λ r. Owned (r.1 ∷ held) r.2) same o
    | inr (b, found) ↦
        let same = some_inj (sym (release_pooled a packet b f there found) ∙ e) in
        subst (λ r. Owned (r.1 ∷ held) r.2) same (put_back-Owned held a packet b f there found o)
  ]
]

pub release_heap :
    (p q : Pointer) (f g : Factory) (taken : Bool)
    → release p f ≡ some (taken, q, g)
    → g.heap ≡ f.heap
unfolding release
release_heap none q f g taken e = absurd (none_ne_some e)
release_heap (some a) q f g taken e = elim (Option-cases (get_elem? f.heap a)) [
  | inl missing ↦ absurd (none_ne_some (sym (release_dangling a f missing) ∙ e))
  | inr (packet, there) ↦
      let (given, left, h, released, same) = release_there a packet f there in
      ap (λ r. r.2.heap) (some_inj (sym e ∙ released)) ∙ same
]

-- A pointer that is given up is held no more.
pub dropped : (held : List Pointer) (p : Pointer) (f : Factory) → Owned (p ∷ held) f → Owned held f
dropped held p f o = record {
  pools = o.pools;
  methods = o.methods;
  once = λ a. omega (arith, o.once a);
  made = λ a h. omega (arith, o.made a h);
}
