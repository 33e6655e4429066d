-- ===== src/PacketFactory/Making.antt =====
-- The factory in order, together with the pointers that its clients hold: kept by registering,
-- by filling the pools, and by making objects.
use Prim.Native.String.{String}
use socket_cplus_plus.Prelude.{
  ℕ, zero, suc, ◌+◌, ◌≤◌, ◌≡◌, refl, sym, ap, subst, ◌∙◌, inl, inr, true, none, some, List, [], ◌∷◌,
  ◌++◌, length, length-append, ◌==◌, if◌then◌else◌, Bool-cases, some_inj, arith,
}
use socket_cplus_plus.Prelude.Maps.{
  find, has, assign, pair_key, find-has, has-find, has-first, has-later,
}
use socket_cplus_plus.CircularBuffer.{CircularBuffer, create, put}
use socket_cplus_plus.CircularBuffer.Refine.{contents-create}
use socket_cplus_plus.Packets.Classes.{Class, class_of, class_of-create}
use socket_cplus_plus.Packets.Classes as classes
use socket_cplus_plus.PacketFactory.{
  Pointer, TypePair, Factory, moved, type_pair, num_to_create, register, make, allocate, fill,
  init_pool, init_pools, init_factory, is_pool_already_allocated, shutdown,
}
use socket_cplus_plus.PacketFactory.Counting.{times, stored, pooled, times-put, pooled-fresh}
use socket_cplus_plus.PacketFactory.Pools.{
  Answers, PoolValid, PoolsValid, get_elem?-newest, PoolValid-grown, PoolsValid-grown,
  create-PoolValid, put-PoolValid, assign-PoolsValid, unmade, unmade_pools,
}

-- Every method makes objects of the pair that it is registered for.
abbrev pub MethodsValid : List (TypePair × Class) → Type 0
MethodsValid [] = Unit
MethodsValid ((k, c) ∷ ms) = (type_pair c ≡ k) × MethodsValid ms

-- `held` lists the pointers that clients have from the factory. An object is in one pool once, or
-- held once, or neither.
pub record Owned (held : List Pointer) (f : Factory) : Type 0 where
  pub pools : PoolsValid f.heap f.creation_pool
  pub methods : MethodsValid f.allocation_methods
  pub once : (a : ℕ) → pooled (some a) f.creation_pool + times (some a) held ≤ 1
  pub made : (a : ℕ) → length f.heap ≤ a → times (some a) held ≡ 0

pub find-MethodsValid :
    (k : TypePair) (ms : List (TypePair × Class)) (c : Class)
    → MethodsValid ms
    → find k ms ≡ some c
    → type_pair c ≡ k
find-MethodsValid k [] c v e = cc
find-MethodsValid k ((j, d) ∷ ms) c (v, vs) e = elim (Bool-cases (pair_key.same j k)) [
  | inl yes_same ↦
      let same_class : d ≡ c =
        some_inj (sym (ap (λ t. if t then some d else find k ms) yes_same) ∙ e) in
      ap type_pair (sym same_class) ∙ v ∙ (pair_key.same_iff j k).0 yes_same
  | inr no_same ↦
      find-MethodsValid k ms c vs (sym (ap (λ t. if t then some d else find k ms) no_same) ∙ e)
]

assign-MethodsValid :
    (k : TypePair) (c : Class) (ms : List (TypePair × Class))
    → type_pair c ≡ k
    → MethodsValid ms
    → MethodsValid (assign k c ms)
assign-MethodsValid k c [] h v = (h, tt)
assign-MethodsValid k c ((j, d) ∷ ms) h (v, vs) = elim (Bool-cases (pair_key.same j k)) [
  | inl yes_same ↦ rw yes_same (h ∙ sym ((pair_key.same_iff j k).0 yes_same), vs)
  | inr no_same ↦ rw no_same (v, assign-MethodsValid k c ms h vs)
]

pub register-Owned :
    (held : List Pointer) (f : Factory) (name : String) (c : Class)
    → Owned held f
    → Owned held (register name (type_pair c) c f).1
unfolding register
register-Owned held f name c o = record {
  pools = o.pools;
  methods = elim (Bool-cases (has (type_pair c) f.allocation_methods)) [
    | inl taken ↦ rw taken o.methods
    | inr fresh ↦ rw fresh (assign-MethodsValid (type_pair c) c f.allocation_methods refl o.methods)
  ];
  once = o.once;
  made = o.made;
}

pub shutdown-Owned : (held : List Pointer) (f : Factory) → Owned held f → Owned held (shutdown f)
unfolding shutdown
shutdown-Owned held f o = record {
  pools = tt;
  methods = tt;
  once = λ a. omega (arith, o.once a);
  made = o.made;
}

-- A pool that is being filled, beside a factory in order.
record Filling (held : List Pointer) (k : TypePair) (b : CircularBuffer Pointer) (f : Factory)
    : Type 0 where
  owned : Owned held f
  pool : PoolValid f.heap k b
  apart :
      (a : ℕ)
      → times (some a) (stored b) + pooled (some a) f.creation_pool + times (some a) held ≤ 1

module _ (junk : ℕ) where
  -- A new object is nowhere else.
  pub make-Owned :
      (held : List Pointer) (f : Factory) (c : Class) → Owned held f → Owned held (make junk c f).1
  unfolding make
  make-Owned held f c o = record {
    pools = PoolsValid-grown f.heap (classes.create junk c ∷ []) f.creation_pool o.pools;
    methods = o.methods;
    once = o.once;
    made = λ a h. o.made a (omega (arith, length-append f.heap (classes.create junk c ∷ [])));
  }

  make-Filling :
      (held : List Pointer) (k : TypePair) (b : CircularBuffer Pointer) (f : Factory) (c : Class)
      → type_pair c ≡ k
      → Filling held k b f
      → Filling held k (put none moved b (make junk c f).0) (make junk c f).1
  unfolding make
  make-Filling held k b f c same v =
      let new = classes.create junk c in
      let grown = PoolValid-grown f.heap (new ∷ []) k b v.pool in
      let answer : Answers (f.heap ++ (new ∷ [])) k (length f.heap) =
        (new, get_elem?-newest f.heap new, ap type_pair (class_of-create junk c) ∙ same) in
      record {
        owned = make-Owned held f c v.owned;
        pool = put-PoolValid (f.heap ++ (new ∷ [])) k b (length f.heap) grown answer;
        apart = λ a. elim (Bool-cases (a == length f.heap)) [
          | inl newest ↦
              let at_end : length f.heap ≤ a = ground arith in
              ground (
                arith,
                times-put (some a) (some (length f.heap)) b v.pool.ring,
                unmade f.heap a k b v.pool at_end,
                unmade_pools f.heap a f.creation_pool v.owned.pools at_end,
                v.owned.made a at_end,
              )
          | inr older ↦
              ground (arith, times-put (some a) (some (length f.heap)) b v.pool.ring, v.apart a)
        ];
      }

  pub allocated :
      (k : TypePair) (f : Factory) (c : Class)
      → find k f.allocation_methods ≡ some c
      → allocate junk k f ≡ make junk c f
  unfolding allocate
  allocated k f c e = rw (allocate, e)

  fill-Filling :
      (n : ℕ) (held : List Pointer) (k : TypePair) (b : CircularBuffer Pointer) (f : Factory)
      (c : Class)
      → find k f.allocation_methods ≡ some c
      → type_pair c ≡ k
      → Filling held k b f
      → let (buff, g) = fill junk n k b f in
        Filling held k buff g
        × (g.creation_pool ≡ f.creation_pool)
        × (g.allocation_methods ≡ f.allocation_methods)
  unfolding fill make
  fill-Filling zero held k b f c e same v = (v, refl, refl)
  fill-Filling (suc i) held k b f c e same v =
      subst
        (λ r.
          Filling held k (fill junk i k (put none moved b r.0) r.1).0
            (fill junk i k (put none moved b r.0) r.1).1
          × ((fill junk i k (put none moved b r.0) r.1).1.creation_pool ≡ f.creation_pool)
          × ((fill junk i k (put none moved b r.0) r.1).1.allocation_methods
              ≡ f.allocation_methods))
        (sym (allocated k f c e))
        (fill-Filling i held k (put none moved b (make junk c f).0) (make junk c f).1 c e same
          (make-Filling held k b f c same v))

  start :
      (held : List Pointer) (k : TypePair) (f : Factory)
      → Owned held f
      → Filling held k (create none moved num_to_create) f
  start held k f o = record {
    owned = o;
    pool = create-PoolValid f.heap k num_to_create (omega arith);
    apart = λ a.
        omega (arith, o.once a, ap (times (some a)) (contents-create none moved num_to_create));
  }

  placed :
      (held : List Pointer) (k : TypePair) (b : CircularBuffer Pointer) (f : Factory)
      → find k f.creation_pool ≡ none
      → Filling held k b f
      → Owned held (record f { creation_pool = assign k b f.creation_pool })
  placed held k b f e v = record {
    pools = assign-PoolsValid f.heap k b f.creation_pool v.owned.pools v.pool;
    methods = v.owned.methods;
    once = λ a. omega (arith, v.apart a, pooled-fresh (some a) k b f.creation_pool e);
    made = v.owned.made;
  }

  init_pool-Owned :
      (held : List Pointer) (k : TypePair) (f : Factory)
      → has k f.allocation_methods ≡ true
      → Owned held f
      → Owned held (init_pool junk k f)
        × ((init_pool junk k f).allocation_methods ≡ f.allocation_methods)
  unfolding init_pool is_pool_already_allocated
  init_pool-Owned held k f h o = elim (Bool-cases (has k f.creation_pool)) [
    | inl there ↦ rw there (o, refl)
    | inr missing ↦
        let (c, e) = has-find k f.allocation_methods h in
        let same = find-MethodsValid k f.allocation_methods c o.methods e in
        let (v, pools, methods) =
          fill-Filling num_to_create held k (create none moved num_to_create) f c e same
            (start held k f o) in
        rw missing
          (placed held k _ _ (ap (find k) pools ∙ find-has k f.creation_pool missing) v, methods)
  ]

  init_pools-Owned :
      (ms : List (TypePair × Class)) (held : List Pointer) (f : Factory)
      → ((k : TypePair) → has k ms ≡ true → has k f.allocation_methods ≡ true)
      → Owned held f
      → Owned held (init_pools junk ms f)
  unfolding init_pools
  init_pools-Owned [] held f known o = o
  init_pools-Owned ((k, c) ∷ ms) held f known o =
      let (next, methods) = init_pool-Owned held k f (known k (has-first k c ms)) o in
      init_pools-Owned ms held (init_pool junk k f)
        (λ j h. ap (has j) methods ∙ known j (has-later j k c ms h)) next

  pub init_factory-Owned :
      (held : List Pointer) (f : Factory) → Owned held f → Owned held (init_factory junk f)
  unfolding init_factory
  init_factory-Owned held f o = init_pools-Owned f.allocation_methods held f (λ k h. h) o
