-- ===== src/PacketFactory/Traces.antt =====
-- Calls in any order: the steps of a factory and its clients, and what no sequence of them breaks.
use Prim.Native.String.{String}
use socket_cplus_plus.Prelude.{ℕ, ◌≡◌, refl, Bool, some, List, [], ◌∷◌, ◌++◌, arith}
use socket_cplus_plus.Packets.Classes.{Class}
use socket_cplus_plus.PacketFactory.{
  Pointer, TypePair, Factory, type_pair, register, init_factory, shutdown, create_by_type,
  create_by_name, release,
}
use socket_cplus_plus.PacketFactory.Counting.{times, pooled, times-append}
use socket_cplus_plus.PacketFactory.Pools.{Answers}
use socket_cplus_plus.PacketFactory.Making.{
  Owned, register-Owned, shutdown-Owned, init_factory-Owned,
}
use socket_cplus_plus.PacketFactory.Ownership.{
  dropped, held_alike, create_by_type-Owned, create_by_type-exclusive, create_by_name-Owned,
  release-Owned,
}

-- The factory, and the pointers that its clients hold.
pub record World : Type 0 where
  pub factory : Factory
  pub held : List Pointer

-- The three maps before any registration.
abbrev pub unregistered : World
unregistered = record {
  factory = record { methods = []; allocation_methods = []; creation_pool = []; heap = [] };
  held = [];
}

-- A class registers itself under the pair that it answers, as SelfRegistery writes it. A client
-- releases, or gives up, any of the pointers that it holds.
pub data Step (junk : ℕ) : World → World → Type 0 where
  registers :
      (w : World) (name : String) (c : Class)
      → Step junk w (record w { factory = (register name (type_pair c) c w.factory).1 })
  inits : (w : World) → Step junk w (record w { factory = init_factory junk w.factory })
  shuts_down : (w : World) → Step junk w (record w { factory = shutdown w.factory })
  creates :
      (w : World) (k : TypePair)
      → Step junk w (record {
        factory = (create_by_type k w.factory).1;
        held = (create_by_type k w.factory).0 ∷ w.held;
      })
  creates_named :
      (w : World) (name : String)
      → Step junk w (record {
        factory = (create_by_name junk name w.factory).1;
        held = (create_by_name junk name w.factory).0 ∷ w.held;
      })
  releases :
      (before after : List Pointer) (p q : Pointer) (taken : Bool) (f g : Factory)
      → release p f ≡ some (taken, q, g)
      → Step junk
          (record { factory = f; held = before ++ (p ∷ after) })
          (record { factory = g; held = before ++ (q ∷ after) })
  gives_up :
      (before after : List Pointer) (p : Pointer) (f : Factory)
      → Step junk
          (record { factory = f; held = before ++ (p ∷ after) })
          (record { factory = f; held = before ++ after })

pub data Reaches (junk : ℕ) : World → World → Type 0 where
  stays : (w : World) → Reaches junk w w
  goes : (u v w : World) → Step junk u v → Reaches junk v w → Reaches junk u w

between :
    (before after : List Pointer) (p : Pointer) (a : ℕ)
    → times (some a) (before ++ (p ∷ after)) ≡ times (some a) (p ∷ (before ++ after))
between before after p a =
    omega (arith, times-append (some a) before (p ∷ after), times-append (some a) before after)

pub Step-Owned :
    (junk : ℕ) (v w : World) → Step junk v w → Owned v.held v.factory → Owned w.held w.factory
Step-Owned junk v w (registers u name c) o = register-Owned u.held u.factory name c o
Step-Owned junk v w (inits u) o = init_factory-Owned junk u.held u.factory o
Step-Owned junk v w (shuts_down u) o = shutdown-Owned u.held u.factory o
Step-Owned junk v w (creates u k) o = create_by_type-Owned u.held k u.factory o
Step-Owned junk v w (creates_named u name) o = create_by_name-Owned junk u.held name u.factory o
Step-Owned junk v w (releases before after p q taken f g e) o =
    held_alike (q ∷ (before ++ after)) (before ++ (q ∷ after)) g
      (λ a. omega (arith, between before after q a))
      (release-Owned (before ++ after) p q f g taken
        (held_alike (before ++ (p ∷ after)) (p ∷ (before ++ after)) f (between before after p) o) e)
Step-Owned junk v w (gives_up before after p f) o =
    dropped (before ++ after) p f
      (held_alike (before ++ (p ∷ after)) (p ∷ (before ++ after)) f (between before after p) o)

Reaches-Owned :
    (junk : ℕ) (v w : World) → Reaches junk v w → Owned v.held v.factory → Owned w.held w.factory
Reaches-Owned junk v w (stays u) o = o
Reaches-Owned junk v w (goes a b c s r) o = Reaches-Owned junk b c r (Step-Owned junk a b s o)

-- In whatever order classes register, pools are filled and clients create, release and give up
-- packets: a packet that Create(type, subType) hands out answers that pair, is in no pool any more,
-- and is held by nobody else.
pub reached-create_by_type_exclusive :
    (junk : ℕ) (w : World) (k : TypePair) (a : ℕ)
    → Reaches junk unregistered w
    → (create_by_type k w.factory).0 ≡ some a
    → Answers (create_by_type k w.factory).1.heap k a
      × (pooled (some a) (create_by_type k w.factory).1.creation_pool ≡ 0)
      × (times (some a) w.held ≡ 0)
reached-create_by_type_exclusive junk w k a r given =
    let start : Owned [] unregistered.factory = record {
      pools = tt;
      methods = tt;
      once = λ a. omega arith;
      made = λ a h. refl;
    } in
    create_by_type-exclusive w.held k w.factory a (Reaches-Owned junk unregistered w r start) given
