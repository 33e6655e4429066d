-- ===== src/PacketFactory/Kinds.antt =====
-- Objects that are changed where they are: each keeps its class, so the pools keep their pairs.
use socket_cplus_plus.Prelude.{
  ℕ, zero, suc, ◌≡◌, refl, sym, ap, ◌∙◌, some, List, [], ◌∷◌, get_elem?, set, length-set, some_inj,
  none_ne_some, arith,
}
use socket_cplus_plus.CircularBuffer.{CircularBuffer}
use socket_cplus_plus.Packets.{Packet}
use socket_cplus_plus.Packets.Classes.{class_of}
use socket_cplus_plus.PacketFactory.{Pointer, TypePair, Factory, type_pair}
use socket_cplus_plus.PacketFactory.Pools.{Answers, PoolsValid}
use socket_cplus_plus.PacketFactory.Making.{Owned}

-- Every object of the first store is there in the second, of the same class.
abbrev pub Keeps : List Packet → List Packet → Type 0
Keeps heap after =
    (a : ℕ) (o : Packet)
    → get_elem? heap a ≡ some o
    → (q : Packet) × (get_elem? after a ≡ some q) × (class_of q ≡ class_of o)

pub same-Keeps : (heap : List Packet) → Keeps heap heap
same-Keeps heap a o e = (o, e, refl)

pub then-Keeps : (f g h : List Packet) → Keeps f g → Keeps g h → Keeps f h
then-Keeps f g h first second a o e =
    let (q, there, same) = first a o e in
    let (r, here, alike) = second a q there in (r, here, alike ∙ same)

pub set-Keeps :
    (heap : List Packet) (a : ℕ) (o q : Packet)
    → get_elem? heap a ≡ some o
    → class_of q ≡ class_of o
    → Keeps heap (set heap a q)
set-Keeps [] a o q e same b p here = absurd (none_ne_some here)
set-Keeps (x ∷ heap) zero o q e same zero p here =
    (q, refl, same ∙ ap class_of (some_inj (sym e ∙ here)))
set-Keeps (x ∷ heap) zero o q e same (suc b) p here = (p, here, refl)
set-Keeps (x ∷ heap) (suc a) o q e same zero p here = (p, here, refl)
set-Keeps (x ∷ heap) (suc a) o q e same (suc b) p here = set-Keeps heap a o q e same b p here

pub kept-Answers :
    (heap after : List Packet) (k : TypePair) (a : ℕ)
    → Keeps heap after
    → Answers heap k a
    → Answers after k a
kept-Answers heap after k a keeps (o, e, pair) =
    let (q, there, same) = keeps a o e in (q, there, ap type_pair same ∙ pair)

kept-PoolsValid :
    (heap after : List Packet) (pools : List (TypePair × CircularBuffer Pointer))
    → Keeps heap after
    → PoolsValid heap pools
    → PoolsValid after pools
kept-PoolsValid heap after [] keeps v = tt
kept-PoolsValid heap after ((k, b) ∷ pools) keeps (v, vs) = (
  record {
    ring = v.ring;
    no_null = v.no_null;
    answers = λ a h. kept-Answers heap after k a keeps (v.answers a h);
  },
  kept-PoolsValid heap after pools keeps vs,
)

-- A factory in order stays so when an object is written over by one of its class.
pub set-Owned :
    (held : List Pointer) (f : Factory) (a : ℕ) (o q : Packet)
    → get_elem? f.heap a ≡ some o
    → class_of q ≡ class_of o
    → Owned held f
    → Owned held (record f { heap = set f.heap a q })
set-Owned held f a o q e same owned = record {
  pools =
      kept-PoolsValid f.heap (set f.heap a q) f.creation_pool (set-Keeps f.heap a o q e same)
        owned.pools;
  methods = owned.methods;
  once = owned.once;
  made = λ b h. owned.made b (omega (arith, h, length-set f.heap a q));
}
