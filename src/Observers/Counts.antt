-- ===== src/Observers/Counts.antt =====
-- What is counted, what GetCount makes of it, and that no listener stands in the list twice.
use socket_cplus_plus.Prelude.{
  ℕ, suc, ◌+◌, ◌-◌, ◌≤◌, ◌≡◌, refl, ap, ◌∙◌, ◌⊎◌, inl, inr, true, false, Option, none, some, List,
  [], ◌∷◌, ◌++◌, ◌==◌, if◌then◌else◌, Bool-cases, Option-cases, arith,
}
use socket_cplus_plus.Prelude.Maps.{pair_key, find, assign, find-assign, same_refl}
use socket_cplus_plus.Packets.{BasePacket}
use socket_cplus_plus.Observers.{
  PacketPair, Observed, packet_received, get_count, Listeners, listens, register, unregister,
}

abbrev pub counted : Option ℕ → ℕ
counted none = 0
counted (some n) = n

abbrev pub pair_of : BasePacket → PacketPair
pair_of bp = (bp.packet_type, bp.packet_sub_type)

pub received_all : List BasePacket → Observed → Observed
received_all [] o = o
received_all (bp ∷ packets) o = received_all packets (packet_received bp o)

abbrev pub occurrences : PacketPair → List BasePacket → ℕ
occurrences key [] = 0
occurrences key (bp ∷ packets) =
    (if pair_key.same (pair_of bp) key then 1 else 0) + occurrences key packets

received_assigns :
    (bp : BasePacket) (o : Observed)
    → packet_received bp o ≡ assign (pair_of bp) (suc (counted (find (pair_of bp) o))) o
unfolding packet_received
received_assigns bp o = elim (Option-cases (find (pair_of bp) o)) [
  | inl unseen ↦ rw (packet_received, unseen)
  | inr (n, seen) ↦ rw (packet_received, seen)
]

found_after :
    (key : PacketPair) (bp : BasePacket) (o : Observed)
    → find key (packet_received bp o) ≡ (
        if pair_key.same (pair_of bp) key
        then some (suc (counted (find (pair_of bp) o)))
        else find key o)
found_after key bp o =
    ap (find key) (received_assigns bp o)
    ∙ find-assign (pair_of bp) key (suc (counted (find (pair_of bp) o))) o

received_one :
    (key : PacketPair) (bp : BasePacket) (o : Observed)
    → counted (find key (packet_received bp o))
      ≡ counted (find key o) + (if pair_key.same (pair_of bp) key then 1 else 0)
received_one key bp o = elim (Bool-cases (pair_key.same (pair_of bp) key)) [
  | inl hit ↦
      let same_key : find (pair_of bp) o ≡ find key o =
        ap (λ k. find k o) ((pair_key.same_iff (pair_of bp) key).0 hit) in
      rw (found_after key bp o, hit, same_key) (omega arith)
  | inr miss ↦ rw (found_after key bp o, miss) (omega arith)
]

-- The map counts, for each pair, the packets of that pair that were received.
pub received_all_lem :
    (key : PacketPair) (packets : List BasePacket) (o : Observed)
    → counted (find key (received_all packets o)) ≡ counted (find key o) + occurrences key packets
unfolding received_all
received_all_lem key [] o = omega arith
received_all_lem key (bp ∷ packets) o =
    omega (arith, received_all_lem key packets (packet_received bp o), received_one key bp o)

-- Right after a packet of a pair was received, GetCount answers 0 for the pair.
pub get_count-packet_received :
    (bp : BasePacket) (o : Observed) → get_count (pair_of bp) (packet_received bp o) ≡ some 0
unfolding get_count
get_count-packet_received bp o =
    rw (get_count, found_after (pair_of bp) bp o, same_refl (pair_of bp))

abbrev pub times : ℕ → Listeners → ℕ
times l [] = 0
times l (x ∷ xs) = (if x == l then 1 else 0) + times l xs

times-append : (l : ℕ) (xs ys : Listeners) → times l (xs ++ ys) ≡ times l xs + times l ys
times-append l [] ys = omega arith
times-append l (x ∷ xs) ys = omega (arith, times-append l xs ys)

listens-times :
    (l : ℕ) (xs : Listeners)
    → ((listens l xs ≡ true) × (1 ≤ times l xs)) ⊎ ((listens l xs ≡ false) × (times l xs ≡ 0))
unfolding listens
listens-times l [] = inr (refl, refl)
listens-times l (x ∷ xs) = ground (arith, listens-times l xs)

-- Registering keeps every listener at most once in the list, and has its own there once.
pub register_once :
    (listener other : ℕ) (listeners : Listeners)
    → times listener listeners ≤ 1
    → times other listeners ≤ 1
    → (times other (register listener listeners) ≤ 1)
      × (times listener (register listener listeners) ≡ 1)
unfolding register
register_once listener other listeners h k = ground (
  arith,
  listens-times listener listeners,
  times-append other listeners (listener ∷ []),
  times-append listener listeners (listener ∷ []),
)

-- Unregistering takes the listener out of such a list and leaves the others as they are.
pub times-unregister :
    (listener other : ℕ) (listeners : Listeners)
    → times other (unregister listener listeners)
      ≡ times other listeners - (if listener == other then 1 else 0)
unfolding unregister
times-unregister listener other [] = ground arith
times-unregister listener other (l ∷ listeners) =
    ground (arith, times-unregister listener other listeners)
