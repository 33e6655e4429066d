-- ===== src/Packets/Kept.antt =====
-- What SerializeIn makes of an object is an object of the same class, whatever it reads.
use socket_cplus_plus.Prelude.{
  ℕ, ◌≡◌, refl, sym, ap, subst, ◌∙◌, inl, inr, List, some, Option-cases, none_ne_some, some_inj,
}
use socket_cplus_plus.Wire.{In, ◌>>=◌, pure}
use socket_cplus_plus.Serialize.Host.{ByteOrder}
use socket_cplus_plus.Packets.{
  Packet, base, comms, server_tick, position, movement, base_in, comms_in, tick_in, position_in,
  movement_in, serialize_in,
}
use socket_cplus_plus.Packets.Classes.{class_of}

-- Whatever the reader gives has the property.
abbrev Yields : {A : Type 0} → (A → Type 0) → In A → Type 0
Yields {A} P m =
    (bytes : List ℕ) (offset : ℕ) (a : A) (next : ℕ) → m bytes offset ≡ some (a, next) → P a

pure-Yields : {A : Type 0} (P : A → Type 0) (a : A) → P a → Yields P (pure a)
pure-Yields P a h bytes offset b next e = subst P (ap (λ r. r.0) (some_inj e)) h

>>=-Yields :
    {A B : Type 0} (P : B → Type 0) (m : In A) (f : A → In B)
    → ((a : A) → Yields P (f a))
    → Yields P (m >>= f)
>>=-Yields P m f rest bytes offset b next e = elim (Option-cases (m bytes offset)) [
  | inl failed ↦ absurd (none_ne_some (sym (rw (failed, ◌>>=◌)) ∙ e))
  | inr ((a, middle), ran) ↦
      let after : (m >>= f) bytes offset ≡ f a bytes middle = rw (ran, ◌>>=◌) in
      rest a bytes middle b next (sym after ∙ e)
]

-- A reader that puts what it reads into one constructor.
made-Yields :
    {A : Type 0} (o : Packet) (m : In A) (wrap : A → Packet)
    → ((a : A) → class_of (wrap a) ≡ class_of o)
    → Yields (λ q. class_of q ≡ class_of o) (m >>= (λ a. pure (wrap a)))
made-Yields o m wrap same =
    >>=-Yields (λ q. class_of q ≡ class_of o) m (λ a. pure (wrap a))
      (λ a. pure-Yields (λ q. class_of q ≡ class_of o) (wrap a) (same a))

module _ ⦃net : ByteOrder⦄ where
  pub serialize_in_kept :
      (o q : Packet) (bytes : List ℕ) (offset next : ℕ)
      → serialize_in o bytes offset ≡ some (q, next)
      → class_of q ≡ class_of o
  unfolding serialize_in
  serialize_in_kept (base p) q bytes offset next e =
      made-Yields (base p) base_in base (λ a. refl) bytes offset q next e
  serialize_in_kept (comms p) q bytes offset next e =
      made-Yields (comms p) comms_in comms (λ a. refl) bytes offset q next e
  serialize_in_kept (server_tick p) q bytes offset next e =
      made-Yields (server_tick p) tick_in server_tick (λ a. refl) bytes offset q next e
  serialize_in_kept (position p) q bytes offset next e =
      made-Yields (position p) position_in position (λ a. refl) bytes offset q next e
  serialize_in_kept (movement p) q bytes offset next e =
      made-Yields (movement p) movement_in movement (λ a. refl) bytes offset q next e
