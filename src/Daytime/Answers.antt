-- ===== src/Daytime/Answers.antt =====
-- The server and the library together: in each step the handler of a receive or of a send runs.
use socket_cplus_plus.Prelude.{
  ℕ, suc, Bool, ◌≤◌, ◌≡◌, refl, ap, true, false, List, ◌∷◌, ◌++◌, length, length-append, arith,
}
use socket_cplus_plus.Daytime.{DaytimeServer, new, start_receive, handle_receive, handle_send}

-- A datagram's sender is in the endpoint before the handler runs.
pub data Step (s t : DaytimeServer) : Type 0 where
  receives :
      (error : Bool) (sender n : ℕ) (message : List ℕ)
      → s.receives ≡ suc n
      → t ≡ handle_receive message error (record s { remote_endpoint = sender; receives = n })
      → Step s t
  sends :
      (before after : List (ℕ × List ℕ)) (m : ℕ × List ℕ)
      → s.sends ≡ before ++ (m ∷ after)
      → t ≡ handle_send (record s { sends = before ++ after })
      → Step s t

pub data Reaches (s : DaytimeServer) : DaytimeServer → Type 0 where
  stays : Reaches s s
  goes : {t u : DaytimeServer} → Reaches s t → Step t u → Reaches s u

Step-receives : (s t : DaytimeServer) → Step s t → t.receives ≤ s.receives
unfolding handle_receive handle_send start_receive
Step-receives s t (receives true sender n message e made) =
    omega (arith, ap (λ u. u.receives) made, e)
Step-receives s t (receives false sender n message e made) =
    omega (arith, ap (λ u. u.receives) made, e)
Step-receives s t (sends before after m e made) = omega (arith, ap (λ u. u.receives) made)

Reaches-receives : (s t : DaytimeServer) → Reaches s t → t.receives ≤ s.receives
Reaches-receives s t stays = omega arith
Reaches-receives s t (goes {t = m} run step) =
    omega (arith, Reaches-receives s m run, Step-receives m t step)

-- There is never more than one receive pending.
pub new-receives : (unset : ℕ) (t : DaytimeServer) → Reaches (new unset) t → t.receives ≤ 1
unfolding new start_receive
new-receives unset t run = Reaches-receives (new unset) t run

Step-silent : (s t : DaytimeServer) → Step s t → s.receives ≡ 0 → length t.sends ≤ length s.sends
unfolding handle_send
Step-silent s t (receives error sender n message e made) off = absurd (omega arith)
Step-silent s t (sends before after m e made) off = omega (
  arith,
  ap (λ u. length u.sends) made,
  ap length e,
  length-append before after,
  length-append before (m ∷ after),
)

-- A receive that ends with an error is the last: from then on none is pending, and nothing is sent
-- that was not pending already.
pub error-Reaches :
    (s : DaytimeServer) (sender : ℕ) (message : List ℕ) (t : DaytimeServer)
    → Reaches (handle_receive message true (record s { remote_endpoint = sender; receives = 0 })) t
    → (t.receives ≡ 0) × (length t.sends ≤ length s.sends)
unfolding handle_receive
error-Reaches s sender message t stays = (refl, omega arith)
error-Reaches s sender message t (goes {t = m} run step) =
    let (off, few) = error-Reaches s sender message m run in
    (omega (arith, Step-receives m t step), omega (arith, Step-silent m t step off))
