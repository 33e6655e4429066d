-- ===== src/CircularBuffer/Examples.antt =====
-- Runs of the ring.
use socket_cplus_plus.Prelude.{ℕ, ◌≡◌, List, [], ◌∷◌, arith}
use socket_cplus_plus.CircularBuffer.{CircularBuffer, create}
use socket_cplus_plus.CircularBuffer.Invariant.{IsValid, create-IsValid}
use socket_cplus_plus.CircularBuffer.Queue.{
  Op, puts, gets, sizes, empties, fulls, run, queue_run, contents,
}
use socket_cplus_plus.CircularBuffer.Refine.{run_refines}

-- Three places, of which a move leaves the value as it was.
abbrev fresh : CircularBuffer ℕ
fresh = create 0 (λ x. x) 3

fresh-IsValid : IsValid fresh
fresh-IsValid = create-IsValid 0 (λ x. x) 3 (omega arith)

abbrev calls : List (Op ℕ)
calls = puts 5 ∷ puts 6 ∷ puts 7 ∷ fulls ∷ puts 8 ∷ sizes ∷ gets ∷ gets ∷ gets ∷ gets ∷ empties ∷ []

run_refines_example : run 0 (λ x. x) fresh calls ≡ queue_run 0 3 (contents 0 (λ x. x) fresh) calls
unfolding create
run_refines_example = run_refines 0 (λ x. x) calls fresh fresh-IsValid
