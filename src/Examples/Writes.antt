-- ===== src/Examples/Writes.antt =====
-- The theorems on the single writer, over a database that is the list of what was inserted.
use aegis_go.Prelude.{All, ℕ, ◌≡◌, refl, false, List, [], ◌∷◌, none, some}
use aegis_go.Writer.{WriteOp, Store, Driver, exec_all, collect, batch_turn, close}
use aegis_go.Writer.Laws.{NoFailure, IsAnswered, IsWilling, close_applies, batch_turn_atomic}
use aegis_go.Examples.{always}

abbrev insert : ℕ → WriteOp (List ℕ)
insert n = record { exec = λ d. some (n ∷ d); waiter = some n }

abbrev broken : WriteOp (List ℕ)
broken = record { exec = λ d. none; waiter = none }

abbrev store : Store (List ℕ)
store = record {
  writes = insert 1 ∷ insert 2 ∷ [];
  closed = false;
  db = [];
  answers = [];
  batches = 0;
}

abbrev poisoned : Store (List ℕ)
poisoned = record store { writes = insert 1 ∷ broken ∷ [] }

abbrev willing : Driver
willing = record { begins = always; commits = always }

is_willing : IsWilling willing
is_willing n = (refl, refl)

leads : exec_all store.writes store.db ≡ some (2 ∷ 1 ∷ [])
unfolding exec_all
leads = refl

fails : exec_all (collect poisoned.writes) poisoned.db ≡ none
unfolding exec_all
fails = refl

close_applies_example :
    ((close 1 willing store).db ≡ 2 ∷ 1 ∷ [])
    × NoFailure store (close 1 willing store)
    × ((close 0 willing store).answers ≡ [])
close_applies_example = close_applies 1 willing store (2 ∷ 1 ∷ []) refl is_willing leads

batch_turn_atomic_example :
    ((batch_turn willing poisoned).db ≡ [])
    × All (IsAnswered false (batch_turn willing poisoned).answers) (collect poisoned.writes)
batch_turn_atomic_example = batch_turn_atomic willing poisoned fails
