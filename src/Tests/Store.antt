-- ===== src/Tests/Store.antt =====
-- The tables at work.
use ovote_node.Base.{ℕ, [], ◌∷◌, List}
use ovote_node.Db.Schema.{migrate}
use ovote_node.Db.Invariant.{IsValid}
use ovote_node.Db.History.{Write, run, run-IsValid}
use ovote_node.Tests.Toy.{toy, ballot, unweighted}

abbrev writes : List (Write ℕ)
writes =
    Write.process 1 7 (9 ∷ []) 10 100 200 50 20 60 1
    ∷ Write.process 2 7 (8 ∷ []) 11 100 200 50 20 60 1
    ∷ Write.vote 3 7 ballot
    ∷ Write.vote 4 9 unweighted
    ∷ Write.froze 200
    ∷ []

run-IsValid_example : IsValid (run toy writes migrate)
run-IsValid_example = run-IsValid toy writes
