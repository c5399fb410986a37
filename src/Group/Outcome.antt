-- ===== src/Group/Outcome.antt =====
-- What a handler leaves: the tables, the calls it has made in order, and its error.
use open_im_server.Base.{◌≡◌, List, [], ◌∷◌, ◌++◌, Error, Result, ok, err}
use open_im_server.Group.Model.{Db, GroupEffect}

-- Calls, and whether they ended in an error.
abbrev pub Steps : Type 0
Steps = List GroupEffect × Result (Unit {0})

abbrev pub did : GroupEffect → Steps
did e = (e ∷ [], ok tt)

abbrev pub asked : Result (Unit {0}) → Steps
asked r = ([], r)

-- Steps stop at the first error.
infixr 5 ◌next◌
abbrev pub ◌next◌ : Steps → Steps → Steps
(es, err e) next rest = (es, err e)
(es, ok u) next rest = (es ++ rest.0, rest.1)

pub record Outcome : Type 0 where
  pub db : Db
  pub steps : Steps

abbrev pub failed : Db → Error → Outcome
failed db e = record { db = db; steps = ([], err e) }

-- `if err != nil { return nil, err }` after a call that does not write.
abbrev pub guarded : {A : Type 0} → Db → Result A → (A → Outcome) → Outcome
guarded db (err e) next_step = failed db e
guarded db (ok a) next_step = next_step a

-- A write, and what follows it.
abbrev pub committed : Db → Result Db → Steps → Outcome
committed db (err e) steps = failed db e
committed db (ok new) steps = record { db = new; steps = steps }

-- A write, and what follows it on the tables that it leaves.
abbrev pub committed_then : Db → Result Db → (Db → Steps) → Outcome
committed_then db (err e) steps = failed db e
committed_then db (ok new) steps = record { db = new; steps = steps new }

abbrev pub with_answer : {A : Type 0} → Result A → (A → Steps) → Steps
with_answer (err e) steps = ([], err e)
with_answer (ok a) steps = steps a

-- What holds before a handler and after each of its writes holds after it.
pub guarded-keeps :
    {A : Type 0} (P : Db → Type 0) (db : Db) (r : Result A) (next_step : A → Outcome)
    → P db
    → ((a : A) → r ≡ ok a → P (next_step a).db)
    → P (guarded db r next_step).db
guarded-keeps P db (err e) next_step h hs = h
guarded-keeps P db (ok a) next_step h hs = hs a (λ i. ok a)

pub committed-keeps :
    (P : Db → Type 0) (db : Db) (r : Result Db) (steps : Steps)
    → P db
    → ((new : Db) → r ≡ ok new → P new)
    → P (committed db r steps).db
committed-keeps P db (err e) steps h hs = h
committed-keeps P db (ok new) steps h hs = hs new (λ i. ok new)

pub committed_then-keeps :
    (P : Db → Type 0) (db : Db) (r : Result Db) (steps : Db → Steps)
    → P db
    → ((new : Db) → r ≡ ok new → P new)
    → P (committed_then db r steps).db
committed_then-keeps P db (err e) steps h hs = h
committed_then-keeps P db (ok new) steps h hs = hs new (λ i. ok new)
