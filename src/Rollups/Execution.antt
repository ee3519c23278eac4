-- ===== src/Rollups/Execution.antt =====
-- The database that a call leaves, by the fault around its statement
-- (src/modules/queue/infrastructure/postgres.rs).

use retsu.Base.{◌≡◌, refl, true, false, none, some, Option, Result, lift, and_then}
use retsu.Repository.{Error}
use retsu.Postgres.Tables.{
  Database, Fault, no_fault, pool_exhausted, not_executed, reply_lost, executed,
}
use retsu.Postgres.Calls.{read-keeps}
use retsu.Rollups.Calls.{executes}

-- The database that a statement leaves.
pub executed-none : (A : Type 0) (f : Fault) (db : Database) → (executed {A = A} f db none).1 ≡ db
executed-none A no_fault db = refl
executed-none A pool_exhausted db = refl
executed-none A not_executed db = refl
executed-none A reply_lost db = refl

pub executed-some :
    {A : Type 0} (f : Fault) (db : Database) (a : A) (db' : Database)
    → executes f ≡ true
    → (executed f db (some (a, db'))).1 ≡ db'
executed-some no_fault db a db' h = refl
executed-some pool_exhausted db a db' h = absurd cc
executed-some not_executed db a db' h = absurd cc
executed-some reply_lost db a db' h = refl

pub executed-not :
    {A : Type 0} (f : Fault) (db : Database) (outcome : Option (A × Database))
    → executes f ≡ false
    → (executed f db outcome).1 ≡ db
executed-not no_fault db outcome h = absurd cc
executed-not pool_exhausted db outcome h = refl
executed-not not_executed db outcome h = refl
executed-not reply_lost db outcome h = absurd cc

pub read-database :
    {A B : Type 0} (ran : Result Error A × Database) (read : A → Result Error B)
    → (and_then ran (λ a. lift (read a))).1 ≡ ran.1
read-database ran read = read-keeps (λ x. x ≡ ran.1) ran read refl
