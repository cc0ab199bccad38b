-- ===== src/World/Transaction.antt =====
-- The two ends of a transaction.
use ops_mesh.Base.{◌≡◌, refl, subst}
use ops_mesh.Db.{Db}
use ops_mesh.Errors.{Result, ok, err}
use ops_mesh.World.{transaction}

abbrev pub ending {ℓ} : {A : Type ℓ} → Db → Result (Db × A) → Db × Result A
ending db (ok (db', a)) = (db', ok a)
ending db (err e) = (db, err e)

pub transaction-result :
    {A : Type 0} (fn : Db → Result (Db × A)) (db : Db) (r : Result (Db × A))
    → fn db ≡ r
    → transaction fn db ≡ ending db r
unfolding transaction
transaction-result {A} fn db r h = subst (λ r. transaction fn db ≡ ending db r) h (go (fn db))
  where
    go :
        (r : Result (Db × A))
        → elim r as (λ _. Db × Result A) [ ok (db', a) ↦ (db', ok a) | err e ↦ (db, err e) ]
          ≡ ending db r
    go (ok (db', a)) = refl
    go (err e) = refl
