-- ===== src/Capture/Database/Tx.antt =====
-- What a transaction that committed has computed on the way.
use mint_flow.Prelude.{◌≡◌, refl, Bool, true, false, Option, none, some, if◌then◌else◌}
use mint_flow.Prelude.Result.{Result, ok, err}
use mint_flow.Capture.Database.{Db, Tx, ◌>>=◌, pure, raise, lift, or_raise}
use mint_flow.Capture.Errors.{CaptureError}
use mint_flow.Domain.Errors.{ValueError}

module _ {A B : Type 0} where
  pub ok_of_tx :
      (m : Tx A) (rest : A → Tx B) {db : Db} {r : B × Db}
      → (m >>= rest) db ≡ ok r
      → (a : A) × (db' : Db) × (m db ≡ ok (a, db')) × (rest a db' ≡ ok r)
  unfolding ◌>>=◌
  ok_of_tx m rest {db = db} {r = r} h = go (m db) refl h
    where
      go :
          (s : Result CaptureError (A × Db))
          → m db ≡ s
          → (elim s [ err e ↦ err e | ok (a, db') ↦ rest a db' ]) ≡ ok r
          → (a : A) × (db' : Db) × (m db ≡ ok (a, db')) × (rest a db' ≡ ok r)
      go (err e) p k = cc
      go (ok (a, db')) p k = (a, db', p, k)

module _ {A : Type 0} where
  pub lift-eq-ok :
      (s : Result ValueError A) {db db' : Db} {a : A}
      → lift s db ≡ ok (a, db')
      → (s ≡ ok a) × (db' ≡ db)
  lift-eq-ok (ok x) h = (cc, cc)
  lift-eq-ok (err e) h = cc

  pub or_raise-eq-ok :
      (o : Option A) (e : CaptureError) {db db' : Db} {a : A}
      → or_raise o e db ≡ ok (a, db')
      → (o ≡ some a) × (db' ≡ db)
  or_raise-eq-ok none e h = cc
  or_raise-eq-ok (some x) e h = (cc, cc)

pub guard-eq-ok :
    (b : Bool) (e : CaptureError) {db db' : Db} {a : Unit {0}}
    → (if b then pure tt else raise {A = Unit {0}} e) db ≡ ok (a, db')
    → (b ≡ true) × (db' ≡ db)
guard-eq-ok true e h = (refl, cc)
guard-eq-ok false e h = cc
