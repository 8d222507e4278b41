-- ===== src/Moves/Committed.antt =====
-- How a request ends that only writes to the database: its changes stand where it has an answer, and
-- nothing is changed where it is refused.
use fifteen_thirty_one_go.Shared.{Outcome, ap, err, ok, ok_injective, panic, sym, ◌≡◌}
use fifteen_thirty_one_go.Moves.World.{World}
use fifteen_thirty_one_go.Store.Games.{ApiError, Db}

module _ {ℓ} {A : Type ℓ} where
  unfoldable pub committed : World → Outcome ApiError (Db × A) → World × Outcome ApiError A
  committed w (ok (db, answer)) = (record w { db = db }, ok answer)
  committed w (err e) = (w, err e)
  committed w panic = (w, panic)

  pub committed-ok :
      (w w' : World) (r : Outcome ApiError (Db × A)) (a : A)
      → committed w r ≡ (w', ok a)
      → (db : Db) × (r ≡ ok (db, a)) × (w' ≡ record w { db = db })
  unfolding committed
  committed-ok w w' (ok (db, x)) a h =
      let same : x ≡ a = ok_injective (ap (λ (q : World × Outcome ApiError A). q.1) h) in
      (db, ap (λ y. ok (db, y)) same, sym (ap (λ (q : World × Outcome ApiError A). q.0) h))
  committed-ok w w' (err e) a h = absurd (cc (ap (λ (q : World × Outcome ApiError A). q.1) h))
  committed-ok w w' panic a h = absurd (cc (ap (λ (q : World × Outcome ApiError A). q.1) h))
