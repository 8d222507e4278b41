-- ===== src/Counting/Corrected.antt =====
-- Who may correct which move, what a correction leaves, and that a move is corrected once.
use fifteen_thirty_one_go.Shared.{
  >>=-eq-ok, Bool-cases, List, Option-cases, Outcome, [], ap, arith, err, false, get_elem?,
  get_elem?-set_self, get_elem?_bound, inl, inr, length, length-set, ok, ok_injective, panic, refl,
  set, some, subst, suc, sym, true, zero, ℕ, ℤ, ◌++◌, ◌==◌, ◌>>=◌, ◌∙◌, ◌∷◌, ◌≡◌, ◌≢◌, ◌⊎◌,
}
use fifteen_thirty_one_go.Counting.Correct.{
  commit_correction, correct, correct_found, correct_in, correctable, correction, host_of,
}
use fifteen_thirty_one_go.Store.Games.{ApiError, Db, GameMove, insert_move}
use fifteen_thirty_one_go.Store.Marked.{get_elem?-append, stored_last}
use fifteen_thirty_one_go.Store.Moves.{get_move_by_id, is_final, mark_move_as_corrected}

-- What an accepted correction has found and written.
pub record Corrected (db db' : Db) (game user id : ℕ) (claim : ℤ) (points : ℕ) : Type 0 where
  pub prev : GameMove
  pub host : ℕ
  pub found : get_move_by_id db id ≡ ok prev
  pub same_game : prev.game_id ≡ game
  pub host_is : host_of db game ≡ ok host
  pub may : (prev.player_id ≡ user) ⊎ (host ≡ user)
  pub final_by_host : is_final prev.move_type ≡ true → host ≡ user
  pub uncorrected : prev.is_corrected ≡ false
  pub verified : prev.score_verified ≡ some points
  pub marked : get_move_by_id db' id ≡ ok (record prev { is_corrected = true })
  pub appended :
      (ms : List GameMove) × (db'.moves
        ≡ ms ++ correction game user prev.move_type claim points ∷ [])
      × (length ms ≡ length db.moves)

correctable-ok :
    (user host : ℕ) (prev : GameMove) (points : ℕ)
    → correctable user host prev ≡ ok points
    → ((prev.player_id ≡ user) ⊎ (host ≡ user))
      × (is_final prev.move_type ≡ true → host ≡ user)
      × (prev.is_corrected ≡ false)
      × (prev.score_verified ≡ some points)
unfolding correctable
correctable-ok user host prev points h =
    (ground arith, λ f. ground arith, ground arith, ground arith)

-- The mark on the move, seen through the list of moves.
mark-ok :
    (db db' : Db) (id : ℕ) (prev m : GameMove)
    → get_move_by_id db id ≡ ok prev
    → mark_move_as_corrected db id ≡ ok db'
    → (get_move_by_id (insert_move db' m) id ≡ ok (record prev { is_corrected = true }))
      × (length db'.moves ≡ length db.moves)
unfolding get_move_by_id mark_move_as_corrected insert_move
mark-ok db db' zero prev m found h = absurd (ground arith)
mark-ok db db' (suc i) prev m found h = elim (Option-cases (get_elem? db.moves i)) [
  | inl e ↦ absurd (ground arith)
  | inr (x, e) ↦
      let same : x ≡ prev = ok_injective (rw (e, get_move_by_id) at found) in
      let moved : set db.moves i (record x { is_corrected = true }) ≡ db'.moves =
        ap (λ (d : Db). d.moves) (ok_injective (rw (e, mark_move_as_corrected) at h)) in
      let read : get_elem? (db'.moves ++ m ∷ []) i ≡ some (record prev { is_corrected = true }) =
        get_elem?-append db'.moves (m ∷ []) i (
          subst (λ ms. get_elem? ms i ≡ some (record prev { is_corrected = true })) moved
            (get_elem?-set_self db.moves i (record x { is_corrected = true })
                (get_elem?_bound db.moves i e)
              ∙ ap (λ (y : GameMove). some (record y { is_corrected = true })) same)) in
      (
        rw (read, get_move_by_id) refl,
        ap length (sym moved) ∙ length-set db.moves i (record x { is_corrected = true }),
      )
]

commit_correction-ok :
    (db db' : Db) (game user id : ℕ) (prev : GameMove) (claim : ℤ) (points n : ℕ)
    → commit_correction db game user id prev claim points ≡ ok (db', n)
    → (marked : Db) × (mark_move_as_corrected db id ≡ ok marked)
      × (db' ≡ insert_move marked (correction game user prev.move_type claim points))
      × (n ≡ points)
unfolding commit_correction
commit_correction-ok db db' game user id prev claim points n h =
    let (marked, m, e) =
      >>=-eq-ok (mark_move_as_corrected db id)
        (λ d. ok (insert_move d (correction game user prev.move_type claim points), points)) h in
    let same = ok_injective e in
    (marked, m, sym (ap (λ (r : Db × ℕ). r.0) same), sym (ap (λ (r : Db × ℕ). r.1) same))

correct_in-Corrected :
    (db db' : Db) (game user id : ℕ) (claim : ℤ) (points : ℕ) (prev : GameMove)
    → get_move_by_id db id ≡ ok prev
    → correct_in db game user id claim prev ≡ ok (db', points)
    → Corrected db db' game user id claim points
unfolding correct_in
correct_in-Corrected db db' game user id claim points prev found h =
    elim (Bool-cases (prev.game_id == game)) [
      | inr other ↦ absurd (ground arith)
      | inl same ↦
          let (host, host_is, rest) =
            >>=-eq-ok (host_of db game)
              (λ host. do
                points ← correctable user host prev
                commit_correction db game user id prev claim points)
              (rw (same, correct_in) at h) in
          let (value, guarded, done) =
            >>=-eq-ok (correctable user host prev)
              (λ points. commit_correction db game user id prev claim points) rest in
          let (may, final_by_host, uncorrected, verified) =
            correctable-ok user host prev value guarded in
          let (marked, m, written, n) =
            commit_correction-ok db db' game user id prev claim value points done in
          let entry = correction game user prev.move_type claim value in
          let (reads, measured) = mark-ok db marked id prev entry found m in
          record {
            prev = prev;
            host = host;
            found = found;
            same_game = ground arith;
            host_is = host_is;
            may = may;
            final_by_host = final_by_host;
            uncorrected = uncorrected;
            verified = verified ∙ ap (λ v. some v) (sym n);
            marked = ap (λ (d : Db). get_move_by_id d id) written ∙ reads;
            appended = (
              marked.moves,
              ap (λ (d : Db). d.moves) written
                  ∙ stored_last marked entry
                  ∙ ap (λ v. marked.moves ++ correction game user prev.move_type claim v ∷ [])
                      (sym n),
              measured,
            );
          }
    ]

correct_found-Corrected :
    (db db' : Db) (game user id : ℕ) (claim : ℤ) (points : ℕ) (r : Outcome ApiError GameMove)
    → get_move_by_id db id ≡ r
    → correct_found db game user id claim r ≡ ok (db', points)
    → Corrected db db' game user id claim points
unfolding correct_found
correct_found-Corrected db db' game user id claim points (ok prev) found h =
    correct_in-Corrected db db' game user id claim points prev found h
correct_found-Corrected db db' game user id claim points (err e) found h = absurd (cc)
correct_found-Corrected db db' game user id claim points panic found h = absurd (cc)

-- An accepted correction is of an uncorrected, verified move of the game, by its player or by the
-- host, and of a final count by the host only. It marks the move and stores one move more, with the
-- points that had been verified.
pub correct-Corrected :
    (db db' : Db) (game user id : ℕ) (claim : ℤ) (points : ℕ)
    → correct db game user id claim ≡ ok (db', points)
    → Corrected db db' game user id claim points
unfolding correct
correct-Corrected db db' game user id claim points h =
    correct_found-Corrected db db' game user id claim points (get_move_by_id db id) refl h

get_move_by_id-append :
    (db later : Db) (id : ℕ) (more : List GameMove) (m : GameMove)
    → later.moves ≡ db.moves ++ more
    → get_move_by_id db id ≡ ok m
    → get_move_by_id later id ≡ ok m
unfolding get_move_by_id
get_move_by_id-append db later zero more m grown h = absurd (ground arith)
get_move_by_id-append db later (suc i) more m grown h = elim (Option-cases (get_elem? db.moves i)) [
  | inl e ↦ absurd (ground arith)
  | inr (x, e) ↦
      let same : x ≡ m = ok_injective (rw (e, get_move_by_id) at h) in
      rw
        (
          subst (λ ms. get_elem? ms i ≡ some x) (sym grown) (get_elem?-append db.moves more i e),
          get_move_by_id,
        )
        (ap (λ y. ok y) same)
]

-- A corrected move is not corrected again, by whomever, while moves are only added.
pub correct_once :
    (db db' later after : Db) (game user id other : ℕ) (claim claim' : ℤ) (points points' : ℕ)
    (more : List GameMove)
    → correct db game user id claim ≡ ok (db', points)
    → later.moves ≡ db'.moves ++ more
    → correct later game other id claim' ≢ ok (after, points')
correct_once db db' later after game user id other claim claim' points points' more h grown h' =
    let first = correct-Corrected db db' game user id claim points h in
    let second = correct-Corrected later after game other id claim' points' h' in
    let reads =
      get_move_by_id-append db' later id more (record first.prev { is_corrected = true }) grown
        first.marked in
    let same = ok_injective (sym reads ∙ second.found) in
    absurd (ground (arith, ap (λ (m : GameMove). m.is_corrected) same, second.uncorrected))
