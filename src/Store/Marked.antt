-- ===== src/Store/Marked.antt =====
-- What the moves of a game say after more have been stored, and after one has been corrected.
use fifteen_thirty_one_go.Shared.{
  List, [], arith, false, get_elem?, refl, some, suc, true, zero, ℕ, ◌++◌, ◌∷◌, ◌≡◌,
}
use fifteen_thirty_one_go.Store.Games.{
  Db, GameMove, MoveType, correct_move, count_move, discard_move, go_move, insert_move,
  play_card_move,
}
use fifteen_thirty_one_go.Store.Moves.{any_uncorrected, is_uncorrected, move_type_eq}

module _ (game player : ℕ) (type : MoveType) where
  -- A move that stands in the list keeps standing.
  pub any_uncorrected-append :
      (before more : List GameMove)
      → any_uncorrected game player type before ≡ true
      → any_uncorrected game player type (before ++ more) ≡ true
  unfolding any_uncorrected
  any_uncorrected-append [] more h = absurd (ground arith)
  any_uncorrected-append (m ∷ ms) more h = ground (arith, any_uncorrected-append ms more)

  pub any_uncorrected-last :
      (before : List GameMove) (m : GameMove)
      → is_uncorrected game player type m ≡ true
      → any_uncorrected game player type (before ++ m ∷ []) ≡ true
  unfolding any_uncorrected
  any_uncorrected-last [] m h = ground arith
  any_uncorrected-last (x ∷ xs) m h = ground (arith, any_uncorrected-last xs m h)

pub move_type_eq_refl : (t : MoveType) → move_type_eq t t ≡ true
unfolding move_type_eq
move_type_eq_refl discard_move = refl
move_type_eq_refl play_card_move = refl
move_type_eq_refl go_move = refl
move_type_eq_refl (count_move true true) = refl
move_type_eq_refl (count_move true false) = refl
move_type_eq_refl (count_move false true) = refl
move_type_eq_refl (count_move false false) = refl
move_type_eq_refl (correct_move t) = move_type_eq_refl t

pub get_elem?-append {ℓ} :
    {A : Type ℓ} (xs ys : List A) (i : ℕ) {a : A}
    → get_elem? xs i ≡ some a
    → get_elem? (xs ++ ys) i ≡ some a
get_elem?-append [] ys i h = absurd (ground arith)
get_elem?-append (x ∷ xs) ys zero h = h
get_elem?-append (x ∷ xs) ys (suc i) h = get_elem?-append xs ys i h

pub stored_last : (db : Db) (m : GameMove) → (insert_move db m).moves ≡ db.moves ++ m ∷ []
unfolding insert_move
stored_last db m = refl
