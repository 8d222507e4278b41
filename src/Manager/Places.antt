-- ===== src/Manager/Places.antt =====
-- Which locks a thread has at a place in its code.
use fifteen_thirty_one_go.Shared.{Bool, Option, false, none, refl, some, true, ℕ, ◌||◌, ◌≡◌}
use fifteen_thirty_one_go.Manager.{
  Pc, create_waiting, creating, delete_waiting, deleting, failed, failing, get_waiting, getting,
  holding, outside, set_waiting, setting,
}

-- The game and the entry that a thread works on.
unfoldable pub target : Pc → Option (ℕ × ℕ)
target outside = none
target (get_waiting g e) = some (g, e)
target (getting g e) = some (g, e)
target (holding g e) = some (g, e)
target (set_waiting g e s) = some (g, e)
target (setting g e s) = some (g, e)
target (delete_waiting g e) = some (g, e)
target (deleting g e) = some (g, e)
target (create_waiting g e) = some (g, e)
target (creating g e) = some (g, e)
target (failing g e) = some (g, e)
target (failed g e) = some (g, e)

-- It has the lock of that entry.
unfoldable pub owns : Pc → Bool
owns outside = false
owns (get_waiting g e) = false
owns (getting g e) = true
owns (holding g e) = true
owns (set_waiting g e s) = false
owns (setting g e s) = true
owns (delete_waiting g e) = false
owns (deleting g e) = true
owns (create_waiting g e) = false
owns (creating g e) = true
owns (failing g e) = true
owns (failed g e) = true

-- It has the lock of the map, to read.
unfoldable pub reads : Pc → Bool
reads outside = false
reads (get_waiting g e) = true
reads (getting g e) = true
reads (holding g e) = false
reads (set_waiting g e s) = false
reads (setting g e s) = false
reads (delete_waiting g e) = false
reads (deleting g e) = false
reads (create_waiting g e) = false
reads (creating g e) = false
reads (failing g e) = false
reads (failed g e) = false

-- It has the lock of the map, to write.
unfoldable pub writes : Pc → Bool
writes outside = false
writes (get_waiting g e) = false
writes (getting g e) = false
writes (holding g e) = false
writes (set_waiting g e s) = true
writes (setting g e s) = false
writes (delete_waiting g e) = true
writes (deleting g e) = true
writes (create_waiting g e) = true
writes (creating g e) = false
writes (failing g e) = false
writes (failed g e) = true

unfoldable pub is_holding : Pc → Bool
is_holding outside = false
is_holding (get_waiting g e) = false
is_holding (getting g e) = false
is_holding (holding g e) = true
is_holding (set_waiting g e s) = false
is_holding (setting g e s) = false
is_holding (delete_waiting g e) = false
is_holding (deleting g e) = false
is_holding (create_waiting g e) = false
is_holding (creating g e) = false
is_holding (failing g e) = false
is_holding (failed g e) = false

-- Who works on an entry has its lock or one of the map.
pub target_locked :
    (pc : Pc) (g e : ℕ) → target pc ≡ some (g, e) → (owns pc || reads pc || writes pc) ≡ true
unfolding target owns reads writes
target_locked outside g e h = absurd (cc)
target_locked (get_waiting g' e') g e h = refl
target_locked (getting g' e') g e h = refl
target_locked (holding g' e') g e h = refl
target_locked (set_waiting g' e' s) g e h = refl
target_locked (setting g' e' s) g e h = refl
target_locked (delete_waiting g' e') g e h = refl
target_locked (deleting g' e') g e h = refl
target_locked (create_waiting g' e') g e h = refl
target_locked (creating g' e') g e h = refl
target_locked (failing g' e') g e h = refl
target_locked (failed g' e') g e h = refl

pub is_holding-owns : (pc : Pc) → is_holding pc ≡ true → owns pc ≡ true
unfolding is_holding owns
is_holding-owns outside h = absurd (cc)
is_holding-owns (get_waiting g e) h = absurd (cc)
is_holding-owns (getting g e) h = refl
is_holding-owns (holding g e) h = refl
is_holding-owns (set_waiting g e s) h = absurd (cc)
is_holding-owns (setting g e s) h = refl
is_holding-owns (delete_waiting g e) h = absurd (cc)
is_holding-owns (deleting g e) h = refl
is_holding-owns (create_waiting g e) h = absurd (cc)
is_holding-owns (creating g e) h = refl
is_holding-owns (failing g e) h = refl
is_holding-owns (failed g e) h = refl
