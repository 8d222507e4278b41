-- ===== src/Manager/Preserved.antt =====
-- Every turn of every thread keeps the locks in order.
-- The grants of a thread at a place that is known.
use mathlib.Core.Option.{some-injective}
use fifteen_thirty_one_go.Shared.{none, refl, some, subst, true, ℕ, ◌≡◌}
use fifteen_thirty_one_go.Manager.{
  Action, Manager, Pc, advance, create_waiting, creating, delete_waiting, deleting, dropped, failed,
  failing, get_checked, get_waiting, getting, held, holding, outside, set_waiting, setting, turn_at,
  unlocked,
}
use fifteen_thirty_one_go.Manager.Endings.{put-Locked, remove-Locked}
use fifteen_thirty_one_go.Manager.Locks.{Grants, Locked}
use fifteen_thirty_one_go.Manager.Parts.{
  Works, begin-Locked, dropped-Locked, get_checked-Locked, get_or_create-Locked, held-Locked,
}
use fifteen_thirty_one_go.Manager.Places.{is_holding, owns, reads, target, writes}
use fifteen_thirty_one_go.Manager.Turns.{
  begin_write-Locked, if_free-some, if_unowned-some, release-Locked, states-kept, swap-Locked,
  take-Locked,
}
use fifteen_thirty_one_go.Store.Games.{update}

pub granted : (m : Manager) (t : ℕ) (pc : Pc) → m.at t ≡ pc → Locked m → Grants m t pc
granted m t pc is h = subst (λ q. Grants m t q) is (h.grants t)

works :
    (m : Manager) (t g e : ℕ) (pc : Pc)
    → Grants m t pc
    → target pc ≡ some (g, e)
    → owns pc ≡ true
    → Works m t g e
works m t g e pc q here own = record { in_map = q.in_map g e here; owned = q.owned g e here own }

turn_at-Locked :
    (m m' : Manager) (t : ℕ) (pc : Pc) (a : Action)
    → m.at t ≡ pc
    → Locked m
    → turn_at m t pc a ≡ some m'
    → Locked m'
unfolding turn_at target owns reads writes is_holding
turn_at-Locked m m' t outside a at h e = begin-Locked m m' t a h e
turn_at-Locked m m' t (get_waiting g n) a at h e =
    let q = granted m t (get_waiting g n) at h in
    let (free, is) = if_unowned-some m _ m' n e in
    subst Locked is (
      take-Locked m t g n (getting g n) h free (q.in_map g n refl) refl refl q.read
        (λ w. absurd (cc)))
turn_at-Locked m m' t (getting g n) a at h e =
    let q = granted m t (getting g n) at h in
    subst Locked (some-injective (get_checked m t g n) m' e)
      (get_checked-Locked m t g n h (works m t g n (getting g n) q refl refl))
turn_at-Locked m m' t (holding g n) a at h e =
    let q = granted m t (holding g n) at h in
    subst Locked (some-injective (held m t n a) m' e)
      (held-Locked m t g n a h (works m t g n (holding g n) q refl refl))
turn_at-Locked m m' t (set_waiting g n s) a at h e =
    let q = granted m t (set_waiting g n s) at h in
    let (free, is) = if_unowned-some m _ m' n e in
    subst Locked is (
      swap-Locked m t g n (setting g n s) h free (q.written refl) (q.in_map g n refl) refl refl refl
        refl)
turn_at-Locked m m' t (setting g n s) a at h e =
    let q = granted m t (setting g n s) at h in
    let put : Manager = record m { states = update m.states n (some s) } in
    let mine = (works m t g n (setting g n s) q refl refl).owned in
    subst Locked (some-injective (unlocked put t n) m' e)
      (release-Locked put t n (put-Locked m t n s h mine) mine)
turn_at-Locked m m' t (delete_waiting g n) a at h e =
    let q = granted m t (delete_waiting g n) at h in
    let (free, is) = if_unowned-some m _ m' n e in
    subst Locked is (
      take-Locked m t g n (deleting g n) h free (q.in_map g n refl) refl refl (λ r. absurd (cc))
        q.written)
turn_at-Locked m m' t (deleting g n) a at h e =
    let q = granted m t (deleting g n) at h in
    let w = works m t g n (deleting g n) q refl refl in
    subst Locked (some-injective _ m' e) (
      remove-Locked m t g n (update m.states n none) h (q.written refl) w.owned w.in_map
        (states-kept m.owner m.states t n none w.owned))
turn_at-Locked m m' t (create_waiting g n) a at h e =
    let q = granted m t (create_waiting g n) at h in
    let (free, is) = if_unowned-some m _ m' n e in
    subst Locked is (
      swap-Locked m t g n (creating g n) h free (q.written refl) (q.in_map g n refl) refl refl refl
        refl)
turn_at-Locked m m' t (creating g n) a at h e =
    let q = granted m t (creating g n) at h in
    get_or_create-Locked m m' t g n a h (works m t g n (creating g n) q refl refl) e
turn_at-Locked m m' t (failing g n) a at h e =
    let q = granted m t (failing g n) at h in
    let (unwritten, unread, is) = if_free-some m _ m' e in
    let w = works m t g n (failing g n) q refl refl in
    subst Locked is (
      begin_write-Locked m t g n (failed g n) h unwritten unread w.in_map refl (λ own. w.owned) refl
        refl)
turn_at-Locked m m' t (failed g n) a at h e =
    let q = granted m t (failed g n) at h in
    subst Locked (some-injective (dropped m t g n) m' e)
      (dropped-Locked m t g n h (works m t g n (failed g n) q refl refl) (q.written refl))

pub advance-Locked :
    (m m' : Manager) (t : ℕ) (a : Action) → Locked m → advance m t a ≡ some m' → Locked m'
unfolding advance
advance-Locked m m' t a h e = turn_at-Locked m m' t (m.at t) a refl h e
