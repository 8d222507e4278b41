-- ===== src/Manager/Turns.antt =====
-- Every turn of a thread keeps the locks in order.
use mathlib.Core.Option.{some-injective}
use fifteen_thirty_one_go.Shared.{
  ==_iff, Bool-cases, List, Option, Option-cases, [], ap, arith, false, inl, inr, none, refl, some,
  sym, true, ℕ, ◌==◌, ◌∙◌, ◌∷◌, ◌≡◌, ◌≢◌, ◌⊎◌,
}
use fifteen_thirty_one_go.Engine.State.{State}
use fifteen_thirty_one_go.Hub.{contains}
use fifteen_thirty_one_go.Manager.{
  Manager, Pc, goes_to, if_free, if_unowned, if_unread, if_unwritten, outside, unlocked,
}
use fifteen_thirty_one_go.Manager.Locks.{
  Fresh-owner, Grants, Grants-at, Grants-outside, Locked, Locked-left,
}
use fifteen_thirty_one_go.Manager.Places.{is_holding, owns, reads, target, writes}
use fifteen_thirty_one_go.Store.Games.{update}

pub if_unowned-some :
    (m x m' : Manager) (e : ℕ) → if_unowned m e x ≡ some m' → (m.owner e ≡ none) × (x ≡ m')
if_unowned-some m x m' e h = elim (Option-cases (m.owner e)) [
  | inl f ↦ (f, some-injective x m' (rw (f, if_unowned) at h))
  | inr (u, f) ↦ absurd (ground (arith))
]

pub if_unwritten-some :
    (m x m' : Manager) → if_unwritten m x ≡ some m' → (m.writer ≡ none) × (x ≡ m')
if_unwritten-some m x m' h = elim (Option-cases m.writer) [
  | inl f ↦ (f, some-injective x m' (rw (f, if_unwritten) at h))
  | inr (u, f) ↦ absurd (ground (arith))
]

if_unread-some : (us : List ℕ) (x m' : Manager) → if_unread us x ≡ some m' → (us ≡ []) × (x ≡ m')
if_unread-some [] x m' h = (refl, some-injective x m' h)
if_unread-some (u ∷ us) x m' h = absurd (cc)

pub if_free-some :
    (m x m' : Manager) → if_free m x ≡ some m' → (m.writer ≡ none) × (m.readers ≡ []) × (x ≡ m')
if_free-some m x m' h = elim (Option-cases m.writer) [
  | inl f ↦
      let (unread, is) = if_unread-some m.readers x m' (rw (f, if_free) at h) in (f, unread, is)
  | inr (u, f) ↦ absurd (ground (arith))
]

-- The lock of an entry that is free, or that is t's own, is no other thread's.
pub owner-kept :
    (owner : ℕ → Option ℕ) (t e : ℕ) (v : Option ℕ)
    → (owner e ≡ none) ⊎ (owner e ≡ some t)
    → (u e' : ℕ) → u ≢ t
    → owner e' ≡ some u
    → update owner e v e' ≡ some u
owner-kept owner t e v mine u e' other h = elim (Bool-cases (e == e')) [
  | inl s ↦ absurd (not_mine mine ((==_iff e e').0 s))
  | inr s ↦ rw s h
]
  where
    not_mine : ((owner e ≡ none) ⊎ (owner e ≡ some t)) → e ≡ e' → ⊥
    not_mine (inl f) s = cc (sym f ∙ ap owner s ∙ h)
    not_mine (inr f) s = other (some-injective u t (sym (sym f ∙ ap owner s ∙ h)))

-- So is the state of the entry.
pub states-kept :
    (owner : ℕ → Option ℕ) (states : ℕ → Option State) (t e : ℕ) (v : Option State)
    → owner e ≡ some t
    → (u e' : ℕ) → u ≢ t
    → owner e' ≡ some u
    → states e' ≢ none
    → update states e v e' ≢ none
states-kept owner states t e v mine u e' other h there = elim (Bool-cases (e == e')) [
  | inl s ↦ absurd (other (some-injective u t (sym (sym mine ∙ ap owner ((==_iff e e').0 s) ∙ h))))
  | inr s ↦ rw s there
]

-- A free lock of the map is no other thread's.
pub writer-kept :
    (m : Manager) (t u : ℕ) (v : Option ℕ)
    → (m.writer ≡ none) ⊎ (m.writer ≡ some t)
    → u ≢ t
    → m.writer ≡ some u
    → v ≡ some u
writer-kept m t u v (inl f) other h = absurd (cc)
writer-kept m t u v (inr f) other h = absurd (other (some-injective u t (sym h ∙ f)))

pub release-Locked :
    (m : Manager) (t e : ℕ) → Locked m → m.owner e ≡ some t → Locked (unlocked m t e)
release-Locked m t e h own =
    Locked-left m (unlocked m t e) t outside refl h
      (record {
        maps = λ u g e' other is there. there;
        owners = owner-kept m.owner t e none (inr own);
        readings = λ u other r. r;
        writings = λ u other w. w;
        keeps = λ u e' other o there. there;
      })
      (Grants-outside (unlocked m t e) t) h.apart
      (Fresh-owner m (unlocked m t e) e none h.fresh (λ g e' is. is) refl refl
        (λ u is. absurd (cc)))

-- A move of t that changes no lock.
pub stays-Locked :
    (m : Manager) (t : ℕ) (pc : Pc) → Locked m → Grants m t pc → Locked (goes_to m t pc)
stays-Locked m t pc h own =
    Locked-left m (goes_to m t pc) t pc refl h
      (record {
        maps = λ u g' e' other is there. there;
        owners = λ u e' other o. o;
        readings = λ u other r. r;
        writings = λ u other w. w;
        keeps = λ u e' other o there. there;
      })
      (record {
        in_map = own.in_map;
        owned = own.owned;
        read = own.read;
        written = own.written;
        present = own.present;
      })
      h.apart (record { made = h.fresh.made; taken = h.fresh.taken })

-- The entry's lock is taken, and the lock of the map kept.
pub take-Locked :
    (m : Manager) (t g e : ℕ) (pc : Pc)
    → Locked m
    → m.owner e ≡ none
    → m.games g ≡ some e
    → target pc ≡ some (g, e)
    → is_holding pc ≡ false
    → (reads pc ≡ true → contains t m.readers ≡ true)
    → (writes pc ≡ true → m.writer ≡ some t)
    → Locked (record m { owner = update m.owner e (some t); at = update m.at t pc })
take-Locked m t g e pc h free there here not_held read written =
    let m' : Manager = record m { owner = update m.owner e (some t); at = update m.at t pc } in
    Locked-left m m' t pc refl h
      (record {
        maps = λ u g' e' other is there. there;
        owners = owner-kept m.owner t e (some t) (inl free);
        readings = λ u other r. r;
        writings = λ u other w. w;
        keeps = λ u e' other o there. there;
      })
      (Grants-at m' t pc g e here there (λ own. ground arith) read written (λ held. absurd (cc)))
      h.apart
      (Fresh-owner m m' e (some t) h.fresh (λ g e' is. is) refl refl
        (λ u is. h.fresh.made g e there))

-- The entry's lock is taken, and the lock of the map given back.
pub swap-Locked :
    (m : Manager) (t g e : ℕ) (pc : Pc)
    → Locked m
    → m.owner e ≡ none
    → m.writer ≡ some t
    → m.games g ≡ some e
    → target pc ≡ some (g, e)
    → is_holding pc ≡ false
    → reads pc ≡ false
    → writes pc ≡ false
    → Locked (record m { owner = update m.owner e (some t); writer = none; at = update m.at t pc })
swap-Locked m t g e pc h free own there here not_held not_read not_written =
    let m' : Manager = record m {
      owner = update m.owner e (some t);
      writer = none;
      at = update m.at t pc;
    } in
    Locked-left m m' t pc refl h
      (record {
        maps = λ u g' e' other is there. there;
        owners = owner-kept m.owner t e (some t) (inl free);
        readings = λ u other r. r;
        writings = λ u other. writer-kept m t u none (inr own) other;
        keeps = λ u e' other o there. there;
      })
      (Grants-at m' t pc g e here there (λ own. ground arith) (λ r. absurd (cc)) (λ w. absurd (cc))
        (λ held. absurd (cc)))
      (λ u w. absurd (cc))
      (Fresh-owner m m' e (some t) h.fresh (λ g e' is. is) refl refl
        (λ u is. h.fresh.made g e there))

-- The lock of the map is taken to write, by a thread that goes on with an entry of it.
pub begin_write-Locked :
    (m : Manager) (t g e : ℕ) (pc : Pc)
    → Locked m
    → m.writer ≡ none
    → m.readers ≡ []
    → m.games g ≡ some e
    → target pc ≡ some (g, e)
    → (owns pc ≡ true → m.owner e ≡ some t)
    → is_holding pc ≡ false
    → reads pc ≡ false
    → Locked (record m { writer = some t; at = update m.at t pc })
begin_write-Locked m t g e pc h unwritten unread there here owned not_held not_read =
    let m' : Manager = record m { writer = some t; at = update m.at t pc } in
    Locked-left m m' t pc refl h
      (record {
        maps = λ u g' e' other is there. there;
        owners = λ u e' other o. o;
        readings = λ u other r. r;
        writings = λ u other. writer-kept m t u (some t) (inl unwritten) other;
        keeps = λ u e' other o there. there;
      })
      (Grants-at m' t pc g e here there owned (λ r. absurd (cc)) (λ w. refl) (λ held. absurd (cc)))
      (λ u w. unread) (record { made = h.fresh.made; taken = h.fresh.taken })
