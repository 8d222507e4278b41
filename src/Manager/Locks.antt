-- ===== src/Manager/Locks.antt =====
-- Who holds which lock, by where a thread is, and that every turn keeps it so.
use mathlib.Core.Option.{some-injective}
use fifteen_thirty_one_go.Shared.{
  ==_iff, Bool-cases, Option, [], ap, arith, inl, inr, none, some, subst, sym, true, ℕ, ◌<◌, ◌==◌,
  ◌∙◌, ◌≡◌, ◌≢◌,
}
use fifteen_thirty_one_go.Hub.{contains}
use fifteen_thirty_one_go.Manager.{Manager, Pc, outside}
use fifteen_thirty_one_go.Manager.Places.{is_holding, is_holding-owns, owns, reads, target, writes}
use fifteen_thirty_one_go.Store.Games.{update}

-- What a manager guarantees to a thread at a place in its code: the entry it works on is that of the game,
-- the locks it has taken are its own, and what it holds is there.
pub record Grants (m : Manager) (t : ℕ) (pc : Pc) : Type 0 where
  pub in_map : (g e : ℕ) → target pc ≡ some (g, e) → m.games g ≡ some e
  pub owned : (g e : ℕ) → target pc ≡ some (g, e) → owns pc ≡ true → m.owner e ≡ some t
  pub read : reads pc ≡ true → contains t m.readers ≡ true
  pub written : writes pc ≡ true → m.writer ≡ some t
  pub present : (g e : ℕ) → target pc ≡ some (g, e) → is_holding pc ≡ true → m.states e ≢ none

-- Entries are numbered in the order of their creation.
pub record Fresh (m : Manager) : Type 0 where
  pub made : (g e : ℕ) → m.games g ≡ some e → e < m.next_entry
  pub taken : (e u : ℕ) → m.owner e ≡ some u → e < m.next_entry

pub record Locked (m : Manager) : Type 0 where
  pub fresh : Fresh m
  pub grants : (t : ℕ) → Grants m t (m.at t)
  pub apart : (t : ℕ) → m.writer ≡ some t → m.readers ≡ []

pub Fresh-owner :
    (m m' : Manager) (e : ℕ) (v : Option ℕ)
    → Fresh m
    → ((g e' : ℕ) → m'.games g ≡ some e' → m.games g ≡ some e')
    → m'.next_entry ≡ m.next_entry
    → m'.owner ≡ update m.owner e v
    → ((u : ℕ) → v ≡ some u → e < m.next_entry)
    → Fresh m'
Fresh-owner m m' e v f games next owner there = record {
  made = λ g e' is. rw next (f.made g e' (games g e' is));
  taken = λ e' u is. rw next (elim (Bool-cases (e == e')) [
    | inl s ↦
        subst (λ k. k < m.next_entry) ((==_iff e e').0 s)
          (there u (sym (ap (λ o. o e') owner ∙ ground arith) ∙ is))
    | inr s ↦ f.taken e' u (sym (ap (λ o. o e') owner ∙ ground arith) ∙ is)
  ]);
}

-- What a turn of the thread t leaves to the others.
pub record Leaves (m m' : Manager) (t : ℕ) : Type 0 where
  pub maps :
      (u g e : ℕ) → u ≢ t → target (m.at u) ≡ some (g, e) → m.games g ≡ some e → m'.games g ≡ some e
  pub owners : (u e : ℕ) → u ≢ t → m.owner e ≡ some u → m'.owner e ≡ some u
  pub readings : (u : ℕ) → u ≢ t → contains u m.readers ≡ true → contains u m'.readers ≡ true
  pub writings : (u : ℕ) → u ≢ t → m.writer ≡ some u → m'.writer ≡ some u
  pub keeps : (u e : ℕ) → u ≢ t → m.owner e ≡ some u → m.states e ≢ none → m'.states e ≢ none

Grants-left :
    (m m' : Manager) (t u : ℕ) → Leaves m m' t → u ≢ t → Grants m u (m.at u) → Grants m' u (m.at u)
Grants-left m m' t u l other h = record {
  in_map = λ g e is. l.maps u g e other is (h.in_map g e is);
  owned = λ g e is own. l.owners u e other (h.owned g e is own);
  read = λ r. l.readings u other (h.read r);
  written = λ w. l.writings u other (h.written w);
  present = λ g e is held.
      l.keeps u e other (h.owned g e is (is_holding-owns (m.at u) held)) (h.present g e is held);
}

-- A turn of t to pc keeps the locks in order if it leaves the others theirs and grants t what pc needs.
pub Locked-left :
    (m m' : Manager) (t : ℕ) (pc : Pc)
    → m'.at ≡ update m.at t pc
    → Locked m
    → Leaves m m' t
    → Grants m' t pc
    → ((u : ℕ) → m'.writer ≡ some u → m'.readers ≡ [])
    → Fresh m'
    → Locked m'
Locked-left m m' t pc at_is h l own apart fresh = record {
  fresh = fresh;
  grants = λ u. elim (Bool-cases (t == u)) [
    | inl e ↦
        subst (λ v. Grants m' v (m'.at v)) ((==_iff t u).0 e)
          (subst (λ q. Grants m' t q) (sym (ap (λ f. f t) at_is ∙ ground arith)) own)
    | inr e ↦
        let other : u ≢ t = ground arith in
        subst (λ q. Grants m' u q) (sym (ap (λ f. f u) at_is ∙ ground arith))
          (Grants-left m m' t u l other (h.grants u))
  ];
  apart = apart;
}

pub Grants-outside : (m : Manager) (t : ℕ) → Grants m t outside
unfolding target owns reads writes is_holding
Grants-outside m t = record {
  in_map = λ g e is. absurd (cc);
  owned = λ g e is own. absurd (cc);
  read = λ r. absurd (cc);
  written = λ w. absurd (cc);
  present = λ g e is held. absurd (cc);
}

pub Grants-at :
    (m : Manager) (t : ℕ) (pc : Pc) (g e : ℕ)
    → target pc ≡ some (g, e)
    → m.games g ≡ some e
    → (owns pc ≡ true → m.owner e ≡ some t)
    → (reads pc ≡ true → contains t m.readers ≡ true)
    → (writes pc ≡ true → m.writer ≡ some t)
    → (is_holding pc ≡ true → m.states e ≢ none)
    → Grants m t pc
Grants-at m t pc g e here in_map owned read written present =
    let same : (g' e' : ℕ) → target pc ≡ some (g', e') → (g, e) ≡ (g', e') =
      λ g' e' is. some-injective (g, e) (g', e') (sym here ∙ is) in
    record {
      in_map = λ g' e' is. subst (λ p. m.games p.0 ≡ some p.1) (same g' e' is) in_map;
      owned = λ g' e' is own. subst (λ p. m.owner p.1 ≡ some t) (same g' e' is) (owned own);
      read = read;
      written = written;
      present = λ g' e' is held. subst (λ p. m.states p.1 ≢ none) (same g' e' is) (present held);
    }
