-- ===== src/Database/Migrated.antt =====
-- Migrating is done once: a second run finds everything applied, also one after a run that failed on its way
-- keeps what had been applied.
use mathlib.Core.Option.{some-injective}
use fifteen_thirty_one_go.Shared.{
  Bool, Bool-cases, List, Option, Option-cases, [], ap, arith, inl, inr, refl, some, subst, sym,
  true, ◌++◌, ◌∷◌, ◌≡◌,
}
use fifteen_thirty_one_go.Cards.Text.{Text, text_eq}
use fifteen_thirty_one_go.Database.Migrate.{
  Database, exec_sql_script, is_applied, migrate, migrate_file, migrate_loop,
}

pub text_eq_refl : (t : Text) → text_eq t t ≡ true
text_eq_refl [] = refl
text_eq_refl (c ∷ cs) = ground (arith, text_eq_refl cs)

is_applied-append :
    (v : Text) (xs ys : List Text) → is_applied v xs ≡ true → is_applied v (xs ++ ys) ≡ true
unfolding is_applied
is_applied-append v [] ys h = absurd (cc)
is_applied-append v (x ∷ xs) ys h = ground (arith, is_applied-append v xs ys)

is_applied-last : (v : Text) (xs : List Text) → is_applied v (xs ++ v ∷ []) ≡ true
unfolding is_applied
is_applied-last v [] = rw (text_eq_refl v) refl
is_applied-last v (x ∷ xs) = ground (arith, is_applied-last v xs)

-- Every version of the files is recorded.
abbrev pub AllApplied : List Text → List (Text × Text) → Type 0
AllApplied applied [] = Unit
AllApplied applied (file ∷ files) = (is_applied file.0 applied ≡ true) × AllApplied applied files

module _ {Schema : Type 0} (exec : Schema → Text → Option Schema) where
  migrate_file-applied :
      (db db' : Database Schema) (file : Text × Text)
      → migrate_file exec db file ≡ some db'
      → db'.applied ≡ db.applied ++ file.0 ∷ []
  unfolding migrate_file
  migrate_file-applied db db' (version, body) e =
      elim (Option-cases (exec_sql_script exec db.schema body)) [
        | inl f ↦ absurd (cc (rw (f, migrate_file) at e))
        | inr (s, f) ↦
            ap (λ (d : Database Schema). d.applied)
              (sym (
                some-injective (record { schema = s; applied = db.applied ++ version ∷ [] }) db'
                  (rw (f, migrate_file) at e)))
      ]

  -- What was recorded stays recorded, whether the run goes well or not.
  migrate_loop-keeps :
      (loaded : List Text) (files : List (Text × Text)) (db : Database Schema) (v : Text)
      → is_applied v db.applied ≡ true
      → is_applied v (migrate_loop exec loaded db files).0.applied ≡ true
  unfolding migrate_loop
  migrate_loop-keeps loaded [] db v h = h
  migrate_loop-keeps loaded (file ∷ files) db v h = elim (Bool-cases (is_applied file.0 loaded)) [
    | inl e ↦ rw (e, migrate_loop) (migrate_loop-keeps loaded files db v h)
    | inr e ↦ elim (Option-cases (migrate_file exec db file)) [
      | inl f ↦ rw (e, migrate_loop, f) h
      | inr (db', f) ↦
          rw (e, migrate_loop, f)
            (migrate_loop-keeps loaded files db' v (
              subst (λ a. is_applied v a ≡ true) (sym (migrate_file-applied db db' file f))
                (is_applied-append v db.applied (file.0 ∷ []) h)))
    ]
  ]

  migrate_loop-all :
      (loaded : List Text) (files : List (Text × Text)) (db db' : Database Schema)
      → ((v : Text) → is_applied v loaded ≡ true → is_applied v db.applied ≡ true)
      → migrate_loop exec loaded db files ≡ (db', true)
      → AllApplied db'.applied files
  unfolding migrate_loop
  migrate_loop-all loaded [] db db' h e = tt
  migrate_loop-all loaded (file ∷ files) db db' h e = elim (Bool-cases (is_applied file.0 loaded)) [
    | inl there ↦
        let rest = rw (there, migrate_loop) at e in
        (
          subst (λ (r : Database Schema × Bool). is_applied file.0 r.0.applied ≡ true) rest
              (migrate_loop-keeps loaded files db file.0 (h file.0 there)),
          migrate_loop-all loaded files db db' h rest,
        )
    | inr new ↦ elim (Option-cases (migrate_file exec db file)) [
      | inl f ↦
          absurd (cc (ap (λ (r : Database Schema × Bool). r.1) (rw (new, migrate_loop, f) at e)))
      | inr (db1, f) ↦
          let rest = rw (new, migrate_loop, f) at e in
          let recorded = migrate_file-applied db db1 file f in
          let last : is_applied file.0 db1.applied ≡ true =
            subst (λ a. is_applied file.0 a ≡ true) (sym recorded)
              (is_applied-last file.0 db.applied) in
          (
            subst (λ (r : Database Schema × Bool). is_applied file.0 r.0.applied ≡ true) rest
                (migrate_loop-keeps loaded files db1 file.0 last),
            migrate_loop-all loaded files db1 db'
                (λ v i.
                  subst (λ a. is_applied v a ≡ true) (sym recorded)
                    (is_applied-append v db.applied (file.0 ∷ []) (h v i)))
                rest,
          )
    ]
  ]

  migrate_loop-skips :
      (loaded : List Text) (files : List (Text × Text)) (db : Database Schema)
      → AllApplied loaded files
      → migrate_loop exec loaded db files ≡ (db, true)
  unfolding migrate_loop
  migrate_loop-skips loaded [] db h = refl
  migrate_loop-skips loaded (file ∷ files) db h =
      rw (h.0, migrate_loop) (migrate_loop-skips loaded files db h.1)

  -- After a run of the migrations that went well every file is recorded, and a second run changes nothing and
  -- goes well, whatever SQLite would do with the scripts.
  pub migrate_again :
      (db db' : Database Schema) (files : List (Text × Text))
      → migrate exec db files ≡ (db', true)
      → AllApplied db'.applied files × (migrate exec db' files ≡ (db', true))
  unfolding migrate
  migrate_again db db' files e =
      let all = migrate_loop-all db.applied files db db' (λ v i. i) e in
      (all, migrate_loop-skips db'.applied files db' all)
