-- ===== src/Migrations/Start/Laws.antt =====
-- Which database migrations/env.py changes, and when.
use prd_api_wrapper.Prelude.{
  String, ◌≡◌, refl, sym, ap, ◌∙◌, inl, inr, Bool, true, false, Option, none, some, Bool-cases,
  if◌then◌else◌, str_eq, eq_iff,
}
use prd_api_wrapper.Exec.{Result, ok}
use prd_api_wrapper.Config.{Settings, postgresql_uri, create_database_engine}
use prd_api_wrapper.Migrations.Start.{
  Alembic, offline, online, run_migrations_offline, do_run_migrations, run_async_migrations,
  run_migrations_online, read_file, start,
}
use prd_api_wrapper.Migrations.Start.Outcome.{
  View, Documented, AllOrNothing, quiet_around, quiet_before, quiet_after,
}

some_injective : {a b : String} → some a ≡ some b → a ≡ b
some_injective e = cc

some_none : {A : Type 0} {a : String} → some a ≡ none → A
some_none e = cc

module _ {S E C D : Type 0} (alembic : Alembic S E C) (v : View S E C D) where
  module _ (own url : String) (doc : Documented alembic v) where
    ran_through :
        (s u t t' : S) (r : Result (Unit {0}))
        → (v.configured t ≡ some url → url ≡ own)
        → alembic.run_migrations t ≡ (ok tt, t')
        → v.database url t ≡ v.database url s
        → v.database url u ≡ v.database url t'
        → AllOrNothing alembic v own url s r u
    ran_through s u t t' r only ran before after =
        let through : url ≡ own → AllOrNothing alembic v own url s r u =
          λ same. inr (same, (t, t', ran, before, after)) in
        elim (doc.runs url t) [
          | inl quiet ↦ elim (Bool-cases (str_eq url own)) [
            | inl same ↦ through ((eq_iff url own).0 same)
            | inr other ↦ inl (
              after
                  ∙ ap (λ (o : Result (Unit {0}) × S). v.database url o.1) (sym ran)
                  ∙ quiet
                  ∙ before,
              inr (λ there. cc ((eq_iff url own).1 there)),
            )
          ]
          | inr target ↦ through (only target)
        ]

    in_transaction :
        (s : S)
        → (v.configured s ≡ some url → url ≡ own)
        → let (r, u) = alembic.begin_transaction alembic.run_migrations s in
          AllOrNothing alembic v own url s r u
    in_transaction s only = elim (doc.commits alembic.run_migrations url s) [
      | inl (same, wrong) ↦ inl (same, inl wrong)
      | inr (t, t', ran, conf, before, after) ↦
          ran_through s _ t t' _ (λ target. only (sym conf ∙ target)) ran before after
    ]

    online_lem :
        (c : C) (s : S)
        → v.connection_url c ≡ own
        → AllOrNothing alembic v own url s
            (do_run_migrations alembic c s).0
            (do_run_migrations alembic c s).1
    unfolding do_run_migrations
    online_lem c s there =
        quiet_before alembic v own url (alembic.configure (online alembic c) s) _ s
          (doc.configure-IsQuiet (online alembic c) url s)
          (λ u t e. in_transaction t (λ target.
            some_injective (sym target ∙ doc.configures (online alembic c) s t e ∙ ap some there)))

    offline_lem :
        (s : S)
        → AllOrNothing alembic v own url s
            (run_migrations_offline alembic s).0
            (run_migrations_offline alembic s).1
    unfolding run_migrations_offline
    offline_lem s =
        quiet_before alembic v own url (alembic.get_main_option "sqlalchemy.url" s) _ s
          (doc.get_main_option-IsQuiet "sqlalchemy.url" url s)
          (λ written t e.
            quiet_before alembic v own url (alembic.configure (offline alembic written) t) _ t
              (doc.configure-IsQuiet (offline alembic written) url t)
              (λ u w c. in_transaction w (λ target.
                some_none (sym target ∙ doc.configures (offline alembic written) t w c))))

    connected :
        (e : E) (s : S)
        → v.engine_url e ≡ own
        → AllOrNothing alembic v own url s
            (alembic.connect e (do_run_migrations alembic) s).0
            (alembic.connect e (do_run_migrations alembic) s).1
    connected e s there = elim (doc.connects e (do_run_migrations alembic) url s) [
      | inl (same, wrong) ↦ inl (same, inl wrong)
      | inr (c, t, same, before, after, went) ↦
          quiet_around alembic v own url s t _ _ _ _ before after went
            (online_lem c t (same ∙ there))
    ]

    async_lem :
        (s : S)
        → v.option s ≡ some own
        → AllOrNothing alembic v own url s
            (run_async_migrations alembic s).0
            (run_async_migrations alembic s).1
    unfolding run_async_migrations
    async_lem s known =
        quiet_before alembic v own url (alembic.get_section s) _ s (doc.get_section-IsQuiet url s)
          (λ d t read.
            quiet_before alembic v own url (alembic.async_engine_from_config d t) _ t
              (doc.engine-IsQuiet d url t)
              (λ e w made.
                quiet_after alembic v own url (alembic.connect e (do_run_migrations alembic) w) _ w
                  (connected e w
                    (some_injective (sym (doc.builds d e t w made) ∙ doc.reads d s t read ∙ known)))
                  (doc.dispose-IsQuiet e url)))

    mode_lem :
        (off : Bool) (s : S)
        → v.option s ≡ some own
        → let o =
            if off then run_migrations_offline alembic s else run_migrations_online alembic s in
          AllOrNothing alembic v own url s o.0 o.1
    mode_lem true s known = offline_lem s
    mode_lem false s known = async_lem s known

    file_quiet :
        (name : Option String) (s : S)
        → v.database url (read_file alembic name s).1 ≡ v.database url s
    file_quiet none s = refl
    file_quiet (some name) s = doc.file_config-IsQuiet name url s

  -- A start of the scripts changes no database but the one that the service uses with the same
  -- settings, and that one only if all scripts run on it to their end: it then has the contents that
  -- they leave. If they have not run, an exception is raised. It is assumed that the calls of Alembic
  -- and SQLAlchemy do what `Documented` says, and that the parser of the options reads the connection
  -- string back as it was written.
  pub start-AllOrNothing :
      Documented alembic v
      → (settings : Settings) (url : String) (s : S)
      → v.interpolated (postgresql_uri settings) ≡ some (postgresql_uri settings)
      → AllOrNothing alembic v
          (create_database_engine settings).url
          url
          s
          (start alembic settings s).0
          (start alembic settings s).1
  unfolding start create_database_engine
  start-AllOrNothing doc settings url s plain =
      let own = postgresql_uri settings in
      quiet_before alembic v own url (read_file alembic alembic.config_file_name s) _ s
        (file_quiet own url doc alembic.config_file_name s)
        (λ u t e.
          quiet_before alembic v own url (alembic.set_main_option "sqlalchemy.url" own t) _ t
            (doc.set_main_option-IsQuiet "sqlalchemy.url" own url t)
            (λ u' w e'.
              mode_lem own url doc alembic.is_offline_mode w (doc.sets own t w e' ∙ plain)))
