-- ===== src/Migrations/Start/Outcome.antt =====
-- What Alembic and SQLAlchemy promise to migrations/env.py, and what a start may do to a database.
use prd_api_wrapper.Prelude.{String, ◌≡◌, refl, ◌≢◌, ◌∙◌, ◌⊎◌, inl, inr, Option, none, some}
use prd_api_wrapper.Prelude.Dict.{Dict, lookup}
use prd_api_wrapper.Errors.Handlers.{Raised}
use prd_api_wrapper.Exec.{Result, ok, raised, Exec, continue}
use prd_api_wrapper.Migrations.Start.{Configuration, Alembic}

-- What is seen of the state: the contents of the database at each URL, the URL of the connection
-- that the context is configured with, and the option `sqlalchemy.url` as the parser reads it.
pub record View (S E C D : Type 0) : Type 0 where
  pub database : String → S → D
  pub configured : S → Option String
  pub option : S → Option String
  pub engine_url : E → String
  pub connection_url : C → String
  -- What the parser of the options reads of a value that was written, with its `%` interpolated.
  pub interpolated : String → Option String

abbrev pub url_of : {S E C D : Type 0} → View S E C D → Option C → Option String
url_of v none = none
url_of v (some c) = some (v.connection_url c)

abbrev pub IsRaised : Result (Unit {0}) → Type 0
IsRaised r = (x : Raised) × (r ≡ raised x)

module _ {S E C D : Type 0} (alembic : Alembic S E C) (v : View S E C D) where
  -- A call that changes no database.
  abbrev pub IsQuiet : {A : Type 0} → Exec S A → Type 0
  IsQuiet call = (url : String) (s : S) → v.database url (call s).1 ≡ v.database url s

  -- What the libraries promise of the calls.
  pub record Documented : Type 0 where
    pub file_config-IsQuiet : (name : String) → IsQuiet (alembic.file_config name)
    pub set_main_option-IsQuiet : (k value : String) → IsQuiet (alembic.set_main_option k value)
    pub get_main_option-IsQuiet : (k : String) → IsQuiet (alembic.get_main_option k)
    pub get_section-IsQuiet : IsQuiet alembic.get_section
    pub engine-IsQuiet : (d : Dict String) → IsQuiet (alembic.async_engine_from_config d)
    pub dispose-IsQuiet : (e : E) → IsQuiet (alembic.dispose e)
    pub configure-IsQuiet : (c : Configuration C) → IsQuiet (alembic.configure c)
    pub sets :
        (value : String) (s t : S)
        → alembic.set_main_option "sqlalchemy.url" value s ≡ (ok tt, t)
        → v.option t ≡ v.interpolated value
    pub reads :
        (d : Dict String) (s t : S)
        → alembic.get_section s ≡ (ok d, t)
        → lookup "sqlalchemy.url" d ≡ v.option s
    pub builds :
        (d : Dict String) (e : E) (s t : S)
        → alembic.async_engine_from_config d s ≡ (ok e, t)
        → lookup "sqlalchemy.url" d ≡ some (v.engine_url e)
    pub configures :
        (c : Configuration C) (s t : S)
        → alembic.configure c s ≡ (ok tt, t)
        → v.configured t ≡ url_of v c.connection
    -- The body has run on a connection of the engine, or an exception was raised and no database has
    -- changed. What the body raises is raised.
    pub connects :
        (e : E) (body : C → Exec S (Unit {0})) (url : String) (s : S)
        → let (r, u) = alembic.connect e body s in
          ((v.database url u ≡ v.database url s) × IsRaised r)
          ⊎ ((c : C) × (t : S) × (v.connection_url c ≡ v.engine_url e)
              × (v.database url t ≡ v.database url s)
              × (v.database url u ≡ v.database url (body c t).1)
              × (IsRaised (body c t).0 → IsRaised r))
    -- The body has run to its end and is committed, or an exception was raised and no database has
    -- changed.
    pub commits :
        (body : Exec S (Unit {0})) (url : String) (s : S)
        → let (r, u) = alembic.begin_transaction body s in
          ((v.database url u ≡ v.database url s) × IsRaised r)
          ⊎ ((t t' : S) × (body t ≡ (ok tt, t'))
              × (v.configured t ≡ v.configured s)
              × (v.database url t ≡ v.database url s)
              × (v.database url u ≡ v.database url t'))
    -- The scripts change no database but that of the connection.
    pub runs :
        (url : String) (s : S)
        → (v.database url (alembic.run_migrations s).1 ≡ v.database url s)
          ⊎ (v.configured s ≡ some url)

  -- From the first state to the second, the database is as it was, and something was raised or its
  -- URL is not `own`; or its URL is `own`, and all scripts have run to their end.
  abbrev pub AllOrNothing : String → String → S → Result (Unit {0}) → S → Type 0
  AllOrNothing own url s r u =
      ((v.database url u ≡ v.database url s) × (IsRaised r ⊎ (url ≢ own)))
      ⊎ ((url ≡ own)
          × ((t t' : S) × (alembic.run_migrations t ≡ (ok tt, t'))
              × (v.database url t ≡ v.database url s)
              × (v.database url u ≡ v.database url t')))

  module _ (own url : String) where
    pub quiet_around :
        (s t u w : S) (r r' : Result (Unit {0}))
        → v.database url t ≡ v.database url s
        → v.database url w ≡ v.database url u
        → (IsRaised r → IsRaised r')
        → AllOrNothing own url t r u
        → AllOrNothing own url s r' w
    quiet_around s t u w r r' before after went (inl (same, inl wrong)) =
        inl (after ∙ same ∙ before, inl (went wrong))
    quiet_around s t u w r r' before after went (inl (same, inr other)) =
        inl (after ∙ same ∙ before, inr other)
    quiet_around s t u w r r' before after went (inr (there, (x, x', ran, first, last))) =
        inr (there, (x, x', ran, first ∙ before, after ∙ last))

    -- What follows a call that changes no database.
    pub quiet_before :
        {A : Type 0} (o : Result A × S) (rest : A → Exec S (Unit {0})) (s : S)
        → v.database url o.1 ≡ v.database url s
        → ((a : A) (t : S) → o ≡ (ok a, t) → AllOrNothing own url t (rest a t).0 (rest a t).1)
        → let p = continue o.0 rest o.1 in AllOrNothing own url s p.0 p.1
    quiet_before (ok a, t) rest s same then_ =
        quiet_around s t _ _ _ _ same refl (λ wrong. wrong) (then_ a t refl)
    quiet_before (raised e, t) rest s same then_ = inl (same, inl (e, refl))

    -- Such a call last.
    pub quiet_after :
        (o : Result (Unit {0}) × S) (rest : Unit {0} → Exec S (Unit {0})) (s : S)
        → AllOrNothing own url s o.0 o.1
        → ((t : S) → v.database url (rest tt t).1 ≡ v.database url t)
        → let p = continue o.0 rest o.1 in AllOrNothing own url s p.0 p.1
    quiet_after (ok _, t) rest s h quiet =
        quiet_around s s t _ (ok tt) _ refl (quiet t) (λ (e, wrong). cc) h
    quiet_after (raised e, t) rest s h quiet = h
