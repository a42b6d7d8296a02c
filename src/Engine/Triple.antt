-- ===== src/Engine/Triple.antt =====
-- Conditions before and after the actions of the engine of apps/api/src/sync/sync-engine.service.ts.
use newport_ms.Base.{String, Bool, true, false, Option, none, some, if◌then◌else◌}
use newport_ms.Engine.Database.{
  choose_refusal, done, failed, resume, tried, Statement, finished, ignoring, ◌>>=◌, Action,
  Attempt, Postgres, Database,
}

-- What an attempt leaves: one condition if it finished, another if it failed.
abbrev pub Leaves :
    {A : Type 0} → (A → Database → Type 0) → (Database → Type 0) → Attempt A → Type 0
Leaves Q F (finished a db) = Q a db
Leaves Q F (failed e db) = F db

abbrev pub Triple :
    {A : Type 0}
    → (Database → Type 0)
    → Action A
    → (A → Database → Type 0)
    → (Database → Type 0)
    → Type 0
Triple I m Q F = (db : Database) → I db → Leaves Q F (m db)

pub bind-Triple :
    {A B : Type 0} (I F : Database → Type 0) (J : A → Database → Type 0) (Q : B → Database → Type 0)
    (m : Action A) (f : A → Action B)
    → Triple I m J F
    → ((a : A) → Triple (J a) (f a) Q F)
    → Triple I (m >>= f) Q F
bind-Triple I F J Q m f h k db i = go (m db) (h db i)
  where
    go : (t : Attempt _) → Leaves J F t → Leaves Q F (resume t f)
    go (finished a d) l = k a d l
    go (failed e d) l = l

pub tried-Triple :
    {A : Type 0} (I F : Database → Type 0) (Q : A → Database → Type 0) (pg : Postgres)
    (st : Statement) (act : Action A)
    → ((db : Database) → I db → F db)
    → Triple I act Q F
    → Triple I (tried pg st act) Q F
tried-Triple I F Q pg st act w h db i = go (pg.refuses st db)
  where
    go : (o : Option String) → Leaves Q F (choose_refusal o act db)
    go none = h db i
    go (some e) = w db i

pub ignoring-Triple :
    (I F : Database → Type 0) (act : Action (Unit {0}))
    → Triple I act (λ u. I) I
    → Triple I (ignoring act) (λ u. I) F
ignoring-Triple I F act h db i = go (act db) (h db i)
  where
    go : (t : Attempt (Unit {0})) → Leaves (λ u. I) I t → Leaves (λ u. I) F (done t)
    go (finished u d) l = l
    go (failed e d) l = l

pub if-Triple :
    {A : Type 0} (I F : Database → Type 0) (Q : A → Database → Type 0) (b : Bool) (m n : Action A)
    → Triple I m Q F
    → Triple I n Q F
    → Triple I (if b then m else n) Q F
if-Triple I F Q true m n h k = h
if-Triple I F Q false m n h k = k
