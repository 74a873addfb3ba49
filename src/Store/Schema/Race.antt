-- ===== src/Store/Schema/Race.antt =====
-- Two processes that run Migrate of internal/store/store.go at once, as cmd/api/main.go and
-- cmd/worker/main.go do when they start together.
use projet_etude_app_demo.Prelude.{◌≡◌, refl, List, [], ◌∷◌, ◌++◌}
use projet_etude_app_demo.Store.Exec.{ok, err}
use projet_etude_app_demo.Store.Schema.{Ddl, Catalog, trigger_exists, run_ddl, migrations}
use projet_etude_app_demo.Store.Schema.Recovery.{complete, run_all}

-- A list whose elements are those of two lists, each in its order.
pub data Interleaving {A : Type 0} : List A → List A → List A → Type 0 where
  neither : Interleaving [] [] []
  first : (x : A) (xs ys zs : List A) → Interleaving xs ys zs → Interleaving (x ∷ xs) ys (x ∷ zs)
  second : (y : A) (xs ys zs : List A) → Interleaving xs ys zs → Interleaving xs (y ∷ ys) (y ∷ zs)

all_first : {A : Type 0} (xs ys : List A) → Interleaving [] ys ys → Interleaving xs ys (xs ++ ys)
all_first [] ys i = i
all_first (x ∷ xs) ys i = first x xs ys (xs ++ ys) (all_first xs ys i)

all_second : {A : Type 0} (ys : List A) → Interleaving [] ys ys
all_second [] = neither
all_second (y ∷ ys) = second y [] ys ys (all_second ys)

-- The statements in step: each of the list twice.
unfoldable pub in_step : {A : Type 0} → List A → List A
in_step [] = []
in_step (x ∷ xs) = x ∷ x ∷ in_step xs

in_step-Interleaving : {A : Type 0} (xs : List A) → Interleaving xs xs (in_step xs)
unfolding in_step
in_step-Interleaving [] = neither
in_step-Interleaving (x ∷ xs) = first x xs (x ∷ xs) _ (second x xs xs _ (in_step-Interleaving xs))

-- From every catalog, two processes that run the migrations at once have an order of their
-- statements in which all succeed and every object is in place, and one in which a CREATE TRIGGER
-- fails because the trigger is there already.
pub racing_migrations :
    (c : Catalog)
    → ((zs : List Ddl) × Interleaving migrations migrations zs × (run_all zs c ≡ ok complete))
      × ((zs : List Ddl) × Interleaving migrations migrations zs
          × (run_all zs c ≡ err trigger_exists))
unfolding run_all run_ddl migrations in_step
racing_migrations c = (
  (migrations ++ migrations, all_first migrations migrations (all_second migrations), refl),
  (in_step migrations, in_step-Interleaving migrations, refl),
)
