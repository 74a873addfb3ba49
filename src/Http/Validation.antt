-- ===== src/Http/Validation.antt =====
-- What parseCreate of internal/httpapi/handlers.go lets through, against the CHECK constraints of
-- the tickets' table.
use projet_etude_app_demo.Prelude.{ℕ, ◌≤◌, ◌≡◌, ◌≢◌, true, Bytes, [], ◌∷◌, length}
use projet_etude_app_demo.Model.{Priority}
use projet_etude_app_demo.Request.{Request}
use projet_etude_app_demo.Store.Db.{title_check, priority_check, is_rune_start}
use projet_etude_app_demo.Store.Exec.{Result, ok, err}

-- UTF-8 text is empty, or its first byte begins a character.
abbrev pub BeginsRune : Bytes → Type 0
BeginsRune s = (c : ℕ) (rest : Bytes) → s ≡ c ∷ rest → is_rune_start c ≡ true

-- What the INSERT of a ticket needs of a title and a priority, and the bound on the bytes.
pub record IsInsertable (title : Bytes) (priority : Priority) : Type 0 where
  pub some_title : title ≢ []
  pub short_title : length title ≤ 200
  pub title_checked : BeginsRune title → title_check title ≡ true
  pub priority_checked : priority_check priority ≡ true

abbrev IsSoundAnswer : Result (Bytes × Bytes × Priority) → Type 0
IsSoundAnswer (ok (title, description, priority)) = IsInsertable title priority
IsSoundAnswer (err e) = Unit {0}
