-- ===== src/Domain/Project.antt =====
-- crates/core/src/project.rs: projects.
use sdi_plugin.Prelude.{String, Bool, Option, List, [], ◌∷◌}
use sdi_plugin.Domain.Ids.{EntityId, Timestamp}

abbrev pub default_wiki_paths : List String
default_wiki_paths = "docs" ∷ []

pub record Project : Type 0 where
  pub id : EntityId
  pub key : String
  pub name : String
  pub slug : String
  pub cwds : List String
  pub description : Option String
  pub enabled : Bool
  pub wiki_paths : List String
  pub created_at : Timestamp
  pub updated_at : Timestamp
