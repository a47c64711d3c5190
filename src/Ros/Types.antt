-- ===== src/Ros/Types.antt =====
-- The requests of fogrs-ros/src/lib.rs.
use rt_fogros.Prelude.{ℕ, Text, Bool, true, false, List}

pub data TopicManagerAction : Type 0 where
  add pause pause_add resume delete response : TopicManagerAction

pub record TopicManagerRequest : Type 0 where
  pub action : TopicManagerAction
  pub topic_name : Text
  pub topic_type : Text
  pub certificate : List ℕ

-- `action == TopicManagerAction::ADD`
abbrev pub is_add : TopicManagerAction → Bool
is_add add = true
is_add _ = false
