-- ===== src/Agent.antt =====
-- The agent that runs on a hardware: what it is asked over HTTP, and what it answers with
-- (pkg/agent/action/types.go, pkg/agent/action/image.go).
pub mod Answers
pub mod Disk
pub mod Http
pub mod Manager
pub mod Server
mod Tests
use kube_baremetal.Prelude.{String, Bool}

-- `Type`, a text.
abbrev pub imaging_action_type : String
imaging_action_type = "Imaging"

abbrev pub cleaning_action_type : String
cleaning_action_type = "Cleaning"

pub record Status : Type 0 where
  pub type : String
  pub is_done : Bool
  pub error : String

pub record ImageRequest : Type 0 where
  pub image_url : String
  pub disk_path : String
  pub metadata_contents : String
  pub network_data_contents : String
  pub user_data_contents : String

-- The requests to the agent at an address.
pub data Call : Type 0 where
  get_status post_clean : String → Call
  post_image : String → ImageRequest → Call
