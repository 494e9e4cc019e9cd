-- ===== src/Api/Requests.antt =====
-- The requests and the list responses.
use opi_nvidia_bridge.Base.{ℤ, String, Bool, Option, List}
use opi_nvidia_bridge.Api.Messages.{Kind, Message}

pub record CreateRequest (k : Kind) : Type 0 where
  pub resource : Option (Message k)
  pub resource_id : String

-- Controllers and namespaces are created under a subsystem.
pub record CreateChildRequest (k : Kind) : Type 0 where
  pub parent : String
  pub resource : Option (Message k)
  pub resource_id : String

pub record DeleteRequest : Type 0 where
  pub name : String
  pub allow_missing : Bool

-- `update_mask` is a `*fieldmaskpb.FieldMask`, by its paths.
pub record UpdateRequest (k : Kind) : Type 0 where
  pub resource : Option (Message k)
  pub update_mask : Option (List String)
  pub allow_missing : Bool

pub record ListRequest : Type 0 where
  pub page_size : ℤ
  pub page_token : String

pub record ListChildrenRequest : Type 0 where
  pub parent : String
  pub page_size : ℤ
  pub page_token : String

pub record GetRequest : Type 0 where
  pub name : String

pub record StatsRequest : Type 0 where
  pub name : String

-- The items are pointers: a nil one is `none`.
pub record ListResponse (k : Kind) : Type 0 where
  pub items : List (Option (Message k))
  pub next_page_token : String

-- All requests of the two services, by their kind of resource.
pub data Request : Type 0 where
  create : (k : Kind) → CreateRequest k → Request
  create_child : (k : Kind) → CreateChildRequest k → Request
  delete : Kind → DeleteRequest → Request
  update : (k : Kind) → UpdateRequest k → Request
  list : Kind → ListRequest → Request
  list_children : Kind → ListChildrenRequest → Request
  get : Kind → GetRequest → Request
  stats : Kind → StatsRequest → Request
